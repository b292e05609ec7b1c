-- ===== src/TransactionValidator/Accepts.antt =====
-- What the validator accepts.
use entangled.Prelude.{
  ℕ, ◌+◌, ◌*◌, ◌%◌, ◌≡◌, ◌≤◌, ◌⊎◌, refl, inl, inr, Bool, true, false, arith, ◌==◌, ◌&&◌, not,
  if◌then◌else◌, ltb, Bool-cases, ◌∷◌,
}
use entangled.Prelude.Word.{u64_mod}
use entangled.Snapshot.{has_solid_entry_point}
use entangled.HashSet.{HashSet}
use entangled.HashSet.Laws.{Distinct}
use entangled.Requester.{Requester, was_requested, get_transaction_to_request}
use entangled.Requester.Queue.{take-oldest}
use entangled.Transaction.{Transaction}
use entangled.Bundle.{last_trit_set}
use entangled.Bundle.Supply.{InSupply}
use entangled.TransactionValidator.{
  TransactionValidator, max_timestamp_future_ms, timestamp_ms, has_invalid_timestamp,
}

-- A time neither far in the future nor before the snapshot; what was requested, the solid entry
-- points and the genesis may be older.
pub InTime : TransactionValidator → ℕ → Transaction → Type 0
InTime tv now tx =
    (was_requested tv.requester tx.hash ≡ true)
    ⊎ ((timestamp_ms tx ≤ (now + max_timestamp_future_ms) % u64_mod)
        × ((tv.initial_snapshot.metadata.timestamp * 1000 % u64_mod ≤ timestamp_ms tx)
            ⊎ (has_solid_entry_point tv.initial_snapshot tx.hash ≡ true)
            ⊎ (tx.hash ≡ tv.genesis_hash)))

timely :
    (r s : Bool) (t limit least h g : ℕ)
    → (if r
        then false
        else if ltb limit t
        then true
        else if ltb t least && not s
        then not (h == g)
        else false)
      ≡ false
    → (r ≡ true) ⊎ ((t ≤ limit) × ((least ≤ t) ⊎ (s ≡ true) ⊎ (h ≡ g)))
timely true s t limit least h g e = inl refl
timely false true t limit least h g e = inr (ground arith, inr (inl refl))
timely false false t limit least h g e = elim (Bool-cases (ltb t least)) [
  | inl y ↦ inr (ground arith, inr (inr (ground arith)))
  | inr n ↦ inr (ground arith, inl (ground arith))
]

-- What is asked of a transaction: its weight, its time, its value and its address.
pub record IsAcceptable (tv : TransactionValidator) (now weight_magnitude : ℕ) (tx : Transaction)
    : Type 0 where
  pub heavy : tv.mwm ≤ weight_magnitude
  pub timely : InTime tv now tx
  pub value_bounded : InSupply tx.value
  pub address_trit : (tx.value ≡ 0) ⊎ (last_trit_set tx.address ≡ false)

-- A hash at the head of a queue that lists none twice, once it is given out while memory lasts,
-- is in time, however old or new its transaction is.
pub has_invalid_timestamp-requested :
    (tv : TransactionValidator) (now : ℕ) (tx : Transaction) (rest : HashSet) (r : Requester)
    → r.hashes ≡ tx.hash ∷ rest
    → Distinct r.hashes
    → let r' = (get_transaction_to_request (λ _. true) r).1 in
      has_invalid_timestamp (record tv { requester = r' }) now tx ≡ false
unfolding has_invalid_timestamp
has_invalid_timestamp-requested tv now tx rest r e d =
    let marked : was_requested (get_transaction_to_request (λ _. true) r).1 tx.hash ≡ true =
      ground (arith, (take-oldest tx.hash rest r e d).requested tx.hash) in
    rw marked refl
