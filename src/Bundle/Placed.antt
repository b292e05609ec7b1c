-- ===== src/Bundle/Placed.antt =====
-- What the loop of `bundle_validate` asks of each transaction.
use entangled.Prelude.{
  ℕ, ◌+◌, ◌%◌, ◌≡◌, ◌≢◌, ◌<◌, ◌⊎◌, refl, sym, ◌∙◌, inl, inr, false, [], ◌∷◌, ◌==◌, ◌&&◌, ◌||◌, not,
  arith, if◌then◌else◌, length, Bool-cases,
}
use entangled.Prelude.Word.{u64_mod, add64, gt64, llabs}
use entangled.Transaction.{
  Transaction, BundleStatus, not_initialized, valid, empty, incomplete, invalid_tx,
  invalid_input_address, invalid_value, invalid_hash, invalid_signature,
}
use entangled.Bundle.Supply.{InSupply, passes-InSupply, InSupply-passes}
use entangled.Bundle.{Bundle, max_iota_supply, last_trit_set, validate_from, then_next}

-- The value of the transactions, on an accumulator, as 64-bit patterns.
unfoldable pub value_from : ℕ → Bundle → ℕ
value_from acc [] = acc
value_from acc (tx ∷ txs) = value_from (add64 acc tx.value) txs

-- A transaction in its place: its indexes, its value, the value of the bundle up to it, and its
-- address.
pub record IsPlaced (last_index index acc : ℕ) (tx : Transaction) : Type 0 where
  pub current : tx.current_index ≡ index
  pub last : tx.last_index ≡ last_index
  pub value_bounded : InSupply tx.value
  pub sum_bounded : InSupply (add64 acc tx.value)
  pub address_trit : (tx.value ≡ 0) ⊎ (last_trit_set tx.address ≡ false)

unfoldable pub ArePlaced : ℕ → ℕ → ℕ → Bundle → Type 0
ArePlaced last_index index acc [] = Unit
ArePlaced last_index index acc (tx ∷ txs) =
    IsPlaced last_index index acc tx × ArePlaced last_index (index + 1) (add64 acc tx.value) txs

-- The four guards of the loop, before what follows them.
abbrev guarded : ℕ → ℕ → ℕ → Transaction → BundleStatus → BundleStatus
guarded last_index index acc tx next =
    if gt64 (llabs tx.value) max_iota_supply
    then invalid_value
    else if gt64 (llabs (add64 acc tx.value)) max_iota_supply
    then invalid_value
    else if not (tx.current_index == index) || not (tx.last_index == last_index)
    then invalid_tx
    else if not (tx.value == 0) && last_trit_set tx.address
    then invalid_input_address
    else next

address_ok :
    (last_index index acc : ℕ) (tx : Transaction) (next : BundleStatus)
    → guarded last_index index acc tx next ≡ valid
    → (tx.value ≡ 0) ⊎ (last_trit_set tx.address ≡ false)
address_ok last_index index acc tx next h = elim (Bool-cases (tx.value == 0)) [
  | inl y ↦ inl (ground arith)
  | inr n ↦ inr (ground arith)
]

guarded-IsPlaced :
    (last_index index acc : ℕ) (tx : Transaction) (next : BundleStatus)
    → guarded last_index index acc tx next ≡ valid
    → IsPlaced last_index index acc tx
guarded-IsPlaced last_index index acc tx next h = record {
  current = ground arith;
  last = ground arith;
  value_bounded = passes-InSupply tx.value (ground arith);
  sum_bounded = passes-InSupply (add64 acc tx.value) (ground arith);
  address_trit = address_ok last_index index acc tx next h;
}

guarded-next :
    (last_index index acc : ℕ) (tx : Transaction) (next : BundleStatus)
    → IsPlaced last_index index acc tx
    → guarded last_index index acc tx next ≡ next
guarded-next last_index index acc tx next p =
    let value = InSupply-passes tx.value p.value_bounded in
    let sum = InSupply-passes (add64 acc tx.value) p.sum_bounded in
    ground (arith, p.current, p.last, value, sum, p.address_trit)

guarded-valid :
    (last_index index acc : ℕ) (tx : Transaction) (next : BundleStatus)
    → guarded last_index index acc tx next ≡ valid
    → next ≡ valid
guarded-valid last_index index acc tx next h = ground arith

then_next-valid : (s : BundleStatus) → then_next s valid ≡ s
then_next-valid not_initialized = refl
then_next-valid valid = refl
then_next-valid empty = refl
then_next-valid incomplete = refl
then_next-valid invalid_tx = refl
then_next-valid invalid_input_address = refl
then_next-valid invalid_value = refl
then_next-valid invalid_hash = refl
then_next-valid invalid_signature = refl

-- What the loop goes on to after the guards.
abbrev after : (ℕ → BundleStatus) → ℕ → ℕ → ℕ → Transaction → Bundle → BundleStatus
after last last_index index acc tx txs =
    let sum = add64 acc tx.value in
    let rest = validate_from last last_index ((index + 1) % u64_mod) sum valid txs in
    if tx.current_index == last_index then then_next (last sum) rest else rest

after_last :
    (last : ℕ → BundleStatus) (last_index index acc : ℕ) (tx : Transaction)
    → tx.current_index ≡ last_index
    → after last last_index index acc tx [] ≡ last (add64 acc tx.value)
unfolding validate_from
after_last last last_index index acc tx e =
    ground (arith, then_next-valid (last (add64 acc tx.value)))

after_inner :
    (last : ℕ → BundleStatus) (last_index index acc : ℕ) (tx : Transaction) (txs : Bundle)
    → tx.current_index ≢ last_index
    → index + 1 < u64_mod
    → after last last_index index acc tx txs
      ≡ validate_from last last_index (index + 1) (add64 acc tx.value) valid txs
after_inner last last_index index acc tx txs n p =
    let wrapped : (index + 1) % u64_mod ≡ index + 1 = omega arith in rw wrapped (ground arith)

-- The loop accepts the rest of a bundle that reaches up to its last index exactly when every
-- transaction is in its place and the checks on the last one, given the total, accept.
pub validate_from_sound :
    (last : ℕ → BundleStatus) (last_index index acc : ℕ) (status : BundleStatus) (tx : Transaction)
    (txs : Bundle)
    → index + length txs ≡ last_index
    → last_index + 1 < u64_mod
    → validate_from last last_index index acc status (tx ∷ txs) ≡ valid
    → ArePlaced last_index index acc (tx ∷ txs) × (last (value_from acc (tx ∷ txs)) ≡ valid)
unfolding validate_from ArePlaced value_from
validate_from_sound last last_index index acc status tx [] e p h =
    let placed =
      guarded-IsPlaced last_index index acc tx (after last last_index index acc tx []) h in
    (
      (placed, tt),
      sym (after_last last last_index index acc tx (omega (arith, placed.current, e)))
          ∙ guarded-valid last_index index acc tx (after last last_index index acc tx []) h,
    )
validate_from_sound last last_index index acc status tx (next ∷ txs) e p h =
    let placed =
      guarded-IsPlaced last_index index acc tx (after last last_index index acc tx (next ∷ txs))
        h in
    let (rest, total) =
      validate_from_sound last last_index (index + 1) (add64 acc tx.value) valid next txs
        (omega (arith, e)) p
        (sym (
            after_inner last last_index index acc tx (next ∷ txs) (omega (arith, placed.current, e))
              (omega (arith, e, p)))
          ∙ guarded-valid last_index index acc tx (after last last_index index acc tx (next ∷ txs))
              h) in
    ((placed, rest), total)

pub validate_from_complete :
    (last : ℕ → BundleStatus) (last_index index acc : ℕ) (status : BundleStatus) (tx : Transaction)
    (txs : Bundle)
    → index + length txs ≡ last_index
    → last_index + 1 < u64_mod
    → ArePlaced last_index index acc (tx ∷ txs)
    → last (value_from acc (tx ∷ txs)) ≡ valid
    → validate_from last last_index index acc status (tx ∷ txs) ≡ valid
unfolding validate_from ArePlaced value_from
validate_from_complete last last_index index acc status tx [] e p h t =
    guarded-next last_index index acc tx (after last last_index index acc tx []) h.0
    ∙ after_last last last_index index acc tx (omega (arith, h.0.current, e))
    ∙ t
validate_from_complete last last_index index acc status tx (next ∷ txs) e p h t =
    guarded-next last_index index acc tx (after last last_index index acc tx (next ∷ txs)) h.0
    ∙ after_inner last last_index index acc tx (next ∷ txs) (omega (arith, h.0.current, e))
        (omega (arith, e, p))
    ∙ validate_from_complete last last_index (index + 1) (add64 acc tx.value) valid next txs
        (omega (arith, e)) p h.1 t
