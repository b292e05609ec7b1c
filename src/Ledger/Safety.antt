-- ===== src/Ledger/Safety.antt =====
-- What confirming a milestone does to the balances.
use entangled.Prelude.{
  ℕ, ◌≡◌, ◌<◌, ◌⊎◌, refl, inl, inr, Bool, true, false, Option, none, some, [], ◌==◌, if◌then◌else◌,
  chosen,
}
use mathlib.Core.Path.{subst}
use entangled.Prelude.Word.{u64_mod}
use entangled.Outcome.{Retcode, Outcome, done, fail}
use entangled.HashMap
use entangled.StateDelta.{StateDelta, sum, is_consistent}
use entangled.StateDelta.Balance.{IsDelta}
use entangled.StateDelta.Consistency.{IsNonneg, is_consistent-apply_patch}
use entangled.Snapshot.{Snapshot, apply_patch, create_patch}
use entangled.Snapshot.Supply.{apply_patch-sum, apply_patch-state}
use entangled.Outcome.Retcode.{
  rc_ledger_validator_invalid_transaction, rc_ledger_validator_transaction_not_solid,
}
use entangled.Transaction.{Transaction}
use entangled.Tangle.Traversal.{Walk}
use entangled.Ledger.Delta.{LeavesDelta, get_latest_delta-IsDelta, nil-IsDelta}
use entangled.Ledger.{
  answered, milestone_updated, milestone_loaded, patched, stored, Validator, Update, Params,
  applied, store_and_apply, confirm, walked, update_snapshot, get_latest_delta,
  update_snapshot_milestone,
}

-- The ledger after a call: as it was, or without a negative balance, of the same sum and at the index
-- of the milestone.
record IsSafe (before : Snapshot) (u : Update) : Type 0 where
  sum_kept : u.code ≡ none → sum u.latest.state ≡ sum before.state
  nonneg : u.code ≡ none → IsNonneg u.latest.state

IsSafeOpt : Snapshot → Option Update → Type 0
IsSafeOpt before none = Unit
IsSafeOpt before (some u) = IsSafe before u

unchanged :
    (before : Snapshot) (code : Option Retcode) (b : Bool)
    → IsNonneg before.state
    → IsSafe before (record { code = code; has_snapshot = b; latest = before })
unchanged before code b n = record { sum_kept = λ _. refl; nonneg = λ _. n }

applied-IsSafe :
    (malloc malloc' : ℕ → Bool) (before : Snapshot) (delta patch : StateDelta) (index : ℕ)
    → IsDelta before.state
    → IsNonneg before.state
    → IsDelta delta
    → create_patch malloc before delta ≡ done patch
    → (is_consistent patch).0 ≡ true
    → (r : Outcome Snapshot) → apply_patch malloc' before delta index ≡ r
    → IsSafe before (applied r)
unfolding create_patch
applied-IsSafe malloc malloc' before delta patch index ds n dd c ok (fail e s) a = record {
  sum_kept = λ h. absurd (cc);
  nonneg = λ h. absurd (cc);
}
applied-IsSafe malloc malloc' before delta patch index ds n dd c ok (done s) a = record {
  sum_kept = λ h. (apply_patch-sum malloc' before s delta index ds dd a).1;
  nonneg = λ h.
      (is_consistent-apply_patch malloc malloc' before.state delta patch s.state ds dd n c
          (apply_patch-state malloc' before s delta index a)).0
        ok;
}

stored-IsSafe :
    (lv : Validator) (delta patch : StateDelta) (index : ℕ) (c : Option Retcode)
    → IsDelta lv.latest_snapshot.state
    → IsNonneg lv.latest_snapshot.state
    → IsDelta delta
    → create_patch lv.malloc lv.latest_snapshot delta ≡ done patch
    → (is_consistent patch).0 ≡ true
    → IsSafe lv.latest_snapshot (stored lv delta index c)
stored-IsSafe lv delta patch index (some e) ds n dd q ok =
    unchanged lv.latest_snapshot (some e) true n
stored-IsSafe lv delta patch index none ds n dd q ok =
    applied-IsSafe lv.malloc lv.malloc lv.latest_snapshot delta patch index ds n dd q ok
      (apply_patch lv.malloc lv.latest_snapshot delta index) refl

patched-IsSafe :
    (lv : Validator) (hash index : ℕ) (delta : StateDelta) (o : Outcome StateDelta)
    → IsDelta lv.latest_snapshot.state
    → IsNonneg lv.latest_snapshot.state
    → IsDelta delta
    → create_patch lv.malloc lv.latest_snapshot delta ≡ o
    → IsSafeOpt lv.latest_snapshot (patched lv hash index delta o)
unfolding IsSafeOpt
patched-IsSafe lv hash index delta (fail e patch) ds n dd q =
    unchanged lv.latest_snapshot (some e) false n
patched-IsSafe lv hash index delta (done patch) ds n dd q =
    chosen (IsSafeOpt lv.latest_snapshot) (is_consistent patch).0 _
      (some (answered lv.latest_snapshot false))
      (λ ok. updated-IsSafe (update_snapshot_milestone lv hash index) ok)
      (λ z. unchanged lv.latest_snapshot none false n)
  where
    updated-IsSafe :
        (c : Option (Option Retcode))
        → (is_consistent patch).0 ≡ true
        → IsSafeOpt lv.latest_snapshot (milestone_updated lv delta index c)
    updated-IsSafe none ok = tt
    updated-IsSafe (some (some e)) ok = unchanged lv.latest_snapshot (some e) true n
    updated-IsSafe (some none) ok =
        unfold store_and_apply in
        stored-IsSafe lv delta patch index
          (if HashMap.size delta == 0 then none else lv.db.store_delta index delta) ds n dd q ok

walked-IsSafe :
    (lv : Validator) (hash index : ℕ) (r : Option (Outcome (Walk Params)))
    → IsDelta lv.latest_snapshot.state
    → IsNonneg lv.latest_snapshot.state
    → LeavesDelta r
    → IsSafeOpt lv.latest_snapshot (walked lv hash index r)
unfolding IsSafeOpt confirm
walked-IsSafe lv hash index none ds n d = tt
walked-IsSafe lv hash index (some (fail e w)) ds n d = unchanged lv.latest_snapshot (some e) false n
walked-IsSafe lv hash index (some (done w)) ds n d =
    chosen (IsSafeOpt lv.latest_snapshot) (w.state.valid_delta)
      (confirm lv hash index (w.state.state)) (some (answered lv.latest_snapshot false))
      (λ y.
        patched-IsSafe lv hash index (w.state.state)
          (create_patch lv.malloc lv.latest_snapshot (w.state.state)) ds n d refl)
      (λ z. unchanged lv.latest_snapshot none false n)

update_snapshot-IsSafeOpt :
    (lv : Validator) (hash index : ℕ)
    → IsDelta lv.latest_snapshot.state
    → IsNonneg lv.latest_snapshot.state
    → ((h : ℕ) (tx : Transaction) → lv.db.load h ≡ inr (some tx) → tx.value < u64_mod)
    → IsSafeOpt lv.latest_snapshot (update_snapshot lv hash index)
unfolding IsSafeOpt update_snapshot
update_snapshot-IsSafeOpt lv hash index ds n words = loaded-IsSafe (lv.db.load hash)
  where
    before : Snapshot
    before = lv.latest_snapshot

    loaded-IsSafe :
        (r : Retcode ⊎ Option Transaction) → IsSafeOpt before (milestone_loaded lv hash index r)
    loaded-IsSafe (inl e) = unchanged before (some e) false n
    loaded-IsSafe (inr none) =
        unchanged before (some rc_ledger_validator_invalid_transaction) false n
    loaded-IsSafe (inr (some tx)) =
        chosen (IsSafeOpt before) tx.solid _ _
          (λ y.
            chosen (IsSafeOpt before) (tx.snapshot_index == 0) _ _
              (λ z.
                walked-IsSafe lv hash index (get_latest_delta lv [] [] hash) ds n
                  (get_latest_delta-IsDelta lv [] [] hash words nil-IsDelta))
              (λ z. unchanged before none true n))
          (λ z. unchanged before (some rc_ledger_validator_transaction_not_solid) false n)

some_injective : (v u : Update) → some v ≡ some u → v ≡ u
some_injective v u e = cc

IsSafe-part :
    (before : Snapshot) (u : Update) (o : Option Update)
    → o ≡ some u
    → IsSafeOpt before o
    → IsSafe before u
unfolding IsSafeOpt
IsSafe-part before u none e h = absurd (cc)
IsSafe-part before u (some v) e h = subst (IsSafe before) (some_injective v u e) h

-- Confirming a milestone is safe, over a ledger that lists no address twice, holds 64-bit
-- patterns and has no negative balance, and a database whose values are 64-bit patterns: when
-- the call returns and reports success, no balance is negative afterwards and the sum of all
-- balances is what it was, whatever bundles the milestone confirms.
pub update_snapshot-safe :
    (lv : Validator) (hash index : ℕ) (u : Update)
    → IsDelta lv.latest_snapshot.state
    → IsNonneg lv.latest_snapshot.state
    → ((h : ℕ) (tx : Transaction) → lv.db.load h ≡ inr (some tx) → tx.value < u64_mod)
    → update_snapshot lv hash index ≡ some u
    → u.code ≡ none
    → (sum u.latest.state ≡ sum lv.latest_snapshot.state) × IsNonneg u.latest.state
update_snapshot-safe lv hash index u ds n words e c =
    let s =
      IsSafe-part lv.latest_snapshot u (update_snapshot lv hash index) e
        (update_snapshot-IsSafeOpt lv hash index ds n words) in
    (s.sum_kept c, s.nonneg c)
