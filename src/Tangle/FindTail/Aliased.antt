-- ===== src/Tangle/FindTail/Aliased.antt =====
-- What becomes of the comparison of bundles in `iota_tangle_find_tail`.
use entangled.Prelude.{
  ℕ, ◌≡◌, ◌≢◌, refl, ◌⊎◌, inr, true, Option, none, some, List, [], ◌∷◌, ◌==◌, arith,
}
use entangled.Outcome.{Retcode}
use entangled.Transaction.{Transaction}
use entangled.Tangle.FindTail.{look_through, climb, find_tail}

same_test : (k : ℕ) → (k == k) ≡ true
same_test k = ground arith

-- From a transaction at index 2, whose only approver is at index 1 of the same bundle and is approved
-- by nothing but a transaction at index 0 of another bundle, the latter is reported as the tail, when
-- all three are found and no query fails.
pub find_tail-other_bundle :
    (load : ℕ → Retcode ⊎ Option Transaction) (approvers : ℕ → Retcode ⊎ List ℕ) (tx_hash h k : ℕ)
    (tx middle other : Transaction)
    → load tx_hash ≡ inr (some tx)
    → tx.current_index ≡ 2
    → approvers tx.hash ≡ inr (h ∷ [])
    → load h ≡ inr (some middle)
    → middle.current_index ≡ 1
    → middle.bundle ≡ tx.bundle
    → approvers middle.hash ≡ inr (k ∷ [])
    → load k ≡ inr (some other)
    → other.current_index ≡ 0
    → other.bundle ≢ tx.bundle
    → find_tail load approvers tx_hash ≡ (none, some other.hash)
unfolding find_tail climb look_through
find_tail-other_bundle load approvers tx_hash h k tx middle other e i a f j b c g z ne =
    rw (e, i, a, f, j, b, same_test tx.bundle, c, g, z, same_test other.bundle) refl
