-- ===== src/Ledger/Examples.antt =====
-- An example of a milestone that confirms a bundle of two transactions.
use mathlib.Core.Path.{subst}
use entangled.Prelude.{
  ℕ, ◌≡◌, ◌≢◌, ◌<◌, ◌⊎◌, refl, inl, inr, Bool, true, false, Option, none, some, List, [], ◌∷◌,
  arith, ◌==◌, if◌then◌else◌, chosen,
}
use entangled.Prelude.Word.{u64_mod}
use entangled.Outcome.{Retcode}
use entangled.HashSet.{contains}
use entangled.HashMap.{find}
use entangled.StateDelta.{StateDelta, sum}
use entangled.StateDelta.Balance.{IsDelta}
use entangled.StateDelta.Consistency.{IsNonneg}
use entangled.Transaction.{Transaction, valid}
use entangled.Bundle.Examples.{kerl, sig_digest, transaction}
use entangled.Snapshot.{Snapshot}
use entangled.Snapshot.Examples.{at}
use entangled.Tangle.{Storage, zero_transaction}
use entangled.Tangle.Traversal.{Visit, dfs_to_past}
use entangled.Tangle.Traversal.Termination.{dfs_to_past-ends}
use entangled.Tangle.FindTail.{find_tail}
use entangled.Tangle.FindTail.Aliased.{find_tail-other_bundle}
use entangled.Tangle.BundleLoad.{bundle_load}
use entangled.Tangle.BundleLoad.Chain.{bundle_load-other_bundle}
use entangled.Ledger.{Validator, Update, update_snapshot}
use entangled.Ledger.Safety.{update_snapshot-safe}

-- The hash 1 is the tail, which was found valid before, and the hash 2 its trunk.
abbrev tail : Transaction
tail = record (transaction 0 2 5 2) { validity = valid }

abbrev second : Transaction
second = record (transaction 1 1 18446744073709551611 0) { bundle = 7 }

abbrev load : ℕ → Retcode ⊎ Option Transaction
load h = if h == 1 then inr (some tail) else if h == 2 then inr (some second) else inr none

abbrev db : Storage
db = record {
  load = load;
  update_validity = λ _ _. none;
  update_snapshot_index = λ _ _. none;
  store_delta = λ _ _. none;
}

same_found :
    (t tx : Transaction)
    → ◌≡◌ {A = Retcode ⊎ Option Transaction} (inr (some t)) (inr (some tx))
    → t ≡ tx
same_found t tx e = cc

-- What both transactions have, every transaction of the database has.
by_found :
    (P : Transaction → Type 0)
    → P tail
    → P second
    → (h : ℕ) (tx : Transaction) → load h ≡ inr (some tx)
    → P tx
by_found P p q h tx =
    chosen (λ r. r ≡ inr (some tx) → P tx) (h == 1) (inr (some tail)) _
      (λ y e. subst P (same_found tail tx e) p)
      (λ n.
        chosen (λ r. r ≡ inr (some tx) → P tx) (h == 2) (inr (some second)) (inr none)
          (λ y e. subst P (same_found second tx e) q) (λ z e. absurd (cc)))

bundle_load-other_bundle_example : bundle_load db 1 ≡ inr (tail ∷ second ∷ [])
bundle_load-other_bundle_example =
    bundle_load-other_bundle db 1 tail second refl refl refl refl (omega arith) (omega arith)

-- A functor that stops at nothing.
abbrev goes_on : ℕ → Bool → Transaction → ℕ → Bool → Bool → Visit ℕ
goes_on h loaded tx d branch stop = record {
  code = none;
  after = d;
  should_branch = true;
  should_stop = false;
}

dfs_to_past-ends_example : dfs_to_past (λ _. true) load goes_on 12 1 9 [] zero_transaction 0 ≢ none
unfolding contains
dfs_to_past-ends_example =
    dfs_to_past-ends (λ _. true) load goes_on (0 ∷ 1 ∷ 2 ∷ 3 ∷ [])
      (by_found
        (λ tx.
          (contains (0 ∷ 1 ∷ 2 ∷ 3 ∷ []) tx.branch ≡ true)
          × (contains (0 ∷ 1 ∷ 2 ∷ 3 ∷ []) tx.trunk ≡ true))
        (refl, refl) (refl, refl))
      12 1 9 [] zero_transaction 0 refl refl refl (omega arith)

abbrev lv : Validator
lv = record {
  kerl = kerl;
  sig_digest = sig_digest;
  db = db;
  malloc = λ _. true;
  fuel = 12;
  genesis_hash = 0;
  initial_snapshot = at 3 [];
  latest_snapshot = at 4 ((1, 10) ∷ []);
  unset_solid = false;
}

abbrev confirmed : Update
confirmed = record { code = none; has_snapshot = true; latest = at 5 ((1, 5) ∷ (2, 5) ∷ []) }

update_test : update_snapshot lv 1 5 ≡ some confirmed
unfolding update_snapshot entangled.Ledger.get_latest_delta dfs_to_past entangled.HashSet.push
    entangled.HashSet.add contains entangled.Ledger.solid_entry_points_set
    entangled.Tangle.Traversal.run entangled.Tangle.Traversal.round entangled.Tangle.Traversal.visit
    entangled.Tangle.Traversal.visited entangled.Ledger.get_latest_delta_do_func
    entangled.Tangle.BundleLoad.bundle_validator_validate bundle_load
    entangled.Tangle.BundleLoad.load_from entangled.Outcome.for_each entangled.StateDelta.add_or_sum
    find entangled.HashMap.add entangled.HashMap.assign entangled.HashMap.delete
    entangled.Ledger.add_bundle entangled.Ledger.confirm entangled.Ledger.map_keys
    entangled.Ledger.store_and_apply entangled.Ledger.take_bundle
    entangled.Ledger.update_snapshot_milestone entangled.Ledger.update_snapshot_milestone_do_func
    entangled.Prelude.Word.add64 entangled.Snapshot.apply_patch
    entangled.Snapshot.apply_patch_no_lock entangled.Snapshot.create_patch
    entangled.StateDelta.apply_entry entangled.StateDelta.apply_patch entangled.StateDelta.balance
    entangled.StateDelta.create_patch entangled.StateDelta.is_consistent sum
    entangled.StateDelta.sum_from entangled.Tangle.Traversal.mark
    entangled.Tangle.Traversal.push_approvees
update_test = refl

one-IsDelta : IsDelta ((1, 10) ∷ [])
unfolding find
one-IsDelta = record { distinct = (refl, tt); words = omega arith }

update_snapshot-safe_example :
    (sum ((1, 5) ∷ (2, 5) ∷ []) ≡ sum ((1, 10) ∷ [])) × IsNonneg ((1, 5) ∷ (2, 5) ∷ [])
update_snapshot-safe_example =
    update_snapshot-safe lv 1 5 confirmed one-IsDelta (refl, tt)
      (by_found (λ tx. tx.value < u64_mod) (omega arith) (omega arith)) update_test refl

-- A transaction of the bundle 5 at index 2, one at index 1, and the tail of the bundle 6.
abbrev third : Transaction
third = record zero_transaction { hash = 12; current_index = 2; bundle = 5 }

abbrev middle : Transaction
middle = record zero_transaction { hash = 11; current_index = 1; bundle = 5 }

abbrev stranger : Transaction
stranger = record zero_transaction { hash = 10; current_index = 0; bundle = 6 }

abbrev stored : ℕ → Retcode ⊎ Option Transaction
stored h =
    if h == 12
    then inr (some third)
    else if h == 11
    then inr (some middle)
    else if h == 10
    then inr (some stranger)
    else inr none

abbrev approvers : ℕ → Retcode ⊎ List ℕ
approvers h = if h == 12 then inr (11 ∷ []) else if h == 11 then inr (10 ∷ []) else inr []

find_tail-other_bundle_example : find_tail stored approvers 12 ≡ (none, some 10)
find_tail-other_bundle_example =
    find_tail-other_bundle stored approvers 12 11 10 third middle stranger refl refl refl refl refl
      refl refl refl refl (omega arith)
