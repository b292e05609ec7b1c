-- ===== src/Snapshot/Examples.antt =====
-- Examples of snapshots.
use entangled.Prelude.{ℕ, ◌≡◌, ◌≢◌, refl, Bool, [], ◌∷◌, arith, ◌==◌}
use entangled.Prelude.Word.{add64}
use entangled.Outcome.{done, fail, for_each}
use entangled.Outcome.Retcode.{rc_oom, rc_snapshot_inconsistent_patch}
use entangled.HashMap.{HashMap, find, delete, assign}
use entangled.HashMap
use entangled.StateDelta.{StateDelta, sum, sum_from, balance, apply_entry, add_or_sum}
use entangled.StateDelta
use entangled.StateDelta.Examples.{ledger, transfer, patched, all, ledger-IsDelta, transfer-IsDelta}
use entangled.Snapshot.{Snapshot, apply_patch, apply_patch_no_lock}
use entangled.Snapshot.Supply.{apply_patch-sum, apply_patch-unbalanced}

abbrev pub at : ℕ → StateDelta → Snapshot
at index m = record {
  state = m;
  metadata = record { hash = 9; index = index; timestamp = 100; solid_entry_points = (7, 1) ∷ [] };
}

apply_test : apply_patch all (at 4 ledger) transfer 5 ≡ done (at 5 patched)
unfolding apply_patch apply_patch_no_lock sum sum_from StateDelta.apply_patch for_each apply_entry
    add_or_sum find HashMap.add delete assign add64
apply_test = refl

apply_patch-sum_example :
    ((at 5 patched).metadata.index ≡ 5)
    × (sum (at 5 patched).state ≡ sum (at 4 ledger).state)
    × ((h : ℕ)
        → balance h (at 5 patched).state
          ≡ add64 (balance h (at 4 ledger).state) (balance h transfer))
apply_patch-sum_example =
    apply_patch-sum all (at 4 ledger) (at 5 patched) transfer 5 ledger-IsDelta transfer-IsDelta
      apply_test

sum_test : sum ledger ≢ 0
unfolding sum sum_from add64
sum_test = omega arith

apply_patch-unbalanced_example :
    apply_patch all (at 4 ledger) ledger 5 ≡ fail rc_snapshot_inconsistent_patch (at 4 ledger)
apply_patch-unbalanced_example = apply_patch-unbalanced all (at 4 ledger) ledger 5 sum_test

-- Memory for the address 1 and for no other.
abbrev one : ℕ → Bool
one h = h == 1

copy_test : HashMap.copy one ledger [] ≡ fail rc_oom ((1, 10) ∷ [])
unfolding HashMap.copy for_each HashMap.add find
copy_test = refl
