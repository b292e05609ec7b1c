-- ===== src/Ledger/Build/Examples.antt =====
-- An example of a ledger that is built from one stored delta.
use mathlib.Core.Path.{subst}
use entangled.Prelude.{
  ℕ, ◌+◌, ◌≡◌, ◌≤◌, ◌⊎◌, refl, inl, inr, Bool, Option, none, some, [], ◌∷◌, arith, ◌==◌,
  if◌then◌else◌, chosen, ==_iff,
}
use entangled.Outcome.{Retcode, done, for_each}
use entangled.HashMap.{find, add, delete, assign}
use entangled.StateDelta.{
  StateDelta, sum, sum_from, balance, apply_entry, add_or_sum, is_consistent,
}
use entangled.StateDelta
use entangled.StateDelta.Balance.{IsDelta}
use entangled.StateDelta.Examples.{
  ledger, transfer, patched, all, ledger-IsDelta, transfer-IsDelta, ledger-IsNonneg,
}
use entangled.Snapshot.{apply_patch, apply_patch_no_lock, create_patch}
use entangled.Snapshot.Examples.{at}
use entangled.Ledger.Build.{Build, build_from, build_snapshot}
use entangled.Ledger.Build.Safe.{IsSound, build_snapshot-IsSound}
use entangled.Ledger.Build.Ends.{IsReturned, IsStored, build_snapshot-IsReturned}

abbrev load_milestone : ℕ → Retcode ⊎ Option (ℕ × ℕ)
load_milestone i = if i == 5 then inr (some (i, 77)) else inr none

abbrev load_delta : ℕ → Retcode ⊎ StateDelta
load_delta i = if i == 5 then inr transfer else inr []

abbrev before : Build
before = record { latest = at 4 ledger; consistent_index = 4; consistent_hash = 0 }

abbrev after : Build
after = record { latest = at 5 patched; consistent_index = 5; consistent_hash = 77 }

build_test : build_snapshot all load_milestone load_delta 2 4 before ≡ some (done after)
unfolding build_snapshot build_from create_patch is_consistent apply_patch apply_patch_no_lock sum
    sum_from StateDelta.create_patch StateDelta.apply_patch balance for_each apply_entry add_or_sum
    find add delete assign entangled.Prelude.Word.add64
build_test = refl

nil-IsDelta : IsDelta []
nil-IsDelta = record { distinct = tt; words = tt }

same_delta : (x d : StateDelta) → ◌≡◌ {A = Retcode ⊎ StateDelta} (inr x) (inr d) → x ≡ d
same_delta x d e = cc

load_delta-IsDelta : (i : ℕ) (d : StateDelta) → load_delta i ≡ inr d → IsDelta d
load_delta-IsDelta i d =
    chosen (λ r. r ≡ inr d → IsDelta d) (i == 5) (inr transfer) (inr [])
      (λ y e. subst IsDelta (same_delta transfer d e) transfer-IsDelta)
      (λ n e. subst IsDelta (same_delta [] d e) nil-IsDelta)

build_snapshot-IsSound_example : IsSound (at 4 ledger) (at 5 patched)
build_snapshot-IsSound_example =
    build_snapshot-IsSound all load_milestone load_delta 2 4 before after load_delta-IsDelta
      ledger-IsDelta ledger-IsNonneg build_test

same_index :
    (i j hash k : ℕ)
    → ◌≡◌ {A = Retcode ⊎ Option (ℕ × ℕ)} (inr (some (i, k))) (inr (some (j, hash)))
    → i ≡ j
same_index i j hash k e = cc

milestones-IsStored : IsStored load_milestone 5
milestones-IsStored = record {
  by_index = λ i j hash.
      chosen (λ r. r ≡ inr (some (j, hash)) → (j ≡ i) × (i ≤ 5)) (i == 5) (inr (some (i, 77)))
        (inr none)
        (λ y e. (omega (arith, same_index i j hash 77 e), omega (arith, (==_iff i 5).0 y)))
        (λ n e. absurd (cc));
}

build_snapshot-IsReturned_example :
    IsReturned (build_snapshot all load_milestone load_delta 2 4 before)
build_snapshot-IsReturned_example =
    build_snapshot-IsReturned all load_milestone load_delta 2 4 5 before milestones-IsStored
      (omega arith) (omega arith)
