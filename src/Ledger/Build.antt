-- ===== src/Ledger/Build.antt =====
-- ciri/consensus/ledger_validator/ledger_validator.c, `build_snapshot`: at start-up the stored deltas
-- are applied to the latest snapshot, milestone after milestone. A query of the database by index
-- gives an error, nothing, or the index and the hash of the milestone; a delta that is not stored is
-- the empty one. The loop takes fuel, and `none` is a loop that the fuel was too little for.
pub mod Safe
pub mod Ends
pub mod Examples
use entangled.Prelude.{
  ℕ, zero, suc, ◌+◌, ◌⊎◌, inl, inr, Bool, Option, none, some, ◌==◌, if◌then◌else◌,
}
use entangled.Outcome.{Retcode, Outcome, done, fail}
use entangled.Outcome.Retcode.{rc_ledger_validator_inconsistent_delta}
use entangled.HashMap
use entangled.StateDelta.{StateDelta, is_consistent}
use entangled.Snapshot.{Snapshot, apply_patch, create_patch}

-- The latest snapshot, and `consistent_index` and `consistent_hash`.
pub record Build : Type 0 where
  pub latest : Snapshot
  pub consistent_index : ℕ
  pub consistent_hash : ℕ

module _ (malloc : ℕ → Bool) (load_milestone : ℕ → Retcode ⊎ Option (ℕ × ℕ))
    (load_delta : ℕ → Retcode ⊎ StateDelta) where
  abbrev pub advanced : Build → ℕ → ℕ → Outcome Snapshot → Outcome Build
  advanced b index hash (fail e s) = fail e (record b { latest = s })
  advanced b index hash (done s) =
      done (record { latest = s; consistent_index = index; consistent_hash = hash })

  abbrev pub judged : Build → StateDelta → ℕ → ℕ → Outcome StateDelta → Outcome Build
  judged b delta index hash (fail e patch) = fail e b
  judged b delta index hash (done patch) =
      if (is_consistent patch).0
      then advanced b index hash (apply_patch malloc b.latest delta index)
      else fail rc_ledger_validator_inconsistent_delta b

  -- A delta that is not empty is applied when its patch is consistent.
  abbrev pub take_delta : Build → ℕ → ℕ → Retcode ⊎ StateDelta → Outcome Build
  take_delta b index hash (inl e) = fail e b
  take_delta b index hash (inr delta) =
      if HashMap.size delta == 0
      then done b
      else judged b delta index hash (create_patch malloc b.latest delta)

  abbrev pub and_next : (Build → Option (Outcome Build)) → Outcome Build → Option (Outcome Build)
  and_next next (fail e b) = some (fail e b)
  and_next next (done b) = next b

  abbrev pub milestone_found :
      (ℕ → Build → Option (Outcome Build))
      → Build
      → Retcode ⊎ Option (ℕ × ℕ)
      → Option (Outcome Build)
  milestone_found next b (inl e) = some (fail e b)
  milestone_found next b (inr none) = some (done b)
  milestone_found next b (inr (some (index, hash))) =
      and_next (next (index + 1)) (take_delta b index hash (load_delta index))

  -- The query for the milestone `index`, and the loop from there.
  unfoldable pub build_from : ℕ → ℕ → Build → Option (Outcome Build)
  build_from zero index b = none
  build_from (suc fuel) index b = milestone_found (build_from fuel) b (load_milestone index)

  unfoldable pub build_snapshot : ℕ → ℕ → Build → Option (Outcome Build)
  build_snapshot fuel initial_index b = build_from fuel (initial_index + 1) b
