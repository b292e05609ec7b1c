-- ===== src/Milestones.antt =====
-- ciri/consensus/milestone/milestone_service.c: the deltas of the milestones after a snapshot, merged
-- and applied to it. The two queries of the database are parameters: a query by index gives an error,
-- nothing, or the index of the milestone found and the delta stored for it.
pub mod Sum
pub mod Examples
use entangled.Prelude.{
  ℕ, zero, suc, ◌+◌, ◌-◌, ◌⊎◌, inl, inr, Bool, true, false, Option, none, some, [], if◌then◌else◌,
}
use entangled.Outcome.{Retcode, Outcome, done, fail}
use entangled.StateDelta.{StateDelta}
use entangled.StateDelta
use entangled.Snapshot.{Snapshot, apply_patch_no_lock}

-- The local variables: the merged changes, whether `last_applied_milestone` is set, and the index in
-- the buffer that it points to, which every load overwrites.
pub record Replay : Type 0 where
  pub merged_balance_changes : StateDelta
  pub applied : Bool
  pub milestone_index : ℕ

module _ (malloc : ℕ → Bool) (load_milestone : ℕ → Retcode ⊎ Option ℕ)
    (load_delta : ℕ → Retcode ⊎ Option StateDelta) where
  abbrev pub merged : Replay → Outcome StateDelta → Retcode ⊎ Replay
  merged r (fail e m) = inl e
  merged r (done m) = inr (record r { merged_balance_changes = m; applied = true })

  -- The delta of the milestone in the buffer.
  abbrev pub delta_loaded : Replay → Retcode ⊎ Option StateDelta → Retcode ⊎ Replay
  delta_loaded r (inl e) = inl e
  delta_loaded r (inr none) = inr r
  delta_loaded r (inr (some d)) =
      merged r (StateDelta.apply_patch malloc r.merged_balance_changes d)

  abbrev pub next : (Replay → Retcode ⊎ Replay) → Retcode ⊎ Replay → Retcode ⊎ Replay
  next rest (inl e) = inl e
  next rest (inr r) = rest r

  abbrev pub milestone_loaded :
      (Replay → Retcode ⊎ Replay) → Replay → Retcode ⊎ Option ℕ → Retcode ⊎ Replay
  milestone_loaded rest r (inl e) = inl e
  milestone_loaded rest r (inr none) = inr r
  milestone_loaded rest r (inr (some index)) =
      next rest (delta_loaded (record r { milestone_index = index }) (load_delta index))

  -- The loop, in the rounds that it has left.
  unfoldable pub replay_from : ℕ → ℕ → Replay → Retcode ⊎ Replay
  replay_from zero current_milestone_index r = inr r
  replay_from (suc rounds) current_milestone_index r =
      milestone_loaded (replay_from rounds (current_milestone_index + 1)) r
        (load_milestone (current_milestone_index + 1))

  abbrev pub replayed : Snapshot → Retcode ⊎ Replay → Outcome Snapshot
  replayed s (inl e) = fail e s
  replayed s (inr r) =
      if r.applied
      then apply_patch_no_lock malloc s r.merged_balance_changes r.milestone_index
      else done s

  unfoldable pub replay_milestones : Snapshot → ℕ → Outcome Snapshot
  replay_milestones s index = replayed s (
      replay_from (index - s.metadata.index) s.metadata.index
        (record { merged_balance_changes = []; applied = false; milestone_index = 0 }))
