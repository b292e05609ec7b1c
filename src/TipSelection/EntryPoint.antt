-- ===== src/TipSelection/EntryPoint.antt =====
-- ciri/consensus/tip_selection/entry_point_selector/entry_point_selector.c: the milestone at which
-- the walk starts. The query for the hash of a milestone by its index is a parameter.
use entangled.Prelude.{ℕ, suc, ◌-◌, ◌⊎◌, inl, inr, Option, none, some}
use entangled.Outcome.{Retcode}

-- The fields of the milestone tracker that the selection reads.
pub record Tracker : Type 0 where
  pub latest_solid_milestone_index : ℕ
  pub latest_solid_milestone : ℕ

-- The entry point for what the query found.
unfoldable pub entry_point : Tracker → Retcode ⊎ Option ℕ → Retcode ⊎ ℕ
entry_point mt (inl e) = inl e
entry_point mt (inr (some hash)) = inr hash
entry_point mt (inr none) = inr mt.latest_solid_milestone

-- `MAX(index - depth - 1, 0)` is the difference of natural numbers.
unfoldable pub get_entry_point : (ℕ → Retcode ⊎ Option ℕ) → Tracker → ℕ → Retcode ⊎ ℕ
get_entry_point milestone_load_by_index mt depth =
    entry_point mt (milestone_load_by_index (suc (mt.latest_solid_milestone_index - depth - 1)))
