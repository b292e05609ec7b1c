-- ===== src/Snapshot.antt =====
-- ciri/consensus/snapshot/snapshot.c and snapshot_metadata.c: the balances at a milestone, with the
-- milestone's hash, index and time and the solid entry points. Locks are not modelled: a function
-- that takes the lock for all it does is one step.
pub mod Supply
pub mod Copy
pub mod Examples
use entangled.Prelude.{
  ℕ, ◌⊎◌, inl, inr, Bool, Option, none, some, List, [], ◌∷◌, ◌==◌, if◌then◌else◌,
}
use entangled.Outcome.{Retcode, Outcome, done, fail, left}
use entangled.Outcome.Retcode.{rc_snapshot_inconsistent_patch, rc_snapshot_balance_not_found}
use entangled.HashMap.{HashMap, find}
use entangled.HashMap
use entangled.StateDelta.{StateDelta, sum}
use entangled.StateDelta

pub record Metadata : Type 0 where
  pub hash : ℕ
  pub index : ℕ
  pub timestamp : ℕ
  pub solid_entry_points : HashMap

pub record Snapshot : Type 0 where
  pub state : StateDelta
  pub metadata : Metadata

-- The return code of the copy of the entry points is dropped.
unfoldable pub metadata_init : (ℕ → Bool) → ℕ → ℕ → ℕ → HashMap → Metadata
metadata_init malloc hash index timestamp entry_points = record {
  hash = hash;
  index = index;
  timestamp = timestamp;
  solid_entry_points = left (HashMap.copy malloc entry_points []);
}

unfoldable pub metadata_reset : Metadata → Metadata
metadata_reset m = record m { index = 0; timestamp = 0; solid_entry_points = [] }

unfoldable pub metadata_destroy : Metadata → Metadata
metadata_destroy m = record m { solid_entry_points = [] }

unfoldable pub reset : Snapshot → Snapshot
reset s = record s { state = []; metadata = metadata_reset s.metadata }

unfoldable pub destroy : Snapshot → Snapshot
destroy s = record s { state = []; metadata = metadata_destroy s.metadata }

abbrev pub get_index : Snapshot → ℕ
get_index s = s.metadata.index

unfoldable pub get_balance : Snapshot → ℕ → Retcode ⊎ ℕ
get_balance s h = elim (find h s.state) [
  | none ↦ inl rc_snapshot_balance_not_found
  | some v ↦ inr v
]

unfoldable pub create_patch : (ℕ → Bool) → Snapshot → StateDelta → Outcome StateDelta
create_patch malloc s delta = StateDelta.create_patch malloc s.state delta []

-- A snapshot around the outcome of an operation on its balances.
abbrev with_state : Snapshot → Outcome StateDelta → Outcome Snapshot
with_state s (done m) = done (record s { state = m })
with_state s (fail e m) = fail e (record s { state = m })

abbrev pub at_index : ℕ → Snapshot → Snapshot
at_index index s = record s { metadata = record (s.metadata) { index = index } }

unfoldable pub apply_patch_no_lock : (ℕ → Bool) → Snapshot → StateDelta → ℕ → Outcome Snapshot
apply_patch_no_lock malloc s patch index =
    with_state (at_index index s) (StateDelta.apply_patch malloc s.state patch)

unfoldable pub apply_patch : (ℕ → Bool) → Snapshot → StateDelta → ℕ → Outcome Snapshot
apply_patch malloc s patch index =
    if sum patch == 0
    then apply_patch_no_lock malloc s patch index
    else fail rc_snapshot_inconsistent_patch s

-- `goto cleanup` frees the balances copied so far; the code returned is `RC_OK` in every case.
abbrev finish_copy : (ℕ → Bool) → Metadata → Metadata → Outcome StateDelta → Snapshot
finish_copy malloc src dst (fail e m) = record { state = []; metadata = dst }
finish_copy malloc src dst (done m) = record {
  state = m;
  metadata = metadata_init malloc src.hash src.index src.timestamp src.solid_entry_points;
}

unfoldable pub copy : (ℕ → Bool) → Snapshot → Snapshot → Outcome Snapshot
copy malloc src dst = done (
    finish_copy malloc src.metadata (metadata_destroy dst.metadata)
      (HashMap.copy malloc src.state []))

unfoldable pub has_solid_entry_point : Snapshot → ℕ → Bool
has_solid_entry_point s h = HashMap.contains s.metadata.solid_entry_points h
