-- ===== src/Ledger.antt =====
-- ciri/consensus/ledger_validator/ledger_validator.c: the balances after a milestone, from the
-- bundles that it confirms, and the check that tips can be confirmed together. A walk over the
-- tangle takes fuel, and `none` is a walk that the fuel was too little for.
pub mod Delta
pub mod Safety
pub mod Build
pub mod Examples
use entangled.Prelude.{
  ℕ, zero, suc, ◌+◌, ◌⊎◌, inl, inr, Bool, true, false, Option, none, some, List, [], ◌∷◌, map, ◌==◌,
  ◌||◌, not, if◌then◌else◌, ltb,
}
use entangled.Prelude.Int.{ℤ}
use entangled.Outcome.{Retcode, Outcome, done, fail, left, ◌>>=◌, for_each}
use entangled.Outcome.Retcode.{
  rc_ledger_validator_invalid_transaction, rc_ledger_validator_transaction_not_solid,
  rc_ledger_validator_could_not_load_milestone,
}
use entangled.HashMap.{HashMap}
use entangled.HashMap
use entangled.HashSet.{HashSet, HashStack, contains, append}
use entangled.HashSet
use entangled.StateDelta.{StateDelta, add_or_sum, is_consistent}
use entangled.StateDelta
use entangled.Snapshot.{Snapshot, get_index, create_patch, apply_patch}
use entangled.Transaction.{Transaction, BundleStatus, valid}
use entangled.Bundle.{Bundle}
use entangled.Tangle.{Storage, zero_transaction}
use entangled.Tangle.Traversal.{Visit, Walk, Functor, dfs_to_past}
use entangled.Tangle.BundleLoad.{bundle_validator_validate}

-- The fields of the validator and what it reaches: the fuel of a walk and the parameters included.
-- `unset_solid` is what the flag `solid` reads as in a transaction that no load has filled.
pub record Validator : Type 0 where
  pub kerl : List (List ℤ) → List ℤ
  pub sig_digest : List ℤ → ℕ → List ℤ
  pub db : Storage
  pub malloc : ℕ → Bool
  pub fuel : ℕ
  pub genesis_hash : ℕ
  pub initial_snapshot : Snapshot
  pub latest_snapshot : Snapshot
  pub unset_solid : Bool

-- `hash_to_uint64_t_map_keys`, which goes on after an insertion that fails.
unfoldable pub map_keys : (ℕ → Bool) → HashMap → HashSet → HashSet
map_keys malloc [] keys = keys
map_keys malloc (e ∷ m) keys = map_keys malloc m (left (HashSet.add malloc e.0 keys))

unfoldable pub solid_entry_points_set : (ℕ → Bool) → Snapshot → HashSet → HashSet
unfolding map_keys
solid_entry_points_set malloc s set = map_keys malloc s.metadata.solid_entry_points set

unfoldable pub update_snapshot_milestone_do_func : (ℕ → Bool) → Functor HashSet
update_snapshot_milestone_do_func malloc hash loaded tx hashes branch stop =
    let unconfirmed = tx.snapshot_index == 0 in
    if loaded
    then if unconfirmed
      then elim (HashSet.add malloc hash hashes) [
        | done s ↦ record { code = none; after = s; should_branch = true; should_stop = stop }
        | fail e s ↦ record { code = some e; after = s; should_branch = true; should_stop = true }
      ]
      else record { code = none; after = hashes; should_branch = false; should_stop = stop }
    else record {
      code = some rc_ledger_validator_could_not_load_milestone;
      after = hashes;
      should_branch = branch;
      should_stop = true;
    }

-- The return code, `none` for `RC_OK`.
unfoldable pub update_snapshot_milestone : Validator → ℕ → ℕ → Option (Option Retcode)
update_snapshot_milestone lv hash index =
    let seps = solid_entry_points_set lv.malloc lv.initial_snapshot [] in
    elim (dfs_to_past lv.malloc (lv.db.load) (update_snapshot_milestone_do_func lv.malloc) lv.fuel
      hash lv.genesis_hash seps zero_transaction []) [
        | none ↦ none
        | some (fail e w) ↦ some (some e)
        | some (done w) ↦ some (lv.db.update_snapshot_index w.state index)
      ]

-- `valid_delta` and `state` of `get_latest_delta_do_func_params_t`.
pub record Params : Type 0 where
  pub valid_delta : Bool
  pub state : StateDelta

abbrev pub failed : StateDelta → Retcode → Bool → Visit Params
failed state e branch = record {
  code = some e;
  after = record { valid_delta = false; state = state };
  should_branch = branch;
  should_stop = true;
}

-- The values of a bundle, summed by address.
unfoldable pub add_bundle : (ℕ → Bool) → Bundle → StateDelta → Outcome StateDelta
add_bundle malloc bundle state =
    for_each (λ (tx : Transaction). add_or_sum malloc tx.address tx.value) bundle state

abbrev pub is_valid : BundleStatus → Bool
is_valid valid = true
is_valid _ = false

abbrev pub added : Params → Outcome StateDelta → Visit Params
added p (done s) = record {
  code = none;
  after = record p { state = s };
  should_branch = true;
  should_stop = false;
}
added p (fail e s) = failed s e true

-- What follows the validation of a bundle.
unfoldable pub take_bundle : (ℕ → Bool) → Params → Retcode ⊎ (BundleStatus × Bundle) → Visit Params
unfolding add_bundle
take_bundle malloc p (inl e) = failed p.state e true
take_bundle malloc p (inr (status, [])) = record {
  code = none;
  after = record p { valid_delta = false };
  should_branch = true;
  should_stop = true;
}
take_bundle malloc p (inr (status, tx ∷ txs)) =
    if is_valid status then added p (add_bundle malloc (tx ∷ txs) p.state) else record {
      code = none;
      after = record p { valid_delta = false };
      should_branch = true;
      should_stop = true;
    }

unfoldable pub get_latest_delta_do_func : Validator → ℕ → Functor Params
unfolding take_bundle
get_latest_delta_do_func lv latest_snapshot_index hash loaded tx p branch stop =
    if (tx.snapshot_index == 0) || ltb latest_snapshot_index tx.snapshot_index
    then if tx.current_index == 0
      then take_bundle lv.malloc p (bundle_validator_validate lv.kerl lv.sig_digest lv.db hash)
      else record { code = none; after = p; should_branch = true; should_stop = false }
    else record { code = none; after = p; should_branch = false; should_stop = false }

unfoldable pub get_latest_delta :
    Validator → HashSet → StateDelta → ℕ → Option (Outcome (Walk Params))
get_latest_delta lv analyzed_hashes state tip =
    let seps = solid_entry_points_set lv.malloc lv.initial_snapshot analyzed_hashes in
    dfs_to_past lv.malloc (lv.db.load) (get_latest_delta_do_func lv (get_index lv.latest_snapshot))
      lv.fuel tip lv.genesis_hash seps zero_transaction
      (record { valid_delta = true; state = state })

-- What `iota_consensus_ledger_validator_update_snapshot` leaves: the return code, `*has_snapshot` and
-- the latest snapshot.
pub record Update : Type 0 where
  pub code : Option Retcode
  pub has_snapshot : Bool
  pub latest : Snapshot

abbrev pub applied : Outcome Snapshot → Update
applied (done s) = record { code = none; has_snapshot = true; latest = s }
applied (fail e s) = record { code = some e; has_snapshot = true; latest = s }

abbrev pub stopped : Snapshot → Bool → Retcode → Update
stopped latest has_snapshot e = record {
  code = some e;
  has_snapshot = has_snapshot;
  latest = latest;
}

abbrev pub answered : Snapshot → Bool → Update
answered latest has_snapshot = record { code = none; has_snapshot = has_snapshot; latest = latest }

abbrev pub stored : Validator → StateDelta → ℕ → Option Retcode → Update
stored lv delta index (some e) = stopped lv.latest_snapshot true e
stored lv delta index none = applied (apply_patch lv.malloc lv.latest_snapshot delta index)

-- The delta is stored when it is not empty, and applied to the latest snapshot.
unfoldable pub store_and_apply : Validator → StateDelta → ℕ → Update
store_and_apply lv delta index =
    stored lv delta index (if HashMap.size delta == 0 then none else lv.db.store_delta index delta)

abbrev pub milestone_updated : Validator → StateDelta → ℕ → Option (Option Retcode) → Option Update
milestone_updated lv delta index none = none
milestone_updated lv delta index (some (some e)) = some (stopped lv.latest_snapshot true e)
milestone_updated lv delta index (some none) = some (store_and_apply lv delta index)

abbrev pub patched : Validator → ℕ → ℕ → StateDelta → Outcome StateDelta → Option Update
patched lv hash index delta (fail e patch) = some (stopped lv.latest_snapshot false e)
patched lv hash index delta (done patch) =
    if (is_consistent patch).0
    then milestone_updated lv delta index (update_snapshot_milestone lv hash index)
    else some (answered lv.latest_snapshot false)

-- The delta of a milestone, as `get_latest_delta` left it, is let into the ledger when its patch is
-- consistent.
unfoldable pub confirm : Validator → ℕ → ℕ → StateDelta → Option Update
confirm lv hash index delta =
    patched lv hash index delta (create_patch lv.malloc lv.latest_snapshot delta)

-- What follows the walk for the delta of a milestone.
abbrev pub walked : Validator → ℕ → ℕ → Option (Outcome (Walk Params)) → Option Update
walked lv hash index none = none
walked lv hash index (some (fail e w)) = some (stopped lv.latest_snapshot false e)
walked lv hash index (some (done w)) =
    if w.state.valid_delta
    then confirm lv hash index (w.state.state)
    else some (answered lv.latest_snapshot false)

abbrev pub milestone_loaded : Validator → ℕ → ℕ → Retcode ⊎ Option Transaction → Option Update
milestone_loaded lv hash index (inl e) = some (stopped lv.latest_snapshot false e)
milestone_loaded lv hash index (inr none) =
    some (stopped lv.latest_snapshot false rc_ledger_validator_invalid_transaction)
milestone_loaded lv hash index (inr (some tx)) =
    if tx.solid
    then if tx.snapshot_index == 0
      then walked lv hash index (get_latest_delta lv [] [] hash)
      else some (answered lv.latest_snapshot true)
    else some (stopped lv.latest_snapshot false rc_ledger_validator_transaction_not_solid)

unfoldable pub update_snapshot : Validator → ℕ → ℕ → Option Update
update_snapshot lv hash index = milestone_loaded lv hash index (lv.db.load hash)

-- What `iota_consensus_ledger_validator_update_delta` leaves.
pub record Tips : Type 0 where
  pub code : Option Retcode
  pub consistent : Bool
  pub analyzed : HashSet
  pub delta : StateDelta

-- The end of a consistent tip: its state is merged into the delta and its walk into the analyzed
-- hashes.
unfoldable pub merge_tip : (ℕ → Bool) → HashSet → StateDelta → HashSet → StateDelta → Tips
merge_tip malloc analyzed delta visited tip_state =
    elim (StateDelta.merge_patch malloc delta tip_state) [
      | fail e d ↦ record { code = some e; consistent = false; analyzed = analyzed; delta = d }
      | done d ↦ elim (append malloc visited analyzed) [
        | fail e a ↦ record { code = some e; consistent = false; analyzed = a; delta = d }
        | done a ↦ record { code = none; consistent = true; analyzed = a; delta = d }
      ]
    ]

-- The delta so far is applied to the tip's, and the patch of both is judged.
unfoldable pub judge_tip : Validator → HashSet → StateDelta → HashSet → StateDelta → Tips
unfolding merge_tip
judge_tip lv analyzed delta visited tip_state =
    elim (StateDelta.apply_patch lv.malloc tip_state delta) [
      | fail e t ↦ record { code = some e; consistent = false; analyzed = analyzed; delta = delta }
      | done t ↦ elim (create_patch lv.malloc lv.latest_snapshot t) [
        | fail e patch ↦ record {
          code = some e;
          consistent = false;
          analyzed = analyzed;
          delta = delta;
        }
        | done patch ↦
            if (is_consistent patch).0
            then merge_tip lv.malloc analyzed delta visited t
            else record { code = none; consistent = false; analyzed = analyzed; delta = delta }
      ]
    ]

unfoldable pub walked_tip :
    Validator → HashSet → StateDelta → Option (Outcome (Walk Params)) → Option Tips
unfolding judge_tip
walked_tip lv analyzed delta none = none
walked_tip lv analyzed delta (some (fail e w)) =
    some (record { code = some e; consistent = false; analyzed = analyzed; delta = delta })
walked_tip lv analyzed delta (some (done w)) =
    if w.state.valid_delta
    then some (judge_tip lv analyzed delta w.analyzed (w.state.state))
    else some (record { code = none; consistent = false; analyzed = analyzed; delta = delta })

-- The tests before the walk, with the flag `solid` as it is read; the patch and the set of visited
-- hashes start empty.
unfoldable pub update_delta : Validator → HashSet → StateDelta → ℕ → Option Tips
unfolding walked_tip
update_delta lv analyzed delta tip =
    let refused : Retcode → Option Tips = λ e.
      some (record { code = some e; consistent = false; analyzed = analyzed; delta = delta }) in
    elim (lv.db.load tip) [
      | inl e ↦ refused e
      | inr found ↦
          if elim found [ none ↦ lv.unset_solid | some tx ↦ tx.solid ]
          then if contains analyzed tip
            then some
                (record { code = none; consistent = true; analyzed = analyzed; delta = delta })
            else elim (append lv.malloc analyzed []) [
              | fail e visited ↦ refused e
              | done visited ↦ walked_tip lv analyzed delta (get_latest_delta lv visited [] tip)
            ]
          else refused rc_ledger_validator_transaction_not_solid
    ]

-- The loop of `check_consistency`: the return code and the answer.
unfoldable pub check_from :
    Validator → HashSet → StateDelta → HashStack → Option (Option Retcode × Bool)
unfolding update_delta
check_from lv analyzed delta [] = some (none, true)
check_from lv analyzed delta (tip ∷ tips) = elim (update_delta lv analyzed delta tip) [
  | none ↦ none
  | some t ↦ elim (t.code) [
    | some e ↦ some (some e, false)
    | none ↦ if t.consistent then check_from lv t.analyzed t.delta tips else some (none, false)
  ]
]

unfoldable pub check_consistency : Validator → HashStack → Option (Option Retcode × Bool)
unfolding check_from
check_consistency lv hashes = check_from lv [] [] hashes
