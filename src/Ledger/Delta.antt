-- ===== src/Ledger/Delta.antt =====
-- The walk for a delta leaves a map with distinct addresses and 64-bit values.
use entangled.Prelude.{
  ℕ, ◌≡◌, ◌<◌, ◌⊎◌, inl, inr, Bool, Option, none, some, [], ◌∷◌, ◌==◌, ◌||◌, ltb, All, chosen,
}
use entangled.Prelude.Word.{u64_mod}
use entangled.Outcome.{Retcode, Outcome, done, fail, left, for_each, >>=-left}
use entangled.HashSet.{HashSet}
use entangled.StateDelta.{StateDelta, add_or_sum}
use entangled.StateDelta.Balance.{IsDelta, add_or_sum-IsDelta}
use entangled.Transaction.{Transaction, BundleStatus}
use entangled.Bundle.{Bundle}
use entangled.Tangle.{zero_transaction}
use entangled.Tangle.Traversal.{Visit, Walk}
use entangled.Tangle.Traversal.Invariant.{dfs_to_past-Leaves}
use entangled.Tangle.BundleLoad.{bundle_validator_validate}
use entangled.Tangle.BundleLoad.Values.{bundle_validator_validate-FromDb}
use entangled.Snapshot.{get_index}
use entangled.Ledger.{
  Validator, Params, added, add_bundle, take_bundle, is_valid, get_latest_delta_do_func,
  get_latest_delta, solid_entry_points_set,
}

pub nil-IsDelta : IsDelta []
nil-IsDelta = record { distinct = tt; words = tt }

abbrev IsWord : Transaction → Type 0
IsWord tx = tx.value < u64_mod

-- A bundle that was found has 64-bit values.
abbrev FromDbWord : Retcode ⊎ (BundleStatus × Bundle) → Type 0
FromDbWord (inl e) = Unit
FromDbWord (inr (status, b)) = All IsWord b

add_bundle-IsDelta :
    (malloc : ℕ → Bool) (b : Bundle) (s : StateDelta)
    → All IsWord b
    → IsDelta s
    → IsDelta (left (add_bundle malloc b s))
unfolding add_bundle for_each
add_bundle-IsDelta malloc [] s w d = d
add_bundle-IsDelta malloc (tx ∷ txs) s w d =
    >>=-left IsDelta (add_or_sum malloc tx.address tx.value s) (add_bundle malloc txs)
      (add_or_sum-IsDelta malloc tx.address tx.value s w.0 d)
      (λ t e. add_bundle-IsDelta malloc txs t w.1 e)

added-IsDelta :
    (p : Params) (o : Outcome StateDelta) → IsDelta (left o) → IsDelta (added p o).after.state
added-IsDelta p (done s) d = d
added-IsDelta p (fail e s) d = d

take_bundle-IsDelta :
    (malloc : ℕ → Bool) (p : Params) (r : Retcode ⊎ (BundleStatus × Bundle))
    → FromDbWord r
    → IsDelta p.state
    → IsDelta (take_bundle malloc p r).after.state
unfolding take_bundle
take_bundle-IsDelta malloc p (inl e) w d = d
take_bundle-IsDelta malloc p (inr (status, [])) w d = d
take_bundle-IsDelta malloc p (inr (status, tx ∷ txs)) w d =
    chosen (λ (v : Visit Params). IsDelta v.after.state) (is_valid status) _ _
      (λ y.
        added-IsDelta p (add_bundle malloc (tx ∷ txs) p.state)
          (add_bundle-IsDelta malloc (tx ∷ txs) p.state w d))
      (λ n. d)

abbrev ReadsWords : Validator → Type 0
ReadsWords lv = (h : ℕ) (tx : Transaction) → lv.db.load h ≡ inr (some tx) → tx.value < u64_mod

do_func-IsDelta :
    (lv : Validator) (index : ℕ)
    → ReadsWords lv
    → (h : ℕ) (loaded : Bool) (tx : Transaction) (p : Params) (b s : Bool) → IsDelta p.state
    → IsDelta (get_latest_delta_do_func lv index h loaded tx p b s).after.state
unfolding get_latest_delta_do_func
do_func-IsDelta lv index words h loaded tx p b s d =
    chosen (λ (v : Visit Params). IsDelta v.after.state)
      ((tx.snapshot_index == 0) || ltb index tx.snapshot_index) _ _
      (λ y.
        chosen (λ (v : Visit Params). IsDelta v.after.state) (tx.current_index == 0) _ _
          (λ z.
            take_bundle-IsDelta lv.malloc p
              (bundle_validator_validate lv.kerl lv.sig_digest lv.db h)
              (bundle_validator_validate-FromDb IsWord lv.db words lv.kerl lv.sig_digest h) d)
          (λ z. d))
      (λ n. d)

-- The data that the walk leaves hold a delta.
abbrev pub LeavesDelta : Option (Outcome (Walk Params)) → Type 0
LeavesDelta none = Unit
LeavesDelta (some r) = IsDelta (left r).state.state

pub get_latest_delta-IsDelta :
    (lv : Validator) (analyzed : HashSet) (s : StateDelta) (tip : ℕ)
    → ((h : ℕ) (tx : Transaction) → lv.db.load h ≡ inr (some tx) → tx.value < u64_mod)
    → IsDelta s
    → LeavesDelta (get_latest_delta lv analyzed s tip)
unfolding get_latest_delta
get_latest_delta-IsDelta lv analyzed s tip words d =
    dfs_to_past-Leaves (λ (p : Params). IsDelta p.state) lv.malloc (lv.db.load)
      (get_latest_delta_do_func lv (get_index lv.latest_snapshot))
      (do_func-IsDelta lv (get_index lv.latest_snapshot) words) lv.fuel tip lv.genesis_hash
      (solid_entry_points_set lv.malloc lv.initial_snapshot analyzed) zero_transaction _ d
