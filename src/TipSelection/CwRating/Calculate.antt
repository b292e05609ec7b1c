-- ===== src/TipSelection/CwRating/Calculate.antt =====
-- `cw_rating_calculate_dfs`: the rating of every transaction in the future of the entry point.
pub mod Exact
pub mod Ratings
use entangled.Prelude.{
  ℕ, suc, ◌+◌, ◌⊎◌, Bool, Option, none, some, List, [], ◌∷◌, ◌==◌, if◌then◌else◌, length, leb,
}
use entangled.Outcome.{Retcode, Outcome, done, fail}
use entangled.Outcome.Retcode.{rc_cw_failed_in_dfs_from_db, rc_cw_failed_in_light_dfs}
use entangled.HashMap.{HashMap}
use entangled.HashMap
use entangled.IndexedMap.{IndexedMap, IndexedEntry}
use entangled.Bitset.{Bitset, bistset_required_size, bitset_reset}
use entangled.TipSelection.CwRating.{Light, dfs_light}
use entangled.TipSelection.CwRating.FromDb.{FromDb, dfs_from_db}

-- The return code and `cw_calc_result`.
pub record Rating : Type 0 where
  pub code : Option Retcode
  pub cw_ratings : HashMap
  pub tx_to_approvers : IndexedMap

-- The approvers of all entries: the pushes that a light walk can make.
unfoldable pub total_approvers : IndexedMap → ℕ
total_approvers [] = 0
total_approvers (e ∷ m) = length e.approvers + total_approvers m

module _ (bit : ℕ → ℕ) (malloc : ℕ → Bool) (approvers : ℕ → Retcode ⊎ List ℕ) where
  abbrev pub added : IndexedMap → (HashMap → Option Rating) → Outcome HashMap → Option Rating
  added m next (fail e r) = some (record { code = some e; cw_ratings = r; tx_to_approvers = m })
  added m next (done r) = next r

  abbrev pub walked :
      IndexedMap → HashMap → ℕ → (HashMap → Option Rating) → Option (Outcome Light) → Option Rating
  walked m r h next none = none
  walked m r h next (some (fail e w)) =
      some (record { code = some rc_cw_failed_in_light_dfs; cw_ratings = r; tx_to_approvers = m })
  walked m r h next (some (done w)) = added m next (HashMap.add malloc h w.subtangle_size r)

  -- The loop over the entries of the map. The words of the bitset are reset before each walk.
  unfoldable pub rate_entries : IndexedMap → Bitset → IndexedMap → HashMap → Option Rating
  rate_entries m bits [] r = some (record { code = none; cw_ratings = r; tx_to_approvers = m })
  rate_entries m bits (e ∷ es) r =
      if e.idx == 0
      then rate_entries m bits es r
      else walked m r e.hash (rate_entries m bits es)
          (dfs_light bit malloc m (total_approvers m + 2) e.hash (bitset_reset bits))

  abbrev pub entry_rated : (ℕ → ℕ → Bool) → IndexedMap → ℕ → HashMap → Option Rating
  entry_rated raw m max_subtangle_size r =
      if leb max_subtangle_size 1
      then some (record { code = none; cw_ratings = r; tx_to_approvers = m })
      else rate_entries m
          (record { raw_bits = raw; size = bistset_required_size max_subtangle_size }) m r

  abbrev pub collected : (ℕ → ℕ → Bool) → ℕ → Option (Outcome FromDb) → Option Rating
  collected raw entry_point none = none
  collected raw entry_point (some (fail e w)) = some (record {
    code = some rc_cw_failed_in_dfs_from_db;
    cw_ratings = [];
    tx_to_approvers = w.tx_to_approvers;
  })
  collected raw entry_point (some (done w)) =
      added w.tx_to_approvers (entry_rated raw w.tx_to_approvers w.subtangle_size)
        (HashMap.add malloc entry_point w.subtangle_size [])

  -- The whole function. `raw` is what the words of the bitset hold before they are first reset.
  unfoldable pub cw_rating_calculate_dfs : (ℕ → ℕ → Bool) → ℕ → ℕ → Option Rating
  cw_rating_calculate_dfs raw fuel entry_point =
      collected raw entry_point (dfs_from_db malloc approvers fuel entry_point)
