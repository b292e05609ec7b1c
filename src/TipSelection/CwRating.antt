-- ===== src/TipSelection/CwRating.antt =====
-- ciri/consensus/tip_selection/cw_rating_calculator/cw_rating_dfs_impl.c: the cumulative weight of
-- the transactions in the future of an entry point. The query for the approvers of a hash is a
-- parameter. A loop takes fuel, and `none` is a loop that the fuel was too little for.
pub mod FromDb
pub mod Calculate
pub mod Visits
pub mod Counts
use entangled.Prelude.{
  ℕ, zero, suc, ◌+◌, ◌⊎◌, inl, inr, Bool, true, false, Option, none, some, List, [], ◌∷◌, ◌++◌,
  ◌==◌, if◌then◌else◌, leb,
}
use entangled.Outcome.{Retcode, Outcome, done, fail, for_each}
use entangled.Outcome.Retcode.{rc_cw_failed_in_dfs_from_db, rc_cw_failed_in_light_dfs}
use entangled.HashSet.{HashSet, HashStack, push}
use entangled.HashSet
use entangled.HashMap.{HashMap}
use entangled.HashMap
use entangled.IndexedMap.{IndexedMap, IndexedEntry, find, contains, add_new_set}
use entangled.Bitset.{Bitset, bistset_required_size, bitset_reset, bitset_is_set, bitset_set_true}

-- The local variables of `do_dfs_light`.
pub record Light : Type 0 where
  pub stack : HashStack
  pub visited : Bitset
  pub subtangle_size : ℕ

pub data Round : Type 0 where
  halted : Outcome Light → Round
  going : Light → Round

module _ (bit : ℕ → ℕ) (malloc : ℕ → Bool) (m : IndexedMap) where
  abbrev pub pushed : Light → Outcome HashStack → Round
  pushed w (done s) = going (record w { stack = s })
  pushed w (fail e s) = halted (fail e (record w { stack = s }))

  -- A transaction that was not visited is counted, and its approvers are pushed.
  unfoldable pub visit : Light → IndexedEntry → Round
  visit w e =
      let w' : Light = record w {
        subtangle_size = suc w.subtangle_size;
        visited = bitset_set_true bit w.visited e.idx;
      } in
      pushed w' (for_each (push malloc) e.approvers w.stack)

  abbrev pub entry_found : Light → Option IndexedEntry → Round
  entry_found w none = going w
  entry_found w (some e) = if bitset_is_set bit w.visited e.idx then going w else visit w e

  abbrev pub peeked : Light → HashStack → Round
  peeked w [] = halted (done w)
  peeked w (h ∷ rest) = entry_found (record w { stack = rest }) (find m h)

  unfoldable pub round : Light → Round
  round w = peeked w w.stack

  abbrev pub continued : (Light → Option (Outcome Light)) → Round → Option (Outcome Light)
  continued next (halted r) = some r
  continued next (going w) = next w

  unfoldable pub run : ℕ → Light → Option (Outcome Light)
  run zero w = none
  run (suc fuel) w = continued (run fuel) (round w)

  abbrev pub entered : ℕ → Light → Outcome HashStack → Option (Outcome Light)
  entered fuel w (fail e s) = some (fail e (record w { stack = s }))
  entered fuel w (done s) = run fuel (record w { stack = s })

  -- `cw_rating_dfs_do_dfs_light`.
  unfoldable pub dfs_light : ℕ → ℕ → Bitset → Option (Outcome Light)
  dfs_light fuel ep visited =
      entered fuel (record { stack = []; visited = visited; subtangle_size = 0 })
        (push malloc ep [])
