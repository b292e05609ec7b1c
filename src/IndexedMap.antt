-- ===== src/IndexedMap.antt =====
-- utils/hash_indexed_map.c: a map from a hash to the set of hashes of its approvers and an index,
-- in the order of insertion.
pub mod Laws
use entangled.Prelude.{
  ℕ, Bool, true, false, Option, none, some, List, [], ◌∷◌, ◌++◌, ◌==◌, if◌then◌else◌,
}
use entangled.Outcome.{Outcome, done, fail}
use entangled.Outcome.Retcode.{rc_oom}
use entangled.HashSet.{HashSet}

pub record IndexedEntry : Type 0 where
  pub hash : ℕ
  pub approvers : HashSet
  pub idx : ℕ

abbrev pub IndexedMap : Type 0
IndexedMap = List IndexedEntry

unfoldable pub find : IndexedMap → ℕ → Option IndexedEntry
find [] h = none
find (e ∷ m) h = if e.hash == h then some e else find m h

unfoldable pub contains : IndexedMap → ℕ → Bool
contains m h = elim (find m h) [ none ↦ false | some e ↦ true ]

-- The new entry has no approvers; no test whether the hash is there.
unfoldable pub add_new_set : (ℕ → Bool) → IndexedMap → ℕ → ℕ → Outcome IndexedMap
add_new_set malloc m h index =
    if malloc h
    then done (m ++ record { hash = h; approvers = []; idx = index } ∷ [])
    else fail rc_oom m
