-- ===== src/HashSet.antt =====
-- utils/containers/hash/hash_set.c.tpl and hash_stack.c.tpl: a set of hashes in the order of
-- insertion, which is the order in which uthash iterates, and a stack with its top first.
pub mod Laws
pub mod Fifo
use entangled.Prelude.{ℕ, Bool, true, false, List, [], ◌∷◌, ◌++◌, ◌-◌, ◌==◌, if◌then◌else◌, length}
use entangled.Outcome.{Outcome, done, fail, ◌>>=◌, for_each}
use entangled.Outcome.Retcode.{rc_oom}

abbrev pub HashSet : Type 0
HashSet = List ℕ

abbrev pub size : HashSet → ℕ
size = length

unfoldable pub contains : HashSet → ℕ → Bool
contains [] h = false
contains (x ∷ s) h = let rest = contains s h in if x == h then true else rest

unfoldable pub add : (ℕ → Bool) → ℕ → HashSet → Outcome HashSet
add malloc h s =
    if contains s h then done s else if malloc h then done (s ++ h ∷ []) else fail rc_oom s

-- `HASH_DEL` of the entry that `HASH_FIND` returns.
unfoldable pub remove : ℕ → HashSet → HashSet
remove h [] = []
remove h (x ∷ s) = if x == h then s else x ∷ remove h s

-- `hash_set_remove_entry(set, *set)`: the head of a uthash table is its oldest entry.
unfoldable pub remove_first : HashSet → HashSet
remove_first [] = []
remove_first (x ∷ s) = s

unfoldable pub append : (ℕ → Bool) → HashSet → HashSet → Outcome HashSet
append malloc set1 set2 = for_each (add malloc) set1 set2

-- The entry that `hash_set_random_hash` stops at, with the drawn index.
unfoldable pub nth : HashSet → ℕ → ℕ → ℕ
nth [] index hash = hash
nth (x ∷ s) index hash = let rest = nth s (index - 1) hash in if index == 0 then x else rest

abbrev pub HashStack : Type 0
HashStack = List ℕ

unfoldable pub push : (ℕ → Bool) → ℕ → HashStack → Outcome HashStack
push malloc h s = if malloc h then done (h ∷ s) else fail rc_oom s
