-- ===== src/HashMap.antt =====
-- utils/containers/hash/hash_map.c.tpl: a map from 243-trit hashes to 64-bit values. A hash is the
-- number that its trits spell, and a map is the list of its entries in the order in which uthash
-- iterates, which is the order of insertion. `malloc h` tells whether the allocation of the entry
-- for the hash `h` succeeds.
pub mod Lookup
pub mod Keys
pub mod Equal
pub mod Values
pub mod Copy
pub mod Examples
use entangled.Prelude.{
  ℕ, ◌≡◌, Bool, true, false, Option, none, some, List, [], ◌∷◌, ◌++◌, ◌==◌, if◌then◌else◌, length,
}
use entangled.Outcome.{Outcome, done, fail, rc_oom, for_each}

abbrev pub Entry : Type 0
Entry = ℕ × ℕ

abbrev pub HashMap : Type 0
HashMap = List Entry

-- `HASH_FIND`, on the value of the entry.
unfoldable pub find : ℕ → HashMap → Option ℕ
find h [] = none
find h (e ∷ m) = if e.0 == h then some e.1 else find h m

-- `HASH_DEL` of the entry that `HASH_FIND` returns.
unfoldable pub delete : ℕ → HashMap → HashMap
delete h [] = []
delete h (e ∷ m) = if e.0 == h then m else e ∷ delete h m

-- A write to the value of the entry that `HASH_FIND` returns.
unfoldable pub assign : ℕ → ℕ → HashMap → HashMap
assign h v [] = []
assign h v (e ∷ m) = if e.0 == h then (e.0, v) ∷ m else e ∷ assign h v m

-- An entry that is there already keeps its value.
unfoldable pub add : (ℕ → Bool) → ℕ → ℕ → HashMap → Outcome HashMap
add malloc h v m = elim (find h m) [
  | some w ↦ done m
  | none ↦ if malloc h then done (m ++ (h, v) ∷ []) else fail rc_oom m
]

unfoldable pub contains : HashMap → ℕ → Bool
contains m h = elim (find h m) [ none ↦ false | some v ↦ true ]

unfoldable pub remove : ℕ → HashMap → HashMap × Bool
remove h m = elim (find h m) [ none ↦ (m, false) | some v ↦ (delete h m, true) ]

unfoldable pub copy : (ℕ → Bool) → HashMap → HashMap → Outcome HashMap
copy malloc src dst = for_each (λ e. add malloc e.0 e.1) src dst

abbrev pub size : HashMap → ℕ
size = length

-- The loop of `hash_to_{TYPE}_map_equal`.
unfoldable pub all_found : HashMap → HashMap → Bool
all_found [] rhs = true
all_found (e ∷ lhs) rhs =
    let rest = all_found lhs rhs in
    elim (find e.0 rhs) [ none ↦ false | some v ↦ if e.1 == v then rest else false ]

unfoldable pub equal : HashMap → HashMap → Bool
equal lhs rhs = if size lhs == size rhs then all_found lhs rhs else false
