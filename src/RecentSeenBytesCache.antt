-- ===== src/RecentSeenBytesCache.antt =====
-- ciri/node/recent_seen_bytes_cache.c: the hashes of the transactions whose bytes the node saw
-- last, by a digest of the bytes, with the map that utils/containers/map.c.tpl makes for it: its
-- entries in the order of insertion, the oldest first. `malloc` tells whether the three
-- allocations for a digest succeed.
pub mod Laws
pub mod Bounds
pub mod Examples
use entangled.Prelude.{
  ℕ, ◌+◌, ◌%◌, ◌^◌, Bool, true, false, Option, none, some, List, [], ◌∷◌, ◌++◌, ◌==◌, if◌then◌else◌,
  leb, length,
}
use entangled.Outcome.{Outcome, done, fail, ◌>>=◌}
use entangled.Outcome.Retcode.{rc_oom}

pub record Entry : Type 0 where
  pub key : ℕ
  pub value : ℕ

pub record RecentSeenBytesCache : Type 0 where
  pub map : List Entry
  pub capacity : ℕ
  pub hit : ℕ
  pub miss : ℕ

unfoldable pub map_find : List Entry → ℕ → Option Entry
map_find [] key = none
map_find (e ∷ map) key = if e.key == key then some e else map_find map key

-- The entry removed is the one `map->map` points to, the head, if there is one.
unfoldable pub map_remove_head : List Entry → List Entry
map_remove_head [] = []
map_remove_head (e ∷ map) = map

-- No test whether the key is there.
unfoldable pub map_add : (ℕ → Bool) → ℕ → ℕ → List Entry → Outcome (List Entry)
map_add malloc key value map =
    if malloc key then done (map ++ record { key = key; value = value } ∷ []) else fail rc_oom map

unfoldable pub init : ℕ → RecentSeenBytesCache
init capacity = record { map = []; capacity = capacity; hit = 0; miss = 0 }

unfoldable pub destroy : RecentSeenBytesCache → RecentSeenBytesCache
destroy c = record c { map = [] }

-- What `get` gives back: the two values passed by reference and the cache.
pub record Lookup : Type 0 where
  pub hash : ℕ
  pub found : Bool
  pub cache : RecentSeenBytesCache

-- `old` is what the caller's buffer held.
unfoldable pub get : ℕ → ℕ → RecentSeenBytesCache → Lookup
get digest old c = elim (map_find c.map digest) [
  | some e ↦ record {
    hash = e.value;
    found = true;
    cache = record c { hit = (c.hit + 1) % 2 ^ 64 };
  }
  | none ↦ record { hash = old; found = false; cache = record c { miss = (c.miss + 1) % 2 ^ 64 } }
]

abbrev with_map : RecentSeenBytesCache → Outcome (List Entry) → Outcome RecentSeenBytesCache
with_map c (done m) = done (record c { map = m })
with_map c (fail e m) = fail e (record c { map = m })

unfoldable pub make_room : ℕ → List Entry → List Entry
make_room capacity map = if leb capacity (length map) then map_remove_head map else map

unfoldable pub put : (ℕ → Bool) → ℕ → ℕ → RecentSeenBytesCache → Outcome RecentSeenBytesCache
put malloc digest hash c = elim (map_find c.map digest) [
  | some e ↦ done c
  | none ↦ with_map c (map_add malloc digest hash (make_room c.capacity c.map))
]
