-- ===== src/RecentSeenBytesCache/Examples.antt =====
-- Runs of the cache: a cache of capacity two that drops its oldest entry.
use entangled.Prelude.{ℕ, ◌≡◌, refl, Bool, true, false}
use entangled.Outcome.{left, ◌>>=◌}
use entangled.RecentSeenBytesCache.{
  RecentSeenBytesCache, init, get, put, map_find, map_add, make_room, map_remove_head,
}
use entangled.RecentSeenBytesCache.Laws.{get-put}

abbrev always : ℕ → Bool
always n = true

abbrev full : RecentSeenBytesCache
full = left (put always 1 11 (init 2) >>= put always 2 22)

abbrev after : RecentSeenBytesCache
after = left (put always 3 33 full)

evicted : (get 1 0 after).found ≡ false
unfolding put get init map_find map_add make_room map_remove_head
evicted = refl

kept : (get 2 0 after).hash ≡ 22
unfolding put get init map_find map_add make_room map_remove_head
kept = refl

get-put_example : ((get 3 0 after).found ≡ true) × ((get 3 0 after).hash ≡ (get 3 33 full).hash)
unfolding put init map_find map_add make_room map_remove_head
get-put_example = get-put always 3 33 0 full after refl
