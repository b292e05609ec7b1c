-- ===== src/RecentSeenBytesCache/Bounds.antt =====
-- The bound on the number of entries.
use entangled.Prelude.{
  ℕ, suc, ◌≡◌, ◌≤◌, ◌<◌, refl, inl, inr, Bool, List, [], ◌∷◌, ◌++◌, arith, length, Bool-cases,
  Option-cases, ap,
}
use entangled.Outcome.{left}
use entangled.RecentSeenBytesCache.Laws.{put-known, put-unknown}
use entangled.RecentSeenBytesCache.{
  RecentSeenBytesCache, Entry, map_find, map_remove_head, make_room, put,
}

length-make_room :
    (capacity : ℕ) (m : List Entry)
    → 0 < capacity
    → length m ≤ capacity
    → length (make_room capacity m) < capacity
unfolding make_room map_remove_head
length-make_room capacity [] p b = ground arith
length-make_room capacity (e ∷ m) p b = ground arith

length-append : (m : List Entry) (e : Entry) → length (m ++ e ∷ []) ≡ suc (length m)
length-append [] e = refl
length-append (x ∷ m) e = ap suc (length-append m e)

-- An insertion into a cache of a positive capacity that has at most that many entries leaves at
-- most that many, also when its allocations fail.
put-bounded :
    (malloc : ℕ → Bool) (digest hash : ℕ) (c : RecentSeenBytesCache)
    → 0 < c.capacity
    → length c.map ≤ c.capacity
    → length (left (put malloc digest hash c)).map ≤ c.capacity
put-bounded malloc digest hash c p b = elim (Option-cases (map_find c.map digest)) [
  | inl n ↦ elim (Bool-cases (malloc digest)) [
    | inl y ↦
        rw (put-unknown malloc digest hash c n, y)
          (rw (length-append (make_room c.capacity c.map) record { key = digest; value = hash })
            (length-make_room c.capacity c.map p b))
    | inr f ↦
        rw (put-unknown malloc digest hash c n, f)
          (omega (arith, length-make_room c.capacity c.map p b))
  ]
  | inr (e, s) ↦ rw (put-known malloc digest hash c e s) b
]
