-- ===== src/HashMap/Lookup.antt =====
-- What each primitive of the map does to every lookup.
use entangled.Prelude.{ℕ, ◌≡◌, ◌≢◌, refl, none, some, [], ◌∷◌, ◌++◌, arith, ◌==◌, if◌then◌else◌}
use entangled.HashMap.{HashMap, find, delete, assign}

pub find-append :
    (h k v : ℕ) (m : HashMap)
    → find h (m ++ (k, v) ∷ [])
      ≡ elim (find h m) [ some w ↦ some w | none ↦ if k == h then some v else none ]
unfolding find
find-append h k v [] = ground arith
find-append h k v (e ∷ m) = ground (arith, find-append h k v m)

pub find-assign :
    (h k v : ℕ) (m : HashMap)
    → find h (assign k v m)
      ≡ (if k == h then (elim (find h m) [ some w ↦ some v | none ↦ none ]) else find h m)
unfolding find assign
find-assign h k v [] = ground arith
find-assign h k v (e ∷ m) = ground (arith, find-assign h k v m)

pub find-delete_ne : (h k : ℕ) (m : HashMap) → h ≢ k → find h (delete k m) ≡ find h m
unfolding find delete
find-delete_ne h k [] ne = refl
find-delete_ne h k (e ∷ m) ne = ground (arith, find-delete_ne h k m ne)
