-- ===== src/HashMap/Keys.antt =====
-- No hash is listed twice, and every primitive keeps it so.
use entangled.Prelude.{ℕ, ◌≡◌, refl, none, [], ◌∷◌, ◌++◌, arith, ◌==◌, if◌then◌else◌}
use entangled.HashMap.{HashMap, find, delete, assign}
use entangled.HashMap.Lookup.{find-append, find-assign, find-delete_ne}

abbrev pub Distinct : HashMap → Type 0
Distinct [] = Unit
Distinct (e ∷ m) = (find e.0 m ≡ none) × Distinct m

pub append-Distinct :
    (h v : ℕ) (m : HashMap) → Distinct m → find h m ≡ none → Distinct (m ++ (h, v) ∷ [])
unfolding find
append-Distinct h v [] d n = (refl, tt)
append-Distinct h v (e ∷ m) d n = ground (arith, find-append e.0 h v m, append-Distinct h v m d.1)

pub assign-Distinct : (h v : ℕ) (m : HashMap) → Distinct m → Distinct (assign h v m)
unfolding find assign
assign-Distinct h v [] d = tt
assign-Distinct h v (e ∷ m) d = ground (arith, find-assign e.0 h v m, assign-Distinct h v m d.1)

pub delete-Distinct : (h : ℕ) (m : HashMap) → Distinct m → Distinct (delete h m)
unfolding find delete
delete-Distinct h [] d = tt
delete-Distinct h (e ∷ m) d = ground (arith, find-delete_ne e.0 h m, delete-Distinct h m d.1)

pub find-delete_self : (h : ℕ) (m : HashMap) → Distinct m → find h (delete h m) ≡ none
unfolding find delete
find-delete_self h [] d = refl
find-delete_self h (e ∷ m) d = ground (arith, find-delete_self h m d.1)

pub find-delete :
    (h k : ℕ) (m : HashMap) → Distinct m → find h (delete k m) ≡ (if k == h then none else find h m)
find-delete h k m d = ground (arith, find-delete_ne h k m, find-delete_self k m d)
