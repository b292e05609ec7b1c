-- ===== src/HashMap/Examples.antt =====
-- Examples of maps with two entries.
use entangled.Prelude.{ℕ, ◌≡◌, ◌↔◌, refl, true, [], ◌∷◌}
use entangled.HashMap.{HashMap, find, equal}
use entangled.HashMap.Equal.{equal_iff}

abbrev one_two : HashMap
one_two = (1, 10) ∷ (2, 20) ∷ []

abbrev two_one : HashMap
two_one = (2, 20) ∷ (1, 10) ∷ []

equal_iff_example : (equal one_two two_one ≡ true) ↔ ((h : ℕ) → find h one_two ≡ find h two_one)
unfolding find
equal_iff_example = equal_iff one_two two_one (refl, (refl, tt)) (refl, (refl, tt))
