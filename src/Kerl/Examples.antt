-- ===== src/Kerl/Examples.antt =====
-- Examples of big integers of two words.
use entangled.Prelude.{ℕ, refl, List, [], ◌∷◌, arith}
use entangled.Kerl.BigInt.{bigint_sub}
use entangled.Kerl.BigInt.Carry.{IsWords, IsDifference, bigint_sub-IsDifference}

abbrev small : List ℕ
small = 4294967295 ∷ 1 ∷ []

abbrev great : List ℕ
great = 1 ∷ 4294967295 ∷ []

small-IsWords : IsWords small
small-IsWords = omega arith

great-IsWords : IsWords great
great-IsWords = omega arith

bigint_sub-IsDifference_example : IsDifference great small (bigint_sub great small)
bigint_sub-IsDifference_example =
    bigint_sub-IsDifference great small great-IsWords small-IsWords refl
