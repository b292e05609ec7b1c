-- ===== src/Normalize/Examples.antt =====
-- An example of a hash of trits that are all 1.
use entangled.Prelude.{ℕ, zero, suc, ◌≡◌, refl, ap, inr, arith, All, length, replicate}
use entangled.Prelude.Int.{pos}
use entangled.Trinary.Trit.{IsTrit}
use entangled.Normalize.{normalize_hash}
use entangled.Normalize.Hash.{IsNormalized, normalize_hash-IsNormalized}

ones-trits : (n : ℕ) → All IsTrit (replicate n (pos 1))
ones-trits zero = tt
ones-trits (suc n) = (inr (inr refl), ones-trits n)

length-ones : (n : ℕ) → length (replicate n (pos 1)) ≡ n
length-ones zero = refl
length-ones (suc n) = ap suc (length-ones n)

normalize_hash-IsNormalized_example : IsNormalized 3 (normalize_hash (replicate 243 (pos 1)))
normalize_hash-IsNormalized_example =
    normalize_hash-IsNormalized (replicate 243 (pos 1)) (ones-trits 243)
      (omega (arith, length-ones 243))
