-- ===== src/Trinary/Examples.antt =====
-- Examples of numbers in trits.
use entangled.Prelude.{ℕ, ◌++◌, ◌≡◌, refl, inl, inr, List, [], ◌∷◌, arith, All, length, take, drop}
use entangled.Prelude.Int.{ℤ, pos, negsuc}
use entangled.Prelude.Word.{llabs, neg64}
use entangled.Trinary.Trit.{IsTrit}
use entangled.Trinary.Long.{trits_to_long, long_to_trits, min_trits, min_trits_loop, abs64}
use entangled.Trinary.Long.RoundTrip.{long_to_trits-trits_to_long}
use entangled.Trinary.Bytes.{trits_to_bytes, bytes_to_trits}
use entangled.Trinary.Bytes.RoundTrip.{bytes_to_trits-trits_to_bytes}
use entangled.Trinary.Add.{add_assign}
use entangled.Trinary.Add.Assign.{IsSum, add_assign-IsSum}

-- 5 as trits is 9 - 3 - 1.
abbrev five : List ℤ
five = negsuc 0 ∷ negsuc 0 ∷ pos 1 ∷ []

abbrev two : List ℤ
two = negsuc 0 ∷ pos 1 ∷ pos 0 ∷ []

five-trits : All IsTrit five
five-trits = (inl refl, (inl refl, (inr (inr refl), tt)))

two-trits : All IsTrit two
two-trits = (inl refl, (inr (inr refl), (inr (inl refl), tt)))

add_assign-IsSum_example :
    IsSum five (pos 9) (add_assign five (pos 9)).0 (add_assign five (pos 9)).1
add_assign-IsSum_example = add_assign-IsSum five 9 (omega arith) five-trits

min_test : min_trits 18446744073709551611 ≡ 3
unfolding min_trits min_trits_loop abs64 llabs neg64
min_test = refl

long_to_trits-trits_to_long_example :
    let (size, out) = long_to_trits 18446744073709551611 (pos 0 ∷ pos 0 ∷ pos 0 ∷ pos 1 ∷ []) in
    (trits_to_long (take size out) ≡ 18446744073709551611)
    × All IsTrit (take size out)
    × (length out ≡ 4)
    × (drop 3 out ≡ pos 1 ∷ [])
long_to_trits-trits_to_long_example =
    long_to_trits-trits_to_long 18446744073709551611 3 (pos 0 ∷ pos 0 ∷ pos 0 ∷ pos 1 ∷ [])
      (omega arith) (omega arith) (omega (arith, min_test)) (omega arith) (omega (arith, min_test))

abbrev eight : List ℤ
eight = five ++ (two ++ (pos 1 ∷ negsuc 0 ∷ []))

eight-trits : All IsTrit eight
eight-trits = (
  inl refl,
  (
    inl refl,
    (
      inr (inr refl),
      (inl refl, (inr (inr refl), (inr (inl refl), (inr (inr refl), (inl refl, tt))))),
    ),
  ),
)

bytes_to_trits-trits_to_bytes_example :
    (bytes_to_trits (trits_to_bytes eight) 8 ≡ eight) × (length (trits_to_bytes eight) ≡ 2)
bytes_to_trits-trits_to_bytes_example = bytes_to_trits-trits_to_bytes eight eight-trits

-- "IOTA"
abbrev iota : List ℕ
iota = 73 ∷ 79 ∷ 84 ∷ 65 ∷ []
