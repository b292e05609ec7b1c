-- ===== src/Kerl/BigInt/Carry.antt =====
-- Addition and subtraction of big integers are exact up to the carry out of the last word.
use entangled.Prelude.{
  ℕ, zero, suc, ◌+◌, ◌*◌, ◌≡◌, ◌<◌, refl, ap, chosen, Bool, true, false, List, [], ◌∷◌, Option,
  none, some, arith, All, length,
}
use entangled.Kerl.BigInt.{u32_mod, full_add, not32, bigint_not, add_from, sub_from, bigint_sub}

-- Every word is below 2^32.
abbrev pub IsWords : List ℕ → Type 0
IsWords = All (λ w. w < u32_mod)

unfoldable pub value : List ℕ → ℕ
value [] = 0
value (w ∷ ws) = w + u32_mod * value ws

-- The number of values of `n` words, 2^(32 n).
pub radix : ℕ → ℕ
radix zero = 1
radix (suc n) = u32_mod * radix n

abbrev pub bit : Bool → ℕ
bit true = 1
bit false = 0

full_add-sum :
    (c : Bool) (l r : ℕ)
    → l < u32_mod
    → r < u32_mod
    → let (d, v) = full_add c l r in (v < u32_mod) × (v + u32_mod * bit d ≡ l + r + bit c)
unfolding full_add
full_add-sum true l r hl hr = ground arith
full_add-sum false l r hl hr = ground arith

place : (k : ℕ) (d : Bool) → u32_mod * k * bit d ≡ u32_mod * (k * bit d)
place k true = omega arith
place k false = omega arith

-- The loop of `bigint_add`, over 32-bit words in arrays of one length and with any carry in,
-- leaves words in an array of that length, which with the carry out are the exact sum.
pub add_from-sum :
    (c : Bool) (base rh : List ℕ)
    → IsWords base
    → IsWords rh
    → length base ≡ length rh
    → let (d, out) = add_from c base rh in
      IsWords out
      × (length out ≡ length base)
      × (value out + radix (length base) * bit d ≡ value base + value rh + bit c)
unfolding add_from value radix
add_from-sum c [] [] hb hr e = (tt, refl, omega arith)
add_from-sum c [] (r ∷ rh) hb hr e = absurd (omega (arith, e))
add_from-sum c (b ∷ base) [] hb hr e = absurd (omega (arith, e))
add_from-sum c (b ∷ base) (r ∷ rh) hb hr e =
    let step = full_add-sum c b r hb.0 hr.0 in
    let ih = add_from-sum (full_add c b r).0 base rh hb.1 hr.1 (omega (arith, e)) in
    (
      (step.0, ih.0),
      ap suc ih.1,
      omega (
        arith,
        place (radix (length base)) (add_from (full_add c b r).0 base rh).0,
        step.1,
        ih.2,
      ),
    )

not-value :
    (rh : List ℕ)
    → IsWords rh
    → IsWords (bigint_not rh) × (value (bigint_not rh) + value rh + 1 ≡ radix (length rh))
unfolding bigint_not value radix
not-value [] h = (tt, refl)
not-value (r ∷ rh) h =
    let ih = not-value rh h.1 in ((omega (arith, h.0), ih.0), omega (arith, h.0, ih.1))

length-not : (rh : List ℕ) → length (bigint_not rh) ≡ length rh
unfolding bigint_not
length-not [] = refl
length-not (r ∷ rh) = ap suc (length-not rh)

sub_from-add : (c : Bool) (base rh : List ℕ) → sub_from c base rh ≡ add_from c base (bigint_not rh)
unfolding sub_from add_from bigint_not
sub_from-add c [] [] = refl
sub_from-add c [] (r ∷ rh) = refl
sub_from-add c (b ∷ base) [] = refl
sub_from-add c (b ∷ base) (r ∷ rh) = rw (sub_from-add (full_add c b (not32 r)).0 base rh) refl

value-lt : (ws : List ℕ) → IsWords ws → value ws < radix (length ws)
unfolding value radix
value-lt [] h = omega arith
value-lt (w ∷ ws) h = omega (arith, h.0, value-lt ws h.1)

set_bit : (b : Bool) (k : ℕ) → b ≡ true → k * bit b ≡ k
set_bit true k e = omega arith
set_bit false k e = cc

clear_bit : (b : Bool) (k : ℕ) → b ≡ false → k * bit b ≡ 0
clear_bit true k e = cc
clear_bit false k e = omega arith

-- No result exactly when the second number is the greater, else the words of the difference.
pub IsDifference : List ℕ → List ℕ → Option (List ℕ) → Type 0
IsDifference base rh none = value base < value rh
IsDifference base rh (some out) =
    IsWords out × (length out ≡ length base) × (value out + value rh ≡ value base)

-- `bigint_sub` on 32-bit words in arrays of one length returns the words of the difference, or
-- nothing, which is where the code asserts, when the second number is the greater.
pub bigint_sub-IsDifference :
    (base rh : List ℕ)
    → IsWords base
    → IsWords rh
    → length base ≡ length rh
    → IsDifference base rh (bigint_sub base rh)
unfolding bigint_sub IsDifference
bigint_sub-IsDifference base rh hb hr e =
    let inverse = not-value rh hr in
    let (words, same, sum) =
      add_from-sum true base (bigint_not rh) hb inverse.0 (omega (arith, e, length-not rh)) in
    rw (sub_from-add true base rh) (
      chosen (IsDifference base rh) (add_from true base (bigint_not rh)).0 _ none
        (λ y. (
          words,
          same,
          omega (
            arith,
            inverse.1,
            set_bit (add_from true base (bigint_not rh)).0 (radix (length base)) y,
            sum,
            ap radix e,
          ),
        ))
        (λ z. omega (
          arith,
          value-lt (add_from true base (bigint_not rh)).1 words,
          ap radix same,
          inverse.1,
          clear_bit (add_from true base (bigint_not rh)).0 (radix (length base)) z,
          sum,
          ap radix e,
        )))
