-- ===== src/Kerl/BigInt/Compare.antt =====
-- `bigint_cmp` orders arrays of one length as the numbers they stand for.
use entangled.Prelude.{
  ℕ, zero, suc, ◌+◌, ◌*◌, ◌≡◌, ◌<◌, refl, List, [], ◌∷◌, arith, length, if◌then◌else◌, ltb,
}
use entangled.Prelude.Int.{ℤ, pos, negsuc}
use entangled.Kerl.BigInt.{u32_mod, bigint_cmp}
use entangled.Kerl.BigInt.Carry.{IsWords, value}

-- The sign of a comparison.
abbrev pub order : ℕ → ℕ → ℤ
order a b = if ltb a b then negsuc 0 else if ltb b a then pos 1 else pos 0

abbrev first_word : ℕ → ℕ → ℤ → ℤ
first_word l r (pos zero) = order l r
first_word l r (pos (suc n)) = pos (suc n)
first_word l r (negsuc n) = negsuc n

order_step :
    (l r a b : ℕ)
    → l < u32_mod
    → r < u32_mod
    → first_word l r (order a b) ≡ order (l + u32_mod * a) (r + u32_mod * b)
order_step l r a b hl hr = ground arith

-- On 32-bit words in arrays of one length `bigint_cmp` is -1, 0 or 1 as the first number is less
-- than, equal to or greater than the second.
pub bigint_cmp-order :
    (lh rh : List ℕ)
    → IsWords lh
    → IsWords rh
    → length lh ≡ length rh
    → bigint_cmp lh rh ≡ order (value lh) (value rh)
unfolding bigint_cmp value
bigint_cmp-order [] [] hl hr e = refl
bigint_cmp-order [] (r ∷ rh) hl hr e = absurd (omega (arith, e))
bigint_cmp-order (l ∷ lh) [] hl hr e = absurd (omega (arith, e))
bigint_cmp-order (l ∷ lh) (r ∷ rh) hl hr e =
    rw (bigint_cmp-order lh rh hl.1 hr.1 (omega (arith, e)))
      (order_step l r (value lh) (value rh) hl.0 hr.0)
