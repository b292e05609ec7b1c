-- ===== src/Merkle/Shift.antt =====
-- The shifts of an `int` by less than 31 places are the powers of two.
use entangled.Prelude.{
  ℕ, zero, suc, ◌+◌, ◌-◌, ◌*◌, ◌/◌, ◌%◌, ◌≡◌, ◌≤◌, ◌<◌, refl, inl, inr, false, ◌==◌, arith,
  Bool-cases, ==_iff, ap, ◌∙◌,
}
use entangled.Merkle.{two_to, int_shift, int_ones}

pub two_to-positive : (n : ℕ) → 1 ≤ two_to n
two_to-positive zero = omega arith
two_to-positive (suc n) = omega (arith, two_to-positive n)

pub two_to-lt : (a b : ℕ) → a < b → two_to a < two_to b
two_to-lt a zero p = absurd (omega (arith, p))
two_to-lt a (suc b) p = elim (Bool-cases (a == b)) [
  | inl y ↦
      let same : two_to a ≡ two_to b = ap two_to ((==_iff a b).0 y) in
      omega (arith, same, two_to-positive b)
  | inr n ↦ omega (arith, two_to-lt a b (ground (arith, n, p)))
]

pub two_to-small : (n : ℕ) → n < 31 → two_to n < 2147483648
two_to-small n p = two_to-lt n 31 p

below : (n : ℕ) → n < 31 → n % 32 ≡ n
below n p = omega (arith, p)

defined : (n : ℕ) → n < 31 → (n == 31) ≡ false
defined n p = ground (arith, p)

pub int_shift-two_to : (n : ℕ) → n < 31 → int_shift n ≡ two_to n
unfolding int_shift
int_shift-two_to n p = rw (below n p, defined n p) refl

pub int_ones-two_to : (n : ℕ) → n < 31 → int_ones n ≡ two_to n - 1
unfolding int_ones
int_ones-two_to n p = rw (below n p, defined n p) refl

two_to-add : (a b : ℕ) → two_to (a + b) ≡ two_to a * two_to b
two_to-add a zero = grind arith
two_to-add a (suc b) = let ih = two_to-add a b in grind (arith, ih)

quotient : (a b : ℕ) → 1 ≤ a → a * b / a ≡ b
quotient a b p = grind arith

pub int_shift-half :
    (depth cursor k : ℕ)
    → depth < 31
    → depth ≡ cursor + k
    → int_shift depth / two_to (cursor % 64) ≡ two_to k
int_shift-half depth cursor k p e =
    let low : cursor % 64 ≡ cursor = omega (arith, e, p) in
    let split : two_to depth ≡ two_to cursor * two_to k = ap two_to e ∙ two_to-add cursor k in
    rw (int_shift-two_to depth p, low, split)
      (quotient (two_to cursor) (two_to k) (two_to-positive cursor))
