-- ===== src/Trinary/Long/Digits.antt =====
-- The digits that `long_to_trits` writes are those of the number, as many as `min_trits` counts.
use entangled.Prelude.{
  ℕ, zero, suc, ◌+◌, ◌-◌, ◌*◌, ◌/◌, ◌%◌, ◌≡◌, ◌≤◌, ◌<◌, ap, inl, inr, refl, Bool, true, false,
  arith, Bool-cases, ◌==◌, if◌then◌else◌, All, length,
}
use entangled.Prelude.Int.{neg, sub_ℕ}
use entangled.Prelude.Word.{u64_mod, i64_min}
use entangled.Trinary.Trit.{IsTrit, word}
use entangled.Trinary.Long.{digits, trits_to_long}
use entangled.Trinary.Long.Length.{greatest}

-- The pattern of a magnitude with a sign.
abbrev pub signed : Bool → ℕ → ℕ
signed negative v = if negative then (u64_mod - v) % u64_mod else v % u64_mod

digit-IsTrit : (s : Bool) (r : ℕ) → r < 3 → IsTrit (if s then neg (sub_ℕ r 1) else sub_ℕ r 1)
unfolding neg
digit-IsTrit true zero h = inr (inr refl)
digit-IsTrit true (suc zero) h = inr (inl refl)
digit-IsTrit true (suc (suc zero)) h = inl refl
digit-IsTrit true (suc (suc (suc r))) h = absurd (omega arith)
digit-IsTrit false zero h = inl refl
digit-IsTrit false (suc zero) h = inr (inl refl)
digit-IsTrit false (suc (suc zero)) h = inr (inr refl)
digit-IsTrit false (suc (suc (suc r))) h = absurd (omega arith)

-- Every digit is a trit.
pub digits-IsTrit : (n : ℕ) (s : Bool) (v : ℕ) → All IsTrit (digits n s v)
unfolding digits
digits-IsTrit zero s v = tt
digits-IsTrit (suc n) s v = elim (Bool-cases (v == 0)) [
  | inl y ↦ rw y tt
  | inr ne ↦ rw ne (digit-IsTrit s _ (omega arith), digits-IsTrit n s _)
]

-- One digit and the digits above it.
digit_step :
    (s : Bool) (v : ℕ)
    → v ≤ i64_min
    → (signed s ((v + 1) / 3) * 3
          + word (if s then neg (sub_ℕ ((v + 1) % 3) 1) else sub_ℕ ((v + 1) % 3) 1))
        % u64_mod
      ≡ signed s v
unfolding neg
digit_step s v h = ground arith

no_wrap : (v : ℕ) → v ≤ i64_min → (v + 1) % u64_mod ≡ v + 1
no_wrap v h = omega arith

-- Enough digits read back as the number, with its sign.
pub trits_to_long-digits :
    (n : ℕ) (s : Bool) (v : ℕ)
    → v ≤ i64_min
    → v ≤ greatest n
    → trits_to_long (digits n s v) ≡ signed s v
unfolding digits trits_to_long
trits_to_long-digits zero s v b h = ground arith
trits_to_long-digits (suc n) s v b h = elim (Bool-cases (v == 0)) [
  | inl y ↦ rw y (ground arith)
  | inr ne ↦
      rw (ne, no_wrap v b, trits_to_long-digits n s ((v + 1) / 3) (omega arith) (omega arith))
        (digit_step s v b)
]

pub length-digits-le : (n : ℕ) (s : Bool) (v : ℕ) → length (digits n s v) ≤ n
unfolding digits
length-digits-le zero s v = omega arith
length-digits-le (suc n) s v = elim (Bool-cases (v == 0)) [
  | inl y ↦ rw y (omega arith)
  | inr ne ↦ rw ne (omega (arith, length-digits-le n s ((v + 1) % u64_mod / 3)))
]

-- No digit is missing where the number needs them all.
pub length-digits :
    (n : ℕ) (s : Bool) (v : ℕ) → v ≤ i64_min → greatest n < v → length (digits (suc n) s v) ≡ suc n
unfolding digits
length-digits zero s v b h = let ne : (v == 0) ≡ false = ground arith in rw ne refl
length-digits (suc n) s v b h =
    let ne : (v == 0) ≡ false = ground arith in
    rw (ne, no_wrap v b) (ap suc (length-digits n s ((v + 1) / 3) (omega arith) (omega arith)))
