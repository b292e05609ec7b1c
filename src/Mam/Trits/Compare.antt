-- ===== src/Mam/Trits/Compare.antt =====
-- Comparison of trits, mam/trits/trits.c, and equality.
use entangled.Prelude.{
  ◌≡◌, ◌↔◌, ◌≢◌, ◌∙◌, ap, sym, inl, inr, refl, true, false, List, [], ◌∷◌, length, arith,
  Bool-cases, ltb,
}
use entangled.Prelude.Int.{ℤ, pos, pos_part, neg_part, ◌+ℤ◌, neg, int_laws, eq_of_parts}
use entangled.Trinary.Add.{eq_ℤ}
use entangled.Mam.Trits.{grlex_from, cmp_grlex, cmp_eq}

true_not_false : true ≢ false
true_not_false h = cc

pub eq_ℤ_iff : (a b : ℤ) → (eq_ℤ a b ≡ true) ↔ (a ≡ b)
eq_ℤ_iff a b = (λ h. eq_of_parts a b (ground arith), λ p. rw p (ground arith))

difference_zero : (a b : ℤ) → (a +ℤ neg b) ≡ pos 0 → a ≡ b
difference_zero a b h = eq_of_parts a b (omega (int_laws, ap pos_part h, ap neg_part h))

difference_same : (a b : ℤ) → a ≡ b → (a +ℤ neg b) ≡ pos 0
difference_same a b h =
    eq_of_parts (a +ℤ neg b) (pos 0) (omega (int_laws, ap pos_part h, ap neg_part h))

grlex_from-zero : (x y : List ℤ) → length x ≡ length y → grlex_from x y ≡ pos 0 → x ≡ y
grlex_from-zero [] [] h z = refl
grlex_from-zero [] (b ∷ y) h z = absurd (omega arith)
grlex_from-zero (a ∷ x) [] h z = absurd (omega arith)
grlex_from-zero (a ∷ x) (b ∷ y) h z = elim (Bool-cases (eq_ℤ (a +ℤ neg b) (pos 0))) [
  | inl e ↦
      let same = difference_zero a b ((eq_ℤ_iff (a +ℤ neg b) (pos 0)).0 e) in
      let z' : grlex_from x y ≡ pos 0 = rw e at z in
      rw (same, grlex_from-zero x y (omega arith) z') refl
  | inr ne ↦
      let z' : (a +ℤ neg b) ≡ pos 0 = rw ne at z in
      absurd (true_not_false (sym ((eq_ℤ_iff (a +ℤ neg b) (pos 0)).1 z') ∙ ne))
]

grlex_from-same : (x : List ℤ) → grlex_from x x ≡ pos 0
grlex_from-same [] = refl
grlex_from-same (a ∷ x) = rw (difference_same a a refl) (grlex_from-same x)

cmp_eq-true : (x y : List ℤ) → cmp_eq x y ≡ true → x ≡ y
unfolding cmp_eq cmp_grlex
cmp_eq-true x y h = elim (Bool-cases (ltb (length x) (length y))) [
  | inl less ↦ absurd (true_not_false (sym (rw less at h)))
  | inr not_less ↦ elim (Bool-cases (ltb (length y) (length x))) [
    | inl more ↦ absurd (true_not_false (sym (rw (not_less, more) at h)))
    | inr not_more ↦
        grlex_from-zero x y (ground arith)
          (sym ((eq_ℤ_iff (pos 0) (grlex_from x y)).0 (rw (not_less, not_more) at h)))
  ]
]

cmp_eq-same : (z : List ℤ) → cmp_eq z z ≡ true
unfolding cmp_eq cmp_grlex
cmp_eq-same z =
    let b : ltb (length z) (length z) ≡ false = ground arith in rw (b, grlex_from-same z) refl

-- `trits_cmp_eq` decides equality.
pub cmp_eq_iff : (x y : List ℤ) → (cmp_eq x y ≡ true) ↔ (x ≡ y)
cmp_eq_iff x y = (cmp_eq-true x y, λ p. rw p (cmp_eq-same y))
