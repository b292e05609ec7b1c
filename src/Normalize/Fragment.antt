-- ===== src/Normalize/Fragment.antt =====
-- A normalized fragment sums to 0, and its trytes stay in range.
use entangled.Prelude.{
  ℕ, zero, suc, ◌+◌, ◌*◌, ◌≡◌, ◌≤◌, ◌<◌, ap, refl, inl, inr, true, false, List, [], ◌∷◌, arith, All,
  length, chosen, Bool-cases,
}
use entangled.Prelude.Int.{ℤ, pos, negsuc, pos_part, neg_part, ◌+ℤ◌, ◌≤ℤ◌, ltb_ℤ, scale, int_laws}
use entangled.Trinary.Trit.{IsTrit}
use entangled.Normalize.{
  tryte_value_max, tryte_value_min, sum, lower, raise, lower_times, raise_times, normalize_fragment,
  fragment_trytes, tryte_value,
}

abbrev pub IsTryte : ℤ → Type 0
IsTryte t = (tryte_value_min ≤ℤ t) × (t ≤ℤ tryte_value_max)

abbrev pub AreTrytes : List ℤ → Type 0
AreTrytes = All IsTryte

abbrev IsStep : List ℤ → ℤ → List ℤ → Type 0
IsStep ts d out = AreTrytes out × (length out ≡ length ts) × (sum out ≡ sum ts +ℤ d)

at_least : (t : ℤ) → IsTryte t → ltb_ℤ tryte_value_min t ≡ false → t ≡ tryte_value_min
at_least t h e = ground arith

above_least : (t : ℤ) → IsTryte t → ltb_ℤ tryte_value_min t ≡ true → IsTryte (t +ℤ negsuc 0)
unfolding ◌+ℤ◌
above_least t h e = ground arith

at_most : (t : ℤ) → IsTryte t → ltb_ℤ t tryte_value_max ≡ false → t ≡ tryte_value_max
at_most t h e = ground arith

below_most : (t : ℤ) → IsTryte t → ltb_ℤ t tryte_value_max ≡ true → IsTryte (t +ℤ pos 1)
unfolding ◌+ℤ◌
below_most t h e = ground arith

-- `lower` takes 1 from the sum, unless all trytes are at their least.
lower_lem :
    (ts : List ℤ)
    → AreTrytes ts
    → neg_part (sum ts) < 13 * length ts + pos_part (sum ts)
    → IsStep ts (negsuc 0) (lower ts)
unfolding lower sum
lower_lem [] h p = absurd (omega (arith, p))
lower_lem (t ∷ ts) h p = elim (Bool-cases (ltb_ℤ tryte_value_min t)) [
  | inl y ↦ rw y ((above_least t h.0 y, h.1), refl, omega int_laws)
  | inr n ↦
      let ih =
        lower_lem ts h.1
          (omega (int_laws, ap neg_part (at_least t h.0 n), ap pos_part (at_least t h.0 n), p)) in
      rw n ((h.0, ih.0), ap suc ih.1, omega (int_laws, ap pos_part ih.2, ap neg_part ih.2))
]

raise_lem :
    (ts : List ℤ)
    → AreTrytes ts
    → pos_part (sum ts) < 13 * length ts + neg_part (sum ts)
    → IsStep ts (pos 1) (raise ts)
unfolding raise sum
raise_lem [] h p = absurd (omega (arith, p))
raise_lem (t ∷ ts) h p = elim (Bool-cases (ltb_ℤ t tryte_value_max)) [
  | inl y ↦ rw y ((below_most t h.0 y, h.1), refl, omega int_laws)
  | inr n ↦
      let ih =
        raise_lem ts h.1
          (omega (int_laws, ap neg_part (at_most t h.0 n), ap pos_part (at_most t h.0 n), p)) in
      rw n ((h.0, ih.0), ap suc ih.1, omega (int_laws, ap pos_part ih.2, ap neg_part ih.2))
]

-- Trytes in the same number, with the sum 0.
abbrev pub IsNormal : List ℤ → List ℤ → Type 0
IsNormal ts out = AreTrytes out × (length out ≡ length ts) × (sum out ≡ pos 0)

lower_times_lem :
    (n : ℕ) (ts : List ℤ) → AreTrytes ts → sum ts ≡ pos n → IsNormal ts (lower_times n ts)
unfolding lower_times
lower_times_lem zero ts h e = (h, refl, e)
lower_times_lem (suc n) ts h e =
    let step = lower_lem ts h (omega (arith, ap pos_part e, ap neg_part e)) in
    let (a, b, c) =
      lower_times_lem n (lower ts) step.0
        (omega (int_laws, ap pos_part e, ap neg_part e, ap pos_part step.2, ap neg_part step.2)) in
    (a, omega (arith, b, step.1), c)

raise_times_lem :
    (n : ℕ) (ts : List ℤ) → AreTrytes ts → sum ts +ℤ pos n ≡ pos 0 → IsNormal ts (raise_times n ts)
unfolding raise_times
raise_times_lem zero ts h e = (h, refl, omega (int_laws, ap pos_part e, ap neg_part e))
raise_times_lem (suc n) ts h e =
    let step = raise_lem ts h (omega (int_laws, ap pos_part e, ap neg_part e)) in
    let (a, b, c) =
      raise_times_lem n (raise ts) step.0
        (omega (int_laws, ap pos_part e, ap neg_part e, ap pos_part step.2, ap neg_part step.2)) in
    (a, omega (arith, b, step.1), c)

sum_sign : (z : ℤ) → ltb_ℤ (pos 0) z ≡ true → z ≡ pos (pos_part z)
sum_sign z e = ground arith

sum_rest : (z : ℤ) → ltb_ℤ (pos 0) z ≡ false → z +ℤ pos (neg_part z) ≡ pos 0
unfolding ◌+ℤ◌
sum_rest z e = ground arith

-- Normalizing a fragment of trytes keeps their number, leaves each between -13 and 13, and makes
-- their sum 0.
pub normalize_fragment-IsNormal : (ts : List ℤ) → AreTrytes ts → IsNormal ts (normalize_fragment ts)
unfolding normalize_fragment
normalize_fragment-IsNormal ts h =
    chosen (IsNormal ts) (ltb_ℤ (pos 0) (sum ts)) (lower_times (pos_part (sum ts)) ts)
      (raise_times (neg_part (sum ts)) ts)
      (λ y. lower_times_lem (pos_part (sum ts)) ts h (sum_sign (sum ts) y))
      (λ n. raise_times_lem (neg_part (sum ts)) ts h (sum_rest (sum ts) n))

trits-IsTryte : (a b c : ℤ) → IsTrit a → IsTrit b → IsTrit c → IsTryte (a +ℤ scale 3 b +ℤ scale 9 c)
unfolding ◌+ℤ◌ scale
trits-IsTryte a b c ta tb tc = ground arith

pub fragment_trytes-AreTrytes :
    (n : ℕ) (ts : List ℤ)
    → All IsTrit ts
    → 3 * n ≤ length ts
    → AreTrytes (fragment_trytes n ts) × (length (fragment_trytes n ts) ≡ n)
unfolding fragment_trytes tryte_value
fragment_trytes-AreTrytes zero ts h p = (tt, refl)
fragment_trytes-AreTrytes (suc n) [] h p = absurd (omega (arith, p))
fragment_trytes-AreTrytes (suc n) (a ∷ []) h p = absurd (omega (arith, p))
fragment_trytes-AreTrytes (suc n) (a ∷ b ∷ []) h p = absurd (omega (arith, p))
fragment_trytes-AreTrytes (suc n) (a ∷ b ∷ c ∷ ts) h p =
    let ih = fragment_trytes-AreTrytes n ts h.1.1.1 (omega (arith, p)) in
    ((trits-IsTryte a b c h.0 h.1.0 h.1.1.0, ih.0), ap suc ih.1)
