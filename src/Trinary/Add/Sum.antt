-- ===== src/Trinary/Add/Sum.antt =====
-- The full adder is exact on trits, and `add_trits` adds the numbers that two arrays stand for.
use entangled.Prelude.{ℕ, zero, suc, ◌≡◌, ap, inl, inr, refl, List, [], ◌∷◌, arith, All, length}
use entangled.Prelude.Int.{ℤ, pos, negsuc, ◌+ℤ◌, scale, int_laws, pos_part, neg_part}
use entangled.Trinary.Trit.{IsTrit}
use entangled.Trinary.Add.{trit_full_add, add_trits, add_trits_from}

-- The number that an array of trits stands for, least trit first.
unfoldable pub value : List ℤ → ℤ
value [] = pos 0
value (t ∷ ts) = t +ℤ scale 3 (value ts)

-- A carry out of `n` trits, at its place.
unfoldable pub shifted : ℕ → ℤ → ℤ
shifted zero c = c
shifted (suc n) c = scale 3 (shifted n c)

-- A full adder returns a sum and a carry that are trits, and together the sum of its inputs.
abbrev IsSum : ℤ → ℤ → ℤ → ℤ × ℤ → Type 0
IsSum a b c (s, d) = IsTrit s × IsTrit d × (s +ℤ scale 3 d ≡ a +ℤ b +ℤ c)

abbrev AtTrits : (ℤ → Type 0) → Type 0
AtTrits P = P (negsuc 0) × P (pos 0) × P (pos 1)

by_trit : (P : ℤ → Type 0) (t : ℤ) → IsTrit t → AtTrits P → P t
by_trit P t (inl e) h = rw e h.0
by_trit P t (inr (inl e)) h = rw e h.1
by_trit P t (inr (inr e)) h = rw e h.2

abbrev minus : IsTrit (negsuc 0)
minus = inl refl

abbrev pub nought : IsTrit (pos 0)
nought = inr (inl refl)

abbrev plus : IsTrit (pos 1)
plus = inr (inr refl)

IsSum-table : AtTrits (λ a. AtTrits (λ b. AtTrits (λ c. IsSum a b c (trit_full_add a b c))))
unfolding trit_full_add scale ◌+ℤ◌
IsSum-table = (
  (
    ((nought, minus, refl), (plus, minus, refl), (minus, nought, refl)),
    ((plus, minus, refl), (minus, nought, refl), (nought, nought, refl)),
    ((minus, nought, refl), (nought, nought, refl), (plus, nought, refl)),
  ),
  (
    ((plus, minus, refl), (minus, nought, refl), (nought, nought, refl)),
    ((minus, nought, refl), (nought, nought, refl), (plus, nought, refl)),
    ((nought, nought, refl), (plus, nought, refl), (minus, plus, refl)),
  ),
  (
    ((minus, nought, refl), (nought, nought, refl), (plus, nought, refl)),
    ((nought, nought, refl), (plus, nought, refl), (minus, plus, refl)),
    ((plus, nought, refl), (minus, plus, refl), (nought, plus, refl)),
  ),
)

pub trit_full_add-IsSum :
    (a b c : ℤ) → IsTrit a → IsTrit b → IsTrit c → IsSum a b c (trit_full_add a b c)
trit_full_add-IsSum a b c ta tb tc =
    by_trit (λ c. IsSum a b c (trit_full_add a b c)) c tc
      (by_trit (λ b. AtTrits (λ c. IsSum a b c (trit_full_add a b c))) b tb
        (by_trit (λ a. AtTrits (λ b. AtTrits (λ c. IsSum a b c (trit_full_add a b c)))) a ta
          IsSum-table))

one_place :
    (l r c s d lv rv ov k : ℤ)
    → s +ℤ scale 3 d ≡ l +ℤ r +ℤ c
    → ov +ℤ k ≡ lv +ℤ rv +ℤ d
    → (s +ℤ scale 3 ov) +ℤ scale 3 k ≡ (l +ℤ scale 3 lv) +ℤ (r +ℤ scale 3 rv) +ℤ c
one_place l r c s d lv rv ov k p q =
    omega (int_laws, ap pos_part p, ap neg_part p, ap pos_part q, ap neg_part q)

-- What a ripple of carries leaves: trits, and a last carry that makes the sum exact.
pub record IsRipple (lh rh : List ℤ) (c : ℤ) (out : List ℤ) : Type 0 where
  pub trits : All IsTrit out
  pub carry : ℤ
  pub carry_trit : IsTrit carry
  pub exact : value out +ℤ shifted (length rh) carry ≡ value lh +ℤ value rh +ℤ c

add_trits_from-IsRipple :
    (c : ℤ) (lh rh : List ℤ)
    → IsTrit c
    → All IsTrit lh
    → All IsTrit rh
    → length lh ≡ length rh
    → IsRipple lh rh c (add_trits_from c lh rh)
unfolding add_trits_from value shifted
add_trits_from-IsRipple c [] [] tc tl tr e = record {
  trits = tt;
  carry = c;
  carry_trit = tc;
  exact = omega int_laws;
}
add_trits_from-IsRipple c [] (r ∷ rh) tc tl tr e = absurd (omega (arith, e))
add_trits_from-IsRipple c (l ∷ lh) [] tc tl tr e = absurd (omega (arith, e))
add_trits_from-IsRipple c (l ∷ lh) (r ∷ rh) tc tl tr e =
    let (ts, td, sum) = trit_full_add-IsSum l r c tl.0 tr.0 tc in
    let ih =
      add_trits_from-IsRipple (trit_full_add l r c).1 lh rh td tl.1 tr.1 (omega (arith, e)) in
    record {
      trits = (ts, ih.trits);
      carry = ih.carry;
      carry_trit = ih.carry_trit;
      exact =
          one_place l r c (trit_full_add l r c).0 (trit_full_add l r c).1 (value lh) (value rh)
            (value (add_trits_from (trit_full_add l r c).1 lh rh)) (shifted (length rh) ih.carry)
            sum ih.exact;
    }

-- `add_trits`, on two arrays of trits of one length, leaves in the second trits that stand for
-- the sum of both, up to the carry out of the last place, which it drops.
pub add_trits-IsRipple :
    (lh rh : List ℤ)
    → All IsTrit lh
    → All IsTrit rh
    → length lh ≡ length rh
    → IsRipple lh rh (pos 0) (add_trits lh rh)
unfolding add_trits
add_trits-IsRipple lh rh tl tr e = add_trits_from-IsRipple (pos 0) lh rh nought tl tr e
