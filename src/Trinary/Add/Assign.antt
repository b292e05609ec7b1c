-- ===== src/Trinary/Add/Assign.antt =====
-- `add_assign`: exact for a value that is not negative; for -1 it adds 1.
use entangled.Prelude.{
  ℕ, zero, suc, ◌+◌, ◌/◌, ◌%◌, ◌≡◌, ◌<◌, ◌⊎◌, inl, inr, refl, ap, chosen, true, false, List, [],
  ◌∷◌, arith, All, length, ◌&&◌,
}
use mathlib.Core.Path.{subst}
use entangled.Prelude.Int.{ℤ, pos, negsuc, ◌+ℤ◌, neg, ltb_ℤ, scale, int_laws, pos_part, neg_part}
use entangled.Trinary.Trit.{IsTrit}
use entangled.Trinary.Add.{
  trit_full_add, add_internal, add_assign, rem3, quot3, eq_ℤ, plus_one, i64_max,
}
use entangled.Trinary.Add.Sum.{value, shifted, trit_full_add-IsSum, nought}

digit_cases : (m : ℕ) → m < 3 → IsTrit (pos m +ℤ negsuc 0)
unfolding ◌+ℤ◌
digit_cases zero h = inl refl
digit_cases (suc zero) h = inr (inl refl)
digit_cases (suc (suc zero)) h = inr (inr refl)
digit_cases (suc (suc (suc n))) h = absurd (omega (arith, h))

plus_one_pos : (n : ℕ) → n < i64_max → plus_one (pos n) ≡ pos (n + 1)
unfolding plus_one
plus_one_pos n b = ground (arith, b)

digit_of : (n : ℕ) → n < i64_max → IsTrit (rem3 (plus_one (pos n)) +ℤ negsuc 0)
digit_of n b = rw (plus_one_pos n b) (digit_cases ((n + 1) % 3) (omega arith))

digit_split :
    (n : ℕ)
    → n < i64_max
    → (rem3 (plus_one (pos n)) +ℤ negsuc 0) +ℤ scale 3 (quot3 (plus_one (pos n))) ≡ pos n
unfolding ◌+ℤ◌ scale
digit_split n b = rw (plus_one_pos n b) (ground arith)

quot_pos : (n : ℕ) → n < i64_max → quot3 (plus_one (pos n)) ≡ pos ((n + 1) / 3)
quot_pos n b = rw (plus_one_pos n b) refl

-- What adding a value that is not negative leaves: trits of the same number, and a carry out of the
-- last place that makes the sum exact and that is 0 or is told by the code 1.
pub record IsSum (ts : List ℤ) (added : ℤ) (code : ℕ) (out : List ℤ) : Type 0 where
  pub trits : All IsTrit out
  pub same_length : length out ≡ length ts
  pub over : ℤ
  pub exact : value out +ℤ shifted (length ts) over ≡ value ts +ℤ added
  pub fits : (code ≡ 1) ⊎ (over ≡ pos 0)

zero_test : (v c : ℤ) → (eq_ℤ v (pos 0) && eq_ℤ c (pos 0)) ≡ true → (v ≡ pos 0) × (c ≡ pos 0)
zero_test v c e = ground arith

one_digit :
    (t s d trit q c n vt vo k : ℤ)
    → trit +ℤ scale 3 q ≡ n
    → s +ℤ scale 3 d ≡ t +ℤ trit +ℤ c
    → vo +ℤ k ≡ vt +ℤ (q +ℤ d)
    → (s +ℤ scale 3 vo) +ℤ scale 3 k ≡ (t +ℤ scale 3 vt) +ℤ (n +ℤ c)
one_digit t s d trit q c n vt vo k p r h = omega (
  int_laws,
  ap pos_part p,
  ap neg_part p,
  ap pos_part r,
  ap neg_part r,
  ap pos_part h,
  ap neg_part h,
)

abbrev IsResult : List ℤ → ℤ → ℕ × List ℤ → Type 0
IsResult ts added r = IsSum ts added r.0 r.1

shifted-zero : (n : ℕ) → shifted n (pos 0) ≡ pos 0
unfolding shifted scale
shifted-zero zero = refl
shifted-zero (suc n) = rw (shifted-zero n) refl

kept :
    (ts : List ℤ)
    → All IsTrit ts
    → (n : ℕ) (c : ℤ) → (pos n ≡ pos 0) × (c ≡ pos 0)
    → IsSum ts (pos n +ℤ c) 0 ts
kept ts tl n c (p, q) = record {
  trits = tl;
  same_length = refl;
  over = pos 0;
  exact = omega (
    int_laws,
    ap pos_part p,
    ap pos_part q,
    ap neg_part q,
    ap pos_part (shifted-zero (length ts)),
    ap neg_part (shifted-zero (length ts)),
  );
  fits = inr refl;
}

add_internal-IsSum :
    (ts : List ℤ) (n : ℕ) (c : ℤ)
    → n < i64_max
    → IsTrit c
    → All IsTrit ts
    → IsResult ts (pos n +ℤ c) (add_internal ts false (pos n) c)
unfolding add_internal value shifted
add_internal-IsSum [] n c b tc tl =
    chosen (IsResult [] (pos n +ℤ c)) _ (0, []) (1, [])
      (λ y. kept [] tt n c (zero_test (pos n) c y))
      (λ z. record {
        trits = tt;
        same_length = refl;
        over = pos n +ℤ c;
        exact = omega int_laws;
        fits = inl refl;
      })
add_internal-IsSum (t ∷ ts) n c b tc tl =
    let v1 = plus_one (pos n) in
    let trit = rem3 v1 +ℤ negsuc 0 in
    let step = trit_full_add-IsSum t trit c tl.0 (digit_of n b) tc in
    let d = (trit_full_add t trit c).1 in
    let r = add_internal ts false (quot3 v1) d in
    let ih : IsResult ts (quot3 v1 +ℤ d) r =
      rw (quot_pos n b) (add_internal-IsSum ts ((n + 1) / 3) d (omega (arith, b)) step.1 tl.1) in
    chosen (IsResult (t ∷ ts) (pos n +ℤ c)) _ (0, t ∷ ts) (r.0, (trit_full_add t trit c).0 ∷ r.1)
      (λ y. kept (t ∷ ts) tl n c (zero_test (pos n) c y))
      (λ z. record {
        trits = (step.0, ih.trits);
        same_length = ap suc ih.same_length;
        over = ih.over;
        exact =
            one_digit t (trit_full_add t trit c).0 d trit (quot3 v1) c (pos n) (value ts)
              (value r.1) (shifted (length ts) ih.over) (digit_split n b) step.2 ih.exact;
        fits = ih.fits;
      })

not_negative : (n : ℕ) → ltb_ℤ (pos n) (pos 0) ≡ false
not_negative n = ground arith

plus_zero : (n : ℕ) → pos n +ℤ pos 0 ≡ pos n
plus_zero n = omega int_laws

-- `add_assign` of a value that is neither negative nor the greatest `int64_t` to an array of trits keeps the array's length,
-- leaves trits in it, and is exact up to a carry out of the last place; it returns 1 or there is
-- no such carry.
pub add_assign-IsSum :
    (ts : List ℤ) (n : ℕ)
    → n < i64_max
    → All IsTrit ts
    → let (code, out) = add_assign ts (pos n) in IsSum ts (pos n) code out
unfolding add_assign ◌+ℤ◌
add_assign-IsSum ts n b tl = rw (not_negative n) (
    subst (λ v. IsResult ts v (add_internal ts false (pos n) (pos 0))) (plus_zero n)
      (add_internal-IsSum ts n (pos 0) b nought tl))

sign_forgotten :
    (ts : List ℤ) (c : ℤ) → add_internal ts true (pos 0) c ≡ add_internal ts false (pos 0) c
unfolding add_internal plus_one neg ◌+ℤ◌
sign_forgotten [] c = refl
sign_forgotten (t ∷ ts) c = rw (sign_forgotten ts (trit_full_add t (pos 0) c).1) refl

-- To add -1 leaves what to add 1 leaves, on every array.
pub add_assign-minus_one : (ts : List ℤ) → add_assign ts (negsuc 0) ≡ add_assign ts (pos 1)
unfolding add_assign add_internal plus_one neg ◌+ℤ◌
add_assign-minus_one [] = refl
add_assign-minus_one (t ∷ ts) = rw (sign_forgotten ts (trit_full_add t (pos 1) (pos 0)).1) refl
