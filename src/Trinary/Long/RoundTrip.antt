-- ===== src/Trinary/Long/RoundTrip.antt =====
-- `long_to_trits`, and the way back by `trits_to_long`.
use mathlib.Core.Path.{subst}
use entangled.Prelude.{
  ℕ, zero, suc, ◌-◌, ◌≡◌, ◌≤◌, ◌≢◌, sym, ◌<◌, ap, ◌∙◌, ◌⊎◌, inl, inr, refl, Bool, arith, List, [],
  ◌∷◌, All, length, take, drop,
}
use entangled.Prelude.Int.{ℤ}
use entangled.Prelude.Word.{u64_mod, i64_min, is_neg, llabs, neg64}
use entangled.Trinary.Trit.{IsTrit}
use entangled.Trinary.Long.{
  digits, trits_to_long, long_to_trits, min_trits, min_trits_loop, abs64, overwrite, three_zeros,
}
use entangled.Trinary.Long.Length.{greatest, min_trits-IsLength, abs64-le}
use entangled.Trinary.Long.Digits.{
  signed, digits-IsTrit, trits_to_long-digits, length-digits, length-digits-le,
}

-- The array that `long_to_trits` leaves.
abbrev pub written : ℕ → List ℤ → List ℤ
written value old = (long_to_trits value old).1

take-overwrite :
    (ds old : List ℤ) → length ds ≤ length old → take (length ds) (overwrite ds old) ≡ ds
take-overwrite [] old h = refl
take-overwrite (d ∷ ds) [] h = elim h [ ]
take-overwrite (d ∷ ds) (o ∷ old) h = ap (◌∷◌ d) (take-overwrite ds old (omega arith))

pub length-overwrite : (ds old : List ℤ) → length (overwrite ds old) ≡ length old
length-overwrite [] old = refl
length-overwrite (d ∷ ds) [] = refl
length-overwrite (d ∷ ds) (o ∷ old) = ap suc (length-overwrite ds old)

pub drop-overwrite :
    (k : ℕ) (ds old : List ℤ) → length ds ≤ k → drop k (overwrite ds old) ≡ drop k old
drop-overwrite zero [] old h = refl
drop-overwrite zero (d ∷ ds) old h = elim h [ ]
drop-overwrite (suc k) [] old h = refl
drop-overwrite (suc k) (d ∷ ds) [] h = refl
drop-overwrite (suc k) (d ∷ ds) (o ∷ old) h = drop-overwrite k ds old (omega arith)

pub signed-abs64 : (v : ℕ) → v < u64_mod → signed (is_neg v) (abs64 v) ≡ v
unfolding abs64 llabs neg64
signed-abs64 v h = ground arith

zero_or_not : (v : ℕ) → (v ≡ 0) ⊎ (v ≢ 0)
zero_or_not zero = inl refl
zero_or_not (suc v) = inr (omega arith)

high : (v k : ℕ) → v ≢ 0 → (v ≡ 0) ⊎ (k < v) → k < v
high v k nz (inl z) = absurd (nz z)
high v k nz (inr h) = h

abs64-nonzero : (v : ℕ) → v < u64_mod → v ≢ 0 → abs64 v ≢ 0
unfolding abs64 llabs neg64
abs64-nonzero v b nz = ground arith

written_zero :
    (old : List ℤ)
    → 3 ≤ length old
    → (trits_to_long (
          take
            (min_trits 0)
            (overwrite (digits (min_trits 0) (is_neg 0) (abs64 0)) (overwrite three_zeros old)))
        ≡ 0)
      × All IsTrit (
          take
            (min_trits 0)
            (overwrite (digits (min_trits 0) (is_neg 0) (abs64 0)) (overwrite three_zeros old)))
unfolding min_trits min_trits_loop abs64 llabs digits trits_to_long
written_zero [] h = absurd (omega arith)
written_zero (o ∷ old) h = (refl, (inr (inl refl), tt))

-- Of a number other than zero every digit is written.
take-digits :
    (n v : ℕ) (s : Bool) (old : List ℤ)
    → 1 ≤ n
    → greatest (n - 1) < v
    → v ≤ i64_min
    → n ≤ length old
    → take n (overwrite (digits n s v) old) ≡ digits n s v
take-digits zero v s old p low b k = elim p [ ]
take-digits (suc n) v s old p low b k =
    let q : suc n - 1 ≡ n = omega arith in
    let full = length-digits n s v b (subst (λ m. greatest m < v) q low) in
    subst (λ m. take m (overwrite (digits (suc n) s v) old) ≡ digits (suc n) s v) full
      (take-overwrite (digits (suc n) s v) old (rw full k))

-- The digits written for a number other than zero, and the single zero written for zero.
take-written :
    (v : ℕ) (old : List ℤ)
    → v < u64_mod
    → 3 ≤ length old
    → min_trits v ≤ length old
    → (trits_to_long (take (min_trits v) (written v old)) ≡ v)
      × All IsTrit (take (min_trits v) (written v old))
unfolding long_to_trits
take-written v old b h k =
    let n = min_trits v in
    let (low, top, up, which) = min_trits-IsLength v b in
    let small = abs64-le v b in
    let room = subst (λ m. n ≤ m) (sym (length-overwrite three_zeros old)) k in
    elim (zero_or_not v) [
      | inl z ↦ rw z (written_zero old h)
      | inr nz ↦
          rw
            (take-digits n (abs64 v) (is_neg v) (overwrite three_zeros old) low
              (high (abs64 v) _ (abs64-nonzero v b nz) which) small room)
            (
              trits_to_long-digits n (is_neg v) (abs64 v) small up ∙ signed-abs64 v b,
              digits-IsTrit n (is_neg v) (abs64 v),
            )
    ]

written_back :
    (v : ℕ) (old : List ℤ)
    → v < u64_mod
    → 3 ≤ length old
    → min_trits v ≤ length old
    → let (size, out) = long_to_trits v old in
      (trits_to_long (take size out) ≡ v)
      × All IsTrit (take size out)
      × (length out ≡ length old)
      × ((k : ℕ) → 3 ≤ k → size ≤ k → drop k out ≡ drop k old)
unfolding long_to_trits
written_back v old b h k =
    let (back, trits) = take-written v old b h k in
    let ds = digits (min_trits v) (is_neg v) (abs64 v) in
    (
      back,
      trits,
      length-overwrite ds (overwrite three_zeros old) ∙ length-overwrite three_zeros old,
      λ j low size.
          drop-overwrite j ds (overwrite three_zeros old)
            (omega (arith, size, length-digits-le (min_trits v) (is_neg v) (abs64 v)))
          ∙ drop-overwrite j three_zeros old low,
    )

-- What `long_to_trits` writes into an array with room for it are trits, and the first `size` of
-- them, the number that it returns, read back by `trits_to_long` as the value it was given, for every
-- 64-bit integer. The array keeps its length, and its trits from any place on that is past the third
-- and past the size.
pub long_to_trits-trits_to_long :
    (v k : ℕ) (old : List ℤ)
    → v < u64_mod
    → 3 ≤ length old
    → min_trits v ≤ length old
    → 3 ≤ k
    → min_trits v ≤ k
    → let (size, out) = long_to_trits v old in
      (trits_to_long (take size out) ≡ v)
      × All IsTrit (take size out)
      × (length out ≡ length old)
      × (drop k out ≡ drop k old)
unfolding long_to_trits
long_to_trits-trits_to_long v k old b three room past size =
    let (back, trits, same, kept) = written_back v old b three room in
    (back, trits, same, kept k past size)
