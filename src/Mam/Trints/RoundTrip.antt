-- ===== src/Mam/Trints/RoundTrip.antt =====
-- Integers that are put as trits and got back.
use entangled.Prelude.{
  ℕ, ◌≡◌, ◌≤◌, List, [], ◌∷◌, ◌++◌, drop, length, length-append, All-append, All, arith, ap, refl,
}
use entangled.Prelude.Int.{ℤ, pos_part, neg_part, ◌+ℤ◌, neg, scale, int_laws, eq_of_parts}
use entangled.Trinary.Trit.{IsTrit}
use entangled.Mam.Trints.{mods, divs, get3, put3, get6, put6, get9, put9, get18, put18}

-- -n ≤ t ≤ n
abbrev pub IsWithin : ℕ → ℤ → Type 0
IsWithin n t = (pos_part t ≤ n) × (neg_part t ≤ n)

-- Of a number within the range of `M`, the low part, the high part, and their ranges.
abbrev IsParts : ℕ → ℕ → ℕ → ℕ → ℤ → Type 0
IsParts M m low high t =
    (mods t M m +ℤ scale m (divs t M m) ≡ t)
    × IsWithin low (mods t M m)
    × IsWithin high (divs t M m)

split_9_3 : (t : ℤ) → IsWithin 4 t → IsParts 9 3 1 1 t
unfolding mods divs ◌+ℤ◌ neg scale
split_9_3 t h = ground arith

split_27_3 : (t : ℤ) → IsWithin 13 t → IsParts 27 3 1 4 t
unfolding mods divs ◌+ℤ◌ neg scale
split_27_3 t h = ground arith

split_729_27 : (t : ℤ) → IsWithin 364 t → IsParts 729 27 13 13 t
unfolding mods divs ◌+ℤ◌ neg scale
split_729_27 t h = ground arith

split_19683_27 : (t : ℤ) → IsWithin 9841 t → IsParts 19683 27 13 364 t
unfolding mods divs ◌+ℤ◌ neg scale
split_19683_27 t h = ground arith

split_387420489_19683 : (t : ℤ) → IsWithin 193710244 t → IsParts 387420489 19683 9841 9841 t
unfolding mods divs ◌+ℤ◌ neg scale
split_387420489_19683 t h = ground arith

within_one-IsTrit : (t : ℤ) → IsWithin 1 t → IsTrit t
within_one-IsTrit t h = ground arith

-- Numbers of three trits.
pub get3-put3 :
    (t : ℤ) (rest : List ℤ)
    → IsWithin 13 t
    → (get3 (put3 t ++ rest) ≡ t) × (length (put3 t) ≡ 3) × All IsTrit (put3 t)
unfolding get3 put3
get3-put3 t rest h =
    let (e, l, q) = split_27_3 t h in
    let (e', l', q') = split_9_3 (divs t 27 3) q in
    (
      eq_of_parts _ t
          (omega (int_laws, ap pos_part e, ap neg_part e, ap pos_part e', ap neg_part e')),
      refl,
      (within_one-IsTrit _ l, (within_one-IsTrit _ l', (within_one-IsTrit _ q', tt))),
    )

pub append_assoc : (x y z : List ℤ) → (x ++ y) ++ z ≡ x ++ (y ++ z)
append_assoc [] y z = refl
append_assoc (a ∷ x) y z = ap (◌∷◌ a) (append_assoc x y z)

pub drop3 : (t : ℤ) (x : List ℤ) → drop 3 (put3 t ++ x) ≡ x
unfolding put3
drop3 t x = refl

drop6 : (t t' : ℤ) (x : List ℤ) → drop 6 (put3 t ++ (put3 t' ++ x)) ≡ x
unfolding put3
drop6 t t' x = refl

-- Numbers of six trits.
pub get6-put6 :
    (t : ℤ) (rest : List ℤ)
    → IsWithin 364 t
    → (get6 (put6 t ++ rest) ≡ t) × (length (put6 t) ≡ 6) × All IsTrit (put6 t)
unfolding get6 put6
get6-put6 t rest h =
    let (e, l, q) = split_729_27 t h in
    let low = mods t 729 27 in
    let high = divs t 729 27 in
    let (a, al, at) = get3-put3 low (put3 high ++ rest) l in
    let (b, bl, bt) = get3-put3 high rest q in
    (
      rw (append_assoc (put3 low) (put3 high) rest, a, drop3 low (put3 high ++ rest), b) e,
      omega (arith, length-append (put3 low) (put3 high), al, bl),
      All-append IsTrit (put3 low) (put3 high) at bt,
    )

-- Numbers of nine trits.
pub get9-put9 :
    (t : ℤ) (rest : List ℤ)
    → IsWithin 9841 t
    → (get9 (put9 t ++ rest) ≡ t) × (length (put9 t) ≡ 9) × All IsTrit (put9 t)
unfolding get9 put9
get9-put9 t rest h =
    let (e, l, q) = split_19683_27 t h in
    let t' = divs t 19683 27 in
    let (e', l', q') = split_729_27 t' q in
    let low = mods t 19683 27 in
    let mid = mods t' 729 27 in
    let high = divs t' 729 27 in
    let (a, al, at) = get3-put3 low (put3 mid ++ (put3 high ++ rest)) l in
    let (b, bl, bt) = get3-put3 mid (put3 high ++ rest) l' in
    let (c, cl, ct) = get3-put3 high rest q' in
    (
      rw
          (
            append_assoc (put3 low) (put3 mid ++ put3 high) rest,
            append_assoc (put3 mid) (put3 high) rest,
            a,
            drop3 low (put3 mid ++ (put3 high ++ rest)),
            drop6 low mid (put3 high ++ rest),
            b,
            c,
          )
          (eq_of_parts _ t
            (omega (int_laws, ap pos_part e, ap neg_part e, ap pos_part e', ap neg_part e'))),
      omega (
        arith,
        length-append (put3 low) (put3 mid ++ put3 high),
        length-append (put3 mid) (put3 high),
        al,
        bl,
        cl,
      ),
      All-append IsTrit (put3 low) (put3 mid ++ put3 high) at
          (All-append IsTrit (put3 mid) (put3 high) bt ct),
    )

drop9 : (t : ℤ) (x : List ℤ) → drop 9 (put9 t ++ x) ≡ x
unfolding put9 put3
drop9 t x = refl

-- Numbers of eighteen trits.
pub get18-put18 :
    (t : ℤ) (rest : List ℤ)
    → IsWithin 193710244 t
    → (get18 (put18 t ++ rest) ≡ t) × (length (put18 t) ≡ 18) × All IsTrit (put18 t)
unfolding get18 put18
get18-put18 t rest h =
    let (e, l, q) = split_387420489_19683 t h in
    let low = mods t 387420489 19683 in
    let high = divs t 387420489 19683 in
    let (a, al, at) = get9-put9 low (put9 high ++ rest) l in
    let (b, bl, bt) = get9-put9 high rest q in
    (
      rw (append_assoc (put9 low) (put9 high) rest, a, drop9 low (put9 high ++ rest), b) e,
      omega (arith, length-append (put9 low) (put9 high), al, bl),
      All-append IsTrit (put9 low) (put9 high) at bt,
    )
