-- ===== src/Mam/Trits.antt =====
-- mam/trits/trits.c: operations on sequences of trits. A `trits_t` is the list of the trits from its
-- position to its end; an operation that writes through one returns what it leaves there. Where an
-- assertion wants two sizes to agree, the loops end with the shorter one.
pub mod Laws
pub mod Compare
use entangled.Prelude.{
  ℕ, zero, suc, ◌-◌, ◌≤◌, Bool, true, false, List, [], ◌∷◌, if◌then◌else◌, ltb, length, take,
  replicate,
}
use entangled.Prelude.Int.{ℤ, pos, negsuc, ◌+ℤ◌, neg}
use entangled.Trinary.Add.{to_int8, eq_ℤ}
use entangled.Trinary.Long.{overwrite}

abbrev pub min : ℕ → ℕ → ℕ
min k n = if ltb k n then k else n

-- The macro `MAM_TRIT_NORM`.
abbrev pub trit_norm : ℤ → ℤ
trit_norm t = if eq_ℤ t (pos 2) then negsuc 0 else if eq_ℤ t (negsuc 1) then pos 1 else t

unfoldable pub trit_add : ℤ → ℤ → ℤ
trit_add x s = trit_norm (to_int8 (x +ℤ s))

unfoldable pub trit_sub : ℤ → ℤ → ℤ
trit_sub y s = trit_norm (to_int8 (y +ℤ neg s))

-- `*x` and `*s`.
unfoldable pub trit_swap_add : ℤ → ℤ → ℤ × ℤ
trit_swap_add x s = (trit_add x s, x)

-- `*y` and `*s`.
unfoldable pub trit_swap_sub : ℤ → ℤ → ℤ × ℤ
trit_swap_sub y s = (trit_sub y s, trit_sub y s)

-- `s` and `y`.
unfoldable pub copy_add : List ℤ → List ℤ → List ℤ × List ℤ
copy_add (tx ∷ x) (ts ∷ s) = let (s', y') = copy_add x s in (tx ∷ s', trit_add tx ts ∷ y')
copy_add _ _ = ([], [])

-- `s` and `x`.
unfoldable pub copy_sub : List ℤ → List ℤ → List ℤ × List ℤ
copy_sub (ty ∷ y) (ts ∷ s) =
    let (s', x') = copy_sub y s in (trit_sub ty ts ∷ s', trit_sub ty ts ∷ x')
copy_sub _ _ = ([], [])

-- `s` and `x`.
unfoldable pub swap_add : List ℤ → List ℤ → List ℤ × List ℤ
swap_add (tx ∷ x) (ts ∷ s) =
    let (tx', ts') = trit_swap_add tx ts in let (s', x') = swap_add x s in (ts' ∷ s', tx' ∷ x')
swap_add _ _ = ([], [])

-- `s` and `y`.
unfoldable pub swap_sub : List ℤ → List ℤ → List ℤ × List ℤ
swap_sub (ty ∷ y) (ts ∷ s) =
    let (ty', ts') = trit_swap_sub ty ts in let (s', y') = swap_sub y s in (ts' ∷ s', ty' ∷ y')
swap_sub _ _ = ([], [])

-- The difference at the first place where the trits differ; 3 and -3 tell the sizes apart.
abbrev grlex_from : List ℤ → List ℤ → ℤ
grlex_from (a ∷ x) (b ∷ y) =
    let d = a +ℤ neg b in let rest = grlex_from x y in if eq_ℤ d (pos 0) then rest else d
grlex_from _ _ = pos 0

unfoldable pub cmp_grlex : List ℤ → List ℤ → ℤ
cmp_grlex x y =
    if ltb (length x) (length y)
    then negsuc 2
    else if ltb (length y) (length x)
    then pos 3
    else grlex_from x y

unfoldable pub cmp_eq : List ℤ → List ℤ → Bool
cmp_eq x y = eq_ℤ (pos 0) (cmp_grlex x y)

-- Whether the increment ended without a carry, and the trits.
unfoldable pub inc : List ℤ → Bool × List ℤ
inc [] = (false, [])
inc (t ∷ x) =
    let (r, rest) = inc x in
    let t' = trit_add t (pos 1) in if eq_ℤ (pos 0) t' then (r, t' ∷ rest) else (true, t' ∷ x)

abbrev pub padc0 : ℤ → List ℤ → List ℤ
padc0 c0 [] = []
padc0 c0 (t ∷ y) = c0 ∷ replicate (length y) (pos 0)

unfoldable pub padc : ℤ → List ℤ → List ℤ
padc c0 [] = []
padc c0 (t ∷ y) = padc0 c0 (t ∷ y)
