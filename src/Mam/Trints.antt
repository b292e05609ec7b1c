-- ===== src/Mam/Trints.antt =====
-- mam/trits/trits.c: integers of 1, 3, 6, 9 and 18 trits. `put` gives the trits that are written to
-- the front of the sequence, `get` reads those at its front; the asserted sizes and ranges are taken
-- for granted, and with them no sum leaves its type.
pub mod RoundTrip
use entangled.Prelude.{
  ℕ, suc, ◌+◌, ◌-◌, ◌*◌, ◌/◌, ◌%◌, List, [], ◌∷◌, ◌++◌, drop, Option, none, some, Bool, true, false,
  leb, if◌then◌else◌, ◌&&◌, ◌==◌, ltb, take, length, replicate,
}
use entangled.Prelude.Int.{ℤ, pos, negsuc, sub_ℕ, ◌+ℤ◌, neg, scale}

-- `%` and `/` of C by a positive constant.
abbrev pub c_rem : ℤ → ℕ → ℤ
c_rem (pos n) m = pos (n % m)
c_rem (negsuc n) m = sub_ℕ 0 (suc n % m)

abbrev pub c_quot : ℤ → ℕ → ℤ
c_quot (pos n) m = pos (n / m)
c_quot (negsuc n) m = sub_ℕ 0 (suc n / m)

-- The macro `MAM_MODS`.
unfoldable pub mods : ℤ → ℕ → ℕ → ℤ
mods t M m = c_rem (t +ℤ pos ((M - 1) / 2)) m +ℤ neg (pos ((m - 1) / 2))

-- The macro `MAM_DIVS`.
unfoldable pub divs : ℤ → ℕ → ℕ → ℤ
divs t M m = c_quot (t +ℤ pos ((M - 1) / 2)) m +ℤ neg (pos ((M / m - 1) / 2))

-- 0 stands for what is past the end.
abbrev pub get1 : List ℤ → ℤ
get1 [] = pos 0
get1 (t ∷ x) = t

unfoldable pub get3 : List ℤ → ℤ
get3 x = get1 x +ℤ scale 3 (get1 (drop 1 x)) +ℤ scale 9 (get1 (drop 2 x))

unfoldable pub put3 : ℤ → List ℤ
put3 t =
    let t0 = mods t (3 * 3 * 3) 3 in
    let t' = divs t (3 * 3 * 3) 3 in
    let t1 = mods t' (3 * 3) 3 in let t2 = divs t' (3 * 3) 3 in t0 ∷ t1 ∷ t2 ∷ []

unfoldable pub get6 : List ℤ → ℤ
get6 x = get3 x +ℤ scale 27 (get3 (drop 3 x))

unfoldable pub put6 : ℤ → List ℤ
put6 t = put3 (mods t (27 * 27) 27) ++ put3 (divs t (27 * 27) 27)

unfoldable pub get9 : List ℤ → ℤ
get9 x = get3 x +ℤ scale 27 (get3 (drop 3 x)) +ℤ scale 729 (get3 (drop 6 x))

unfoldable pub put9 : ℤ → List ℤ
put9 t =
    let t' = divs t (27 * 27 * 27) 27 in
    put3 (mods t (27 * 27 * 27) 27) ++ (put3 (mods t' (27 * 27) 27) ++ put3 (divs t' (27 * 27) 27))

unfoldable pub get18 : List ℤ → ℤ
get18 x = get9 x +ℤ scale 19683 (get9 (drop 9 x))

unfoldable pub put18 : ℤ → List ℤ
put18 t = put9 (mods t (19683 * 19683) 19683) ++ put9 (divs t (19683 * 19683) 19683)

-- A character as its ASCII code; `none` is the answer `false`.
unfoldable pub tryte_from_char : ℕ → Option ℤ
tryte_from_char c =
    if leb 78 c && leb c 90
    then some (sub_ℕ (c - 78) 13)
    else if leb 65 c && leb c 77
    then some (pos (c - 65 + 1))
    else if 57 == c
    then some (pos 0)
    else none
