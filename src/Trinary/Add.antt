-- ===== src/Trinary/Add.antt =====
-- common/trinary/add.c: addition of trits and of a 64-bit integer to a sequence of trits, least
-- first. The integer `v` is an `int64_t`. Its sum with 1 overflows at the greatest value, where C
-- leaves it undefined; it is wrapped, as by the processor.
pub mod Sum
pub mod Assign
use entangled.Prelude.{
  ℕ, zero, suc, ◌+◌, ◌-◌, ◌/◌, ◌%◌, Bool, true, false, List, [], ◌∷◌, ◌==◌, ◌&&◌, if◌then◌else◌,
  ltb,
}
use entangled.Prelude.Int.{ℤ, pos, negsuc, pos_part, neg_part, sub_ℕ, ◌+ℤ◌, neg, ltb_ℤ}

-- The conversion of an `int` to `trit_t`.
unfoldable pub to_int8 : ℤ → ℤ
to_int8 z =
    let w = (pos_part z + 256 - neg_part z % 256) % 256 in
    if ltb w 128 then pos w else negsuc (255 - w)

abbrev pub eq_ℤ : ℤ → ℤ → Bool
eq_ℤ a b = (pos_part a == pos_part b) && (neg_part a == neg_part b)

unfoldable pub trit_cons : ℤ → ℤ → ℤ
trit_cons a b = if eq_ℤ a b then a else pos 0

unfoldable pub trit_sum : ℤ → ℤ → ℤ
unfolding to_int8 ◌+ℤ◌
trit_sum a b =
    let s = to_int8 (a +ℤ b) in
    if eq_ℤ s (pos 2) then negsuc 0 else if eq_ℤ s (negsuc 1) then pos 1 else s

-- `(x > 0) - (x < 0)`.
abbrev pub sign : ℤ → ℤ
sign x = if ltb_ℤ (pos 0) x then pos 1 else if ltb_ℤ x (pos 0) then negsuc 0 else pos 0

-- The sum and the carry, `struct ha_o`.
unfoldable pub trit_full_add : ℤ → ℤ → ℤ → ℤ × ℤ
unfolding trit_cons trit_sum to_int8 ◌+ℤ◌
trit_full_add a b c =
    let s_ab = trit_sum a b in
    let x = to_int8 (trit_cons a b +ℤ trit_cons s_ab c) in (trit_sum s_ab c, sign x)

-- 2^63 - 1.
abbrev pub i64_max : ℕ
i64_max = 9223372036854775807

-- `/ 3` and `% 3` in C round towards zero.
abbrev pub quot3 : ℤ → ℤ
quot3 (pos n) = pos (n / 3)
quot3 (negsuc n) = sub_ℕ 0 (suc n / 3)

abbrev pub rem3 : ℤ → ℤ
rem3 (pos n) = pos (n % 3)
rem3 (negsuc n) = sub_ℕ 0 (suc n % 3)

-- `v + 1`.
unfoldable pub plus_one : ℤ → ℤ
plus_one (pos n) = if n == i64_max then negsuc i64_max else pos (n + 1)
plus_one (negsuc zero) = pos 0
plus_one (negsuc (suc n)) = negsuc n

-- The return code and the array.
unfoldable pub add_internal : List ℤ → Bool → ℤ → ℤ → ℕ × List ℤ
unfolding trit_full_add ◌+ℤ◌ neg
add_internal [] negative v c = if eq_ℤ v (pos 0) && eq_ℤ c (pos 0) then (0, []) else (1, [])
add_internal (t ∷ ts) negative v c =
    let trit = rem3 (plus_one v) +ℤ negsuc 0 in
    let (s, c') = trit_full_add t (if negative then neg trit else trit) c in
    let (code, rest) = add_internal ts negative (quot3 (plus_one v)) c' in
    if eq_ℤ v (pos 0) && eq_ℤ c (pos 0) then (0, t ∷ ts) else (code, s ∷ rest)

unfoldable pub add_assign : List ℤ → ℤ → ℕ × List ℤ
unfolding add_internal
add_assign t v = add_internal t (ltb_ℤ v (pos 0)) v (pos 0)

-- The loop of `add_trits` with its carry, over arrays of one length; it rewrites the second.
unfoldable pub add_trits_from : ℤ → List ℤ → List ℤ → List ℤ
unfolding trit_full_add
add_trits_from c (l ∷ lh) (r ∷ rh) =
    let (s, c') = trit_full_add l r c in s ∷ add_trits_from c' lh rh
add_trits_from c _ rh = rh

unfoldable pub add_trits : List ℤ → List ℤ → List ℤ
unfolding add_trits_from
add_trits lh rh = add_trits_from (pos 0) lh rh
