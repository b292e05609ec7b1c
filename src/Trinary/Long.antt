-- ===== src/Trinary/Long.antt =====
-- common/trinary/trit_long.c: 64-bit integers and their balanced ternary digits, least first. An
-- `int64_t` is a 64-bit pattern, and arithmetic on it wraps.
pub mod Digits
pub mod Length
pub mod RoundTrip
use entangled.Prelude.{
  ℕ, zero, suc, ◌+◌, ◌-◌, ◌*◌, ◌/◌, ◌%◌, ◌≡◌, Bool, true, false, List, [], ◌∷◌, ◌==◌, ltb,
  if◌then◌else◌, drop, take,
}
use entangled.Prelude.Int.{ℤ, pos, sub_ℕ, neg}
use entangled.Prelude.Word.{u64_mod, i64_min, is_neg, llabs}
use entangled.Trinary.Trit.{word}

unfoldable pub trits_to_long : List ℤ → ℕ
trits_to_long [] = 0
trits_to_long (t ∷ ts) = (trits_to_long ts * 3 + word t) % u64_mod

-- The loop of `min_trits`; 40 rounds are enough.
unfoldable pub min_trits_loop : ℕ → ℕ → ℕ → ℕ → ℕ
min_trits_loop zero v_abs vp num = num
min_trits_loop (suc fuel) v_abs vp num =
    let rest = min_trits_loop fuel v_abs ((vp * 3 + 1) % u64_mod) (num + 1) in
    if ltb vp v_abs then rest else num

-- The absolute value, forced for the least value.
unfoldable pub abs64 : ℕ → ℕ
abs64 value = if value == i64_min then i64_min else llabs value

unfoldable pub min_trits : ℕ → ℕ
min_trits value = min_trits_loop 40 (abs64 value) 1 1

-- The digits that the loop of `long_to_trits` writes.
unfoldable pub digits : ℕ → Bool → ℕ → List ℤ
digits zero negative v_abs = []
digits (suc n) negative v_abs =
    let trit : ℤ = sub_ℕ ((v_abs + 1) % u64_mod % 3) 1 in
    let rest = digits n negative ((v_abs + 1) % u64_mod / 3) in
    if v_abs == 0 then [] else (if negative then neg trit else trit) ∷ rest

-- Writes at the front of an array; one past its end is not modelled.
abbrev pub overwrite : List ℤ → List ℤ → List ℤ
overwrite [] old = old
overwrite (d ∷ ds) [] = []
overwrite (d ∷ ds) (o ∷ old) = d ∷ overwrite ds old

abbrev pub three_zeros : List ℤ
three_zeros = pos 0 ∷ pos 0 ∷ pos 0 ∷ []

-- The size that is returned, and the caller's array.
unfoldable pub long_to_trits : ℕ → List ℤ → ℕ × List ℤ
long_to_trits value trits =
    let size = min_trits value in
    (size, overwrite (digits size (is_neg value) (abs64 value)) (overwrite three_zeros trits))

unfoldable pub nearest_greater_multiple_of_three : ℕ → ℕ
nearest_greater_multiple_of_three value =
    let rem = value % 3 in if rem == 0 then value else value + 3 - rem
