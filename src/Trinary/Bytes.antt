-- ===== src/Trinary/Bytes.antt =====
-- common/trinary/trit_byte.c: five trits in a byte, least first, as it is built with
-- `NO_BYTES_TRITS_LUT`. A `byte_t` is an `int8_t`.
pub mod RoundTrip
use entangled.Prelude.{
  ℕ, ◌+◌, ◌-◌, ◌/◌, List, [], ◌∷◌, ◌++◌, Bool, ◌==◌, if◌then◌else◌, ltb, length, take,
}
use entangled.Prelude.Int.{ℤ, pos, negsuc, ◌+ℤ◌, neg, scale, ltb_ℤ}
use entangled.Trinary.Add.{to_int8}

unfoldable pub trits_to_byte : List ℤ → ℤ
trits_to_byte [] = pos 0
trits_to_byte (t ∷ ts) = to_int8 (scale 3 (trits_to_byte ts) +ℤ t)

-- The last byte may hold fewer than five trits.
unfoldable pub trits_to_bytes : List ℤ → List ℤ
trits_to_bytes [] = []
trits_to_bytes (a ∷ b ∷ c ∷ d ∷ e ∷ ts) = trits_to_byte (a ∷ b ∷ c ∷ d ∷ e ∷ []) ∷ trits_to_bytes ts
trits_to_bytes (t ∷ ts) = trits_to_byte (t ∷ ts) ∷ []

-- The trit of the place of weight `radix`, and the value that is left.
unfoldable pub top_trit : ℕ → ℤ → ℤ × ℤ
top_trit radix value =
    if ltb_ℤ (pos (radix / 2)) value
    then (pos 1, value +ℤ neg (pos radix))
    else if ltb_ℤ value (neg (pos (radix / 2)))
    then (negsuc 0, value +ℤ pos radix)
    else (pos 0, value)

-- `byte_radix`, from the last.
abbrev pub byte_radix : List ℕ
byte_radix = 81 ∷ 27 ∷ 9 ∷ 3 ∷ 1 ∷ []

-- The places from the highest down, with the trits that are found above them.
unfoldable pub byte_loop : List ℕ → ℤ → List ℤ → List ℤ
byte_loop [] value above = above
byte_loop (radix ∷ radices) value above =
    let (trit, value') = top_trit radix value in byte_loop radices value' (trit ∷ above)

unfoldable pub byte_to_trits : ℤ → ℕ → List ℤ
byte_to_trits byte num_trits = take num_trits (byte_loop byte_radix byte [])

unfoldable pub bytes_to_trits : List ℤ → ℕ → List ℤ
bytes_to_trits [] num_trits = []
bytes_to_trits (byte ∷ bytes) num_trits =
    let rest = bytes_to_trits bytes (num_trits - 5) in
    if num_trits == 0
    then []
    else byte_to_trits byte (if ltb num_trits 5 then num_trits else 5) ++ rest
