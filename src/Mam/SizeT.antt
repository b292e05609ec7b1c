-- ===== src/Mam/SizeT.antt =====
-- mam/trits/trits.c: a `size_t` in a stream of trits, as a count of trytes and that many trytes.
-- A buffer is the list of the trits that are left in it; an encoder gives the trits that it writes and
-- what is left after them.
pub mod Count
pub mod RoundTrip
use entangled.Prelude.{
  ℕ, zero, suc, ◌+◌, ◌-◌, ◌*◌, ◌/◌, ◌%◌, List, [], ◌∷◌, ◌++◌, length, take, drop, replicate, Bool,
  ◌==◌, ltb, ◌||◌, if◌then◌else◌,
}
use entangled.Prelude.Int.{ℤ, pos, pos_part, ltb_ℤ}
use entangled.Prelude.Word.{u64_mod}
use entangled.Outcome.{Retcode}
use entangled.Outcome.Retcode.{rc_mam_pb3_eof, rc_mam_invalid_value}
use entangled.Trinary.Long.{long_to_trits, trits_to_long}
use entangled.Mam.Trints.{get3, put3}

-- `MAM_TRITS_SIZE_MAX` and `MAM_TRITS_MAX_SIZE_T_TRYTES`, with a `size_t` of 8 bytes.
abbrev pub size_max : ℕ
size_max = 2026277576509488133

abbrev pub max_size_t_trytes : ℕ
max_size_t_trytes = 14

-- What a decoder gives, with the trits that are left in the buffer.
pub data Decoded (A : Type 0) : Type 0 where
  got : A → List ℤ → Decoded A
  error : Retcode → List ℤ → Decoded A

-- The loop of `trits_size_t_trytes`, with the rounds that it may still take.
unfoldable pub trytes_loop : ℕ → ℕ → ℕ → ℕ → ℕ
trytes_loop zero d m n = d
trytes_loop (suc more) d m n =
    let rest = trytes_loop more (suc d) (m * 27 % u64_mod) n in
    if ltb ((m - 1) / 2) n then rest else d

unfoldable pub size_t_trytes : ℕ → ℕ
size_t_trytes n = trytes_loop max_size_t_trytes 0 1 n

unfoldable pub sizeof_size_t : ℕ → ℕ
sizeof_size_t n = 3 * (size_t_trytes n + 1)

-- The whole buffer is set to zero first.
unfoldable pub encode_size_t : ℕ → List ℤ → List ℤ × List ℤ
encode_size_t n buffer =
    let d = size_t_trytes n in
    let zeros = drop 3 (replicate (length buffer) (pos 0)) in
    let body = if n == 0 then zeros else (long_to_trits n zeros).1 in
    (put3 (pos d) ++ take (d * 3) body, drop (d * 3) body)

-- The number after a count `d`, of whose sign and size the guards tell.
abbrev pub decode_number : ℤ → List ℤ → Decoded ℕ
decode_number d buffer =
    if ltb_ℤ d (pos 0) || ltb_ℤ (pos 13) d
    then error rc_mam_invalid_value buffer
    else if ltb (length buffer) (3 * pos_part d)
    then error rc_mam_pb3_eof buffer
    else got (trits_to_long (take (pos_part d * 3) buffer)) (drop (pos_part d * 3) buffer)

unfoldable pub decode_size_t : List ℤ → Decoded ℕ
decode_size_t buffer =
    if ltb (length buffer) 3
    then error rc_mam_pb3_eof buffer
    else decode_number (get3 buffer) (drop 3 buffer)
