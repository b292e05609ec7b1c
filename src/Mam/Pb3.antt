-- ===== src/Mam/Pb3.antt =====
-- mam/pb3/pb3.c: the primitive values of messages, written to a buffer and read from it, and absorbed,
-- encrypted or authenticated by a sponge on the way. An encoder gives the trits that it writes and what
-- is left of the buffer; a sequence of trits that a decoder fills is given by its size. The asserted
-- room and ranges are taken for granted.
pub mod Fields
pub mod Authentic
use entangled.Prelude.{ℕ, ◌-◌, ◌*◌, List, length, take, drop, Bool, if◌then◌else◌, ltb}
use entangled.Prelude.Int.{ℤ}
use entangled.Outcome.{Retcode}
use entangled.Outcome.Retcode.{rc_mam_pb3_eof, rc_mam_pb3_bad_mac}
use entangled.Mam.Trints.{get3, put3, get9, put9, get18, put18}
use entangled.Mam.SizeT.{Decoded, got, error, encode_size_t, decode_size_t}
use entangled.Mam.Spongos.{Spongos, absorb, squeeze, squeeze_eq, encr, decr}

unfoldable pub encode_tryte : ℤ → List ℤ → List ℤ × List ℤ
encode_tryte tryte buffer = (put3 tryte, drop 3 buffer)

unfoldable pub decode_tryte : List ℤ → Decoded ℤ
decode_tryte buffer =
    if ltb (length buffer) 3
    then error rc_mam_pb3_eof buffer
    else got (get3 (take 3 buffer)) (drop 3 buffer)

unfoldable pub encode_trint : ℤ → List ℤ → List ℤ × List ℤ
encode_trint trint buffer = (put9 trint, drop 9 buffer)

unfoldable pub decode_trint : List ℤ → Decoded ℤ
decode_trint buffer =
    if ltb (length buffer) 9
    then error rc_mam_pb3_eof buffer
    else got (get9 (take 9 buffer)) (drop 9 buffer)

unfoldable pub encode_longtrint : ℤ → List ℤ → List ℤ × List ℤ
encode_longtrint trint buffer = (put18 trint, drop 18 buffer)

unfoldable pub decode_longtrint : List ℤ → Decoded ℤ
decode_longtrint buffer =
    if ltb (length buffer) 18
    then error rc_mam_pb3_eof buffer
    else got (get18 (take 18 buffer)) (drop 18 buffer)

abbrev pub sizeof_ntrytes : ℕ → ℕ
sizeof_ntrytes n = 3 * n

unfoldable pub encode_ntrytes : List ℤ → List ℤ → List ℤ × List ℤ
encode_ntrytes ntrytes buffer = (ntrytes, drop (length ntrytes) buffer)

unfoldable pub decode_ntrytes : ℕ → List ℤ → Decoded (List ℤ)
decode_ntrytes n buffer =
    if ltb (length buffer) n
    then error rc_mam_pb3_eof buffer
    else got (take n buffer) (drop n buffer)

module _ (transform : List ℤ → List ℤ) where
  -- The state, the trits that are written, and what is left of the buffer.
  abbrev pub Wrapped : Type 0
  Wrapped = Spongos × List ℤ × List ℤ

  -- What an encoder writes is absorbed: the trits between the old position and the new one.
  abbrev pub wrap_absorb : Spongos → List ℤ × List ℤ → Wrapped
  wrap_absorb s (written, rest) = (absorb transform s written, written, rest)

  -- What a decoder read is absorbed, when it succeeds.
  abbrev pub unwrap_absorb : {A : Type 0} → Spongos → List ℤ → Decoded A → Spongos × Decoded A
  unwrap_absorb s b0 (error e rest) = (s, error e rest)
  unwrap_absorb s b0 (got a rest) =
      (absorb transform s (take (length b0 - length rest) b0), got a rest)

  unfoldable pub wrap_absorb_tryte : Spongos → List ℤ → ℤ → Wrapped
  wrap_absorb_tryte s buffer tryte = wrap_absorb s (encode_tryte tryte buffer)

  unfoldable pub unwrap_absorb_tryte : Spongos → List ℤ → Spongos × Decoded ℤ
  unwrap_absorb_tryte s buffer = unwrap_absorb s buffer (decode_tryte buffer)

  unfoldable pub wrap_absorb_trint : Spongos → List ℤ → ℤ → Wrapped
  wrap_absorb_trint s buffer trint = wrap_absorb s (encode_trint trint buffer)

  unfoldable pub unwrap_absorb_trint : Spongos → List ℤ → Spongos × Decoded ℤ
  unwrap_absorb_trint s buffer = unwrap_absorb s buffer (decode_trint buffer)

  unfoldable pub wrap_absorb_size_t : Spongos → List ℤ → ℕ → Wrapped
  wrap_absorb_size_t s buffer size = wrap_absorb s (encode_size_t size buffer)

  unfoldable pub unwrap_absorb_size_t : Spongos → List ℤ → Spongos × Decoded ℕ
  unwrap_absorb_size_t s buffer = unwrap_absorb s buffer (decode_size_t buffer)

  unfoldable pub wrap_absorb_ntrytes : Spongos → List ℤ → List ℤ → Wrapped
  wrap_absorb_ntrytes s buffer trits = wrap_absorb s (encode_ntrytes trits buffer)

  unfoldable pub unwrap_absorb_ntrytes : Spongos → List ℤ → ℕ → Spongos × Decoded (List ℤ)
  unwrap_absorb_ntrytes s buffer n = unwrap_absorb s buffer (decode_ntrytes n buffer)

  -- `in_place` tells that the trits stand in the buffer already.
  unfoldable pub wrap_crypt_ntrytes : Bool → Spongos → List ℤ → List ℤ → Wrapped
  wrap_crypt_ntrytes in_place s buffer trits =
      let (s', ciphertext) = encr transform in_place s trits in
      (s', ciphertext, drop (length trits) buffer)

  unfoldable pub unwrap_crypt_ntrytes : Bool → Spongos → List ℤ → ℕ → Spongos × Decoded (List ℤ)
  unwrap_crypt_ntrytes in_place s buffer n =
      let (s', plaintext) = decr transform in_place s (take n buffer) in
      if ltb (length buffer) n
      then (s, error rc_mam_pb3_eof buffer)
      else (s', got plaintext (drop n buffer))

  unfoldable pub wrap_squeeze_ntrytes : Spongos → List ℤ → ℕ → Wrapped
  wrap_squeeze_ntrytes s buffer n =
      let (s', output) = squeeze transform s (take (sizeof_ntrytes n) buffer) in
      (s', output, drop (sizeof_ntrytes n) buffer)

  unfoldable pub unwrap_squeeze_ntrytes : Spongos → List ℤ → ℕ → Spongos × Decoded Unit
  unwrap_squeeze_ntrytes s buffer n =
      let (s', same) = squeeze_eq transform s (take (sizeof_ntrytes n) buffer) in
      let rest = drop (sizeof_ntrytes n) buffer in
      if ltb (length buffer) (sizeof_ntrytes n)
      then (s, error rc_mam_pb3_eof buffer)
      else (s', if same then got tt rest else error rc_mam_pb3_bad_mac rest)

  unfoldable pub absorb_external_ntrytes : Spongos → List ℤ → Spongos
  absorb_external_ntrytes s trits = absorb transform s trits

  unfoldable pub squeeze_external_ntrytes : Spongos → List ℤ → Spongos × List ℤ
  squeeze_external_ntrytes s trits = squeeze transform s trits
