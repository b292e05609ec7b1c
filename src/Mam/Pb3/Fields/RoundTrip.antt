-- ===== src/Mam/Pb3/Fields/RoundTrip.antt =====
-- A message that is wrapped and unwrapped again.
use mathlib.Core.Path.{subst}
use entangled.Prelude.{
  append_nil, ℕ, ◌+◌, ◌-◌, ◌≡◌, ◌≤◌, ◌∙◌, ap, sym, refl, arith, ltb, Bool, false, List, [], ◌∷◌,
  ◌++◌, length, length-append, length-take, length-drop, take, drop, All, take-++, drop-++, map,
}
use entangled.Prelude.Int.{ℤ}
use entangled.Trinary.Trit.{IsTrit}
use entangled.Mam.Trints.{put3, get3, put9, get9}
use entangled.Mam.Trints.RoundTrip.{IsWithin, get3-put3, get9-put9, append_assoc}
use entangled.Mam.SizeT.{Decoded, got, encode_size_t, sizeof_size_t}
use entangled.Mam.SizeT.RoundTrip.{decode_size_t-encode_size_t, length-zeros}
use entangled.Mam.Spongos.{Spongos, absorb, encr, squeeze}
use entangled.Mam.Spongos.Loop.{IsValid, IsTransform, absorb-IsValid}
use entangled.Mam.Spongos.Cipher.{decr-encr}
use entangled.Mam.Spongos.Mac.{squeeze_eq-squeeze}
use entangled.Mam.Pb3.{
  Wrapped, unwrap_absorb, encode_tryte, decode_tryte, encode_trint, decode_trint, encode_ntrytes,
  decode_ntrytes, wrap_absorb_tryte, unwrap_absorb_tryte, wrap_absorb_trint, unwrap_absorb_trint,
  wrap_absorb_size_t, unwrap_absorb_size_t, wrap_absorb_ntrytes, unwrap_absorb_ntrytes,
  wrap_crypt_ntrytes, unwrap_crypt_ntrytes, wrap_squeeze_ntrytes, unwrap_squeeze_ntrytes,
  sizeof_ntrytes,
}
use entangled.Mam.Pb3.Fields.{
  Field, shape, field_size, message_size, IsField, decoded_map, wrap_field, unwrap_field,
  wrap_message, unwrap_message,
}

-- The guard against a short buffer, and the two parts of the buffer, when `x` stands before `after`.
enough :
    (x after : List ℤ)
    → (ltb (length (x ++ after)) (length x) ≡ false)
      × (take (length x) (x ++ after) ≡ x)
      × (drop (length x) (x ++ after) ≡ after)
enough x after =
    let n = length-append x after in (ground (arith, n), take-++ x after, drop-++ x after)

decode_tryte-encode_tryte :
    (t : ℤ) (after : List ℤ) → IsWithin 13 t → decode_tryte (put3 t ++ after) ≡ got t after
unfolding decode_tryte
decode_tryte-encode_tryte t after h =
    let (value, three, _) = get3-put3 t [] h in
    let (guard, first, last) =
      subst
        (λ n.
          (ltb (length (put3 t ++ after)) n ≡ false)
          × (take n (put3 t ++ after) ≡ put3 t)
          × (drop n (put3 t ++ after) ≡ after))
        three (enough (put3 t) after) in
    rw (guard, first, last) (ap (λ v. got v after) (sym (ap get3 (append_nil (put3 t))) ∙ value))

decode_trint-encode_trint :
    (t : ℤ) (after : List ℤ) → IsWithin 9841 t → decode_trint (put9 t ++ after) ≡ got t after
unfolding decode_trint
decode_trint-encode_trint t after h =
    let (value, nine, _) = get9-put9 t [] h in
    let (guard, first, last) =
      subst
        (λ n.
          (ltb (length (put9 t ++ after)) n ≡ false)
          × (take n (put9 t ++ after) ≡ put9 t)
          × (drop n (put9 t ++ after) ≡ after))
        nine (enough (put9 t) after) in
    rw (guard, first, last) (ap (λ v. got v after) (sym (ap get9 (append_nil (put9 t))) ∙ value))

decode_ntrytes-encode_ntrytes :
    (x after : List ℤ) → decode_ntrytes (length x) (x ++ after) ≡ got x after
unfolding decode_ntrytes
decode_ntrytes-encode_ntrytes x after =
    let (guard, first, last) = enough x after in rw (guard, first, last) refl

module _ (transform : List ℤ → List ℤ) where
  -- What was written is what is absorbed when it is read.
  absorbed_back :
      {A : Type 0} (s : Spongos) (written after : List ℤ) (a : A) (d : Decoded A)
      → d ≡ got a after
      → unwrap_absorb transform s (written ++ after) d ≡ (absorb transform s written, got a after)
  absorbed_back s written after a d h =
      let n : length (written ++ after) - length after ≡ length written =
        omega (arith, length-append written after) in
      rw (h, n, take-++ written after) refl

  -- A field that is read back as it was wrapped, from its own trits.
  abbrev IsReadBack : Bool → Spongos → List ℤ → Field → List ℤ → Wrapped transform → Type 0
  IsReadBack b s buffer f after (s', written, rest) =
      (unwrap_field transform b s (written ++ after) (shape f) ≡ (s', got f after))
      × (length written ≡ field_size f)
      × (length rest + field_size f ≡ length buffer)
      × IsValid s'

  module _ (laws : IsTransform transform) (s : Spongos) (v : IsValid s) where
    squeezed-IsValid :
        (old : List ℤ)
        → (length (squeeze transform s old).1 ≡ length old) × IsValid (squeeze transform s old).0
    squeezed-IsValid old =
        let (_, sized, _, valid) = squeeze_eq-squeeze transform s old old laws v refl in
        (sized, valid)

    crypt_back :
        (a b : Bool) (buffer x after : List ℤ)
        → All IsTrit x
        → length x ≤ length buffer
        → let (s', written, rest) = wrap_crypt_ntrytes transform a s buffer x in
          (unwrap_crypt_ntrytes transform b s (written ++ after) (length x) ≡ (s', got x after))
          × (length written ≡ length x)
          × (length rest + length x ≡ length buffer)
          × IsValid s'
    unfolding wrap_crypt_ntrytes unwrap_crypt_ntrytes
    crypt_back a b buffer x after t room =
        let (sized, back, valid) = decr-encr transform a b s x laws v t in
        let c = (encr transform a s x).1 in
        let (guard, first, last) =
          subst
            (λ n.
              (ltb (length (c ++ after)) n ≡ false)
              × (take n (c ++ after) ≡ c)
              × (drop n (c ++ after) ≡ after))
            sized (enough c after) in
        (
          rw (guard, first, last, back) refl,
          sized,
          omega (arith, length-drop (length x) buffer, room),
          valid,
        )

    mac_back :
        (buffer : List ℤ) (n : ℕ) (after : List ℤ)
        → sizeof_ntrytes n ≤ length buffer
        → let (s', written, rest) = wrap_squeeze_ntrytes transform s buffer n in
          (unwrap_squeeze_ntrytes transform s (written ++ after) n ≡ (s', got tt after))
          × (length written ≡ sizeof_ntrytes n)
          × (length rest + sizeof_ntrytes n ≡ length buffer)
          × IsValid s'
    unfolding wrap_squeeze_ntrytes unwrap_squeeze_ntrytes
    mac_back buffer n after room =
        let k = sizeof_ntrytes n in
        let old = take k buffer in
        let full : length old ≡ k = length-take k buffer room in
        let out = (squeeze transform s old).1 in
        let (sized, valid) = squeezed-IsValid old in
        let (same, _, iff, _) = squeeze_eq-squeeze transform s old out laws v sized in
        let (guard, first, last) =
          subst
            (λ m.
              (ltb (length (out ++ after)) m ≡ false)
              × (take m (out ++ after) ≡ out)
              × (drop m (out ++ after) ≡ after))
            (sized ∙ full) (enough out after) in
        (
          rw (guard, first, last, iff.1 refl, same) refl,
          sized ∙ full,
          omega (arith, length-drop k buffer, room),
          valid,
        )

    field_back :
        (a b : Bool) (buffer : List ℤ) (f : Field) (after : List ℤ)
        → IsField f
        → field_size f ≤ length buffer
        → IsReadBack b s buffer f after (wrap_field transform a s buffer f)
    unfolding wrap_field unwrap_field wrap_absorb_tryte unwrap_absorb_tryte wrap_absorb_trint
        unwrap_absorb_trint wrap_absorb_size_t unwrap_absorb_size_t wrap_absorb_ntrytes
        unwrap_absorb_ntrytes encode_tryte encode_trint encode_ntrytes
    field_back a b buffer (Field.tryte t) after h room =
        let (_, three, trits) = get3-put3 t [] h in
        (
          ap (decoded_map Field.tryte)
              (absorbed_back s (put3 t) after t _ (decode_tryte-encode_tryte t after h)),
          three,
          omega (arith, length-drop 3 buffer, room),
          absorb-IsValid transform laws s (put3 t) v trits,
        )
    field_back a b buffer (Field.trint t) after h room =
        let (_, nine, trits) = get9-put9 t [] h in
        (
          ap (decoded_map Field.trint)
              (absorbed_back s (put9 t) after t _ (decode_trint-encode_trint t after h)),
          nine,
          omega (arith, length-drop 9 buffer, room),
          absorb-IsValid transform laws s (put9 t) v trits,
        )
    field_back a b buffer (Field.size n) after h room =
        let (back, sized, trits, rest) = decode_size_t-encode_size_t n buffer after h room in
        let written = (encode_size_t n buffer).0 in
        (
          ap (decoded_map Field.size) (absorbed_back s written after n _ back),
          sized,
          omega (arith, ap length rest, length-zeros (length buffer - sizeof_size_t n), room),
          absorb-IsValid transform laws s written v trits,
        )
    field_back a b buffer (Field.ntrytes x) after h room = (
      ap (decoded_map Field.ntrytes)
          (absorbed_back s x after x _ (decode_ntrytes-encode_ntrytes x after)),
      refl,
      omega (arith, length-drop (length x) buffer, room),
      absorb-IsValid transform laws s x v h,
    )
    field_back a b buffer (Field.secret x) after h room =
        let (back, sized, left, valid) = crypt_back a b buffer x after h room in
        (ap (decoded_map Field.secret) back, sized, left, valid)
    field_back a b buffer (Field.mac n) after h room =
        let (back, sized, left, valid) = mac_back buffer n after room in
        (ap (decoded_map (λ _. Field.mac n)) back, sized, left, valid)

-- A message that is wrapped, in place or not, from a well-formed state, into a buffer with room for
-- its fields, each in its range, takes as many trits as its fields do, and is unwrapped, in place or
-- not, from the same state and whatever follows it, as the same fields, with what follows left; sender
-- and receiver end in one state, well-formed. The permutation is any that keeps the size and the trits
-- of the state.
pub unwrap_message-wrap_message :
    (transform : List ℤ → List ℤ) (a b : Bool) (s : Spongos) (buffer : List ℤ) (fields : List Field)
    (after : List ℤ)
    → IsTransform transform
    → IsValid s
    → All IsField fields
    → message_size fields ≤ length buffer
    → let (last, written, rest) = wrap_message transform a s buffer fields in
      (unwrap_message transform b s (written ++ after) (map shape fields)
        ≡ (last, got fields after))
      × (length written ≡ message_size fields)
      × (length rest + message_size fields ≡ length buffer)
      × IsValid last
unfolding wrap_message unwrap_message
unwrap_message-wrap_message transform a b s buffer [] after laws v h room =
    (refl, refl, omega arith, v)
unwrap_message-wrap_message transform a b s buffer (f ∷ fields) after laws v (hf, hs) room =
    let (s', w, rest) = wrap_field transform a s buffer f in
    let (last, ws, left) = wrap_message transform a s' rest fields in
    let (back, sized, used, valid) =
      field_back transform laws s v a b buffer f (ws ++ after) hf (omega arith) in
    let (back', sized', used', valid') =
      unwrap_message-wrap_message transform a b s' rest fields after laws valid hs
        (omega (arith, used, room)) in
    (
      rw (append_assoc w ws after, back, back') refl,
      omega (arith, length-append w ws, sized, sized'),
      omega (arith, used, used'),
      valid',
    )
