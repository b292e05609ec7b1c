-- ===== src/Mam/Pb3/Fields.antt =====
-- A message as a sequence of fields that are wrapped by the functions of mam/pb3/pb3.c one after the
-- other, and unwrapped in the same order by a receiver who knows their kinds and sizes.
pub mod RoundTrip
use entangled.Prelude.{ℕ, ◌+◌, ◌*◌, ◌≤◌, ◌≡◌, ◌%◌, List, [], ◌∷◌, ◌++◌, length, All, Bool}
use entangled.Prelude.Int.{ℤ}
use entangled.Trinary.Trit.{IsTrit}
use entangled.Mam.Trints.RoundTrip.{IsWithin}
use entangled.Mam.SizeT.{Decoded, got, error, size_max, sizeof_size_t}
use entangled.Mam.Spongos.{Spongos}
use entangled.Mam.Pb3.{
  Wrapped, wrap_absorb_tryte, unwrap_absorb_tryte, wrap_absorb_trint, unwrap_absorb_trint,
  wrap_absorb_size_t, unwrap_absorb_size_t, wrap_absorb_ntrytes, unwrap_absorb_ntrytes,
  wrap_crypt_ntrytes, unwrap_crypt_ntrytes, wrap_squeeze_ntrytes, unwrap_squeeze_ntrytes,
  sizeof_ntrytes,
}

pub data Field : Type 0 where
  tryte : ℤ → Field
  trint : ℤ → Field
  size : ℕ → Field
  ntrytes : List ℤ → Field
  secret : List ℤ → Field
  mac : ℕ → Field

-- What the receiver knows of a field.
pub data Shape : Type 0 where
  tryte : Shape
  trint : Shape
  size : Shape
  ntrytes : ℕ → Shape
  secret : ℕ → Shape
  mac : ℕ → Shape

abbrev pub shape : Field → Shape
shape (Field.tryte t) = Shape.tryte
shape (Field.trint t) = Shape.trint
shape (Field.size n) = Shape.size
shape (Field.ntrytes x) = Shape.ntrytes (length x)
shape (Field.secret x) = Shape.secret (length x)
shape (Field.mac n) = Shape.mac n

-- The trits that a field takes.
abbrev pub field_size : Field → ℕ
field_size (Field.tryte t) = 3
field_size (Field.trint t) = 9
field_size (Field.size n) = sizeof_size_t n
field_size (Field.ntrytes x) = length x
field_size (Field.secret x) = length x
field_size (Field.mac n) = sizeof_ntrytes n

abbrev pub message_size : List Field → ℕ
message_size [] = 0
message_size (f ∷ fs) = field_size f + message_size fs

-- The asserted ranges.
abbrev pub IsField : Field → Type 0
IsField (Field.tryte t) = IsWithin 13 t
IsField (Field.trint t) = IsWithin 9841 t
IsField (Field.size n) = n ≤ size_max
IsField (Field.ntrytes x) = All IsTrit x
IsField (Field.secret x) = All IsTrit x
IsField (Field.mac n) = Unit

abbrev pub decoded_map : {A B : Type 0} → (A → B) → Spongos × Decoded A → Spongos × Decoded B
decoded_map f (s, got a rest) = (s, got (f a) rest)
decoded_map f (s, error e rest) = (s, error e rest)

module _ (transform : List ℤ → List ℤ) where
  unfoldable pub wrap_field : Bool → Spongos → List ℤ → Field → Wrapped transform
  wrap_field in_place s buffer (Field.tryte t) = wrap_absorb_tryte transform s buffer t
  wrap_field in_place s buffer (Field.trint t) = wrap_absorb_trint transform s buffer t
  wrap_field in_place s buffer (Field.size n) = wrap_absorb_size_t transform s buffer n
  wrap_field in_place s buffer (Field.ntrytes x) = wrap_absorb_ntrytes transform s buffer x
  wrap_field in_place s buffer (Field.secret x) = wrap_crypt_ntrytes transform in_place s buffer x
  wrap_field in_place s buffer (Field.mac n) = wrap_squeeze_ntrytes transform s buffer n

  unfoldable pub unwrap_field : Bool → Spongos → List ℤ → Shape → Spongos × Decoded Field
  unwrap_field in_place s buffer Shape.tryte =
      decoded_map Field.tryte (unwrap_absorb_tryte transform s buffer)
  unwrap_field in_place s buffer Shape.trint =
      decoded_map Field.trint (unwrap_absorb_trint transform s buffer)
  unwrap_field in_place s buffer Shape.size =
      decoded_map Field.size (unwrap_absorb_size_t transform s buffer)
  unwrap_field in_place s buffer (Shape.ntrytes n) =
      decoded_map Field.ntrytes (unwrap_absorb_ntrytes transform s buffer n)
  unwrap_field in_place s buffer (Shape.secret n) =
      decoded_map Field.secret (unwrap_crypt_ntrytes transform in_place s buffer n)
  unwrap_field in_place s buffer (Shape.mac n) =
      decoded_map (λ _. Field.mac n) (unwrap_squeeze_ntrytes transform s buffer n)

  unfoldable pub wrap_message : Bool → Spongos → List ℤ → List Field → Wrapped transform
  wrap_message in_place s buffer [] = (s, [], buffer)
  wrap_message in_place s buffer (f ∷ fs) =
      let (s', written, rest) = wrap_field in_place s buffer f in
      let (last, more, left) = wrap_message in_place s' rest fs in (last, written ++ more, left)

  -- A field, and the rest of the message when there is no error.
  abbrev pub then_fields :
      (Spongos → List ℤ → Spongos × Decoded (List Field))
      → Spongos × Decoded Field
      → Spongos × Decoded (List Field)
  then_fields next (s, error e rest) = (s, error e rest)
  then_fields next (s, got f rest) = decoded_map (◌∷◌ f) (next s rest)

  unfoldable pub unwrap_message :
      Bool → Spongos → List ℤ → List Shape → Spongos × Decoded (List Field)
  unwrap_message in_place s buffer [] = (s, got [] buffer)
  unwrap_message in_place s buffer (h ∷ hs) =
      then_fields (λ s' rest. unwrap_message in_place s' rest hs) (unwrap_field in_place s buffer h)
