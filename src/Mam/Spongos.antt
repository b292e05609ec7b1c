-- ===== src/Mam/Spongos.antt =====
-- mam/sponge/spongos.c: a sponge in overwrite mode. The state is the 729 trits of `mam_sponge_t`; its
-- first 486, the outer part, take what is absorbed and give what is squeezed. `mam_sponge_transform`,
-- the permutation Troika, is a parameter. The four loops over the input or output differ in what they
-- do with a piece of it and as much of the outer part.
pub mod Loop
pub mod Mac
pub mod Cipher
pub mod Absorb
use entangled.Prelude.{
  ℕ, zero, suc, ◌+◌, ◌-◌, Bool, true, false, List, [], ◌∷◌, ◌++◌, ◌==◌, ◌&&◌, if◌then◌else◌, length,
  take, drop, replicate,
}
use entangled.Prelude.Int.{ℤ, pos}
use entangled.Trinary.Long.{overwrite}
use entangled.Mam.Trits.{min, copy_add, copy_sub, swap_add, swap_sub, cmp_eq}

abbrev pub rate : ℕ
rate = 486

abbrev pub width : ℕ
width = 729

pub record Spongos : Type 0 where
  pub state : List ℤ
  pub pos : ℕ

-- `memcpy` to a place of the state.
abbrev pub put_at : ℕ → List ℤ → List ℤ → List ℤ
put_at zero new old = overwrite new old
put_at (suc p) new [] = []
put_at (suc p) new (t ∷ old) = t ∷ put_at p new old

unfoldable pub outer_trits : Spongos → List ℤ
outer_trits s = drop s.pos (take rate s.state)

abbrev pub put_outer : List ℤ → Spongos → Spongos
put_outer new s = record s { state = put_at s.pos new s.state }

unfoldable pub init : Spongos
init = record { state = replicate width (pos 0); pos = 0 }

-- `mam_mam_spongos_fork`: the copy that is made of a state.
unfoldable pub fork : Spongos → Spongos
fork s = record { state = s.state; pos = s.pos }

-- The trits that go to the outer part, and those that go out.
abbrev pub Piece : Type 0 → Type 0
Piece B = List ℤ → List ℤ → List ℤ × List B

abbrev pub absorb_piece : Piece ℤ
absorb_piece input outer = (input, [])

abbrev pub squeeze_piece : Piece ℤ
squeeze_piece output outer = (replicate (length output) (pos 0), outer)

abbrev pub squeeze_eq_piece : Piece Bool
squeeze_eq_piece expected outer = (replicate (length expected) (pos 0), cmp_eq outer expected ∷ [])

abbrev pub encr_piece : Bool → Piece ℤ
encr_piece true plaintext outer = swap_add plaintext outer
encr_piece false plaintext outer = copy_add plaintext outer

abbrev pub decr_piece : Bool → Piece ℤ
decr_piece true ciphertext outer = swap_sub ciphertext outer
decr_piece false ciphertext outer = copy_sub ciphertext outer

abbrev pub all_true : List Bool → Bool
all_true [] = true
all_true (r ∷ rs) = r && all_true rs

module _ (transform : List ℤ → List ℤ) where
  unfoldable pub commit : Spongos → Spongos
  commit s = if s.pos == 0 then s else record { state = transform s.state; pos = 0 }

  unfoldable pub update : ℕ → Spongos → Spongos
  update n s = let s' = record s { pos = s.pos + n } in if s'.pos == rate then commit s' else s'

  -- The size of the next piece.
  unfoldable pub piece_size : Spongos → List ℤ → ℕ
  piece_size s input = min (length input) (length (outer_trits s))

  -- A round of a loop.
  unfoldable pub round : {B : Type 0} → Piece B → Spongos → List ℤ → Spongos × List B
  round piece s input =
      let n = piece_size s input in
      let (new, out) = piece (take n input) (take n (outer_trits s)) in
      (update n (put_outer new s), out)

  -- The rounds of a loop, at most as many as the fuel.
  unfoldable pub loop : {B : Type 0} → Piece B → ℕ → Spongos → List ℤ → Spongos × List B
  loop piece fuel s [] = (s, [])
  loop piece zero s (t ∷ input) = (s, [])
  loop piece (suc fuel) s (t ∷ input) =
      let (s', out) = round piece s (t ∷ input) in
      let (last, rest) = loop piece fuel s' (drop (piece_size s (t ∷ input)) (t ∷ input)) in
      (last, out ++ rest)

  unfoldable pub absorb : Spongos → List ℤ → Spongos
  absorb s input = (loop absorb_piece (length input) s input).0

  unfoldable pub absorbn : Spongos → List (List ℤ) → Spongos
  absorbn s [] = s
  absorbn s (input ∷ inputs) = absorbn (absorb s input) inputs

  -- The output is given with what it held before.
  unfoldable pub squeeze : Spongos → List ℤ → Spongos × List ℤ
  squeeze s output = loop squeeze_piece (length output) s output

  unfoldable pub squeeze_eq : Spongos → List ℤ → Spongos × Bool
  squeeze_eq s expected =
      let (s', rs) = loop squeeze_eq_piece (length expected) s expected in (s', all_true rs)

  unfoldable pub hash : List ℤ → List ℤ → Spongos × List ℤ
  hash input output = squeeze (commit (absorb init input)) output

  unfoldable pub hashn : List (List ℤ) → List ℤ → Spongos × List ℤ
  hashn inputs output = squeeze (commit (absorbn init inputs)) output

  -- `in_place` tells that both texts are one.
  unfoldable pub encr : Bool → Spongos → List ℤ → Spongos × List ℤ
  encr in_place s plaintext = loop (encr_piece in_place) (length plaintext) s plaintext

  unfoldable pub decr : Bool → Spongos → List ℤ → Spongos × List ℤ
  decr in_place s ciphertext = loop (decr_piece in_place) (length ciphertext) s ciphertext
