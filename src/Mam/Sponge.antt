-- ===== src/Mam/Sponge.antt =====
-- mam/sponge/sponge.c: the sponge on its 729 trits, of which 486 are the outer part and the next six
-- the control trits. The permutation Troika, `mam_ftroika_transform`, is a parameter.
pub mod Writes
pub mod Blocks
pub mod Collision
pub mod Cipher
pub mod Several
use entangled.Prelude.{
  ℕ, zero, suc, ◌+◌, ◌-◌, Bool, List, [], ◌∷◌, ◌++◌, ◌==◌, if◌then◌else◌, length, take, drop,
  replicate, get_or, ltb,
}
use entangled.Prelude.Int.{ℤ, pos, negsuc}
use entangled.Trinary.Add.{eq_ℤ}
use entangled.Mam.Trits.{min, padc}
use entangled.Mam.Buffers.{Buffers, buffers_init, buffers_size, buffers_copy_to}
use entangled.Mam.Spongos.{put_at, rate, width, Piece, encr_piece, decr_piece}

-- The results of the two calls of `trits_drop` are not used: each trit is written to one place.
unfoldable pub set_control012 : ℤ → ℤ → ℤ → List ℤ → List ℤ
set_control012 c0 c1 c2 s = put_at rate (c2 ∷ []) (put_at rate (c1 ∷ []) (put_at rate (c0 ∷ []) s))

unfoldable pub set_control345 : ℤ → ℤ → ℤ → List ℤ → List ℤ
set_control345 c3 c4 c5 s =
    put_at (rate + 3) (c5 ∷ []) (put_at (rate + 3) (c4 ∷ []) (put_at (rate + 3) (c3 ∷ []) s))

unfoldable pub get_control1 : List ℤ → ℤ
get_control1 s = get_or s (rate + 1) (pos 0)

unfoldable pub init : List ℤ
init = replicate width (pos 0)

-- The trits `part` at the front of the outer part, and padding after them.
unfoldable pub put_padded : List ℤ → List ℤ → List ℤ
put_padded part s =
    put_at (length part) (padc (pos 1) (drop (length part) (take rate s))) (put_at 0 part s)

abbrev pub is_full_block : ℕ → ℤ
is_full_block n = if ltb n rate then pos 0 else pos 1

-- `c1` of a block after which `left` trits are left.
abbrev pub is_last : ℕ → ℤ
is_last left = if left == 0 then negsuc 0 else pos 1

module _ (transform : List ℤ → List ℤ) where
  -- One round of `mam_sponge_absorb`.
  unfoldable pub absorb_block : ℤ → List ℤ → List ℤ → List ℤ
  absorb_block c2 s input =
      let part = take rate input in
      let c0 = is_full_block (length part) in
      let c1 = is_last (length (drop rate input)) in
      let s' = if eq_ℤ (get_control1 s) (pos 0) then s else transform (set_control345 c0 c1 c2 s) in
      set_control012 c0 c1 c2 (put_padded part s')

  -- The first round, and at most as many more as the fuel.
  unfoldable pub absorb_from : ℕ → ℤ → List ℤ → List ℤ → List ℤ
  absorb_from zero c2 s input = absorb_block c2 s input
  absorb_from (suc fuel) c2 s input =
      let more = absorb_from fuel c2 (absorb_block c2 s input) (drop rate input) in
      if length (drop rate input) == 0 then absorb_block c2 s input else more

  unfoldable pub absorb : ℤ → List ℤ → List ℤ → List ℤ
  absorb c2 s input = absorb_from (length input) c2 s input

  -- One round of `mam_sponge_absorbn`, with `ni` trits to take and `m` after them.
  unfoldable pub absorbn_block : ℤ → ℕ → ℕ → List ℤ → Buffers → List ℤ × Buffers
  absorbn_block c2 ni m s buffers =
      let c0 = is_full_block ni in
      let c1 = is_last m in
      let s' = if eq_ℤ (get_control1 s) (pos 0) then s else transform (set_control345 c0 c1 c2 s) in
      let (part, left) = buffers_copy_to buffers ni in
      (set_control012 c0 c1 c2 (put_padded part s'), left)

  unfoldable pub absorbn_from : ℕ → ℤ → ℕ → List ℤ → Buffers → List ℤ
  absorbn_from zero c2 m s buffers = (absorbn_block c2 (min m rate) (m - min m rate) s buffers).0
  absorbn_from (suc fuel) c2 m s buffers =
      let left = m - min m rate in
      let (s', buffers') = absorbn_block c2 (min m rate) left s buffers in
      let more = absorbn_from fuel c2 left s' buffers' in if left == 0 then s' else more

  unfoldable pub absorbn : ℤ → List ℤ → List (List ℤ) → List ℤ
  absorbn c2 s data_blocks =
      let buffers = buffers_init data_blocks in
      absorbn_from (buffers_size buffers) c2 (buffers_size buffers) s buffers

  -- One round of `mam_sponge_squeeze`, for `n` trits and `left` trits after them.
  unfoldable pub squeeze_block : ℤ → ℕ → ℕ → List ℤ → List ℤ × List ℤ
  squeeze_block c2 n left s =
      let s' = transform (set_control345 (negsuc 0) (is_last left) c2 s) in
      (
        set_control012 (negsuc 0) (is_last left) c2 (put_padded (replicate n (pos 0)) s'),
        take n (take rate s'),
      )

  -- The state and what is squeezed, of `size` trits in all.
  unfoldable pub squeeze_from : ℕ → ℤ → ℕ → List ℤ → List ℤ × List ℤ
  squeeze_from zero c2 size s = squeeze_block c2 (min size rate) (size - min size rate) s
  squeeze_from (suc fuel) c2 size s =
      let left = size - min size rate in
      let (s', out) = squeeze_block c2 (min size rate) left s in
      let (last, rest) = squeeze_from fuel c2 left s' in
      if left == 0 then (s', out) else (last, out ++ rest)

  unfoldable pub squeeze : ℤ → ℕ → List ℤ → List ℤ × List ℤ
  squeeze c2 size s = squeeze_from size c2 size s

  -- `MAM_SPONGE_CTL_DATA` and `MAM_SPONGE_CTL_HASH` are 0.
  unfoldable pub hash : List ℤ → ℕ → List ℤ × List ℤ
  hash plaintext size = squeeze (pos 0) size (absorb (pos 0) init plaintext)

  unfoldable pub hashn : List (List ℤ) → ℕ → List ℤ × List ℤ
  hashn plaintext_blocks size = squeeze (pos 0) size (absorbn (pos 0) init plaintext_blocks)

  -- One round of `mam_sponge_encr` or `mam_sponge_decr`, which differ in what they do with a part of
  -- the text and as much of the outer part.
  unfoldable pub crypt_block : Piece ℤ → List ℤ → List ℤ → List ℤ × List ℤ
  crypt_block piece s text =
      let part = take rate text in
      let c0 = is_full_block (length part) in
      let c1 = is_last (length (drop rate text)) in
      let s' = transform (set_control345 c0 c1 (negsuc 0) s) in
      let (new, out) = piece part (take (length part) (take rate s')) in
      (set_control012 c0 c1 (negsuc 0) (put_padded new s'), out)

  unfoldable pub crypt_from : Piece ℤ → ℕ → List ℤ → List ℤ → List ℤ × List ℤ
  crypt_from piece zero s text = crypt_block piece s text
  crypt_from piece (suc fuel) s text =
      let (s', out) = crypt_block piece s text in
      let (last, rest) = crypt_from piece fuel s' (drop rate text) in
      if length (drop rate text) == 0 then (s', out) else (last, out ++ rest)

  unfoldable pub encr : Bool → List ℤ → List ℤ → List ℤ × List ℤ
  encr in_place s plaintext = crypt_from (encr_piece in_place) (length plaintext) s plaintext

  unfoldable pub decr : Bool → List ℤ → List ℤ → List ℤ × List ℤ
  decr in_place s ciphertext = crypt_from (decr_piece in_place) (length ciphertext) s ciphertext
