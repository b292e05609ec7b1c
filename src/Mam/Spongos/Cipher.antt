-- ===== src/Mam/Spongos/Cipher.antt =====
-- `mam_spongos_encr` and `mam_spongos_decr` of mam/sponge/spongos.c, one after the other.
use mathlib.Core.Path.{subst}
use entangled.Prelude.{
  ℕ, zero, suc, ◌≡◌, ◌≤◌, ◌∙◌, ap, sym, refl, Bool, true, false, List, [], ◌∷◌, ◌++◌, length, take,
  drop, All, arith, length-append, length-take, length-drop, take-All, drop-All, take-++-drop,
  take-++, drop-++,
}
use entangled.Prelude.Int.{ℤ}
use entangled.Trinary.Trit.{IsTrit}
use entangled.Mam.Trits.Laws.{
  swap_add-copy_add, swap_sub-copy_sub, copy_add-plain, copy_sub-copy_add, length-copy_add,
}
use entangled.Mam.Spongos.{
  Spongos, Piece, outer_trits, piece_size, round, loop, encr_piece, decr_piece, encr, decr,
}
use entangled.Mam.Spongos.Loop.{
  IsValid, IsTransform, outer-IsTrit, piece_size_bounds, round-IsValid, loop_step,
}

-- The second routine finds what the first was given, and leaves the same in the outer part.
pub record IsInverse (f g : Piece ℤ) : Type 0 where
  pub plain : (x s : List ℤ) → length x ≡ length s → (f x s).0 ≡ x
  pub sized : (x s : List ℤ) → length x ≡ length s → length (f x s).1 ≡ length x
  pub back :
      (x s : List ℤ) → length x ≡ length s → All IsTrit x → All IsTrit s → g (f x s).1 s ≡ (x, x)

pub pieces-IsInverse : (a b : Bool) → IsInverse (encr_piece a) (decr_piece b)
pieces-IsInverse false false = record {
  plain = copy_add-plain;
  sized = length-copy_add;
  back = copy_sub-copy_add;
}
pieces-IsInverse false true = record {
  plain = copy_add-plain;
  sized = length-copy_add;
  back = λ x s h hx hs. swap_sub-copy_sub _ s ∙ copy_sub-copy_add x s h hx hs;
}
pieces-IsInverse true false = record {
  plain = λ x s h. rw (swap_add-copy_add x s) (copy_add-plain x s h);
  sized = λ x s h. rw (swap_add-copy_add x s) (length-copy_add x s h);
  back = λ x s h hx hs. rw (swap_add-copy_add x s) (copy_sub-copy_add x s h hx hs);
}
pieces-IsInverse true true = record {
  plain = λ x s h. rw (swap_add-copy_add x s) (copy_add-plain x s h);
  sized = λ x s h. rw (swap_add-copy_add x s) (length-copy_add x s h);
  back = λ x s h hx hs.
      rw (swap_add-copy_add x s) (swap_sub-copy_sub _ s ∙ copy_sub-copy_add x s h hx hs);
}

module _ (transform : List ℤ → List ℤ) (laws : IsTransform transform) (f g : Piece ℤ)
    (inv : IsInverse f g) where
  -- A round on an input `x` that is not empty.
  module _ (s : Spongos) (x : List ℤ) (v : IsValid s) (h : 1 ≤ length x) where
    abbrev n : ℕ
    n = piece_size transform s x

    piece_lengths : length (take n x) ≡ length (take n (outer_trits s))
    piece_lengths =
        let (_, le, le', _) = piece_size_bounds transform laws s x v h in
        length-take n x le ∙ sym (length-take n (outer_trits s) le')

    length-out : length (round transform f s x).1 ≡ n
    unfolding round
    length-out =
        let (_, le, _, _) = piece_size_bounds transform laws s x v h in
        inv.sized (take n x) (take n (outer_trits s)) piece_lengths ∙ length-take n x le

    next-IsValid : All IsTrit x → IsValid (round transform f s x).0
    next-IsValid t = round-IsValid transform laws f s x v h (
        subst (All IsTrit) (sym (inv.plain (take n x) (take n (outer_trits s)) piece_lengths))
          (take-All IsTrit n x t))

    -- The round of the second routine on as many trits, the first of which the first one gave.
    round_back :
        (ys : List ℤ)
        → All IsTrit x
        → piece_size transform s ys ≡ n
        → take n ys ≡ (round transform f s x).1
        → round transform g s ys ≡ ((round transform f s x).0, take n x)
    unfolding round
    round_back ys t same first =
        rw
          (
            same,
            first,
            inv.back (take n x) (take n (outer_trits s)) piece_lengths (take-All IsTrit n x t)
                (take-All IsTrit n (outer_trits s) (outer-IsTrit s v)),
            inv.plain (take n x) (take n (outer_trits s)) piece_lengths,
          )
          refl

  piece_size-length :
      (s : Spongos) (x y : List ℤ)
      → length x ≡ length y
      → piece_size transform s x ≡ piece_size transform s y
  unfolding piece_size
  piece_size-length s x y h = rw h refl

  loop-inverse :
      (fuel : ℕ) (s : Spongos) (x : List ℤ)
      → length x ≤ fuel
      → IsValid s
      → All IsTrit x
      → let (last, ys) = loop transform f fuel s x in
        (length ys ≡ length x) × (loop transform g fuel s ys ≡ (last, x)) × IsValid last
  unfolding loop
  loop-inverse fuel s [] h v t = (refl, refl, v)
  loop-inverse zero s (a ∷ x) h v t = absurd (omega arith)
  loop-inverse (suc fuel) s (a ∷ x) h v t =
      let input = a ∷ x in
      let k = piece_size transform s input in
      let some_left : 1 ≤ length input = omega arith in
      let (one, le, _, _) = piece_size_bounds transform laws s input v some_left in
      let (s', out) = round transform f s input in
      let rest = drop k input in
      let (same, back, valid) =
        loop-inverse fuel s' rest (omega (arith, length-drop k input, one, le, h))
          (next-IsValid s input v some_left t) (drop-All IsTrit k input t) in
      let ys = (loop transform f fuel s' rest).1 in
      let sized : length (out ++ ys) ≡ length input = omega (
        arith,
        length-append out ys,
        length-out s input v some_left,
        same,
        length-drop k input,
        le,
      ) in
      let first : take k (out ++ ys) ≡ out =
        subst (λ j. take j (out ++ ys) ≡ out) (length-out s input v some_left) (take-++ out ys) in
      let second : drop k (out ++ ys) ≡ ys =
        subst (λ j. drop j (out ++ ys) ≡ ys) (length-out s input v some_left) (drop-++ out ys) in
      let pieces = piece_size-length s (out ++ ys) input sized in
      (
        sized,
        loop_step transform laws g fuel s (out ++ ys) (omega (arith, sized))
            ∙ rw (pieces, round_back s input v some_left (out ++ ys) t pieces first, second, back)
                (ap (λ z. ((loop transform f fuel s' rest).0, z)) (take-++-drop k input)),
        valid,
      )

-- On a well-formed state and a text of trits, whether in place or not, `mam_spongos_encr` gives a
-- text of the same size, from which `mam_spongos_decr`, in place or not, on the same state gets the
-- text back and leaves the same state as encryption did, well-formed, whatever the permutation is
-- that keeps the size and the trits of the state.
pub decr-encr :
    (transform : List ℤ → List ℤ) (a b : Bool) (s : Spongos) (plaintext : List ℤ)
    → IsTransform transform
    → IsValid s
    → All IsTrit plaintext
    → let (last, ciphertext) = encr transform a s plaintext in
      (length ciphertext ≡ length plaintext)
      × (decr transform b s ciphertext ≡ (last, plaintext))
      × IsValid last
unfolding encr decr
decr-encr transform a b s plaintext laws v t =
    let (sized, back, valid) =
      loop-inverse transform laws (encr_piece a) (decr_piece b) (pieces-IsInverse a b)
        (length plaintext) s plaintext (omega arith) v t in
    (
      sized,
      subst
          (λ k.
            loop transform (decr_piece b) k s
              (loop transform (encr_piece a) (length plaintext) s plaintext).1
            ≡ ((loop transform (encr_piece a) (length plaintext) s plaintext).0, plaintext))
          (sym sized) back,
      valid,
    )
