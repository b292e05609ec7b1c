-- ===== src/Mam/Sponge/Cipher.antt =====
-- `mam_sponge_encr` and `mam_sponge_decr` of mam/sponge/sponge.c, one after the other.
use mathlib.Core.Path.{subst}
use entangled.Prelude.{
  ℕ, zero, suc, ◌+◌, ◌-◌, ◌≡◌, ◌≤◌, ◌<◌, ◌∙◌, ap, sym, inl, inr, refl, Bool, true, false, List, [],
  ◌∷◌, ◌++◌, length, take, drop, All, arith, ◌==◌, length-append, length-take, length-drop,
  take-All, drop-All, Bool-cases, take-++-drop, take-++, drop-++, ltb,
}
use entangled.Prelude.Int.{ℤ, pos, negsuc}
use entangled.Trinary.Trit.{IsTrit}
use entangled.Mam.Trits.{padc}
use entangled.Mam.Trits.Laws.{replicate-IsTrit}
use entangled.Mam.Spongos.{put_at, rate, width, Piece, encr_piece, decr_piece}
use entangled.Mam.Spongos.Loop.{IsTransform, length-put_at, put_at-IsTrit}
use entangled.Mam.Spongos.Cipher.{IsInverse, pieces-IsInverse}
use entangled.Mam.Sponge.{
  set_control012, set_control345, put_padded, is_full_block, is_last, crypt_block, crypt_from, encr,
  decr,
}

-- A state of full size that holds trits.
pub record IsState (s : List ℤ) : Type 0 where
  pub sized : length s ≡ width
  pub trits : All IsTrit s

put_at-IsState : (p : ℕ) (new s : List ℤ) → All IsTrit new → IsState s → IsState (put_at p new s)
put_at-IsState p new s t is = record {
  sized = length-put_at p new s ∙ is.sized;
  trits = put_at-IsTrit p new s t is.trits;
}

set_control012-IsState :
    (c0 c1 c2 : ℤ) (s : List ℤ)
    → IsTrit c0
    → IsTrit c1
    → IsTrit c2
    → IsState s
    → IsState (set_control012 c0 c1 c2 s)
unfolding set_control012
set_control012-IsState c0 c1 c2 s h0 h1 h2 is =
    put_at-IsState rate (c2 ∷ []) _ (h2, tt)
      (put_at-IsState rate (c1 ∷ []) _ (h1, tt) (put_at-IsState rate (c0 ∷ []) s (h0, tt) is))

set_control345-IsState :
    (c3 c4 c5 : ℤ) (s : List ℤ)
    → IsTrit c3
    → IsTrit c4
    → IsTrit c5
    → IsState s
    → IsState (set_control345 c3 c4 c5 s)
unfolding set_control345
set_control345-IsState c3 c4 c5 s h3 h4 h5 is =
    put_at-IsState (rate + 3) (c5 ∷ []) _ (h5, tt)
      (put_at-IsState (rate + 3) (c4 ∷ []) _ (h4, tt)
        (put_at-IsState (rate + 3) (c3 ∷ []) s (h3, tt) is))

padc-IsTrit : (x : List ℤ) → All IsTrit (padc (pos 1) x)
unfolding padc
padc-IsTrit [] = tt
padc-IsTrit (a ∷ x) = (inr (inr refl), replicate-IsTrit (length x) (pos 0) (inr (inl refl)))

put_padded-IsState : (part s : List ℤ) → All IsTrit part → IsState s → IsState (put_padded part s)
unfolding put_padded
put_padded-IsState part s t is =
    put_at-IsState (length part) _ _ (padc-IsTrit (drop (length part) (take rate s)))
      (put_at-IsState 0 part s t is)

is_full_block-IsTrit : (n : ℕ) → IsTrit (is_full_block n)
is_full_block-IsTrit n = elim (Bool-cases (ltb n rate)) [
  | inl y ↦ rw y (inr (inl refl))
  | inr n' ↦ rw n' (inr (inr refl))
]

is_last-IsTrit : (n : ℕ) → IsTrit (is_last n)
is_last-IsTrit n = elim (Bool-cases (n == 0)) [
  | inl y ↦ rw y (inl refl)
  | inr n' ↦ rw n' (inr (inr refl))
]

length-take-le : (k : ℕ) (x : List ℤ) → length (take k x) ≤ k
length-take-le zero x = omega arith
length-take-le (suc k) [] = omega arith
length-take-le (suc k) (a ∷ x) = omega (arith, length-take-le k x)

take-short : (k : ℕ) (x : List ℤ) → length x ≤ k → take k x ≡ x
take-short zero [] h = refl
take-short zero (a ∷ x) h = absurd (omega arith)
take-short (suc k) [] h = refl
take-short (suc k) (a ∷ x) h = ap (◌∷◌ a) (take-short k x (omega arith))

-- What the test after a block tells of the size of the text.
past_rate : (n m : ℕ) → m ≡ n - rate → (m == 0) ≡ false → rate < n
past_rate n m h e = ground arith

within_rate : (n m : ℕ) → m ≡ n - rate → (m == 0) ≡ true → n ≤ rate
within_rate n m h e = ground arith

module _ (transform : List ℤ → List ℤ) (laws : IsTransform transform) (f g : Piece ℤ)
    (inv : IsInverse f g) where
  -- The round of the second routine on any text `y` that begins with what the first one gave.
  block_back :
      (s x : List ℤ)
      → IsState s
      → All IsTrit x
      → ((y : List ℤ)
          → take rate y ≡ (crypt_block transform f s x).1
          → length (drop rate y) ≡ length (drop rate x)
          → crypt_block transform g s y ≡ ((crypt_block transform f s x).0, take rate x))
        × (length (crypt_block transform f s x).1 ≡ length (take rate x))
        × IsState (crypt_block transform f s x).0
  unfolding crypt_block
  block_back s x is t =
      let part = take rate x in
      let c0 = is_full_block (length part) in
      let c1 = is_last (length (drop rate x)) in
      let h0 = is_full_block-IsTrit (length part) in
      let h1 = is_last-IsTrit (length (drop rate x)) in
      let ready = set_control345-IsState c0 c1 (negsuc 0) s h0 h1 (inl refl) is in
      let moved = transform (set_control345 c0 c1 (negsuc 0) s) in
      let is' : IsState moved = record {
        sized = laws.transform_length _ ready.sized;
        trits = laws.transform_trits _ ready.sized ready.trits;
      } in
      let key = take (length part) (take rate moved) in
      let room : length (take rate moved) ≡ rate =
        length-take rate moved (omega (arith, is'.sized)) in
      let fits : length part ≡ length key = sym (
        length-take (length part) (take rate moved) (omega (arith, room, length-take-le rate x))) in
      let trits = take-All IsTrit rate x t in
      let keys =
        take-All IsTrit (length part) (take rate moved) (take-All IsTrit rate moved is'.trits) in
      let sized = inv.sized part key fits in
      (
        λ y first same.
            rw (first, same, sized, inv.back part key fits trits keys, inv.plain part key fits)
              refl,
        sized,
        rw (inv.plain part key fits) (
            set_control012-IsState c0 c1 (negsuc 0) (put_padded part moved) h0 h1 (inl refl)
              (put_padded-IsState part moved trits is')),
      )

  abbrev IsReadBack : ℕ → List ℤ → List ℤ → List ℤ × List ℤ → Type 0
  IsReadBack fuel s x (last, ys) =
      (length ys ≡ length x) × (crypt_from transform g fuel s ys ≡ (last, x)) × IsState last

  -- The last block.
  last_back :
      (s x : List ℤ)
      → IsState s
      → All IsTrit x
      → length x ≤ rate
      → let (s', out) = crypt_block transform f s x in
        (length out ≡ length x)
        × (crypt_block transform g s out ≡ (s', x))
        × (length (drop rate out) ≡ 0)
        × IsState s'
  last_back s x is t small =
      let (s', out) = crypt_block transform f s x in
      let (back, sized, next) = block_back s x is t in
      let whole = take-short rate x small in
      let full : length out ≡ length x = sized ∙ ap length whole in
      let none : length (drop rate out) ≡ 0 = omega (arith, length-drop rate out, full, small) in
      (
        full,
        back out (take-short rate out (omega (arith, full, small)))
              (none ∙ sym (omega (arith, length-drop rate x, small)))
            ∙ ap (λ z. (s', z)) whole,
        none,
        next,
      )

  crypt_back :
      (fuel : ℕ) (s x : List ℤ)
      → length x ≤ fuel
      → IsState s
      → All IsTrit x
      → IsReadBack fuel s x (crypt_from transform f fuel s x)
  unfolding crypt_from
  crypt_back zero s x h is t =
      let (full, back, _, next) = last_back s x is t (omega arith) in (full, back, next)
  crypt_back (suc fuel) s x h is t = elim (Bool-cases (length (drop rate x) == 0)) [
    | inl y ↦
        let (full, back, none, next) =
          last_back s x is t
            (within_rate (length x) (length (drop rate x)) (length-drop rate x) y) in
        rw (y, back, none) (full, refl, next)
    | inr n ↦
        let (s', out) = crypt_block transform f s x in
        let (back, sized, next) = block_back s x is t in
        let some_left : rate < length x =
          past_rate (length x) (length (drop rate x)) (length-drop rate x) n in
        let (same, rest, valid) =
          crypt_back fuel s' (drop rate x) (omega (arith, length-drop rate x, h, some_left)) next
            (drop-All IsTrit rate x t) in
        let ys = (crypt_from transform f fuel s' (drop rate x)).1 in
        let full : length out ≡ rate = sized ∙ length-take rate x (omega (arith, some_left)) in
        let first : take rate (out ++ ys) ≡ out =
          subst (λ k. take k (out ++ ys) ≡ out) full (take-++ out ys) in
        let second : drop rate (out ++ ys) ≡ ys =
          subst (λ k. drop k (out ++ ys) ≡ ys) full (drop-++ out ys) in
        let test : (length ys == 0) ≡ false = rw same n in
        rw n (
          omega (arith, length-append out ys, full, same, length-drop rate x, some_left),
          rw (back (out ++ ys) first (ap length second ∙ same), second, test, rest)
              (ap (λ z. ((crypt_from transform f fuel s' (drop rate x)).0, z))
                (take-++-drop rate x)),
          valid,
        )
  ]

-- On a state of full size that holds trits, and a text of trits, whether in place or not,
-- `mam_sponge_encr` gives a text of the same size, from which `mam_sponge_decr`, in place or not, on the
-- same state gets the text back and leaves the same state as encryption did, again of full size and
-- of trits, whatever the permutation is that keeps the size and the trits of the state.
pub decr-encr_sponge :
    (transform : List ℤ → List ℤ) (a b : Bool) (s plaintext : List ℤ)
    → IsTransform transform
    → IsState s
    → All IsTrit plaintext
    → let (last, ciphertext) = encr transform a s plaintext in
      (length ciphertext ≡ length plaintext)
      × (decr transform b s ciphertext ≡ (last, plaintext))
      × IsState last
unfolding encr decr
decr-encr_sponge transform a b s plaintext laws is t =
    let (full, back, next) =
      crypt_back transform laws (encr_piece a) (decr_piece b) (pieces-IsInverse a b)
        (length plaintext) s plaintext (omega arith) is t in
    (
      full,
      subst
          (λ k.
            crypt_from transform (decr_piece b) k s
              (crypt_from transform (encr_piece a) (length plaintext) s plaintext).1
            ≡ ((crypt_from transform (encr_piece a) (length plaintext) s plaintext).0, plaintext))
          (sym full) back,
      next,
    )
