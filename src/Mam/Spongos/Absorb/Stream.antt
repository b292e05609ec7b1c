-- ===== src/Mam/Spongos/Absorb/Stream.antt =====
-- Input that `mam_spongos_absorb` of mam/sponge/spongos.c takes in several calls.
use entangled.Prelude.{
  ℕ, zero, suc, ◌+◌, ◌≡◌, ◌≤◌, ◌<◌, ◌⊎◌, ◌∙◌, ap, sym, inl, inr, refl, List, [], ◌∷◌, ◌++◌, length,
  take, drop, All, arith, length-append, length-drop, drop-All, All-append, append_nil,
  take-++-left, drop-++-left, take-++-right, drop-++-right, concat,
}
use entangled.Prelude.Int.{ℤ, pos}
use entangled.Trinary.Trit.{IsTrit}
use entangled.Mam.Trits.{min}
use entangled.Mam.Trits.Laws.{length-replicate, replicate-IsTrit}
use entangled.Mam.Spongos.{
  Spongos, width, put_outer, outer_trits, commit, update, piece_size, absorb, absorbn, squeeze,
  hash, hashn, init,
}
use entangled.Mam.Spongos.Loop.{IsValid, IsTransform, length-outer, absorb-IsValid}
use entangled.Mam.Spongos.Absorb.{
  put_at-++, compare_sizes, absorb_taking, absorbed_by-IsValid, absorbed_by, piece_size_full,
  after_part, absorb_part, length-outer_part, absorb_nothing,
}

module _ (transform : List ℤ → List ℤ) (laws : IsTransform transform) where
  -- When the first part leaves room, the second goes on in the same round.
  same_round :
      (s : Spongos) (x y : List ℤ) (k : ℕ)
      → absorbed_by transform laws (after_part transform laws s x) k y
        ≡ absorbed_by transform laws s (length x + k) (x ++ y)
  unfolding absorbed_by after_part update
  same_round s x y k =
      let place : s.pos + length x + k ≡ s.pos + (length x + k) = omega arith in
      rw
        (
          put_at-++ s.pos (s.pos + length x) x (take k y) s.state refl,
          take-++-right (length x + k) k x y refl,
          place,
        )
        refl

  min_shift : (k n room room' : ℕ) → room' + k ≡ room → min (k + n) room ≡ k + min n room'
  min_shift k n room room' h = ground arith

  piece_size_shift :
      (s t : Spongos) (x y : List ℤ)
      → length (outer_trits t) + length x ≡ length (outer_trits s)
      → piece_size transform s (x ++ y) ≡ length x + piece_size transform t y
  unfolding piece_size
  piece_size_shift s t x y h =
      rw (length-append x y)
        (min_shift (length x) (length y) (length (outer_trits s)) (length (outer_trits t)) h)

  absorb-part-++ :
      (s : Spongos) (x y : List ℤ)
      → IsValid s
      → 1 ≤ length x
      → All IsTrit x
      → All IsTrit y
      → length x < length (outer_trits s)
      → absorb transform (absorb transform s x) y ≡ absorb transform s (x ++ y)
  absorb-part-++ s x [] v h t u less =
      absorb_nothing transform laws (absorb transform s x)
      ∙ ap (absorb transform s) (sym (append_nil x))
  absorb-part-++ s x (b ∷ y) v h t u less =
      let rest = b ∷ y in
      let (one, w) = absorb_part transform laws s x v h t less in
      let s1 = after_part transform laws s x in
      let k = piece_size transform s1 rest in
      let size = piece_size_shift s s1 x rest (length-outer_part transform laws s x v w) in
      ap (λ r. absorb transform r rest) one
      ∙ absorb_taking transform laws s1 rest k w (omega arith) u refl
      ∙ ap (λ r. absorb transform r (drop k rest)) (same_round s x rest k)
      ∙ ap (absorb transform (absorbed_by transform laws s (length x + k) (x ++ rest)))
          (sym (drop-++-right (length x + k) k x rest refl))
      ∙ sym (
          absorb_taking transform laws s (x ++ rest) (length x + k) v
            (omega (arith, length-append x rest, h)) (All-append IsTrit x rest t u) size)

  same_first :
      (s : Spongos) (k : ℕ) (x y : List ℤ)
      → k ≤ length x
      → absorbed_by transform laws s k x ≡ absorbed_by transform laws s k (x ++ y)
  unfolding absorbed_by
  same_first s k x y h = ap (λ z. update transform k (put_outer z s)) (sym (take-++-left k x y h))

  full_or_part :
      (s : Spongos) (x : List ℤ)
      → (length (outer_trits s) ≤ length x) ⊎ (length x < length (outer_trits s))
  full_or_part s x = compare_sizes (length (outer_trits s)) (length x)

  absorb-twice :
      (n : ℕ) (s : Spongos) (x y : List ℤ)
      → length x ≤ n
      → IsValid s
      → All IsTrit x
      → All IsTrit y
      → absorb transform (absorb transform s x) y ≡ absorb transform s (x ++ y)
  absorb-twice n s [] y h v t u = ap (λ r. absorb transform r y) (absorb_nothing transform laws s)
  absorb-twice zero s (a ∷ x) y h v t u = absurd (omega arith)
  absorb-twice (suc n) s (a ∷ x) y h v t u =
      let input = a ∷ x in
      elim (full_or_part s input) [
        | inr less ↦ absorb-part-++ s input y v (omega arith) t u less
        | inl full ↦
            let k = length (outer_trits s) in
            let s1 = absorbed_by transform laws s k input in
            let some_left : 1 ≤ length input = omega arith in
            let size = piece_size_full transform laws s input full in
            let size' =
              piece_size_full transform laws s (input ++ y)
                (omega (arith, length-append input y, full)) in
            let room = length-outer s v in
            let ip = v.positioned in
            ap (λ r. absorb transform r y)
              (absorb_taking transform laws s input k v some_left t size)
            ∙ absorb-twice n s1 (drop k input) y (omega (arith, length-drop k input, room, ip, h))
                (absorbed_by-IsValid transform laws s input k v some_left t size)
                (drop-All IsTrit k input t) u
            ∙ ap (λ r. absorb transform r (drop k input ++ y)) (same_first s k input y full)
            ∙ ap (absorb transform (absorbed_by transform laws s k (input ++ y)))
                (sym (drop-++-left k input y full))
            ∙ sym (
                absorb_taking transform laws s (input ++ y) k v
                  (omega (arith, length-append input y, some_left)) (All-append IsTrit input y t u)
                  size')
      ]

  absorbn-concat :
      (s : Spongos) (inputs : List (List ℤ))
      → IsValid s
      → All (All IsTrit) inputs
      → (absorbn transform s inputs ≡ absorb transform s (concat inputs))
        × All IsTrit (concat inputs)
  unfolding absorbn
  absorbn-concat s [] v t = (sym (absorb_nothing transform laws s), tt)
  absorbn-concat s (x ∷ inputs) v (t, ts) =
      let (rest, trits) =
        absorbn-concat (absorb transform s x) inputs (absorb-IsValid transform laws s x v t) ts in
      (
        rest ∙ absorb-twice (length x) s x (concat inputs) (omega arith) v t trits,
        All-append IsTrit x (concat inputs) t trits,
      )

init-IsValid : IsValid init
unfolding init
init-IsValid = record {
  positioned = omega arith;
  sized = length-replicate width (pos 0);
  trits = replicate-IsTrit width (pos 0) (inr (inl refl));
}

-- `mam_spongos_absorb` of trits and then of more trits leaves a well-formed state as one call with all
-- of them does, and `mam_spongos_hashn` of several inputs of trits leaves the state and the digest that
-- `mam_spongos_hash` does of them all in one, whatever the permutation is that keeps the size and the
-- trits of the state.
pub absorb-absorb :
    (transform : List ℤ → List ℤ) (s : Spongos) (x y output : List ℤ) (inputs : List (List ℤ))
    → IsTransform transform
    → IsValid s
    → All IsTrit x
    → All IsTrit y
    → All (All IsTrit) inputs
    → (absorb transform (absorb transform s x) y ≡ absorb transform s (x ++ y))
      × (hashn transform inputs output ≡ hash transform (concat inputs) output)
unfolding hash hashn
absorb-absorb transform s x y output inputs laws v t u ts = (
  absorb-twice transform laws (length x) s x y (omega arith) v t u,
  ap (λ r. squeeze transform (commit transform r) output)
      (absorbn-concat transform laws init inputs init-IsValid ts).0,
)
