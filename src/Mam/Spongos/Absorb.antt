-- ===== src/Mam/Spongos/Absorb.antt =====
-- The rounds of `mam_spongos_absorb` of mam/sponge/spongos.c.
pub mod Stream
use mathlib.Core.Path.{subst}
use entangled.Prelude.{
  ℕ, zero, suc, ◌+◌, ◌-◌, ◌≡◌, ◌≤◌, ◌<◌, ◌⊎◌, ◌∙◌, ap, sym, inl, inr, refl, Bool, true, false, List,
  [], ◌∷◌, ◌++◌, length, take, drop, All, arith, ◌==◌, length-append, length-take, length-drop,
  take-All, drop-All, All-append, append_nil, take-++-left, drop-++-left, take-++-right,
  drop-++-right, concat, replicate,
}
use entangled.Prelude.Int.{ℤ, pos}
use entangled.Trinary.Trit.{IsTrit}
use entangled.Trinary.Long.{overwrite}
use entangled.Mam.Trits.{min}
use entangled.Mam.Trits.Laws.{length-replicate, replicate-IsTrit}
use entangled.Mam.Spongos.{
  Spongos, rate, width, put_at, put_outer, outer_trits, commit, update, piece_size, round, loop,
  absorb_piece, absorb, absorbn, squeeze, hash, hashn, init,
}
use entangled.Mam.Spongos.Loop.{
  IsValid, IsTransform, length-outer, piece_size_bounds, round-IsValid, loop_step, absorb-IsValid,
}

put_at-++ :
    (p n : ℕ) (a b s : List ℤ) → n ≡ p + length a → put_at n b (put_at p a s) ≡ put_at p (a ++ b) s
put_at-++ zero zero [] b s h = refl
put_at-++ zero (suc n) [] b s h = absurd (omega arith)
put_at-++ zero zero (t ∷ a) b s h = absurd (omega arith)
put_at-++ zero (suc n) (t ∷ a) b [] h = refl
put_at-++ zero (suc n) (t ∷ a) b (o ∷ s) h = ap (◌∷◌ t) (put_at-++ zero n a b s (omega arith))
put_at-++ (suc p) zero a b s h = absurd (omega arith)
put_at-++ (suc p) (suc n) a b [] h = refl
put_at-++ (suc p) (suc n) a b (o ∷ s) h = ap (◌∷◌ o) (put_at-++ p n a b s (omega arith))

min_right : (k n : ℕ) → n ≤ k → min k n ≡ n
min_right k n h = ground arith

min_left : (k n : ℕ) → k ≤ n → min k n ≡ k
min_left k n h = ground arith

pos_test : (n : ℕ) → n < rate → (n == rate) ≡ false
pos_test n h = ground arith

compare_sizes : (k n : ℕ) → (k ≤ n) ⊎ (n < k)
compare_sizes k n = ground arith

take-all : (x : List ℤ) → take (length x) x ≡ x
take-all [] = refl
take-all (a ∷ x) = ap (◌∷◌ a) (take-all x)

drop-all : (x : List ℤ) → drop (length x) x ≡ []
drop-all [] = refl
drop-all (a ∷ x) = drop-all x

module _ (transform : List ℤ → List ℤ) (laws : IsTransform transform) where
  absorb_round :
      (s : Spongos) (x : List ℤ)
      → (round transform absorb_piece s x).0
        ≡ update transform
            (piece_size transform s x)
            (put_outer (take (piece_size transform s x) x) s)
  unfolding round
  absorb_round s x = refl

  next-IsValid :
      (s : Spongos) (x : List ℤ)
      → IsValid s
      → 1 ≤ length x
      → All IsTrit x
      → IsValid (round transform absorb_piece s x).0
  next-IsValid s x v h t =
      round-IsValid transform laws absorb_piece s x v h
        (take-All IsTrit (piece_size transform s x) x t)

  loop-fuel :
      (f f' : ℕ) (s : Spongos) (x : List ℤ)
      → IsValid s
      → All IsTrit x
      → length x ≤ f
      → length x ≤ f'
      → (loop transform absorb_piece f s x).0 ≡ (loop transform absorb_piece f' s x).0
  unfolding loop
  loop-fuel f f' s [] v t h h' = refl
  loop-fuel zero f' s (a ∷ x) v t h h' = absurd (omega arith)
  loop-fuel (suc f) zero s (a ∷ x) v t h h' = absurd (omega arith)
  loop-fuel (suc f) (suc f') s (a ∷ x) v t h h' =
      let input = a ∷ x in
      let k = piece_size transform s input in
      let some_left : 1 ≤ length input = omega arith in
      let (one, le, _, _) = piece_size_bounds transform laws s input v some_left in
      let less = length-drop k input in
      loop-fuel f f' (round transform absorb_piece s input).0 (drop k input)
        (next-IsValid s input v some_left t) (drop-All IsTrit k input t)
        (omega (arith, less, one, le, h)) (omega (arith, less, one, le, h'))

  -- A round, and the rest of the input.
  absorb_step :
      (s : Spongos) (x : List ℤ)
      → IsValid s
      → 1 ≤ length x
      → All IsTrit x
      → absorb transform s x
        ≡ absorb transform (round transform absorb_piece s x).0 (drop (piece_size transform s x) x)
  unfolding absorb
  absorb_step s [] v h t = absurd (omega arith)
  absorb_step s (a ∷ x) v h t =
      let input = a ∷ x in
      let k = piece_size transform s input in
      let (one, le, _, _) = piece_size_bounds transform laws s input v h in
      ap (λ p. p.0) (loop_step transform laws absorb_piece (length x) s input h)
      ∙ loop-fuel (length x) (length (drop k input)) (round transform absorb_piece s input).0
          (drop k input) (next-IsValid s input v h t) (drop-All IsTrit k input t)
          (omega (arith, length-drop k input, one, le)) (omega arith)

  absorb_nothing : (s : Spongos) → absorb transform s [] ≡ s
  unfolding absorb loop
  absorb_nothing s = refl

  -- A round takes this many trits of the input.
  absorbed_by : Spongos → ℕ → List ℤ → Spongos
  absorbed_by s n x = update transform n (put_outer (take n x) s)

  absorb_taking :
      (s : Spongos) (x : List ℤ) (n : ℕ)
      → IsValid s
      → 1 ≤ length x
      → All IsTrit x
      → piece_size transform s x ≡ n
      → absorb transform s x ≡ absorb transform (absorbed_by s n x) (drop n x)
  unfolding absorbed_by
  absorb_taking s x n v h t e =
      absorb_step s x v h t
      ∙ subst
          (λ k.
            absorb transform (round transform absorb_piece s x).0
              (drop (piece_size transform s x) x)
            ≡ absorb transform (update transform k (put_outer (take k x) s)) (drop k x))
          e (ap (λ r. absorb transform r (drop (piece_size transform s x) x)) (absorb_round s x))

  absorbed_by-IsValid :
      (s : Spongos) (x : List ℤ) (n : ℕ)
      → IsValid s
      → 1 ≤ length x
      → All IsTrit x
      → piece_size transform s x ≡ n
      → IsValid (absorbed_by s n x)
  unfolding absorbed_by
  absorbed_by-IsValid s x n v h t e =
      subst (λ k. IsValid (update transform k (put_outer (take k x) s))) e
        (subst IsValid (absorb_round s x) (next-IsValid s x v h t))

  piece_size_full :
      (s : Spongos) (x : List ℤ)
      → length (outer_trits s) ≤ length x
      → piece_size transform s x ≡ length (outer_trits s)
  unfolding piece_size
  piece_size_full s x h = min_right (length x) (length (outer_trits s)) h

  piece_size_part :
      (s : Spongos) (x : List ℤ)
      → length x ≤ length (outer_trits s)
      → piece_size transform s x ≡ length x
  unfolding piece_size
  piece_size_part s x h = min_left (length x) (length (outer_trits s)) h

  -- Input that leaves room in the outer part is written there.
  after_part : Spongos → List ℤ → Spongos
  after_part s x = record { state = put_at s.pos x s.state; pos = s.pos + length x }

  absorb_part :
      (s : Spongos) (x : List ℤ)
      → IsValid s
      → 1 ≤ length x
      → All IsTrit x
      → length x < length (outer_trits s)
      → (absorb transform s x ≡ after_part s x) × IsValid (after_part s x)
  unfolding absorbed_by after_part update
  absorb_part s x v h t less =
      let k = piece_size_part s x (omega arith) in
      let below : ((s.pos + length x) == rate) ≡ false =
        pos_test (s.pos + length x) (omega (arith, length-outer s v)) in
      let same : absorbed_by s (length x) x ≡ after_part s x = rw (take-all x, below) refl in
      (
        absorb_taking s x (length x) v h t k
            ∙ ap (absorb transform (absorbed_by s (length x) x)) (drop-all x)
            ∙ absorb_nothing (absorbed_by s (length x) x)
            ∙ same,
        subst IsValid same (absorbed_by-IsValid s x (length x) v h t k),
      )

  part_pos :
      (s : Spongos) (x : List ℤ)
      → length (outer_trits (after_part s x)) + (after_part s x).pos ≡ rate
      → length (outer_trits (after_part s x)) + (s.pos + length x) ≡ rate
  unfolding after_part
  part_pos s x h = h

  length-outer_part :
      (s : Spongos) (x : List ℤ)
      → IsValid s
      → IsValid (after_part s x)
      → length (outer_trits (after_part s x)) + length x ≡ length (outer_trits s)
  length-outer_part s x v w =
      let a : length (outer_trits (after_part s x)) + (s.pos + length x) ≡ rate =
        part_pos s x (length-outer (after_part s x) w) in
      omega (arith, a, length-outer s v)
