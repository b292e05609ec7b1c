-- ===== src/Mam/Spongos/Loop.antt =====
-- The rounds of a loop of mam/sponge/spongos.c on a state that is well-formed.
use entangled.Prelude.{
  ℕ, zero, suc, ◌+◌, ◌≡◌, ◌≤◌, ◌<◌, ◌∙◌, ap, refl, List, [], ◌∷◌, ◌++◌, length, take, drop, All,
  arith, Bool-cases, inl, inr, ◌==◌, length-take, length-drop, take-All, drop-All,
}
use entangled.Prelude.Int.{ℤ}
use entangled.Trinary.Trit.{IsTrit}
use entangled.Mam.Trits.{min}
use entangled.Mam.Spongos.{
  Spongos, Piece, rate, width, put_at, put_outer, outer_trits, commit, update, piece_size, round,
  loop, absorb, absorb_piece,
}

pub record IsValid (s : Spongos) : Type 0 where
  pub positioned : s.pos < rate
  pub sized : length s.state ≡ width
  pub trits : All IsTrit s.state

-- What is used of the permutation: it keeps the size of the state, and trits.
pub record IsTransform (transform : List ℤ → List ℤ) : Type 0 where
  pub transform_length : (s : List ℤ) → length s ≡ width → length (transform s) ≡ width
  pub transform_trits : (s : List ℤ) → length s ≡ width → All IsTrit s → All IsTrit (transform s)

pub length-put_at : (p : ℕ) (new old : List ℤ) → length (put_at p new old) ≡ length old
length-put_at zero [] old = refl
length-put_at zero (n ∷ new) [] = refl
length-put_at zero (n ∷ new) (o ∷ old) = ap suc (length-put_at zero new old)
length-put_at (suc p) new [] = refl
length-put_at (suc p) new (o ∷ old) = ap suc (length-put_at p new old)

pub put_at-IsTrit :
    (p : ℕ) (new old : List ℤ) → All IsTrit new → All IsTrit old → All IsTrit (put_at p new old)
put_at-IsTrit zero [] old hn ho = ho
put_at-IsTrit zero (n ∷ new) [] hn ho = tt
put_at-IsTrit zero (n ∷ new) (o ∷ old) (h, hn) (k, ho) = (h, put_at-IsTrit zero new old hn ho)
put_at-IsTrit (suc p) new [] hn ho = tt
put_at-IsTrit (suc p) new (o ∷ old) hn (k, ho) = (k, put_at-IsTrit p new old hn ho)

pub length-outer : (s : Spongos) → IsValid s → length (outer_trits s) + s.pos ≡ rate
unfolding outer_trits
length-outer s v =
    let a : length (take rate s.state) ≡ rate = length-take rate s.state (omega (arith, v.sized)) in
    omega (arith, length-drop s.pos (take rate s.state), v.positioned, a)

pub outer-IsTrit : (s : Spongos) → IsValid s → All IsTrit (outer_trits s)
unfolding outer_trits
outer-IsTrit s v = drop-All IsTrit s.pos (take rate s.state) (take-All IsTrit rate s.state v.trits)

min_bounds : (k n : ℕ) → 1 ≤ k → 1 ≤ n → (1 ≤ min k n) × (min k n ≤ k) × (min k n ≤ n)
min_bounds k n h h' = ground arith

module _ (transform : List ℤ → List ℤ) (laws : IsTransform transform) where
  -- A piece is not empty where the input is not, and fits both.
  pub piece_size_bounds :
      (s : Spongos) (input : List ℤ)
      → IsValid s
      → 1 ≤ length input
      → let n = piece_size transform s input in
        (1 ≤ n) × (n ≤ length input) × (n ≤ length (outer_trits s)) × (n + s.pos ≤ rate)
  unfolding piece_size
  piece_size_bounds s input v h =
      let o = length-outer s v in
      let (one, le, le') =
        min_bounds (length input) (length (outer_trits s)) h (omega (arith, o, v.positioned)) in
      (one, le, le', omega (arith, o))

  commit-IsValid :
      (s : Spongos)
      → s.pos ≤ rate
      → length s.state ≡ width
      → All IsTrit s.state
      → IsValid (commit transform s)
  unfolding commit
  commit-IsValid s p l t = elim (Bool-cases (s.pos == 0)) [
    | inl y ↦ rw y (record { positioned = ground arith; sized = l; trits = t })
    | inr n ↦ rw n (record {
      positioned = omega arith;
      sized = laws.transform_length s.state l;
      trits = laws.transform_trits s.state l t;
    })
  ]

  update-IsValid :
      (n : ℕ) (s : Spongos)
      → s.pos + n ≤ rate
      → length s.state ≡ width
      → All IsTrit s.state
      → IsValid (update transform n s)
  unfolding update
  update-IsValid n s p l t = elim (Bool-cases ((s.pos + n) == rate)) [
    | inl y ↦ rw y (commit-IsValid (record s { pos = s.pos + n }) p l t)
    | inr ne ↦ rw ne (record { positioned = ground arith; sized = l; trits = t })
  ]

  -- The state stays well-formed when what goes to it are trits.
  pub round-IsValid :
      {B : Type 0} (piece : Piece B) (s : Spongos) (input : List ℤ)
      → IsValid s
      → 1 ≤ length input
      → All IsTrit
          (piece
            (take (piece_size transform s input) input)
            (take (piece_size transform s input) (outer_trits s))).0
      → IsValid (round transform piece s input).0
  unfolding round
  round-IsValid piece s input v h t =
      let (_, _, _, fits) = piece_size_bounds s input v h in
      let new =
        (piece (take (piece_size transform s input) input)
          (take (piece_size transform s input) (outer_trits s))).0 in
      update-IsValid (piece_size transform s input) (put_outer new s) (omega arith)
        (length-put_at s.pos new s.state ∙ v.sized) (put_at-IsTrit s.pos new s.state t v.trits)

  -- A round, and the loop on what is left of the input.
  pub loop_step :
      {B : Type 0} (piece : Piece B) (fuel : ℕ) (s : Spongos) (input : List ℤ)
      → 1 ≤ length input
      → let (s', out) = round transform piece s input in
        let (last, rest) =
          loop transform piece fuel s' (drop (piece_size transform s input) input) in
        loop transform piece (suc fuel) s input ≡ (last, out ++ rest)
  unfolding loop
  loop_step piece fuel s [] h = absurd (omega arith)
  loop_step piece fuel s (t ∷ input) h = refl

  -- What keeps trits in the outer part keeps the state well-formed.
  pub loop-IsValid :
      {B : Type 0} (piece : Piece B) (fuel : ℕ) (s : Spongos) (input : List ℤ)
      → ((x o : List ℤ) → All IsTrit x → All IsTrit o → All IsTrit (piece x o).0)
      → IsValid s
      → All IsTrit input
      → IsValid (loop transform piece fuel s input).0
  unfolding loop
  loop-IsValid piece fuel s [] keep v t = v
  loop-IsValid piece zero s (a ∷ input) keep v t = v
  loop-IsValid piece (suc fuel) s (a ∷ input) keep v t =
      let x = a ∷ input in
      let k = piece_size transform s x in
      loop-IsValid piece fuel (round transform piece s x).0 (drop k x) keep
        (round-IsValid piece s x v (omega arith) (
          keep (take k x) (take k (outer_trits s)) (take-All IsTrit k x t)
            (take-All IsTrit k (outer_trits s) (outer-IsTrit s v))))
        (drop-All IsTrit k x t)

  pub absorb-IsValid :
      (s : Spongos) (input : List ℤ)
      → IsValid s
      → All IsTrit input
      → IsValid (absorb transform s input)
  unfolding absorb
  absorb-IsValid s input v t =
      loop-IsValid absorb_piece (length input) s input (λ x o hx ho. hx) v t
