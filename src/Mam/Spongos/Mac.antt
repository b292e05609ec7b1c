-- ===== src/Mam/Spongos/Mac.antt =====
-- `mam_spongos_squeeze` and `mam_spongos_squeeze_eq` of mam/sponge/spongos.c.
use mathlib.Core.Path.{subst}
use entangled.Prelude.{
  ℕ, zero, suc, ◌≡◌, ◌≤◌, ◌↔◌, ◌≢◌, ◌∙◌, ap, sym, refl, Bool, true, false, List, [], ◌∷◌, ◌++◌,
  ◌&&◌, length, take, drop, arith, length-append, length-take, length-drop, take-++-drop, take-++,
  drop-++, inl, inr,
}
use entangled.Prelude.Int.{ℤ, pos}
use entangled.Mam.Trits.{min, cmp_eq}
use entangled.Mam.Trits.Laws.{replicate-IsTrit}
use entangled.Mam.Trits.Compare.{cmp_eq_iff}
use entangled.Mam.Spongos.{
  Spongos, outer_trits, piece_size, round, loop, squeeze_piece, squeeze_eq_piece, squeeze,
  squeeze_eq, all_true,
}
use entangled.Mam.Spongos.Loop.{IsValid, IsTransform, piece_size_bounds, round-IsValid, loop_step}

false_not_true : false ≢ true
false_not_true h = cc

both_true : (a b : Bool) → ((a && b) ≡ true) ↔ ((a ≡ true) × (b ≡ true))
both_true true b = (λ h. (refl, h), λ p. p.1)
both_true false b = (λ h. absurd (false_not_true h), λ p. p.0)

append_iff :
    (a b x : List ℤ)
    → length a ≤ length x
    → ((a ≡ take (length a) x) × (b ≡ drop (length a) x)) ↔ (a ++ b ≡ x)
append_iff a b x h = (
  λ (p, q). rw (p, q) (take-++-drop (length a) x),
  λ e. (rw (sym e) (sym (take-++ a b)), rw (sym e) (sym (drop-++ a b))),
)

-- The two routines of a piece leave the same in the outer part.
same_round :
    (transform : List ℤ → List ℤ) (s : Spongos) (x : List ℤ)
    → round transform squeeze_eq_piece s x ≡ (
      (round transform squeeze_piece s x).0,
      cmp_eq (round transform squeeze_piece s x).1 (take (piece_size transform s x) x) ∷ [],
    )
unfolding round
same_round transform s x = refl

length-squeezed :
    (transform : List ℤ → List ℤ) (s : Spongos) (x : List ℤ)
    → IsTransform transform
    → IsValid s
    → 1 ≤ length x
    → length (round transform squeeze_piece s x).1 ≡ piece_size transform s x
unfolding round
length-squeezed transform s x laws v h =
    let (_, _, le, _) = piece_size_bounds transform laws s x v h in
    length-take (piece_size transform s x) (outer_trits s) le

-- The loops on `x` end in one state, and the comparison is that of the output with `x`.
abbrev Agree : Spongos × List ℤ → Spongos × List Bool → List ℤ → Type 0
Agree (last, out) (last', rs) x =
    (last' ≡ last) × (length out ≡ length x) × ((all_true rs ≡ true) ↔ (out ≡ x)) × IsValid last

next_round :
    (transform : List ℤ → List ℤ) (fuel : ℕ) (s : Spongos) (x : List ℤ)
    → IsTransform transform
    → IsValid s
    → 1 ≤ length x
    → (let (s', out) = round transform squeeze_piece s x in
        let rest = drop (piece_size transform s x) x in
        Agree
          (loop transform squeeze_piece fuel s' rest)
          (loop transform squeeze_eq_piece fuel s' rest)
          rest)
    → Agree
        (loop transform squeeze_piece (suc fuel) s x)
        (loop transform squeeze_eq_piece (suc fuel) s x)
        x
next_round transform fuel s x laws v some_left (same, full, iff, valid) =
    let k = piece_size transform s x in
    let (_, le, _, _) = piece_size_bounds transform laws s x v some_left in
    let (s', out) = round transform squeeze_piece s x in
    let sized = length-squeezed transform s x laws v some_left in
    let out' = (loop transform squeeze_piece fuel s' (drop k x)).1 in
    let rs = (loop transform squeeze_eq_piece fuel s' (drop k x)).1 in
    let (glue, cut) =
      subst (λ n. ((out ≡ take n x) × (out' ≡ drop n x)) ↔ (out ++ out' ≡ x)) sized
        (append_iff out out' x (omega (arith, sized, le))) in
    let (first, first') = cmp_eq_iff out (take k x) in
    let (part, join) = both_true (cmp_eq out (take k x)) (all_true rs) in
    rw
      (
        loop_step transform laws squeeze_piece fuel s x some_left,
        loop_step transform laws squeeze_eq_piece fuel s x some_left,
        same_round transform s x,
      )
      (
        same,
        omega (arith, length-append out out', sized, full, length-drop k x, le),
        (
          λ h. let (a, b) = part h in glue (first a, iff.0 b),
          λ e. let (a, b) = cut e in join (first' a, iff.1 b),
        ),
        valid,
      )

lockstep :
    (transform : List ℤ → List ℤ) (fuel : ℕ) (s : Spongos) (x : List ℤ)
    → IsTransform transform
    → length x ≤ fuel
    → IsValid s
    → Agree (loop transform squeeze_piece fuel s x) (loop transform squeeze_eq_piece fuel s x) x
unfolding loop
lockstep transform fuel s [] laws h v = (refl, refl, (λ _. refl, λ _. refl), v)
lockstep transform zero s (a ∷ y) laws h v = absurd (omega arith)
lockstep transform (suc fuel) s (a ∷ y) laws h v =
    let x = a ∷ y in
    let k = piece_size transform s x in
    let some_left : 1 ≤ length x = omega arith in
    let (one, le, _, _) = piece_size_bounds transform laws s x v some_left in
    next_round transform fuel s x laws v some_left (
      lockstep transform fuel (round transform squeeze_piece s x).0 (drop k x) laws
        (omega (arith, length-drop k x, one, le, h))
        (round-IsValid transform laws squeeze_piece s x v some_left
          (replicate-IsTrit _ (pos 0) (inr (inl refl)))))

length-take-same :
    (n : ℕ) (a b : List ℤ) → length a ≡ length b → length (take n a) ≡ length (take n b)
length-take-same zero a b h = refl
length-take-same (suc n) [] [] h = refl
length-take-same (suc n) [] (y ∷ b) h = absurd (omega arith)
length-take-same (suc n) (x ∷ a) [] h = absurd (omega arith)
length-take-same (suc n) (x ∷ a) (y ∷ b) h = ap suc (length-take-same n a b (omega arith))

-- Only the size of what the output held before matters.
squeeze_round-length :
    (transform : List ℤ → List ℤ) (s : Spongos) (a b : List ℤ)
    → length a ≡ length b
    → (piece_size transform s a ≡ piece_size transform s b)
      × (round transform squeeze_piece s a ≡ round transform squeeze_piece s b)
unfolding round piece_size
squeeze_round-length transform s a b h =
    (rw h refl, rw (h, length-take-same (min (length b) (length (outer_trits s))) a b h) refl)

squeeze_loop-length :
    (transform : List ℤ → List ℤ) (fuel : ℕ) (s : Spongos) (a b : List ℤ)
    → length a ≡ length b
    → loop transform squeeze_piece fuel s a ≡ loop transform squeeze_piece fuel s b
unfolding loop
squeeze_loop-length transform fuel s [] [] h = refl
squeeze_loop-length transform fuel s [] (y ∷ b) h = absurd (omega arith)
squeeze_loop-length transform fuel s (x ∷ a) [] h = absurd (omega arith)
squeeze_loop-length transform zero s (x ∷ a) (y ∷ b) h = refl
squeeze_loop-length transform (suc fuel) s (x ∷ a) (y ∷ b) h =
    let (k, same) = squeeze_round-length transform s (x ∷ a) (y ∷ b) h in
    let n = piece_size transform s (y ∷ b) in
    let (s', out) = round transform squeeze_piece s (y ∷ b) in
    let left : length (drop n (x ∷ a)) ≡ length (drop n (y ∷ b)) =
      omega (arith, length-drop n (x ∷ a), length-drop n (y ∷ b), h) in
    rw (k, same, squeeze_loop-length transform fuel s' (drop n (x ∷ a)) (drop n (y ∷ b)) left) refl

-- On a well-formed state, `mam_spongos_squeeze` fills an output of any size, and
-- `mam_spongos_squeeze_eq` on the same state and expected trits of that size accepts them exactly when
-- they are the output; both leave one state, well-formed, whatever the permutation is that keeps the
-- size and the trits of the state, and whatever the output held before.
pub squeeze_eq-squeeze :
    (transform : List ℤ → List ℤ) (s : Spongos) (old expected : List ℤ)
    → IsTransform transform
    → IsValid s
    → length expected ≡ length old
    → let (last, output) = squeeze transform s old in
      let (last', accepted) = squeeze_eq transform s expected in
      (last' ≡ last)
      × (length output ≡ length old)
      × ((accepted ≡ true) ↔ (output ≡ expected))
      × IsValid last
unfolding squeeze squeeze_eq
squeeze_eq-squeeze transform s old expected laws v h =
    let (same, full, iff, valid) =
      lockstep transform (length expected) s expected laws (omega arith) v in
    subst
      (λ (p : Spongos × List ℤ).
        let (last', rs) = loop transform squeeze_eq_piece (length expected) s expected in
        (last' ≡ p.0)
        × (length p.1 ≡ length old)
        × ((all_true rs ≡ true) ↔ (p.1 ≡ expected))
        × IsValid p.0)
      (squeeze_loop-length transform (length expected) s expected old h
        ∙ ap (λ n. loop transform squeeze_piece n s old) h)
      (same, full ∙ h, iff, valid)
