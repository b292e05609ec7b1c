-- ===== src/Mam/Sponge/Blocks.antt =====
-- A round of `mam_sponge_absorb` of mam/sponge/sponge.c, on states that differ in what it overwrites.
use entangled.Prelude.{
  ℕ, zero, suc, ◌+◌, ◌-◌, ◌≡◌, ◌≤◌, ◌∙◌, ap, sym, refl, arith, true, Bool-cases, List, [], ◌∷◌,
  ◌++◌, ◌==◌, length, length-take, length-drop, take, drop, get_or, inl, inr, take-++-drop,
}
use entangled.Prelude.Int.{ℤ, pos}
use entangled.Mam.Trits.{padc}
use entangled.Mam.Spongos.{put_at, rate, width}
use entangled.Mam.Spongos.Loop.{length-put_at}
use entangled.Mam.Sponge.Writes.{
  put_at-after, put_at-before, put_at-agree, padc-length, length-padc,
}
use entangled.Mam.Sponge.{
  set_control012, get_control1, put_padded, absorb_block, absorb_from, is_full_block, is_last,
}

-- Two states of full size that agree from the second control trit on.
pub record IsAlike (s t : List ℤ) : Type 0 where
  pub sized : length s ≡ width
  pub sized_t : length t ≡ width
  pub same_end : drop (rate + 1) s ≡ drop (rate + 1) t

pub length-outer_left :
    (n : ℕ) (s : List ℤ) → length s ≡ width → length (drop n (take rate s)) ≡ rate - n
length-outer_left n s h =
    omega (arith, length-drop n (take rate s), length-take rate s (omega arith))

-- Padded, they agree on the whole outer part and still from the second control trit on.
pub put_padded-IsAlike :
    (part s t : List ℤ)
    → length part ≤ rate
    → IsAlike s t
    → (take rate (put_padded part s) ≡ take rate (put_padded part t))
      × IsAlike (put_padded part s) (put_padded part t)
      × (drop (rate + 1) (put_padded part s) ≡ drop (rate + 1) s)
unfolding put_padded
put_padded-IsAlike part s t h is =
    let n = length part in
    let pad = padc (pos 1) (drop n (take rate s)) in
    let pad_t = padc (pos 1) (drop n (take rate t)) in
    let ls = length-outer_left n s is.sized in
    let lt = length-outer_left n t is.sized_t in
    let same : pad ≡ pad_t = padc-length (pos 1) _ _ (ls ∙ sym lt) in
    let full : length pad ≡ rate - n = length-padc (pos 1) (drop n (take rate s)) ∙ ls in
    let full_t : length pad_t ≡ rate - n = length-padc (pos 1) (drop n (take rate t)) ∙ lt in
    let s1 = put_at 0 part s in
    let t1 = put_at 0 part t in
    let l1 : length s1 ≡ length t1 =
      length-put_at 0 part s ∙ is.sized ∙ sym (length-put_at 0 part t ∙ is.sized_t) in
    let front : take n s1 ≡ take n t1 =
      put_at-agree 0 n part s t (is.sized ∙ sym is.sized_t) (omega arith) refl in
    let end_s : drop (rate + 1) (put_at n pad s1) ≡ drop (rate + 1) s =
      put_at-after n (rate + 1) pad s1 (omega (arith, full))
      ∙ put_at-after 0 (rate + 1) part s (omega arith) in
    let end_t : drop (rate + 1) (put_at n pad_t t1) ≡ drop (rate + 1) t =
      put_at-after n (rate + 1) pad_t t1 (omega (arith, full_t))
      ∙ put_at-after 0 (rate + 1) part t (omega arith) in
    (
      put_at-agree n rate pad s1 t1 l1 (omega (arith, full)) front
          ∙ ap (λ x. take rate (put_at n x t1)) same,
      record {
        sized = length-put_at n pad s1 ∙ length-put_at 0 part s ∙ is.sized;
        sized_t = length-put_at n pad_t t1 ∙ length-put_at 0 part t ∙ is.sized_t;
        same_end = end_s ∙ is.same_end ∙ sym end_t;
      },
      end_s,
    )

pub drop-set_control012 :
    (c0 c1 c2 : ℤ) (s : List ℤ) → drop (rate + 1) (set_control012 c0 c1 c2 s) ≡ drop (rate + 1) s
unfolding set_control012
drop-set_control012 c0 c1 c2 s =
    let s0 = put_at rate (c0 ∷ []) s in
    put_at-after rate (rate + 1) (c2 ∷ []) (put_at rate (c1 ∷ []) s0) (omega arith)
    ∙ put_at-after rate (rate + 1) (c1 ∷ []) s0 (omega arith)
    ∙ put_at-after rate (rate + 1) (c0 ∷ []) s (omega arith)

pub length-set_control012 :
    (c0 c1 c2 : ℤ) (s : List ℤ) → length (set_control012 c0 c1 c2 s) ≡ length s
unfolding set_control012
length-set_control012 c0 c1 c2 s =
    let s0 = put_at rate (c0 ∷ []) s in
    length-put_at rate (c2 ∷ []) (put_at rate (c1 ∷ []) s0)
    ∙ length-put_at rate (c1 ∷ []) s0
    ∙ length-put_at rate (c0 ∷ []) s

-- The last of the three trits stands in the one place that all of them are written to.
pub set_control012-alike :
    (c0 c1 c2 : ℤ) (s t : List ℤ)
    → take rate s ≡ take rate t
    → IsAlike s t
    → set_control012 c0 c1 c2 s ≡ set_control012 c0 c1 c2 t
unfolding set_control012
set_control012-alike c0 c1 c2 s t front is =
    let s0 = put_at rate (c0 ∷ []) s in
    let t0 = put_at rate (c0 ∷ []) t in
    let s1 = put_at rate (c1 ∷ []) s0 in
    let t1 = put_at rate (c1 ∷ []) t0 in
    let kept : (x : List ℤ)
        → take rate (put_at rate (c1 ∷ []) (put_at rate (c0 ∷ []) x)) ≡ take rate x =
      λ x.
        put_at-before rate (c1 ∷ []) (put_at rate (c0 ∷ []) x) ∙ put_at-before rate (c0 ∷ []) x in
    let sized : (x : List ℤ) → length (put_at rate (c1 ∷ []) (put_at rate (c0 ∷ []) x)) ≡ length x =
      λ x.
        length-put_at rate (c1 ∷ []) (put_at rate (c0 ∷ []) x) ∙ length-put_at rate (c0 ∷ []) x in
    let begin : take (rate + 1) (put_at rate (c2 ∷ []) s1)
        ≡ take (rate + 1) (put_at rate (c2 ∷ []) t1) =
      put_at-agree rate (rate + 1) (c2 ∷ []) s1 t1 (sized s ∙ is.sized ∙ sym (sized t ∙ is.sized_t))
        (omega arith) (kept s ∙ front ∙ sym (kept t)) in
    let end : drop (rate + 1) (put_at rate (c2 ∷ []) s1)
        ≡ drop (rate + 1) (put_at rate (c2 ∷ []) t1) =
      drop-set_control012 c0 c1 c2 s ∙ is.same_end ∙ sym (drop-set_control012 c0 c1 c2 t) in
    sym (take-++-drop (rate + 1) (put_at rate (c2 ∷ []) s1))
    ∙ ap (λ x. x ++ drop (rate + 1) (put_at rate (c2 ∷ []) s1)) begin
    ∙ ap (λ x. take (rate + 1) (put_at rate (c2 ∷ []) t1) ++ x) end
    ∙ take-++-drop (rate + 1) (put_at rate (c2 ∷ []) t1)

pub get_or-drop : (k : ℕ) (s : List ℤ) (d : ℤ) → get_or s k d ≡ get_or (drop k s) 0 d
get_or-drop zero [] d = refl
get_or-drop zero (a ∷ s) d = refl
get_or-drop (suc k) [] d = refl
get_or-drop (suc k) (a ∷ s) d = get_or-drop k s d

-- The second control trit is among what two alike states share.
pub control1-alike :
    (s t : List ℤ) → drop (rate + 1) s ≡ drop (rate + 1) t → get_control1 s ≡ get_control1 t
unfolding get_control1
control1-alike s t e =
    get_or-drop (rate + 1) s (pos 0)
    ∙ ap (λ x. get_or x 0 (pos 0)) e
    ∙ sym (get_or-drop (rate + 1) t (pos 0))

pub length-take-le : (k : ℕ) (x : List ℤ) → length (take k x) ≤ k
length-take-le zero x = omega arith
length-take-le (suc k) [] = omega arith
length-take-le (suc k) (a ∷ x) = omega (arith, length-take-le k x)

module _ (transform : List ℤ → List ℤ) (c2 : ℤ) where
  length-part : (x : List ℤ) → length (take rate x) ≤ rate
  length-part x = length-take-le rate x

  -- A round whose second control trit is zero applies no permutation.
  pub absorb_block-alike :
      (s t input : List ℤ)
      → IsAlike s t
      → get_control1 s ≡ pos 0
      → (absorb_block transform c2 s input ≡ absorb_block transform c2 t input)
        × (drop (rate + 1) (absorb_block transform c2 s input) ≡ drop (rate + 1) s)
        × (length (absorb_block transform c2 s input) ≡ width)
  unfolding absorb_block
  absorb_block-alike s t input is z =
      let part = take rate input in
      let z' : get_control1 t ≡ pos 0 = sym (control1-alike s t is.same_end) ∙ z in
      let c0 = is_full_block (length part) in
      let c1 = is_last (length (drop rate input)) in
      let (front, is', kept) = put_padded-IsAlike part s t (length-part input) is in
      rw (z, z')
        (
          set_control012-alike c0 c1 c2 (put_padded part s) (put_padded part t) front is',
          drop-set_control012 c0 c1 c2 (put_padded part s) ∙ kept,
          length-set_control012 c0 c1 c2 (put_padded part s) ∙ is'.sized,
        )

  pub absorb_from-alike :
      (fuel : ℕ) (s t input : List ℤ)
      → IsAlike s t
      → get_control1 s ≡ pos 0
      → absorb_from transform fuel c2 s input ≡ absorb_from transform fuel c2 t input
  unfolding absorb_from
  absorb_from-alike zero s t input is z = (absorb_block-alike s t input is z).0
  absorb_from-alike (suc fuel) s t input is z = rw (absorb_block-alike s t input is z).0 refl

  -- More fuel than there are trits makes no difference.
  pub absorb_from-fuel :
      (f f' : ℕ) (s input : List ℤ)
      → length input ≤ f
      → length input ≤ f'
      → absorb_from transform f c2 s input ≡ absorb_from transform f' c2 s input
  unfolding absorb_from
  absorb_from-fuel zero zero s input h h' = refl
  absorb_from-fuel zero (suc f') s input h h' =
      let e : (length (drop rate input) == 0) ≡ true = ground (arith, length-drop rate input) in
      rw e refl
  absorb_from-fuel (suc f) zero s input h h' =
      let e : (length (drop rate input) == 0) ≡ true = ground (arith, length-drop rate input) in
      rw e refl
  absorb_from-fuel (suc f) (suc f') s input h h' =
      elim (Bool-cases (length (drop rate input) == 0)) [
        | inl e ↦ rw e refl
        | inr e ↦ rw e (
            absorb_from-fuel f f' (absorb_block transform c2 s input) (drop rate input)
              (ground (arith, length-drop rate input)) (ground (arith, length-drop rate input)))
      ]
