-- ===== src/Mam/Sponge/Collision.antt =====
-- Data of more than one block under `mam_sponge_hash` of mam/sponge/sponge.c.
use entangled.Prelude.{
  ℕ, suc, ◌+◌, ◌≡◌, ◌≤◌, ◌∙◌, ap, refl, arith, false, List, ◌++◌, ◌==◌, length, length-append, drop,
  drop-++,
}
use mathlib.Core.Path.{subst}
use entangled.Prelude.Int.{ℤ, pos}
use entangled.Mam.Spongos.{rate, width}
use entangled.Mam.Sponge.{get_control1, absorb_block, absorb_from, absorb, init, hash, squeeze}
use entangled.Mam.Sponge.Blocks.{
  IsAlike, control1-alike, absorb_block-alike, absorb_from-alike, absorb_from-fuel,
}

nonzero_test : (n : ℕ) → 1 ≤ n → (n == 0) ≡ false
nonzero_test n h = ground arith

-- A block that more trits follow leaves no trace.
absorb-++ :
    (transform : List ℤ → List ℤ) (c2 : ℤ) (s block rest : List ℤ)
    → length s ≡ width
    → get_control1 s ≡ pos 0
    → length block ≡ rate
    → 1 ≤ length rest
    → absorb transform c2 s (block ++ rest) ≡ absorb transform c2 s rest
unfolding absorb absorb_from
absorb-++ transform c2 s block rest sized z full some_left =
    let input = block ++ rest in
    let more = 485 + length rest in
    let fuel : length input ≡ suc more = omega (arith, length-append block rest, full) in
    let left : drop rate input ≡ rest =
      subst (λ n. drop n input ≡ rest) full (drop-++ block rest) in
    let e = nonzero_test (length rest) some_left in
    let same : IsAlike s s = record { sized = sized; sized_t = sized; same_end = refl } in
    let (_, kept, full') = absorb_block-alike transform c2 s s input same z in
    let alike : IsAlike (absorb_block transform c2 s input) s = record {
      sized = full';
      sized_t = sized;
      same_end = kept;
    } in
    rw (fuel, left, e)
      (absorb_from-alike transform c2 more (absorb_block transform c2 s input) s rest alike
          (control1-alike (absorb_block transform c2 s input) s kept ∙ z)
        ∙ absorb_from-fuel transform c2 more (length rest) s rest (omega arith) (omega arith))

init_facts : (length init ≡ width) × (get_control1 init ≡ pos 0)
unfolding init get_control1
init_facts = (refl, refl)

-- `mam_sponge_hash` gives data that are not empty the state and the digest, of any size, that it gives
-- the same data with a block of 486 trits before them: the first block is lost. The permutation is any
-- function.
pub hash-collision :
    (transform : List ℤ → List ℤ) (block rest : List ℤ) (n : ℕ)
    → length block ≡ rate
    → 1 ≤ length rest
    → hash transform (block ++ rest) n ≡ hash transform rest n
unfolding hash
hash-collision transform block rest n full some_left =
    ap (squeeze transform (pos 0) n)
      (absorb-++ transform (pos 0) init block rest init_facts.0 init_facts.1 full some_left)
