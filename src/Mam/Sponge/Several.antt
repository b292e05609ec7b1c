-- ===== src/Mam/Sponge/Several.antt =====
-- What is absorbed from several buffers is absorbed as from one.
use entangled.Prelude.{
  ℕ, zero, suc, ◌-◌, ◌≡◌, ◌≤◌, refl, List, [], ◌∷◌, ◌==◌, if◌then◌else◌, length, take, drop, concat,
  arith, sym, ◌∙◌, length-drop, ltb, chosen,
}
use entangled.Prelude.Int.{ℤ, pos}
use entangled.Mam.Trits.{min}
use entangled.Mam.Spongos.{rate}
use entangled.Mam.Buffers.{Buffers, buffers_init}
use entangled.Mam.Buffers.Laws.{take_all, drop_all, content, size_from-content, copy_from-content}
use entangled.Mam.Sponge.{
  absorb_block, absorb_from, absorb, absorbn_block, absorbn_from, absorbn, hash, hashn, init,
}

length-take-min : (n : ℕ) (xs : List ℤ) → length (take n xs) ≡ min (length xs) n
length-take-min zero xs = ground arith
length-take-min (suc n) [] = ground arith
length-take-min (suc n) (x ∷ xs) = ground (arith, length-take-min n xs)

length-drop-min : (n : ℕ) (xs : List ℤ) → length (drop n xs) ≡ length xs - min (length xs) n
length-drop-min n xs = ground (arith, length-drop n xs)

take-min : (n : ℕ) (xs : List ℤ) → take (min (length xs) n) xs ≡ take n xs
take-min n xs =
    chosen (λ k. take k xs ≡ take n xs) (ltb (length xs) n) (length xs) n
      (λ y.
        let short : length xs ≤ n = ground (arith, y) in
        take_all (length xs) xs (omega arith) ∙ sym (take_all n xs short))
      (λ z. refl)

drop-min : (n : ℕ) (xs : List ℤ) → drop (min (length xs) n) xs ≡ drop n xs
drop-min n xs =
    chosen (λ k. drop k xs ≡ drop n xs) (ltb (length xs) n) (length xs) n
      (λ y.
        let short : length xs ≤ n = ground (arith, y) in
        drop_all (length xs) xs (omega arith) ∙ sym (drop_all n xs short))
      (λ z. refl)

module _ (transform : List ℤ → List ℤ) where
  -- A round takes the same trits as from one buffer, and leaves the others.
  absorbn_block-absorb_block :
      (c2 : ℤ) (s : List ℤ) (b : Buffers)
      → ((absorbn_block transform c2
            (min (length (content b)) rate)
            (length (content b) - min (length (content b)) rate)
            s
            b).0
          ≡ absorb_block transform c2 s (content b))
        × (content
              (absorbn_block transform c2
                (min (length (content b)) rate)
                (length (content b) - min (length (content b)) rate)
                s
                b).1
            ≡ drop rate (content b))
  unfolding absorbn_block absorb_block
  absorbn_block-absorb_block c2 s b =
      let input : List ℤ = content b in
      let (copied, left) = copy_from-content (min (length input) rate) b.head b.tail in
      (
        rw (copied, take-min rate input, length-take-min rate input, length-drop-min rate input)
            refl,
        left ∙ drop-min rate input,
      )

  absorbn_from-absorb_from :
      (fuel : ℕ) (c2 : ℤ) (s : List ℤ) (b : Buffers)
      → absorbn_from transform fuel c2 (length (content b)) s b
        ≡ absorb_from transform fuel c2 s (content b)
  unfolding absorbn_from absorb_from
  absorbn_from-absorb_from zero c2 s b = (absorbn_block-absorb_block c2 s b).0
  absorbn_from-absorb_from (suc fuel) c2 s b =
      let input : List ℤ = content b in
      let m : ℕ = length input - min (length input) rate in
      let r : List ℤ × Buffers = absorbn_block transform c2 (min (length input) rate) m s b in
      let (same, left) = absorbn_block-absorb_block c2 s b in
      goes_on m r.0 r.1 (absorb_block transform c2 s input) (drop rate input)
        (sym (length-drop-min rate input)) same left (absorbn_from-absorb_from fuel c2 r.0 r.1)
    where
      goes_on :
          (m : ℕ) (s' : List ℤ) (b' : Buffers) (t rest : List ℤ)
          → m ≡ length rest
          → s' ≡ t
          → content b' ≡ rest
          → absorbn_from transform fuel c2 (length (content b')) s' b'
            ≡ absorb_from transform fuel c2 s' (content b')
          → (if m == 0 then s' else absorbn_from transform fuel c2 m s' b')
            ≡ (if length rest == 0 then t else absorb_from transform fuel c2 t rest)
      goes_on m s' b' t rest q same left more = rw (q, sym left, more, same) refl

  -- For every control trit and every state, what `mam_sponge_absorbn` leaves after several buffers is
  -- what `mam_sponge_absorb` leaves after one with their trits in order, empty buffers included.
  pub absorbn-absorb :
      (c2 : ℤ) (s : List ℤ) (data_blocks : List (List ℤ))
      → absorbn transform c2 s data_blocks ≡ absorb transform c2 s (concat data_blocks)
  unfolding absorbn absorb buffers_init
  absorbn-absorb c2 s data_blocks =
      rw (size_from-content [] data_blocks)
        (absorbn_from-absorb_from (length (concat data_blocks)) c2 s (buffers_init data_blocks))

  -- The hash of several buffers is that of one with their trits in order.
  pub hashn-hash :
      (plaintext_blocks : List (List ℤ)) (size : ℕ)
      → hashn transform plaintext_blocks size ≡ hash transform (concat plaintext_blocks) size
  unfolding hashn hash
  hashn-hash plaintext_blocks size = rw (absorbn-absorb (pos 0) init plaintext_blocks) refl
