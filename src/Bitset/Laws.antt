-- ===== src/Bitset/Laws.antt =====
-- A bit that is set, and the positions that share one.
use entangled.Prelude.{ℕ, ◌+◌, ◌/◌, ◌%◌, ◌≡◌, ◌<◌, refl, true, ◌==◌, if◌then◌else◌, arith, ap, ◌∙◌}
use entangled.Bitset.{Bitset, bitset_is_set, bitset_set_true}

both {ℓ κ} : {A : Type ℓ} {B : Type κ} (f : A → A → B) {x y u v : A} → x ≡ y → u ≡ v → f x u ≡ f y v
both f {x} {y} {u} {v} p q = ap (λ z. f z u) p ∙ ap (f y) q

module _ (bit : ℕ → ℕ) (below : (n : ℕ) → n < 64 → bit n ≡ n) where
  word_index : (p : ℕ) → p < 64 → p / 192 ≡ 0
  word_index p l = omega arith

  bit_index : (p : ℕ) → p < 64 → p % 192 ≡ p
  bit_index p l = omega arith

  is_set_low : (b : Bitset) (q : ℕ) → q < 64 → bitset_is_set bit b q ≡ b.raw_bits 0 q
  unfolding bitset_is_set
  is_set_low b q l = both (b.raw_bits) (word_index q l) (ap bit (bit_index q l) ∙ below q l)

  -- The positions below 64 are apart.
  pub is_set-set_true :
      (b : Bitset) (p q : ℕ)
      → p < 64
      → q < 64
      → bitset_is_set bit (bitset_set_true bit b p) q
        ≡ (if q == p then true else bitset_is_set bit b q)
  unfolding bitset_set_true
  is_set-set_true b p q lp lq =
      rw (is_set_low (bitset_set_true bit b p) q lq, is_set_low b q lq, word_index p lp, below p lp)
        refl

module _ (bit : ℕ → ℕ) (wraps : (n : ℕ) → bit n ≡ n % 64) where
  same_word : (p : ℕ) → p % 192 < 128 → (p + 64) / 192 ≡ p / 192
  same_word p l = omega arith

  same_bit : (p : ℕ) → p % 192 < 128 → ((p + 64) % 192) % 64 ≡ p % 64
  same_bit p l = omega arith

  -- Where the shift takes its count modulo 64, setting a position whose remainder by 192 is below 128
  -- sets the position 64 after it as well.
  pub is_set-set_true_alias :
      (b : Bitset) (p : ℕ)
      → p % 192 < 128
      → bitset_is_set bit (bitset_set_true bit b p) (p + 64) ≡ true
  unfolding bitset_is_set bitset_set_true
  is_set-set_true_alias b p l =
      rw (same_word p l, wraps ((p + 64) % 192), same_bit p l, wraps p) (ground arith)
