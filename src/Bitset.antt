-- ===== src/Bitset.antt =====
-- utils/containers/bitset.c: a set of numbers below a bound, as bits of 64-bit words. A word is told
-- by its bits. `bit n` is the bit that `1ULL << n` has: `n` below 64, and for more, where C leaves the
-- shift undefined, what the processor does. Every index that the code computes is within the words
-- that `bistset_required_size` asks for. The two fields that keep the last indexes are left out.
pub mod Laws
use entangled.Prelude.{ℕ, ◌+◌, ◌*◌, ◌/◌, ◌%◌, Bool, true, false, ◌==◌, ◌&&◌, if◌then◌else◌}

pub record Bitset : Type 0 where
  pub raw_bits : ℕ → ℕ → Bool
  pub size : ℕ

unfoldable pub bistset_required_size : ℕ → ℕ
bistset_required_size num_elements = num_elements / 64 + 1

unfoldable pub bitset_reset : Bitset → Bitset
bitset_reset b = if b.size == 0 then b else record b { raw_bits = λ i j. false }

-- `sizeof(*bitset) * 8`: the structure has a pointer, two 32-bit indexes and a size, 24 bytes.
abbrev pub bits_of_bitset : ℕ
bits_of_bitset = 192

module _ (bit : ℕ → ℕ) where
  unfoldable pub bitset_is_set : Bitset → ℕ → Bool
  bitset_is_set b pos = b.raw_bits (pos / bits_of_bitset) (bit (pos % bits_of_bitset))

  unfoldable pub bitset_set_true : Bitset → ℕ → Bitset
  bitset_set_true b pos = record b {
    raw_bits =
        λ i j. if (i == pos / bits_of_bitset) && (j == bit pos) then true else b.raw_bits i j;
  }
