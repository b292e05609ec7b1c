-- ===== src/Trinary/Trit.antt =====
-- common/trinary/trits.h: a trit is an `int8_t`, read here as an integer; the code keeps it between
-- -1 and 1, and nothing in its type does.
use entangled.Prelude.{ℕ, ◌≡◌, ◌⊎◌, ◌+◌, ◌-◌, ◌%◌}
use entangled.Prelude.Int.{ℤ, pos, negsuc, pos_part, neg_part}
use entangled.Prelude.Word.{u64_mod}

abbrev pub IsTrit : ℤ → Type 0
IsTrit t = (t ≡ negsuc 0) ⊎ (t ≡ pos 0) ⊎ (t ≡ pos 1)

-- The 64-bit pattern of an integer.
abbrev pub word : ℤ → ℕ
word z = (pos_part z + u64_mod - neg_part z) % u64_mod
