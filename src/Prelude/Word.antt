-- ===== src/Prelude/Word.antt =====
-- `int64_t` and `uint64_t` as bit patterns below 2^64: sums wrap, and a pattern of 2^63 or more is
-- negative when it is read as signed.
use Prim.Native.Nat.{ℕ, ◌+◌, ◌-◌, ◌<◌, ◌%◌}
use mathlib.Core.Path.{◌≡◌}
use mathlib.Core.Bool.{Bool, ◌&&◌, ◌||◌}
use native.Mathlib.Omega.{arith}
use entangled.Prelude.Tests.{ltb, leb, if◌then◌else◌}

-- 2^64 and 2^63.
abbrev pub u64_mod : ℕ
u64_mod = 18446744073709551616

abbrev pub i64_min : ℕ
i64_min = 9223372036854775808

unfoldable pub add64 : ℕ → ℕ → ℕ
add64 a b = (a + b) % u64_mod

unfoldable pub neg64 : ℕ → ℕ
neg64 a = (u64_mod - a) % u64_mod

-- `v < 0` on a signed pattern.
abbrev pub is_neg : ℕ → Bool
is_neg a = leb i64_min a

-- `a > b` on signed patterns.
unfoldable pub gt64 : ℕ → ℕ → Bool
gt64 a b = if is_neg a then is_neg b && ltb b a else is_neg b || ltb b a

-- `llabs`; of the least value it is that value again.
unfoldable pub llabs : ℕ → ℕ
llabs a = if is_neg a then neg64 a else a

pub add64-lt : (a b : ℕ) → add64 a b < u64_mod
unfolding add64
add64-lt a b = omega arith

pub add64_comm : (a b : ℕ) → add64 a b ≡ add64 b a
unfolding add64
add64_comm a b = omega arith

pub add64_assoc : (a b c : ℕ) → add64 (add64 a b) c ≡ add64 a (add64 b c)
unfolding add64
add64_assoc a b c = omega arith

pub add64-zero : (a : ℕ) → a < u64_mod → add64 0 a ≡ a
unfolding add64
add64-zero a h = omega arith

pub add64-zero_right : (a : ℕ) → a < u64_mod → add64 a 0 ≡ a
unfolding add64
add64-zero_right a h = omega arith
