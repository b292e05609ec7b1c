-- ===== src/Kerl/BigInt.antt =====
-- common/crypto/kerl/bigint.c: numbers of 32-bit words, least word first.
pub mod Carry
pub mod Compare
use entangled.Prelude.{
  ℕ, zero, suc, ◌+◌, ◌-◌, ◌*◌, ◌/◌, ◌%◌, Bool, true, false, List, [], ◌∷◌, Option, none, some, ◌==◌,
  ◌||◌, not, if◌then◌else◌, ltb,
}
use entangled.Prelude.Word.{u64_mod}
use entangled.Prelude.Int.{ℤ, pos, negsuc}

abbrev pub u32_mod : ℕ
u32_mod = 4294967296

-- The carry and the word, `full_add_s`.
unfoldable pub full_add : Bool → ℕ → ℕ → Bool × ℕ
full_add carry lh rh =
    let v = (lh + rh) % u64_mod in
    let carry1 = not (v / u32_mod % u32_mod == 0) in
    let w = (v % u32_mod + 1) % u64_mod in
    if carry
    then (carry1 || not (w / u32_mod % u32_mod == 0), w % u32_mod)
    else (carry1, v % u32_mod)

-- `~` on a `uint32_t`.
abbrev pub not32 : ℕ → ℕ
not32 w = u32_mod - 1 - w

unfoldable pub bigint_not : List ℕ → List ℕ
bigint_not [] = []
bigint_not (w ∷ ws) = not32 w ∷ bigint_not ws

-- The loop of `bigint_add`, over arrays of one length: the carry at its end, and the sum.
unfoldable pub add_from : Bool → List ℕ → List ℕ → Bool × List ℕ
add_from carry (b ∷ base) (r ∷ rh) =
    let (c, v) = full_add carry b r in let (d, rest) = add_from c base rh in (d, v ∷ rest)
add_from carry base _ = (carry, base)

unfoldable pub bigint_add : List ℕ → List ℕ → List ℕ
bigint_add base rh = (add_from false base rh).1

-- The loop of `bigint_sub` complements each word of `rh`; `none` is a failed `assert`.
unfoldable pub sub_from : Bool → List ℕ → List ℕ → Bool × List ℕ
sub_from carry (b ∷ base) (r ∷ rh) =
    let (c, v) = full_add carry b (not32 r) in let (d, rest) = sub_from c base rh in (d, v ∷ rest)
sub_from carry base _ = (carry, base)

unfoldable pub bigint_sub : List ℕ → List ℕ → Option (List ℕ)
bigint_sub base rh = let (carry, out) = sub_from true base rh in if carry then some out else none

-- The loop of `bigint_add_small` and the number of words that it touched; `none` is a write past
-- the end of the array.
unfoldable pub carry_up : List ℕ → ℕ → Bool → Option (ℕ × List ℕ)
carry_up base i false = some (i, base)
carry_up [] i true = none
carry_up (b ∷ base) i true =
    let (c, v) = full_add true b 0 in
    elim (carry_up base (i + 1) c) [ none ↦ none | some (n, rest) ↦ some (n, v ∷ rest) ]

unfoldable pub bigint_add_small : List ℕ → ℕ → Option (ℕ × List ℕ)
bigint_add_small [] other = none
bigint_add_small (b ∷ base) other =
    let (c, v) = full_add false b other in
    elim (carry_up base 1 c) [ none ↦ none | some (n, rest) ↦ some (n, v ∷ rest) ]

unfoldable pub bigint_cmp : List ℕ → List ℕ → ℤ
bigint_cmp (l ∷ lh) (r ∷ rh) = elim (bigint_cmp lh rh) [
  | pos zero ↦ if ltb l r then negsuc 0 else if ltb r l then pos 1 else pos 0
  | pos (suc n) ↦ pos (suc n)
  | negsuc n ↦ negsuc n
]
bigint_cmp _ _ = pos 0
