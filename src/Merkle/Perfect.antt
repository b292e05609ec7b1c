-- ===== src/Merkle/Perfect.antt =====
-- The size, the depth and the number of leaves of a perfect tree.
use entangled.Prelude.{
  ℕ, zero, suc, ◌+◌, ◌-◌, ◌/◌, ◌%◌, ◌≡◌, ◌≤◌, ◌<◌, refl, true, false, some, ◌==◌, arith, ltb, leb,
  ap,
}
use Prim.Native.Nat.{bit_and, bit_and-bitwise, digits, min}
use mathlib.Core.Path.{subst}
use entangled.Merkle.{two_to, binary_tree_size, size_loop, merkle_size, depth_loop, merkle_depth}
use entangled.Prelude.Word.{u64_mod}
use entangled.Merkle.Shift.{two_to-positive, two_to-lt, two_to-small, int_ones-two_to}

-- The size and the depth of a perfect tree.
size_loop-two_to :
    (n fuel acc : ℕ)
    → n ≤ fuel
    → acc + two_to (suc n) < u64_mod
    → size_loop fuel acc (two_to n) + 2 ≡ acc + two_to (suc n)
unfolding size_loop
size_loop-two_to zero zero acc p u = omega arith
size_loop-two_to zero (suc fuel) acc p u = omega arith
size_loop-two_to (suc n) zero acc p u = absurd (omega (arith, p))
size_loop-two_to (suc n) (suc fuel) acc p u =
    let half : (two_to n + two_to n + 1) % u64_mod / 2 ≡ two_to n = omega (arith, u) in
    let sum : (acc + (two_to n + two_to n)) % u64_mod ≡ acc + (two_to n + two_to n) =
      omega (arith, u) in
    let more : leb 2 (two_to n + two_to n) ≡ true = ground (arith, two_to-positive n) in
    rw (more, half, sum)
      (omega (
        arith,
        size_loop-two_to n fuel (acc + (two_to n + two_to n)) (omega (arith, p)) (omega (arith, u)),
      ))

two_to-le : (n : ℕ) → n < two_to n
two_to-le zero = omega arith
two_to-le (suc n) = omega (arith, two_to-le n)

pub merkle_size-two_to : (n : ℕ) → n < 30 → merkle_size (two_to n) + 1 ≡ two_to (suc n)
unfolding merkle_size
merkle_size-two_to zero s = refl
merkle_size-two_to (suc n) s =
    let a : (two_to n + two_to n == 0) ≡ false = ground (arith, two_to-positive n) in
    let b : (two_to n + two_to n == 1) ≡ false = ground arith in
    let small = two_to-small (suc n) (omega (arith, s)) in
    rw (a, b)
      (omega (
        arith,
        size_loop-two_to (suc n) (two_to (suc n)) 1 (omega (arith, two_to-le (suc n)))
            (omega (arith, small)),
      ))

binary_tree_size-two_to :
    (depth : ℕ) → depth < 30 → binary_tree_size 0 depth + 1 ≡ two_to (suc depth)
unfolding binary_tree_size
binary_tree_size-two_to depth s =
    let next : depth + 1 ≡ suc depth = omega arith in
    let ones = int_ones-two_to (suc depth) (omega (arith, s)) in
    let small = two_to-small (suc depth) (omega (arith, s)) in
    rw (next, ones) (omega (arith, small, two_to-positive depth))

depth_loop-two_to :
    (k fuel node_count depth n : ℕ)
    → n < 30
    → k < fuel
    → depth + k ≡ n
    → node_count + 1 ≡ two_to (suc n)
    → depth_loop fuel node_count depth ≡ some n
unfolding depth_loop
depth_loop-two_to k zero node_count depth n s p e q = absurd (omega (arith, p))
depth_loop-two_to zero (suc fuel) node_count depth n s p e q =
    let same : two_to depth ≡ two_to n = ap two_to (omega (arith, e)) in
    let size = binary_tree_size-two_to depth (omega (arith, s, e)) in
    let stops : ltb (binary_tree_size 0 depth) node_count ≡ false = ground (arith, same, q, size) in
    let here : depth ≡ n = omega (arith, e) in rw stops (ap some here)
depth_loop-two_to (suc k) (suc fuel) node_count depth n s p e q =
    let less : two_to depth < two_to n = two_to-lt depth n (omega (arith, e)) in
    let size = binary_tree_size-two_to depth (omega (arith, s, e)) in
    let goes : ltb (binary_tree_size 0 depth) node_count ≡ true = ground (arith, less, q, size) in
    rw goes
      (depth_loop-two_to k fuel node_count (suc depth) n s (omega (arith, p)) (omega (arith, e)) q)

pub merkle_depth-two_to :
    (n node_count : ℕ)
    → n < 30
    → node_count + 1 ≡ two_to (suc n)
    → merkle_depth node_count ≡ some (suc n)
unfolding merkle_depth
merkle_depth-two_to n node_count s q =
    let next : n + 1 ≡ suc n = omega arith in
    rw (depth_loop-two_to n 32 node_count 0 n s (omega (arith, s)) (omega arith) q) (ap some next)

-- A power of two has no digit in common with its predecessor.
digits-two_to : (k n : ℕ) → digits (λ b. zero) min n (two_to k) (two_to k - 1) ≡ 0
digits-two_to zero zero = refl
digits-two_to zero (suc zero) = refl
digits-two_to zero (suc (suc n)) = refl
digits-two_to (suc k) zero = refl
digits-two_to (suc k) (suc n) =
    subst (λ a. digits (λ b. zero) min (suc n) a (two_to k + two_to k - 1) ≡ 0) positive
      (rw (half, low, lower, bit) (rw (digits-two_to k n) refl))
  where
    positive : suc (two_to k + two_to k - 1) ≡ two_to k + two_to k
    positive = omega (arith, two_to-positive k)

    half : suc (two_to k + two_to k - 1) / 2 ≡ two_to k
    half = omega (arith, two_to-positive k)

    low : suc (two_to k + two_to k - 1) % 2 ≡ 0
    low = omega (arith, two_to-positive k)

    lower : (two_to k + two_to k - 1) / 2 ≡ two_to k - 1
    lower = omega (arith, two_to-positive k)

    bit : (two_to k + two_to k - 1) % 2 ≡ 1
    bit = omega (arith, two_to-positive k)

pub bit_and-two_to : (k : ℕ) → bit_and (two_to k) (two_to k - 1) ≡ 0
bit_and-two_to k = rw (bit_and-bitwise (two_to k) (two_to k - 1)) (digits-two_to k (two_to k))
