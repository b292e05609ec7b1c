-- ===== src/Merkle/Depth.antt =====
-- The loop of `merkle_depth` ends within 32 rounds or never.
use entangled.Prelude.{
  ℕ, zero, suc, ◌+◌, ◌%◌, ◌≡◌, ◌<◌, refl, inl, inr, true, none, arith, ltb, Bool-cases,
}
use mathlib.Core.Path.{subst}
use entangled.Merkle.{int_ones, binary_tree_size, depth_loop}

-- A loop that has not ended in so many rounds went through each of their tests.
depth_loop-goes :
    (fuel node_count depth i : ℕ)
    → depth_loop fuel node_count depth ≡ none
    → i < fuel
    → ltb (binary_tree_size 0 (depth + i)) node_count ≡ true
unfolding depth_loop
depth_loop-goes zero node_count depth i h p = absurd (omega (arith, p))
depth_loop-goes (suc fuel) node_count depth zero h p =
    let same : depth + 0 ≡ depth = omega arith in
    elim (Bool-cases (ltb (binary_tree_size 0 depth) node_count)) [
      | inr n ↦ absurd (let h' = rw n at h in cc)
      | inl y ↦ rw same y
    ]
depth_loop-goes (suc fuel) node_count depth (suc i) h p =
    let shift : depth + suc i ≡ suc depth + i = omega arith in
    elim (Bool-cases (ltb (binary_tree_size 0 depth) node_count)) [
      | inr n ↦ absurd (let h' = rw n at h in cc)
      | inl y ↦
          rw shift (depth_loop-goes fuel node_count (suc depth) i (rw y at h) (omega (arith, p)))
    ]

binary_tree_size-repeats : (d : ℕ) → binary_tree_size 0 (d % 32) ≡ binary_tree_size 0 d
unfolding binary_tree_size int_ones
binary_tree_size-repeats d =
    let same : (d % 32 + 1) % 32 ≡ (d + 1) % 32 = omega arith in rw same refl

depth_loop-never :
    (node_count : ℕ)
    → ((d : ℕ) → ltb (binary_tree_size 0 d) node_count ≡ true)
    → (fuel depth : ℕ) → depth_loop fuel node_count depth ≡ none
unfolding depth_loop
depth_loop-never node_count goes zero depth = refl
depth_loop-never node_count goes (suc fuel) depth =
    rw (goes depth) (depth_loop-never node_count goes fuel (suc depth))

-- Where 32 rounds are not enough, no number of rounds is.
depth_loop-endless :
    (node_count : ℕ)
    → depth_loop 32 node_count 0 ≡ none
    → (fuel : ℕ) → depth_loop fuel node_count 0 ≡ none
depth_loop-endless node_count h fuel =
    depth_loop-never node_count
      (λ d.
        let low = depth_loop-goes 32 node_count 0 (d % 32) h (omega arith) in
        let whole : 0 + d % 32 ≡ d % 32 = omega arith in
        subst (λ n. ltb n node_count ≡ true) (binary_tree_size-repeats d)
          (subst (λ i. ltb (binary_tree_size 0 i) node_count ≡ true) whole low))
      fuel 0
