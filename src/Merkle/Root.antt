-- ===== src/Merkle/Root.antt =====
-- The root that is computed from a leaf and its siblings is the root of the tree.
use entangled.Prelude.{
  ℕ, zero, suc, ◌+◌, ◌-◌, ◌*◌, ◌/◌, ◌%◌, ◌≡◌, ◌≤◌, ◌<◌, refl, inl, inr, true, false, none, some,
  List, ◌==◌, arith, ltb, leb, chosen, Bool-cases, sym, ap, ◌∙◌,
}
use mathlib.Core.Path.{subst}
use entangled.Merkle.{
  two_to, merkle_size, merkle_depth, merkle_node_index, merkle_leaf_index, write_leaves,
  hash_levels, merkle_create, siblings_from, merkle_branch, merkle_root,
}
use entangled.Prelude.Word.{u64_mod, add64}
use entangled.Merkle.Shift.{two_to-positive, two_to-small}
use entangled.Merkle.Perfect.{merkle_size-two_to, merkle_depth-two_to, bit_and-two_to}
use entangled.Merkle.Index.{merkle_node_index-bound}
use entangled.Merkle.Create.{IsMerkleTree, created-IsMerkleTree}

module _ {H : Type 0} (hash2 : H → H → H) (null_hash : H) (td : ℕ) (small : td < 30) where
  abbrev at : ℕ → ℕ → (ℕ → H) → H
  at d w tree = tree (merkle_node_index d w td)

  abbrev length_of_tree : ℕ
  length_of_tree = 243 * (two_to (suc td) - 1)

  -- The siblings of a node, as they stand in the tree.
  site_within :
      (d w : ℕ)
      → d ≤ td
      → w < two_to d
      → leb length_of_tree (243 * merkle_node_index d w td % u64_mod) ≡ false
  site_within d w p q =
      let b = merkle_node_index-bound td d w small p q in
      let few = two_to-small (suc td) (omega (arith, small)) in
      let less : 243 * merkle_node_index d w td % u64_mod < length_of_tree =
        omega (arith, b, few) in
      ground (arith, less)

  module _ (address : ℕ → H) (offset : ℕ) (tree : ℕ → H)
      (good : IsMerkleTree hash2 null_hash td small address offset tree) where
    -- From the node at `p` up, with the index mirrored to `l`, the root is reached.
    abbrev Reaches : ℕ → ℕ → ℕ → Type 0
    Reaches d p l =
        merkle_root hash2 null_hash (at d p tree)
          (siblings_from hash2 null_hash length_of_tree td d p tree) l
        ≡ at 0 0 tree

    root_right :
        (d q l : ℕ)
        → suc d ≤ td
        → 2 * q + 1 + l + 1 ≡ two_to (suc d)
        → Reaches d q (l / 2)
        → Reaches (suc d) (2 * q + 1) l
    unfolding merkle_root siblings_from
    root_right d q l dl e up =
        let right : ((2 * q + 1) % 2 == 1) ≡ true = ground arith in
        let left : (l % 2 == 1) ≡ false = ground (arith, e) in
        let sibling : 2 * q + 1 - 1 ≡ 2 * q = omega arith in
        let half : 2 * q / 2 ≡ q = omega arith in
        rw
          (
            right,
            left,
            sibling,
            site_within (suc d) (2 * q) dl (omega (arith, e)),
            half,
            sym (good.parents d q dl (omega (arith, e))),
          )
          up

    root_left :
        (d q l : ℕ)
        → suc d ≤ td
        → 2 * q + l + 1 ≡ two_to (suc d)
        → Reaches d q (l / 2)
        → Reaches (suc d) (2 * q) l
    unfolding merkle_root siblings_from
    root_left d q l dl e up =
        let right : (2 * q % 2 == 1) ≡ false = ground arith in
        let left : (l % 2 == 1) ≡ true = ground (arith, e) in
        let half : (2 * q + 1) / 2 ≡ q = omega arith in
        rw
          (
            right,
            left,
            site_within (suc d) (2 * q + 1) dl (omega (arith, e)),
            half,
            sym (good.parents d q dl (omega (arith, e))),
          )
          up

    root_from : (d p l : ℕ) → d ≤ td → p + l + 1 ≡ two_to d → Reaches d p l
    unfolding merkle_root siblings_from
    root_from zero p l dl e = let start : p ≡ 0 = omega (arith, e) in rw start refl
    root_from (suc d) p l dl e = elim (Bool-cases (p % 2 == 1)) [
      | inl y ↦
          let odd : 2 * (p / 2) + 1 ≡ p = ground (arith, y) in
          subst (λ x. Reaches (suc d) x l) odd
            (root_right d (p / 2) l dl (omega (arith, odd, e))
              (root_from d (p / 2) (l / 2) (omega (arith, dl)) (omega (arith, odd, e))))
      | inr n ↦
          let even : 2 * (p / 2) ≡ p = ground (arith, n) in
          subst (λ x. Reaches (suc d) x l) even
            (root_left d (p / 2) l dl (omega (arith, even, e))
              (root_from d (p / 2) (l / 2) (omega (arith, dl)) (omega (arith, even, e))))
    ]

    -- The index of a leaf, mirrored twice.
    mirrored :
        (l : ℕ)
        → l < two_to td
        → merkle_leaf_index (merkle_leaf_index l (two_to td)) (two_to td) ≡ l
    unfolding merkle_leaf_index
    mirrored l q = omega (arith, q, two_to-small td (omega (arith, small)))

    mirror_sum : (i : ℕ) → i < two_to td → merkle_leaf_index i (two_to td) + i + 1 ≡ two_to td
    unfolding merkle_leaf_index
    mirror_sum i r = omega (arith, r, two_to-small td (omega (arith, small)))

    leaf_root :
        (l : ℕ)
        → l < two_to td
        → merkle_root hash2 null_hash
            (address (add64 offset l))
            (siblings_from hash2 null_hash length_of_tree td td
              (merkle_leaf_index l (two_to td))
              tree)
            l
          ≡ at 0 0 tree
    leaf_root l q =
        subst
          (λ h.
            merkle_root hash2 null_hash h
              (siblings_from hash2 null_hash length_of_tree td td (merkle_leaf_index l (two_to td))
                tree)
              l
            ≡ at 0 0 tree)
          (good.leaves (merkle_leaf_index l (two_to td)) (omega (arith, mirror_sum l q))
            ∙ ap (λ i. address (add64 offset i)) (mirrored l q))
          (root_from td (merkle_leaf_index l (two_to td)) l (omega arith) (mirror_sum l q))

  -- In a tree created from as many leaves as a power of two, up to 2^29, the branch of every leaf is
  -- found, and the root that it gives with the address of that leaf's key is the root of the tree,
  -- whatever the array held before; the calls return.
  pub merkle_root-merkle_branch :
      (address : ℕ → H) (offset leaf_index : ℕ) (array : ℕ → H)
      → leaf_index < two_to td
      → (tree : ℕ → H) × (siblings : List H) × (merkle_create hash2 null_hash address
            (two_to td)
            offset
            array
          ≡ some (some tree))
        × (merkle_branch hash2 null_hash
              (243 * (two_to (suc td) - 1))
              (td + 1)
              leaf_index
              (two_to td)
              tree
            ≡ some (inr siblings))
        × (merkle_root hash2 null_hash (address (add64 offset leaf_index)) siblings leaf_index
            ≡ tree (merkle_node_index 0 0 td))
  unfolding merkle_create merkle_branch
  merkle_root-merkle_branch address offset leaf_index array q =
      let depth =
        merkle_depth-two_to td (merkle_size (two_to td)) small (merkle_size-two_to td small) in
      let below : suc td - 1 ≡ td = omega arith in
      let top : td + 1 - 1 ≡ td = omega arith in
      let levels : merkle_depth (243 * (two_to (suc td) - 1) / 243) ≡ some (suc td) =
        merkle_depth-two_to td (243 * (two_to (suc td) - 1) / 243) small
          (omega (arith, two_to-positive td)) in
      let enough : ltb (suc td) (td + 1) ≡ false = ground arith in
      let tree : ℕ → H =
        hash_levels hash2 null_hash td td (two_to td)
          (write_leaves hash2 null_hash address offset (two_to td) td (two_to td) 0 array) in
      let siblings : List H =
        siblings_from hash2 null_hash length_of_tree td td
          (merkle_leaf_index leaf_index (two_to td)) tree in
      (
        tree,
        siblings,
        rw (bit_and-two_to td, depth, below)
            (chosen (λ o. o ≡ some (some tree)) _ (some none) (some (some tree))
              (λ y. absurd (ground (arith, y))) (λ n. refl)),
        rw (top, site_within td leaf_index (omega arith) q, levels, enough, top) refl,
        leaf_root address offset tree
            (created-IsMerkleTree hash2 null_hash td small address offset array) leaf_index q,
      )
