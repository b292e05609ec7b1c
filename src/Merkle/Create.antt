-- ===== src/Merkle/Create.antt =====
-- The tree that is created: each node above the leaves is the hash of its right and its left child.
use entangled.Prelude.{
  ℕ, zero, suc, ◌+◌, ◌-◌, ◌*◌, ◌/◌, ◌≡◌, ◌≤◌, ◌<◌, refl, inl, inr, true, ◌==◌, arith, ltb,
  Bool-cases, ==_iff, sym, ap, ◌∙◌,
}
use entangled.Prelude.Word.{add64}
use entangled.Merkle.{
  two_to, merkle_node_index, merkle_leaf_index, write, write_leaves, parent, hash_level,
  hash_levels,
}
use entangled.Merkle.Index.{merkle_node_index-apart}

both {ℓ} : {A : Type ℓ} (f : A → A → A) {x y u v : A} → x ≡ y → u ≡ v → f x u ≡ f y v
both f {x} {y} {u} {v} p q = ap (λ z. f z u) p ∙ ap (f y) q

module _ {H : Type 0} (hash2 : H → H → H) (null_hash : H) (td : ℕ) (small : td < 30) where
  abbrev at : ℕ → ℕ → (ℕ → H) → H
  at d w tree = tree (merkle_node_index d w td)

  write_self : (i : ℕ) (v : H) (tree : ℕ → H) → write hash2 null_hash i v tree i ≡ v
  unfolding write
  write_self i v tree = rw ((==_iff i i).1 refl) refl

  -- A write to one node leaves the others.
  write-other :
      (d w d' w' : ℕ) (v : H) (tree : ℕ → H)
      → d ≤ td
      → d' ≤ td
      → w < two_to d
      → w' < two_to d'
      → ((d ≡ d') × (w ≡ w') → ⊥)
      → at d' w' (write hash2 null_hash (merkle_node_index d w td) v tree) ≡ at d' w' tree
  unfolding write
  write-other d w d' w' v tree p p' q q' n =
      elim (Bool-cases (merkle_node_index d' w' td == merkle_node_index d w td)) [
        | inl y ↦ absurd (
            n (
              merkle_node_index-apart td d d' w w' small p p' q q'
                (sym ((==_iff (merkle_node_index d' w' td) (merkle_node_index d w td)).0 y))))
        | inr z ↦ rw z refl
      ]

  write_leaves-kept :
      (address : ℕ → H) (offset base k i : ℕ) (tree : ℕ → H) (d w : ℕ)
      → i + k ≤ two_to td
      → d ≤ td
      → w < two_to d
      → (td ≡ d → w < i)
      → at d w (write_leaves hash2 null_hash address offset base td k i tree) ≡ at d w tree
  unfolding write_leaves
  write_leaves-kept address offset base zero i tree d w p dl q n = refl
  write_leaves-kept address offset base (suc k) i tree d w p dl q n =
      write_leaves-kept address offset base k (suc i) _ d w (omega (arith, p)) dl q
        (λ e. omega (arith, n e))
      ∙ write-other td i d w _ tree (omega arith) dl (omega (arith, p)) q
          (λ e. absurd (omega (arith, n e.0, e.1)))

  write_leaves-made :
      (address : ℕ → H) (offset base k i : ℕ) (tree : ℕ → H) (w : ℕ)
      → i + k ≤ two_to td
      → i ≤ w
      → w < i + k
      → at td w (write_leaves hash2 null_hash address offset base td k i tree)
        ≡ address (add64 offset (merkle_leaf_index w base))
  unfolding write_leaves
  write_leaves-made address offset base zero i tree w p a b = absurd (omega (arith, a, b))
  write_leaves-made address offset base (suc k) i tree w p a b = elim (Bool-cases (i == w)) [
    | inl y ↦
        let same : i ≡ w = (==_iff i w).0 y in
        write_leaves-kept address offset base k (suc i) _ td w (omega (arith, p)) (omega arith)
          (omega (arith, p, b)) (λ e. omega (arith, same))
        ∙ rw same (
            write_self (merkle_node_index td w td)
              (address (add64 offset (merkle_leaf_index w base))) tree)
    | inr n ↦
        write_leaves-made address offset base k (suc i) _ w (omega (arith, p))
          (ground (arith, n, a)) (omega (arith, b))
  ]

  -- The node is the hash of its children.
  abbrev IsParent : ℕ → ℕ → (ℕ → H) → Type 0
  IsParent d w tree = at d w tree ≡ hash2 (at (suc d) (2 * w + 1) tree) (at (suc d) (2 * w) tree)

  -- One level: the nodes from `j` on become the hashes of their children.
  level-kept :
      (d k j width : ℕ) (tree : ℕ → H) (d' w : ℕ)
      → suc d ≤ td
      → width ≡ 2 * j
      → j + k ≤ two_to d
      → d' ≤ td
      → w < two_to d'
      → (d ≡ d' → w < j)
      → at d' w (hash_level hash2 null_hash td (suc d) (two_to (suc d)) k width tree) ≡ at d' w tree
  unfolding hash_level
  level-kept d zero j width tree d' w t e p dl q n = refl
  level-kept d (suc k) j width tree d' w t e p dl q n =
      let half : width / 2 ≡ j = omega (arith, e) in
      let below : suc d - 1 ≡ d = omega arith in
      level-kept d k (suc j) (width + 2) _ d' w t (omega (arith, e)) (omega (arith, p)) dl q
        (λ f. omega (arith, n f))
      ∙ rw (half, below)
          (write-other d j d' w _ tree (omega (arith, t)) dl (omega (arith, p)) q
            (λ f. absurd (omega (arith, n f.0, f.1))))

  level-made :
      (d k j width : ℕ) (tree : ℕ → H) (w : ℕ)
      → suc d ≤ td
      → width ≡ 2 * j
      → j + k ≤ two_to d
      → j ≤ w
      → w < j + k
      → at d w (hash_level hash2 null_hash td (suc d) (two_to (suc d)) k width tree)
        ≡ hash2 (at (suc d) (2 * w + 1) tree) (at (suc d) (2 * w) tree)
  unfolding hash_level parent
  level-made d zero j width tree w t e p a b = absurd (omega (arith, a, b))
  level-made d (suc k) j width tree w t e p a b = elim (Bool-cases (j == w)) [
    | inl y ↦
        let same : j ≡ w = (==_iff j w).0 y in
        let half : width / 2 ≡ j = omega (arith, e) in
        let below : suc d - 1 ≡ d = omega arith in
        let within : ltb width (two_to d + two_to d - 1) ≡ true = ground (arith, e, p) in
        let twice : width ≡ 2 * w = omega (arith, e, same) in
        level-kept d k (suc j) (width + 2) _ d w t (omega (arith, e)) (omega (arith, p))
          (omega (arith, t)) (omega (arith, p, b)) (λ f. omega (arith, same))
        ∙ rw (half, below, within, twice, same)
            (write_self (merkle_node_index d w td)
              (hash2 (at (suc d) (2 * w + 1) tree) (at (suc d) (2 * w) tree)) tree)
    | inr n ↦
        let half : width / 2 ≡ j = omega (arith, e) in
        let below : suc d - 1 ≡ d = omega arith in
        level-made d k (suc j) (width + 2) _ w t (omega (arith, e)) (omega (arith, p))
          (ground (arith, n, a)) (omega (arith, b))
        ∙ rw (half, below)
            (both hash2
              (write-other d j (suc d) (2 * w + 1) _ tree (omega (arith, t)) t (omega (arith, p))
                (omega (arith, p, b)) (λ f. absurd (omega (arith, f.0))))
              (write-other d j (suc d) (2 * w) _ tree (omega (arith, t)) t (omega (arith, p))
                (omega (arith, p, b)) (λ f. absurd (omega (arith, f.0)))))
  ]

  -- All levels from `depth` up.
  levels-kept :
      (depth : ℕ) (tree : ℕ → H) (d w : ℕ)
      → depth ≤ td
      → depth ≤ d
      → d ≤ td
      → w < two_to d
      → at d w (hash_levels hash2 null_hash td depth (two_to depth) tree) ≡ at d w tree
  unfolding hash_levels
  levels-kept zero tree d w p l dl q = refl
  levels-kept (suc depth) tree d w p l dl q =
      let half : (two_to depth + two_to depth + 1) / 2 ≡ two_to depth = omega arith in
      rw half (
        levels-kept depth _ d w (omega (arith, p)) (omega (arith, l)) dl q
        ∙ level-kept depth (two_to depth) 0 0 tree d w p refl (omega arith) dl q
            (λ e. absurd (omega (arith, e, l))))

  -- The highest level that is not a leaf's, after the levels above it are made.
  top-made :
      (depth : ℕ) (tree : ℕ → H) (w : ℕ)
      → suc depth ≤ td
      → w < two_to depth
      → IsParent depth w (
          hash_levels hash2 null_hash td depth
            (two_to depth)
            (hash_level hash2 null_hash td (suc depth) (two_to (suc depth)) (two_to depth) 0 tree))
  top-made depth tree w p q =
      levels-kept depth _ depth w (omega (arith, p)) (omega arith) (omega (arith, p)) q
      ∙ (level-made depth (two_to depth) 0 0 tree w p refl (omega arith) (omega arith)
            (omega (arith, q))
          ∙ both hash2 (sym (child (2 * w + 1) (omega (arith, q))))
              (sym (child (2 * w) (omega (arith, q)))))
    where
      child :
          (x : ℕ)
          → x < two_to (suc depth)
          → at (suc depth) x (
              hash_levels hash2 null_hash td depth (two_to depth) (
                hash_level hash2 null_hash td
                  (suc depth)
                  (two_to (suc depth))
                  (two_to depth)
                  0
                  tree))
            ≡ at (suc depth) x tree
      child x r =
          levels-kept depth _ (suc depth) x (omega (arith, p)) (omega arith) p r
          ∙ level-kept depth (two_to depth) 0 0 tree (suc depth) x p refl (omega arith) p r
              (λ e. absurd (omega (arith, e)))

  levels-made :
      (depth : ℕ) (tree : ℕ → H) (d w : ℕ)
      → depth ≤ td
      → d < depth
      → w < two_to d
      → IsParent d w (hash_levels hash2 null_hash td depth (two_to depth) tree)
  unfolding hash_levels
  levels-made zero tree d w p l q = absurd (omega (arith, l))
  levels-made (suc depth) tree d w p l q =
      let half : (two_to depth + two_to depth + 1) / 2 ≡ two_to depth = omega arith in
      rw half (elim (Bool-cases (d == depth)) [
        | inl y ↦
            let same : d ≡ depth = (==_iff d depth).0 y in
            let q' : w < two_to depth = rw (sym same) q in rw same (top-made depth tree w p q')
        | inr n ↦ levels-made depth _ d w (omega (arith, p)) (ground (arith, n, l)) q
      ])

  -- Every leaf is the address of its key, and every other node the hash of its children.
  pub record IsMerkleTree (address : ℕ → H) (offset : ℕ) (tree : ℕ → H) : Type 0 where
    pub leaves :
        (w : ℕ)
        → w < two_to td
        → at td w tree ≡ address (add64 offset (merkle_leaf_index w (two_to td)))
    pub parents : (d w : ℕ) → d < td → w < two_to d → IsParent d w tree

  pub created-IsMerkleTree :
      (address : ℕ → H) (offset : ℕ) (tree : ℕ → H)
      → IsMerkleTree address offset (
          hash_levels hash2 null_hash td td
            (two_to td)
            (write_leaves hash2 null_hash address offset (two_to td) td (two_to td) 0 tree))
  created-IsMerkleTree address offset tree = record {
    leaves = λ w q.
        levels-kept td _ td w (omega arith) (omega arith) (omega arith) q
        ∙ write_leaves-made address offset (two_to td) (two_to td) 0 tree w (omega arith)
            (omega arith) (omega (arith, q));
    parents = λ d w l q. levels-made td _ d w (omega arith) l q;
  }
