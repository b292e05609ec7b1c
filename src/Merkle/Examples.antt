-- ===== src/Merkle/Examples.antt =====
-- A tree of four leaves.
use entangled.Prelude.{ℕ, ◌+◌, ◌*◌, ◌≡◌, refl, inr, none, some, List, arith}
use entangled.Prelude.Word.{add64}
use entangled.Merkle.{
  merkle_depth, depth_loop, binary_tree_size, int_ones, merkle_node_index, merkle_create,
  merkle_branch, merkle_root,
}
use entangled.Merkle.Root.{merkle_root-merkle_branch}

abbrev hash2 : ℕ → ℕ → ℕ
hash2 a b = 5 * a + 3 * b + 1

abbrev address : ℕ → ℕ
address key = 100 + key

merkle_root-merkle_branch_example :
    (tree : ℕ → ℕ) × (siblings : List ℕ) × (merkle_create hash2 0 address 4 7 (λ i. 0)
      ≡ some (some tree))
    × (merkle_branch hash2 0 1701 3 1 4 tree ≡ some (inr siblings))
    × (merkle_root hash2 0 (address (add64 7 1)) siblings 1 ≡ tree (merkle_node_index 0 0 2))
merkle_root-merkle_branch_example =
    merkle_root-merkle_branch hash2 0 2 (omega arith) address 7 1 (λ i. 0) (omega arith)

-- For the nodes over 2^31 leaves the loop of `merkle_depth` does not end.
unending : merkle_depth 4294967295 ≡ none
unfolding merkle_depth depth_loop binary_tree_size int_ones
unending = refl
