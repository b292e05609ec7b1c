-- ===== src/Merkle.antt =====
-- utils/merkle.c: the tree of the hashes of signing keys, in an array in depth-first order. An index of
-- the array counts hashes, of 243 trits each. The address of a key (iss_curl_subseed to
-- iss_curl_address) and the hash of two hashes by a fresh Curl are parameters; the array is a
-- function of the index.
pub mod Shift
pub mod Depth
pub mod Index
pub mod Create
pub mod Perfect
pub mod Root
pub mod Examples
use entangled.Prelude.{
  ℕ, zero, suc, ◌+◌, ◌-◌, ◌*◌, ◌/◌, ◌%◌, ◌⊎◌, inl, inr, Bool, not, Option, none, some, ◌&&◌, List,
  [], ◌∷◌, ◌==◌, if◌then◌else◌, ltb, leb,
}
use entangled.Prelude.Word.{u64_mod, add64}
use Prim.Native.Nat.{bit_and}

-- 2^n.
abbrev pub two_to : ℕ → ℕ
two_to zero = 1
two_to (suc n) = two_to n + two_to n

-- `1 << n`, an `int`, converted to `size_t`. From 31 on C leaves the shift undefined; it is what the
-- processor makes of it, which takes the count modulo 32.
unfoldable pub int_shift : ℕ → ℕ
int_shift n = if n % 32 == 31 then 18446744071562067968 else two_to (n % 32)

-- `(1 << n) - 1`, where the subtraction is one of `int` too.
unfoldable pub int_ones : ℕ → ℕ
int_ones n = if n % 32 == 31 then 2147483647 else two_to (n % 32) - 1

unfoldable pub binary_tree_size : ℕ → ℕ → ℕ
binary_tree_size acc depth = (int_ones (depth + 1) + acc) % u64_mod

-- The loop of `merkle_size`; each round halves the count.
unfoldable pub size_loop : ℕ → ℕ → ℕ → ℕ
size_loop zero acc count = acc
size_loop (suc fuel) acc count =
    let rest = size_loop fuel ((acc + count) % u64_mod) ((count + 1) % u64_mod / 2) in
    if leb 2 count then rest else acc

unfoldable pub merkle_size : ℕ → ℕ
merkle_size leaf_count =
    if leaf_count == 0 then 0 else if leaf_count == 1 then 1 else size_loop leaf_count 1 leaf_count

-- The loop of `merkle_depth`, `none` when the fuel runs out.
unfoldable pub depth_loop : ℕ → ℕ → ℕ → Option ℕ
depth_loop zero node_count depth = none
depth_loop (suc fuel) node_count depth =
    let rest = depth_loop fuel node_count (suc depth) in
    if ltb (binary_tree_size 0 depth) node_count then rest else some depth

abbrev pub one_more : Option ℕ → Option ℕ
one_more none = none
one_more (some depth) = some (depth + 1)

-- The sizes repeat every 32 rounds: `none` where the loop does not end.
unfoldable pub merkle_depth : ℕ → Option ℕ
merkle_depth node_count = one_more (depth_loop 32 node_count 0)

-- The loop of `merkle_node_index_traverse`, with so many rounds to go. The processor takes the count
-- of `width_of_leaves >> depth_cursor` modulo 64.
unfoldable pub index_from : ℕ → ℕ → ℕ → ℕ → ℕ → ℕ → ℕ
index_from zero depth_cursor depth tree_depth width_cursor index = index
index_from (suc rounds) depth_cursor depth tree_depth width_cursor index =
    let half = int_shift depth / two_to (depth_cursor % 64) in
    let right = leb half width_cursor in
    index_from rounds (suc depth_cursor) depth tree_depth
      (if right then width_cursor - half else width_cursor)
      (if right
        then (index + int_ones ((tree_depth + u64_mod - depth_cursor + 1) % u64_mod)) % u64_mod
        else index)

unfoldable pub merkle_node_index_traverse : ℕ → ℕ → ℕ → ℕ → ℕ
merkle_node_index_traverse acc depth width tree_depth =
    if tree_depth == 0 then 0 else index_from depth 1 depth tree_depth width (depth + acc)

unfoldable pub merkle_node_index : ℕ → ℕ → ℕ → ℕ
merkle_node_index depth width tree_depth = merkle_node_index_traverse 0 depth width tree_depth

unfoldable pub merkle_leaf_index : ℕ → ℕ → ℕ
merkle_leaf_index leaf_index leaf_count = (leaf_count + u64_mod - leaf_index - 1) % u64_mod

-- The return values of `merkle_branch` that are not 0.
pub data BranchError : Type 0 where
  leaf_index_out_of_bounds : BranchError
  depth_out_of_bounds : BranchError

module _ {H : Type 0} (hash2 : H → H → H) (null_hash : H) where
  abbrev pub Tree : Type 0
  Tree = ℕ → H

  unfoldable pub write : ℕ → H → Tree → Tree
  write i v tree = λ j. if j == i then v else tree j

  -- The first loop of `merkle_create`, with so many leaves to go.
  unfoldable pub write_leaves : (ℕ → H) → ℕ → ℕ → ℕ → ℕ → ℕ → Tree → Tree
  write_leaves address offset base_size td zero leaf_index tree = tree
  write_leaves address offset base_size td (suc leaves) leaf_index tree =
      write_leaves address offset base_size td leaves (suc leaf_index) (
        write (merkle_node_index td leaf_index td)
          (address (add64 offset (merkle_leaf_index leaf_index base_size))) tree)

  -- The parent of the node at `width` and the one after it, if there is one.
  unfoldable pub parent : ℕ → ℕ → ℕ → ℕ → Tree → H
  parent td depth cur_size width tree =
      if ltb width (cur_size - 1)
      then hash2 (tree (merkle_node_index depth (width + 1) td))
          (tree (merkle_node_index depth width td))
      else hash2 (tree (merkle_node_index depth width td)) null_hash

  -- The loop over a level, with so many parents to go.
  unfoldable pub hash_level : ℕ → ℕ → ℕ → ℕ → ℕ → Tree → Tree
  hash_level td depth cur_size zero width tree = tree
  hash_level td depth cur_size (suc parents) width tree =
      hash_level td depth cur_size parents (width + 2) (
        write (merkle_node_index (depth - 1) (width / 2) td) (parent td depth cur_size width tree)
          tree)

  -- The loop over the levels, from the leaves.
  unfoldable pub hash_levels : ℕ → ℕ → ℕ → Tree → Tree
  hash_levels td zero cur_size tree = tree
  hash_levels td (suc depth) cur_size tree =
      hash_levels td depth ((cur_size + 1) / 2)
        (hash_level td (suc depth) cur_size ((cur_size + 1) / 2) 0 tree)

  -- The two loops, with the depth of the tree.
  abbrev pub filled : (ℕ → H) → ℕ → ℕ → Tree → Option ℕ → Option (Option Tree)
  filled address base_size offset tree none = none
  filled address base_size offset tree (some depth) =
      let td = depth - 1 in
      some (
        some
          (hash_levels td td base_size (write_leaves address offset base_size td base_size 0 tree)))

  -- `none` where the call does not return, and `some none` is the return value -1.
  unfoldable pub merkle_create : (ℕ → H) → ℕ → ℕ → Tree → Option (Option Tree)
  merkle_create address base_size offset tree =
      if not (base_size == 0) && not (bit_and base_size (base_size - 1) == 0)
      then some none
      else filled address base_size offset tree (merkle_depth (merkle_size base_size))

  -- The loop of `merkle_branch`. `tree_length` counts trits.
  unfoldable pub siblings_from : ℕ → ℕ → ℕ → ℕ → Tree → List H
  siblings_from tree_length td zero index tree = []
  siblings_from tree_length td (suc depth_index) index tree =
      let sibling_index = if index % 2 == 1 then index - 1 else index + 1 in
      let site = merkle_node_index (suc depth_index) sibling_index td in
      (if leb tree_length (243 * site % u64_mod) then null_hash else tree site)
      ∷ siblings_from tree_length td depth_index (sibling_index / 2) tree

  -- The second test, with the depth that the length allows, and the loop.
  abbrev pub within_depth : ℕ → ℕ → ℕ → ℕ → Tree → Option ℕ → Option (BranchError ⊎ List H)
  within_depth tree_length tree_depth leaf_index leaf_count tree none = none
  within_depth tree_length tree_depth leaf_index leaf_count tree (some depth) = some (
      if ltb depth tree_depth
      then inl depth_out_of_bounds
      else inr (
          siblings_from tree_length (tree_depth - 1) (tree_depth - 1)
            (merkle_leaf_index leaf_index leaf_count) tree))

  -- `none` where the call does not return. A tree has a level, so that `tree_depth` is not 0.
  unfoldable pub merkle_branch : ℕ → ℕ → ℕ → ℕ → Tree → Option (BranchError ⊎ List H)
  merkle_branch tree_length tree_depth leaf_index leaf_count tree =
      if leb tree_length
        (243 * merkle_node_index (tree_depth - 1) leaf_index (tree_depth - 1) % u64_mod)
      then some (inl leaf_index_out_of_bounds)
      else within_depth tree_length tree_depth leaf_index leaf_count tree
          (merkle_depth (tree_length / 243))

  -- `leaf_index & j`, with `j` doubled each round, is the lowest bit of an index that is halved.
  unfoldable pub merkle_root : H → List H → ℕ → H
  merkle_root hash [] leaf_index = hash
  merkle_root hash (s ∷ siblings) leaf_index =
      merkle_root (if leaf_index % 2 == 1 then hash2 s hash else hash2 hash s) siblings
        (leaf_index / 2)
