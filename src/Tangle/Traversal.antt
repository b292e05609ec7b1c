-- ===== src/Tangle/Traversal.antt =====
-- ciri/consensus/tangle/traversal.c: `tangle_traversal_dfs_to_past`, the depth-first walk from a
-- transaction to those that it approves. The functor, its `data` and the queries are parameters.
pub mod Termination
pub mod Invariant
use entangled.Prelude.{
  ℕ, zero, suc, ◌⊎◌, inl, inr, Bool, true, false, Option, none, some, List, [], ◌∷◌, if◌then◌else◌,
}
use entangled.Outcome.{Retcode, Outcome, done, fail}
use entangled.HashSet.{HashSet, HashStack, contains, push}
use entangled.HashSet
use entangled.Transaction.{Transaction}

-- What the functor leaves: its return code, its data, `should_branch` and `should_stop`.
pub record Visit (D : Type 0) : Type 0 where
  pub code : Option Retcode
  pub after : D
  pub should_branch : Bool
  pub should_stop : Bool

-- The local variables of the walk. `tx` is the last transaction loaded.
pub record Walk (D : Type 0) : Type 0 where
  pub stack : HashStack
  pub analyzed : HashSet
  pub tx : Transaction
  pub state : D
  pub should_branch : Bool
  pub should_stop : Bool

-- A functor is given the hash, whether the pack is loaded, the transaction in it, and what it left.
abbrev pub Functor : Type 0 → Type 0
Functor D = ℕ → Bool → Transaction → D → Bool → Bool → Visit D

-- A round of the loop ends it, or goes on.
pub data Round (D : Type 0) : Type 0 where
  halted : Outcome (Walk D) → Round D
  going : Walk D → Round D

abbrev pub continued :
    {D : Type 0} → (Walk D → Option (Outcome (Walk D))) → Round D → Option (Outcome (Walk D))
continued next (halted r) = some r
continued next (going w) = next w

-- The local variables before the first round.
abbrev pub entered : {D : Type 0} → HashSet → Transaction → D → Walk D
entered analyzed tx d = record {
  stack = [];
  analyzed = analyzed;
  tx = tx;
  state = d;
  should_branch = true;
  should_stop = false;
}

module _ {D : Type 0} (malloc : ℕ → Bool) (load : ℕ → Retcode ⊎ Option Transaction)
    (func : Functor D) where
  abbrev pub marked : Walk D → Outcome HashSet → Round D
  marked w (done s) = going (record w { analyzed = s })
  marked w (fail e s) = halted (fail e (record w { analyzed = s }))

  -- `hash243_set_add(analyzed_hashes, hash)`.
  unfoldable pub mark : ℕ → Walk D → Round D
  mark hash w = marked w (HashSet.add malloc hash w.analyzed)

  abbrev pub pushed_trunk : ℕ → Walk D → Outcome HashStack → Round D
  pushed_trunk hash w (fail e s) = halted (fail e (record w { stack = s }))
  pushed_trunk hash w (done s) = mark hash (record w { stack = s })

  abbrev pub pushed_branch : ℕ → Walk D → Outcome HashStack → Round D
  pushed_branch hash w (fail e s) = halted (fail e (record w { stack = s }))
  pushed_branch hash w (done s) = pushed_trunk hash w (push malloc w.tx.trunk s)

  -- The branch is pushed first and the trunk on top of it.
  unfoldable pub push_approvees : ℕ → Walk D → Round D
  push_approvees hash w = pushed_branch hash w (push malloc w.tx.branch w.stack)

  abbrev pub by_code : ℕ → Walk D → Visit D → Option Retcode → Round D
  by_code hash w v (some e) = halted (fail e w)
  by_code hash w v none =
      if v.should_stop
      then halted (done w)
      else if v.should_branch
      then push_approvees hash w
      else mark hash w

  -- What follows the call of the functor.
  unfoldable pub visited : ℕ → Walk D → Visit D → Round D
  visited hash w v =
      let w' : Walk D = record w {
        state = v.after;
        should_branch = v.should_branch;
        should_stop = v.should_stop;
      } in
      by_code hash w' v (v.code)

  -- The load of the transaction; when nothing is found the pack keeps the one loaded before.
  unfoldable pub visit : ℕ → Walk D → Retcode ⊎ Option Transaction → Round D
  visit hash w (inl e) = halted (fail e w)
  visit hash w (inr none) =
      visited hash w (func hash false w.tx w.state w.should_branch w.should_stop)
  visit hash w (inr (some tx)) =
      visited hash (record w { tx = tx }) (func hash true tx w.state w.should_branch w.should_stop)

  abbrev pub popped : Walk D → HashStack → Round D
  popped w [] = halted (done w)
  popped w (hash ∷ rest) =
      let w' : Walk D = record w { stack = rest } in
      if contains w.analyzed hash then going w' else visit hash w' (load hash)

  -- The body of the loop.
  unfoldable pub round : Walk D → Round D
  round w = popped w w.stack

  -- The loop, `none` when the fuel runs out.
  unfoldable pub run : ℕ → Walk D → Option (Outcome (Walk D))
  run zero w = none
  run (suc fuel) w = continued (run fuel) (round w)

  abbrev pub with_genesis : ℕ → Walk D → Outcome HashSet → Option (Outcome (Walk D))
  with_genesis fuel w (fail e s) = some (fail e (record w { analyzed = s }))
  with_genesis fuel w (done s) = run fuel (record w { analyzed = s })

  abbrev pub with_entry : ℕ → ℕ → Walk D → Outcome HashStack → Option (Outcome (Walk D))
  with_entry fuel genesis_hash w (fail e s) = some (fail e (record w { stack = s }))
  with_entry fuel genesis_hash w (done s) =
      with_genesis fuel (record w { stack = s }) (HashSet.add malloc genesis_hash w.analyzed)

  -- The whole function, on the caller's set of analyzed hashes.
  unfoldable pub dfs_to_past : ℕ → ℕ → ℕ → HashSet → Transaction → D → Option (Outcome (Walk D))
  dfs_to_past fuel entry_point genesis_hash analyzed tx d =
      with_entry fuel genesis_hash (entered analyzed tx d) (push malloc entry_point [])
