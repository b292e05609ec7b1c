-- ===== src/Tangle/Traversal/Invariant.antt =====
-- What the functor keeps of its data, the walk keeps.
use entangled.Prelude.{
  ℕ, zero, suc, ◌⊎◌, inl, inr, Bool, true, false, Option, none, some, [], ◌∷◌, chosen,
}
use entangled.Outcome.{Retcode, Outcome, done, fail, left}
use entangled.HashSet.{HashSet, HashStack, contains, push}
use entangled.HashSet
use entangled.Transaction.{Transaction}
use entangled.Tangle.Traversal.{
  Visit, Walk, Functor, Round, halted, going, marked, mark, pushed_trunk, pushed_branch,
  push_approvees, by_code, visited, visit, popped, round, continued, run, with_genesis, with_entry,
  entered, dfs_to_past,
}

module _ {D : Type 0} (P : D → Type 0) (malloc : ℕ → Bool) (load : ℕ → Retcode ⊎ Option Transaction)
    (func : Functor D)
    (func_keeps : (h : ℕ) (loaded : Bool) (tx : Transaction) (d : D) (b s : Bool)
      → P d
      → P (func h loaded tx d b s).after) where
  abbrev Keeps : Round D → Type 0
  Keeps (halted r) = P (left r).state
  Keeps (going w) = P w.state

  marked-Keeps :
      (w : Walk D) (o : Outcome HashSet) → P w.state → Keeps (marked malloc load func w o)
  marked-Keeps w (done s) p = p
  marked-Keeps w (fail e s) p = p

  mark-Keeps : (h : ℕ) (w : Walk D) → P w.state → Keeps (mark malloc load func h w)
  unfolding mark
  mark-Keeps h w p = marked-Keeps w (HashSet.add malloc h w.analyzed) p

  pushed_trunk-Keeps :
      (h : ℕ) (w : Walk D) (o : Outcome HashStack)
      → P w.state
      → Keeps (pushed_trunk malloc load func h w o)
  pushed_trunk-Keeps h w (fail e s) p = p
  pushed_trunk-Keeps h w (done s) p = mark-Keeps h (record w { stack = s }) p

  pushed_branch-Keeps :
      (h : ℕ) (w : Walk D) (o : Outcome HashStack)
      → P w.state
      → Keeps (pushed_branch malloc load func h w o)
  pushed_branch-Keeps h w (fail e s) p = p
  pushed_branch-Keeps h w (done s) p = pushed_trunk-Keeps h w (push malloc w.tx.trunk s) p

  by_code-Keeps :
      (h : ℕ) (w : Walk D) (v : Visit D) (c : Option Retcode)
      → P w.state
      → Keeps (by_code malloc load func h w v c)
  unfolding push_approvees
  by_code-Keeps h w v (some e) p = p
  by_code-Keeps h w v none p =
      chosen Keeps v.should_stop (halted (done w)) _ (λ y. p)
        λ n.
          chosen Keeps v.should_branch (push_approvees malloc load func h w)
            (mark malloc load func h w)
            (λ y. pushed_branch-Keeps h w (push malloc w.tx.branch w.stack) p)
            (λ z. mark-Keeps h w p)

  visit-Keeps :
      (h : ℕ) (w : Walk D) (found : Retcode ⊎ Option Transaction)
      → P w.state
      → Keeps (visit malloc load func h w found)
  unfolding visit visited
  visit-Keeps h w (inl e) p = p
  visit-Keeps h w (inr none) p =
      by_code-Keeps h _ (func h false w.tx w.state w.should_branch w.should_stop)
        ((func h false w.tx w.state w.should_branch w.should_stop).code)
        (func_keeps h false w.tx w.state w.should_branch w.should_stop p)
  visit-Keeps h w (inr (some tx)) p =
      by_code-Keeps h _ (func h true tx w.state w.should_branch w.should_stop)
        ((func h true tx w.state w.should_branch w.should_stop).code)
        (func_keeps h true tx w.state w.should_branch w.should_stop p)

  popped-Keeps : (w : Walk D) (st : HashStack) → P w.state → Keeps (popped malloc load func w st)
  popped-Keeps w [] p = p
  popped-Keeps w (h ∷ rest) p =
      chosen Keeps (contains w.analyzed h) (going (record w { stack = rest })) _ (λ y. p)
        λ n. visit-Keeps h (record w { stack = rest }) (load h) p

  -- The data that the walk leaves, however it ends.
  abbrev pub Leaves : Option (Outcome (Walk D)) → Type 0
  Leaves none = Unit
  Leaves (some r) = P (left r).state

  continued-Leaves :
      (next : Walk D → Option (Outcome (Walk D)))
      → ((w : Walk D) → P w.state → Leaves (next w))
      → (r : Round D) → Keeps r
      → Leaves (continued next r)
  continued-Leaves next k (halted r) p = p
  continued-Leaves next k (going w) p = k w p

  run-Leaves : (fuel : ℕ) (w : Walk D) → P w.state → Leaves (run malloc load func fuel w)
  unfolding run round
  run-Leaves zero w p = tt
  run-Leaves (suc fuel) w p =
      continued-Leaves (run malloc load func fuel) (run-Leaves fuel) (round malloc load func w)
        (popped-Keeps w w.stack p)

  with_genesis-Leaves :
      (fuel : ℕ) (w : Walk D) (o : Outcome HashSet)
      → P w.state
      → Leaves (with_genesis malloc load func fuel w o)
  with_genesis-Leaves fuel w (fail e s) p = p
  with_genesis-Leaves fuel w (done s) p = run-Leaves fuel (record w { analyzed = s }) p

  with_entry-Leaves :
      (fuel genesis : ℕ) (w : Walk D) (o : Outcome HashStack)
      → P w.state
      → Leaves (with_entry malloc load func fuel genesis w o)
  with_entry-Leaves fuel genesis w (fail e s) p = p
  with_entry-Leaves fuel genesis w (done s) p =
      with_genesis-Leaves fuel (record w { stack = s }) (HashSet.add malloc genesis w.analyzed) p

  -- However the walk ends, it leaves data with a property that they had before and that every call
  -- of the functor keeps.
  pub dfs_to_past-Leaves :
      (fuel entry_point genesis_hash : ℕ) (analyzed : HashSet) (tx : Transaction) (d : D)
      → P d
      → Leaves (dfs_to_past malloc load func fuel entry_point genesis_hash analyzed tx d)
  unfolding dfs_to_past
  dfs_to_past-Leaves fuel entry genesis analyzed tx d p =
      with_entry-Leaves fuel genesis (entered analyzed tx d) (push malloc entry []) p
