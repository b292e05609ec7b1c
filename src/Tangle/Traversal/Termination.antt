-- ===== src/Tangle/Traversal/Termination.antt =====
-- The walk ends: with fuel for every hash that it can reach, it does not run out.
use entangled.Prelude.{
  ℕ, zero, suc, ◌+◌, ◌*◌, ◌≡◌, ◌≤◌, ◌<◌, ◌≢◌, ◌⊎◌, refl, inl, inr, Bool, true, false, Option, none,
  some, List, [], ◌∷◌, ◌++◌, ◌==◌, arith, if◌then◌else◌, length, All, chosen, Bool-cases,
}
use entangled.Outcome.{Retcode, Outcome, done, fail, left}
use entangled.Outcome.Retcode.{rc_oom}
use entangled.HashSet.{HashSet, HashStack, contains, push}
use entangled.HashSet
use entangled.HashSet.Laws.{contains-append, add_cases}
use entangled.Transaction.{Transaction}
use entangled.Tangle.Traversal.{
  Visit, Walk, Functor, Round, halted, going, marked, mark, pushed_trunk, push_approvees, by_code,
  visited, visit, popped, round, continued, run, with_genesis, with_entry, entered, dfs_to_past,
}

-- The hashes of a list that are not in a set.
pub unseen : List ℕ → HashSet → ℕ
unseen [] s = 0
unseen (x ∷ xs) s = if contains s x then unseen xs s else suc (unseen xs s)

unseen-more : (xs : List ℕ) (s : HashSet) (h : ℕ) → unseen xs (s ++ h ∷ []) ≤ unseen xs s
unfolding unseen
unseen-more [] s h = omega arith
unseen-more (x ∷ xs) s h = ground (arith, unseen-more xs s h, contains-append x h s)

unseen-fewer :
    (xs : List ℕ) (s : HashSet) (h : ℕ)
    → contains xs h ≡ true
    → contains s h ≡ false
    → unseen xs (s ++ h ∷ []) < unseen xs s
unfolding unseen contains
unseen-fewer [] s h c n = absurd (cc)
unseen-fewer (x ∷ xs) s h c n = elim (Bool-cases (x == h)) [
  | inl y ↦ ground (arith, unseen-more xs s h, contains-append x h s)
  | inr z ↦ ground (arith, unseen-fewer xs s h (rw z at c) n, contains-append x h s)
]

unseen-length : (xs : List ℕ) (s : HashSet) → unseen xs s ≤ length xs
unfolding unseen
unseen-length [] s = omega arith
unseen-length (x ∷ xs) s = ground (arith, unseen-length xs s)

module _ {D : Type 0} (malloc : ℕ → Bool) (load : ℕ → Retcode ⊎ Option Transaction)
    (func : Functor D) (reach : List ℕ)
    (closed : (h : ℕ) (tx : Transaction)
      → load h ≡ inr (some tx)
      → (contains reach tx.branch ≡ true) × (contains reach tx.trunk ≡ true)) where
  abbrev Within : Walk D → Type 0
  Within w =
      All (λ h. contains reach h ≡ true) w.stack
      × (contains reach w.tx.branch ≡ true)
      × (contains reach w.tx.trunk ≡ true)

  abbrev measure : Walk D → ℕ
  measure w = 2 * unseen reach w.analyzed + length w.stack

  -- A round ends the walk, or leaves less to do.
  abbrev Shrinks : ℕ → Round D → Type 0
  Shrinks m (halted r) = Unit
  Shrinks m (going w) = (measure w < m) × Within w

  mark-Shrinks :
      (m h : ℕ) (w : Walk D)
      → contains reach h ≡ true
      → contains w.analyzed h ≡ false
      → measure w < m + 2
      → Within w
      → Shrinks m (mark malloc load func h w)
  unfolding mark
  mark-Shrinks m h w c n p i =
      add_cases (λ o. Shrinks m (marked malloc load func w o)) malloc h w.analyzed
        (λ y. absurd (ground (arith, y, n)))
        (λ z. (omega (arith, p, unseen-fewer reach w.analyzed h c n), i)) (λ z. tt)

  push_approvees-Shrinks :
      (m h : ℕ) (w : Walk D)
      → contains reach h ≡ true
      → contains w.analyzed h ≡ false
      → measure w < m
      → Within w
      → Shrinks m (push_approvees malloc load func h w)
  unfolding push_approvees push
  push_approvees-Shrinks m h w c n p i = elim (Bool-cases (malloc w.tx.branch)) [
    | inr z ↦ rw z tt
    | inl y ↦ rw y (
        chosen
          (λ o.
            Shrinks m
              (pushed_trunk malloc load func h (record w { stack = w.tx.branch ∷ w.stack }) o))
          (malloc w.tx.trunk) _ _
          (λ q.
            mark-Shrinks m h (record w { stack = w.tx.trunk ∷ w.tx.branch ∷ w.stack }) c n
              (omega (arith, p)) ((i.2, (i.1, i.0)), i.1, i.2))
          (λ q. tt))
  ]

  by_code-Shrinks :
      (m h : ℕ) (w : Walk D) (v : Visit D) (c : Option Retcode)
      → contains reach h ≡ true
      → contains w.analyzed h ≡ false
      → measure w < m
      → Within w
      → Shrinks m (by_code malloc load func h w v c)
  by_code-Shrinks m h w v (some e) c n p i = tt
  by_code-Shrinks m h w v none c n p i =
      chosen (Shrinks m) v.should_stop (halted (done w)) _ (λ y. tt)
        λ z.
          chosen (Shrinks m) v.should_branch (push_approvees malloc load func h w)
            (mark malloc load func h w) (λ y. push_approvees-Shrinks m h w c n p i)
            (λ q. mark-Shrinks m h w c n (omega (arith, p)) i)

  visit-Shrinks :
      (m h : ℕ) (w : Walk D) (found : Retcode ⊎ Option Transaction)
      → load h ≡ found
      → contains reach h ≡ true
      → contains w.analyzed h ≡ false
      → measure w < m
      → Within w
      → Shrinks m (visit malloc load func h w found)
  unfolding visit visited
  visit-Shrinks m h w (inl e) q c n p i = tt
  visit-Shrinks m h w (inr none) q c n p i =
      let v = func h false w.tx w.state w.should_branch w.should_stop in
      by_code-Shrinks m h
        (record w { state = v.after; should_branch = v.should_branch; should_stop = v.should_stop })
        v (v.code) c n p i
  visit-Shrinks m h w (inr (some tx)) q c n p i =
      let v = func h true tx w.state w.should_branch w.should_stop in
      by_code-Shrinks m h
        (record w {
          tx = tx;
          state = v.after;
          should_branch = v.should_branch;
          should_stop = v.should_stop;
        })
        v (v.code) c n p (i.0, (closed h tx q).0, (closed h tx q).1)

  popped-Shrinks :
      (w : Walk D) (st : HashStack)
      → All (λ h. contains reach h ≡ true) st
      → Within w
      → Shrinks (2 * unseen reach w.analyzed + length st) (popped malloc load func w st)
  popped-Shrinks w [] a i = tt
  popped-Shrinks w (h ∷ rest) a i =
      let m = 2 * unseen reach w.analyzed + length (h ∷ rest) in
      chosen (Shrinks m) (contains w.analyzed h) (going (record w { stack = rest })) _
        (λ y. (omega arith, (a.1, i.1, i.2)))
        (λ n.
          visit-Shrinks m h (record w { stack = rest }) (load h) refl a.0 n (omega arith)
            (a.1, i.1, i.2))

  abbrev Ends : Option (Outcome (Walk D)) → Type 0
  Ends r = r ≢ none

  continued-Ends :
      (m fuel : ℕ) (r : Round D)
      → ((w : Walk D) → measure w < fuel → Within w → Ends (run malloc load func fuel w))
      → m ≤ fuel
      → Shrinks m r
      → Ends (continued (run malloc load func fuel) r)
  continued-Ends m fuel (halted o) k p s = λ e. cc
  continued-Ends m fuel (going w) k p s = k w (omega (arith, s.0, p)) s.1

  run-Ends :
      (fuel : ℕ) (w : Walk D) → measure w < fuel → Within w → Ends (run malloc load func fuel w)
  unfolding run round
  run-Ends zero w p i = absurd (omega (arith, p))
  run-Ends (suc fuel) w p i =
      continued-Ends (measure w) fuel (round malloc load func w) (run-Ends fuel) (omega (arith, p))
        (popped-Shrinks w w.stack i.0 i)

  unseen-add : (h : ℕ) (s : HashSet) → unseen reach (left (HashSet.add malloc h s)) ≤ unseen reach s
  unseen-add h s =
      add_cases (λ o. unseen reach (left o) ≤ unseen reach s) malloc h s (λ y. omega arith)
        (λ n. unseen-more reach s h) (λ n. omega arith)

  with_genesis-Ends :
      (fuel m : ℕ) (w : Walk D) (o : Outcome HashSet)
      → unseen reach (left o) ≤ m
      → 2 * m + length w.stack < fuel
      → Within w
      → Ends (with_genesis malloc load func fuel w o)
  with_genesis-Ends fuel m w (fail e s) u p i = λ q. cc
  with_genesis-Ends fuel m w (done s) u p i =
      run-Ends fuel (record w { analyzed = s }) (omega (arith, u, p)) i

  with_entry-Ends :
      (fuel genesis : ℕ) (w : Walk D) (o : Outcome HashStack)
      → 2 * unseen reach w.analyzed + length (left o) < fuel
      → Within (record w { stack = left o })
      → Ends (with_entry malloc load func fuel genesis w o)
  with_entry-Ends fuel genesis w (fail e s) p i = λ q. cc
  with_entry-Ends fuel genesis w (done s) p i =
      with_genesis-Ends fuel (unseen reach w.analyzed) (record w { stack = s })
        (HashSet.add malloc genesis w.analyzed) (unseen-add genesis w.analyzed) p i

  -- The walk ends, whatever the functor does, when the fuel exceeds by two or more twice the
  -- number of entries in a list of hashes that has the entry point, the branch and the trunk of
  -- the pack at the start, and with each transaction found its branch and its trunk.
  pub dfs_to_past-ends :
      (fuel entry_point genesis_hash : ℕ) (analyzed : HashSet) (tx : Transaction) (d : D)
      → contains reach entry_point ≡ true
      → contains reach tx.branch ≡ true
      → contains reach tx.trunk ≡ true
      → 2 * length reach + 1 < fuel
      → dfs_to_past malloc load func fuel entry_point genesis_hash analyzed tx d ≢ none
  unfolding dfs_to_past push
  dfs_to_past-ends fuel entry genesis analyzed tx d ce cb ct p =
      chosen (λ o. Ends (with_entry malloc load func fuel genesis (entered analyzed tx d) o))
        (malloc entry) _ _
        (λ y.
          with_entry-Ends fuel genesis (entered analyzed tx d) (done (entry ∷ []))
            (omega (arith, p, unseen-length reach analyzed)) ((ce, tt), cb, ct))
        (λ n.
          with_entry-Ends fuel genesis (entered analyzed tx d) (fail rc_oom [])
            (omega (arith, p, unseen-length reach analyzed)) (tt, cb, ct))
