-- ===== src/TipSelection/Validator/Ends.antt =====
-- The walk of `below_max_depth` ends within its fuel, whatever the queries tell.
use entangled.Prelude.{
  ℕ, ◌%◌, ◌^◌, zero, suc, ◌+◌, ◌-◌, ◌*◌, ◌≡◌, ◌≢◌, ◌≤◌, ◌<◌, ◌⊎◌, refl, inl, inr, Bool, true, false,
  not, ◌&&◌, Option, none, some, [], ◌∷◌, ◌++◌, ◌==◌, ltb, arith, length, chosen, sym,
}
use entangled.Outcome.{Retcode, Outcome, done, fail}
use entangled.Outcome.Retcode.{rc_oom}
use entangled.HashSet.{HashSet, HashStack, size, contains, push}
use entangled.HashSet
use entangled.HashSet.Laws.{add_cases, size-append}
use entangled.Transaction.{Transaction}
use entangled.Tangle.{zero_transaction}
use entangled.TipSelection.Validator.{
  Conf, Descent, Ending, Round, ended, going, refused, pop, popped, push_approvees, pushed_trunk,
  pushed_branch, judged, loaded, marked, peeked, round, continued, run, finished, entered,
  below_max_depth,
}

module _ (malloc : ℕ → Bool) (load : ℕ → Retcode ⊎ Option Transaction) (conf : Conf)
    (memoized : HashSet) (lowest : ℕ) where
  abbrev measure : Descent → ℕ
  measure w = 2 * (conf.below_max_depth - size w.analyzed) + length w.stack

  abbrev Shrinks : ℕ → Round → Type 0
  Shrinks m (ended e) = Unit
  Shrinks m (going w) = (measure w < m) × (size w.analyzed ≤ conf.below_max_depth)

  push_approvees-Shrinks :
      (m : ℕ) (w : Descent)
      → measure w + 1 < m
      → size w.analyzed ≤ conf.below_max_depth
      → Shrinks m (push_approvees malloc load conf memoized lowest w)
  unfolding push_approvees push
  push_approvees-Shrinks m w p i =
      chosen (λ o. Shrinks m (pushed_trunk malloc load conf memoized lowest w o))
        (malloc w.tx.trunk) _ _
        (λ y.
          chosen (λ o. Shrinks m (pushed_branch malloc load conf memoized lowest w o))
            (malloc w.tx.branch) _ _ (λ z. (omega (arith, p), i)) (λ z. tt))
        (λ n. tt)

  length-pop : (s : HashStack) → length (pop s) ≤ length s
  length-pop [] = omega arith
  length-pop (h ∷ rest) = omega arith

  popped-Shrinks :
      (m : ℕ) (w : Descent)
      → measure w < m
      → size w.analyzed ≤ conf.below_max_depth
      → Shrinks m (popped w)
  popped-Shrinks m w p i = (omega (arith, p, length-pop w.stack), i)

  judged-Shrinks :
      (m : ℕ) (b : Bool) (h : ℕ) (w : Descent) (index : ℕ)
      → measure w + 1 < m
      → size w.analyzed ≤ conf.below_max_depth
      → Shrinks m (judged malloc load conf memoized lowest b h w index)
  unfolding judged
  judged-Shrinks m b h w index p i =
      let q : Shrinks m (popped w) = popped-Shrinks m w (omega (arith, p)) i in
      chosen (Shrinks m) (not (index == 0) && ltb index lowest) (ended refused) _ (λ y. tt)
        λ n.
          chosen (Shrinks m) (not b && (w.tx.snapshot_index == 0)) _ (popped w)
            (λ y.
              chosen (Shrinks m) (contains memoized h) (popped w) _ (λ z. q)
                (λ z. push_approvees-Shrinks m w p i))
            (λ z. q)

  loaded-Shrinks :
      (m h : ℕ) (w : Descent) (r : Retcode ⊎ Option Transaction)
      → measure w + 1 < m
      → size w.analyzed ≤ conf.below_max_depth
      → Shrinks m (loaded malloc load conf memoized lowest h w r)
  loaded-Shrinks m h w (inl e) p i = tt
  loaded-Shrinks m h w (inr none) p i =
      judged-Shrinks m false h w (w.tx.snapshot_index % 2 ^ 32) p i
  loaded-Shrinks m h w (inr (some tx)) p i =
      judged-Shrinks m false h (record w { tx = tx }) (tx.snapshot_index % 2 ^ 32) p i

  room :
      (a limit n : ℕ) → a ≢ limit → a ≤ limit → 2 * (limit - (a + 1)) + n + 1 < 2 * (limit - a) + n
  room a limit n d p = omega arith

  marked-Shrinks :
      (h : ℕ) (w : Descent)
      → size w.analyzed ≢ conf.below_max_depth
      → size w.analyzed ≤ conf.below_max_depth
      → contains w.analyzed h ≡ false
      → Shrinks
          (measure w)
          (marked malloc load conf memoized lowest h w (HashSet.add malloc h w.analyzed))
  marked-Shrinks h w d i c =
      add_cases (λ o. Shrinks (measure w) (marked malloc load conf memoized lowest h w o)) malloc h
        w.analyzed (λ y. absurd (cc)) (λ n. marked_shrinks) (λ n. tt)
    where
      w' : Descent
      w' = record w { analyzed = w.analyzed ++ h ∷ [] }

      less : measure w' + 1 < measure w
      less =
          rw (size-append h w.analyzed)
            (room (size w.analyzed) conf.below_max_depth (length w.stack) d i)

      within : size w'.analyzed ≤ conf.below_max_depth
      within = rw (size-append h w.analyzed) (omega (arith, d, i))

      marked_shrinks :
          Shrinks (measure w) (marked malloc load conf memoized lowest h w (done w'.analyzed))
      marked_shrinks =
          chosen (Shrinks (measure w)) (conf.genesis_hash == h) _ _
            (λ y. judged-Shrinks (measure w) true h w' 0 less within)
            (λ n. loaded-Shrinks (measure w) h w' (load h) less within)

  peeked-Shrinks :
      (w : Descent) (st : HashStack)
      → w.stack ≡ st
      → size w.analyzed ≤ conf.below_max_depth
      → Shrinks (measure w) (peeked malloc load conf memoized lowest w st)
  peeked-Shrinks w [] e i = tt
  peeked-Shrinks w (h ∷ rest) e i =
      chosen (Shrinks (measure w)) (size w.analyzed == conf.below_max_depth) (ended refused) _
        (λ y. tt)
        λ n.
          chosen (Shrinks (measure w)) (contains w.analyzed h) (popped w) _
            (λ y. (rw (e) (omega arith), i)) (λ c. marked-Shrinks h w (apart n) i c)
    where
      apart :
          (size w.analyzed == conf.below_max_depth) ≡ false → size w.analyzed ≢ conf.below_max_depth
      apart n = ground (arith, n)

  continued-Ends :
      (fuel : ℕ) (r : Round)
      → ((w : Descent)
          → measure w < fuel
          → size w.analyzed ≤ conf.below_max_depth
          → run malloc load conf memoized lowest fuel w ≢ none)
      → Shrinks fuel r
      → continued malloc load conf memoized lowest (run malloc load conf memoized lowest fuel) r
        ≢ none
  continued-Ends fuel (ended e) k s = λ q. cc
  continued-Ends fuel (going w) k s = k w s.0 s.1

  Shrinks-le : (m n : ℕ) (r : Round) → m ≤ n → Shrinks m r → Shrinks n r
  Shrinks-le m n (ended e) p s = tt
  Shrinks-le m n (going w) p s = (omega (arith, p, s.0), s.1)

  run-Ends :
      (fuel : ℕ) (w : Descent)
      → measure w < fuel
      → size w.analyzed ≤ conf.below_max_depth
      → run malloc load conf memoized lowest fuel w ≢ none
  unfolding run round
  run-Ends zero w p i = absurd (omega (arith, p))
  run-Ends (suc fuel) w p i =
      continued-Ends fuel (round malloc load conf memoized lowest w) (run-Ends fuel) (
        Shrinks-le (measure w) fuel (round malloc load conf memoized lowest w) (omega (arith, p))
          (peeked-Shrinks w w.stack refl i))

  finished-Ends :
      (tail_hash : ℕ) (r : Option Ending)
      → r ≢ none
      → finished malloc load conf memoized lowest tail_hash r ≢ none
  finished-Ends tail_hash none n = λ q. n refl
  finished-Ends tail_hash (some e) n = λ q. cc

  entered-Ends :
      (tail_hash : ℕ) (o : Outcome HashStack)
      → ((s : HashStack) → o ≡ done s → length s ≤ 1)
      → entered malloc load conf memoized lowest tail_hash o ≢ none
  entered-Ends tail_hash (fail e s) b = λ q. cc
  entered-Ends tail_hash (done s) b = finished-Ends tail_hash _ (
      run-Ends _ (record { stack = s; analyzed = []; tx = zero_transaction })
        (omega (arith, b s refl)) (omega arith))

  -- `below_max_depth` ends after at most twice the configured number of transactions and three
  -- rounds, for every tangle, cyclic or not, every hash and every outcome of the allocations.
  pub below_max_depth-ends :
      (tail_hash : ℕ) → below_max_depth malloc load conf memoized lowest tail_hash ≢ none
  unfolding below_max_depth push
  below_max_depth-ends tail_hash =
      chosen (λ o. entered malloc load conf memoized lowest tail_hash o ≢ none) (malloc tail_hash) _
        _ (λ y. entered-Ends tail_hash (done (tail_hash ∷ [])) (λ s e. short s e))
        (λ n. entered-Ends tail_hash (fail rc_oom []) (λ s e. cc))
    where
      short :
          (s : HashStack)
          → ◌≡◌ {A = Outcome HashStack} (done (tail_hash ∷ [])) (done s)
          → length s ≤ 1
      short s e = let q : tail_hash ∷ [] ≡ s = cc in rw (sym q) (omega arith)
