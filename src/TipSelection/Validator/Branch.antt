-- ===== src/TipSelection/Validator/Branch.antt =====
-- The walk of `below_max_depth` pops the branch that it has pushed.
use entangled.Prelude.{
  ℕ, ◌%◌, ◌^◌, zero, suc, ◌≡◌, ◌⊎◌, refl, inl, inr, Bool, true, false, not, ◌&&◌, Option, none,
  some, [], ◌∷◌, ◌==◌, if◌then◌else◌, ltb, sym, ap,
}
use entangled.Outcome.{Retcode, Outcome, done, fail}
use entangled.HashSet.{HashSet, HashStack, size, contains, push}
use entangled.HashSet
use entangled.Transaction.{Transaction}
use entangled.TipSelection.Validator.{
  Conf, Descent, Ending, Round, ended, going, push_approvees, judged, loaded, marked, peeked, round,
  continued, run, finished, entered, below_max_depth,
}

-- A transaction without its branch.
abbrev pub unbranched : Transaction → Transaction
unbranched tx = record tx { branch = 0 }

-- A query that tells no branch.
unfoldable pub unbranched_load :
    (ℕ → Retcode ⊎ Option Transaction) → ℕ → Retcode ⊎ Option Transaction
unbranched_load load h = elim (load h) [
  | inl e ↦ inl e
  | inr none ↦ inr none
  | inr (some tx) ↦ inr (some (unbranched tx))
]

abbrev cut : Descent → Descent
cut w = record w { tx = unbranched w.tx }

abbrev cut_round : Round → Round
cut_round (ended e) = ended e
cut_round (going w) = going (cut w)

if_same {ℓ κ} :
    {A : Type ℓ} {B : Type κ} (f : A → B) (b : Bool) (x y : A) (x' y' : B)
    → f x ≡ x'
    → f y ≡ y'
    → f (if b then x else y) ≡ (if b then x' else y')
if_same f true x y x' y' p q = p
if_same f false x y x' y' p q = q

module _ (malloc : ℕ → Bool) (load : ℕ → Retcode ⊎ Option Transaction) (conf : Conf)
    (memoized : HashSet) (lowest : ℕ) (enough : (h : ℕ) → malloc h ≡ true) where
  push_approvees-cut :
      (w : Descent)
      → cut_round (push_approvees malloc load conf memoized lowest w)
        ≡ push_approvees malloc (unbranched_load load) conf memoized lowest (cut w)
  unfolding push_approvees push
  push_approvees-cut w = rw (enough w.tx.trunk, enough w.tx.branch, enough 0) refl

  judged-cut :
      (b : Bool) (h : ℕ) (w : Descent) (index : ℕ)
      → cut_round (judged malloc load conf memoized lowest b h w index)
        ≡ judged malloc (unbranched_load load) conf memoized lowest b h (cut w) index
  unfolding judged
  judged-cut b h w index = if_same cut_round (not (index == 0) && ltb index lowest) _ _ _ _ refl (
      if_same cut_round (not b && (w.tx.snapshot_index == 0)) _ _ _ _
        (if_same cut_round (contains memoized h) _ _ _ _ refl (push_approvees-cut w)) refl)

  loaded-cut :
      (h : ℕ) (w : Descent) (r : Retcode ⊎ Option Transaction)
      → cut_round (loaded malloc load conf memoized lowest h w r)
        ≡ loaded malloc
            (unbranched_load load)
            conf
            memoized
            lowest
            h
            (cut w)
            (unbranched_load (λ _. r) h)
  unfolding unbranched_load
  loaded-cut h w (inl e) = refl
  loaded-cut h w (inr none) = judged-cut false h w (w.tx.snapshot_index % 2 ^ 32)
  loaded-cut h w (inr (some tx)) =
      judged-cut false h (record w { tx = tx }) (tx.snapshot_index % 2 ^ 32)

  marked-cut :
      (h : ℕ) (w : Descent) (o : Outcome HashSet)
      → cut_round (marked malloc load conf memoized lowest h w o)
        ≡ marked malloc (unbranched_load load) conf memoized lowest h (cut w) o
  unfolding unbranched_load
  marked-cut h w (fail e s) = refl
  marked-cut h w (done s) =
      if_same cut_round (conf.genesis_hash == h) _ _ _ _
        (judged-cut true h (record w { analyzed = s }) 0)
        (loaded-cut h (record w { analyzed = s }) (load h))

  peeked-cut :
      (w : Descent) (st : HashStack)
      → cut_round (peeked malloc load conf memoized lowest w st)
        ≡ peeked malloc (unbranched_load load) conf memoized lowest (cut w) st
  peeked-cut w [] = refl
  peeked-cut w (h ∷ rest) =
      if_same cut_round (size w.analyzed == conf.below_max_depth) _ _ _ _ refl (
        if_same cut_round (contains w.analyzed h) _ _ _ _ refl
          (marked-cut h w (HashSet.add malloc h w.analyzed)))

  continued-cut :
      (f g : Descent → Option Ending)
      → ((w : Descent) → f w ≡ g (cut w))
      → (r : Round)
      → continued malloc load conf memoized lowest f r
        ≡ continued malloc (unbranched_load load) conf memoized lowest g (cut_round r)
  continued-cut f g same (ended e) = refl
  continued-cut f g same (going w) = same w

  run-cut :
      (fuel : ℕ) (w : Descent)
      → run malloc load conf memoized lowest fuel w
        ≡ run malloc (unbranched_load load) conf memoized lowest fuel (cut w)
  unfolding run round
  run-cut zero w = refl
  run-cut (suc fuel) w =
      rw
        (
          sym (peeked-cut w w.stack),
          continued-cut (run malloc load conf memoized lowest fuel)
              (run malloc (unbranched_load load) conf memoized lowest fuel) (run-cut fuel)
              (round malloc load conf memoized lowest w),
        )
        refl

  entered-cut :
      (tail_hash : ℕ) (o : Outcome HashStack)
      → entered malloc load conf memoized lowest tail_hash o
        ≡ entered malloc (unbranched_load load) conf memoized lowest tail_hash o
  entered-cut tail_hash (fail e s) = refl
  entered-cut tail_hash (done s) =
      ap (finished malloc load conf memoized lowest tail_hash) (run-cut _ _)

  -- When no allocation fails, the code, the answer and the memoization that `below_max_depth` leaves
  -- are the same when every branch that a query tells is set to 0: the walk looks at no branch.
  pub below_max_depth-unbranched :
      (tail_hash : ℕ)
      → below_max_depth malloc load conf memoized lowest tail_hash
        ≡ below_max_depth malloc (unbranched_load load) conf memoized lowest tail_hash
  unfolding below_max_depth
  below_max_depth-unbranched tail_hash = entered-cut tail_hash (push malloc tail_hash [])
