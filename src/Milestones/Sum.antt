-- ===== src/Milestones/Sum.antt =====
-- A replay keeps the sum of all balances.
use entangled.Prelude.{
  ℕ, zero, suc, ◌+◌, ◌-◌, ◌≡◌, ◌⊎◌, refl, inl, inr, Bool, Option, none, some, [], arith, Bool-cases,
}
use entangled.Prelude.Word.{add64, add64-zero_right}
use entangled.Outcome.{Retcode, Outcome, done, fail}
use entangled.StateDelta.{StateDelta, sum, sum_from}
use entangled.StateDelta
use entangled.StateDelta.Total.{sum-apply_patch, sum-lt}
use entangled.Snapshot.{Snapshot}
use entangled.Snapshot.Supply.{apply_patch_no_lock-sum}
use entangled.Milestones.{
  Replay, merged, delta_loaded, next, milestone_loaded, replay_from, replayed, replay_milestones,
}

same_state : (s t : Snapshot) → done s ≡ done t → sum t.state ≡ sum s.state
same_state s t e = cc

sum-nil : sum [] ≡ 0
unfolding sum sum_from
sum-nil = refl

module _ (malloc : ℕ → Bool) (load_milestone : ℕ → Retcode ⊎ Option ℕ)
    (load_delta : ℕ → Retcode ⊎ Option StateDelta)
    (balanced : (i : ℕ) (d : StateDelta) → load_delta i ≡ inr (some d) → sum d ≡ 0) where
  abbrev Balanced : Retcode ⊎ Replay → Type 0
  Balanced (inl e) = Unit
  Balanced (inr r) = sum r.merged_balance_changes ≡ 0

  merged-Balanced :
      (r : Replay) (d : StateDelta) (o : Outcome StateDelta)
      → StateDelta.apply_patch malloc r.merged_balance_changes d ≡ o
      → sum d ≡ 0
      → sum r.merged_balance_changes ≡ 0
      → Balanced (merged malloc load_milestone load_delta r o)
  merged-Balanced r d (fail e m) q z b = tt
  merged-Balanced r d (done m) q z b =
      let total = sum-apply_patch malloc d r.merged_balance_changes m q in
      unfold add64 in ground (arith, total, z, b)

  delta_loaded-Balanced :
      (r : Replay) (i : ℕ) (o : Retcode ⊎ Option StateDelta)
      → load_delta i ≡ o
      → sum r.merged_balance_changes ≡ 0
      → Balanced (delta_loaded malloc load_milestone load_delta r o)
  delta_loaded-Balanced r i (inl e) q b = tt
  delta_loaded-Balanced r i (inr none) q b = b
  delta_loaded-Balanced r i (inr (some d)) q b =
      merged-Balanced r d (StateDelta.apply_patch malloc r.merged_balance_changes d) refl
        (balanced i d q) b

  next-Balanced :
      (rest : Replay → Retcode ⊎ Replay) (o : Retcode ⊎ Replay)
      → ((r : Replay) → sum r.merged_balance_changes ≡ 0 → Balanced (rest r))
      → Balanced o
      → Balanced (next malloc load_milestone load_delta rest o)
  next-Balanced rest (inl e) k b = tt
  next-Balanced rest (inr r) k b = k r b

  milestone_loaded-Balanced :
      (rest : Replay → Retcode ⊎ Replay) (r : Replay) (o : Retcode ⊎ Option ℕ)
      → ((r : Replay) → sum r.merged_balance_changes ≡ 0 → Balanced (rest r))
      → sum r.merged_balance_changes ≡ 0
      → Balanced (milestone_loaded malloc load_milestone load_delta rest r o)
  milestone_loaded-Balanced rest r (inl e) k b = tt
  milestone_loaded-Balanced rest r (inr none) k b = b
  milestone_loaded-Balanced rest r (inr (some i)) k b =
      next-Balanced rest
        (delta_loaded malloc load_milestone load_delta (record r { milestone_index = i })
          (load_delta i))
        k (delta_loaded-Balanced (record r { milestone_index = i }) i (load_delta i) refl b)

  replay_from-Balanced :
      (rounds i : ℕ) (r : Replay)
      → sum r.merged_balance_changes ≡ 0
      → Balanced (replay_from malloc load_milestone load_delta rounds i r)
  unfolding replay_from
  replay_from-Balanced zero i r b = b
  replay_from-Balanced (suc rounds) i r b =
      milestone_loaded-Balanced (replay_from malloc load_milestone load_delta rounds (i + 1)) r
        (load_milestone (i + 1)) (replay_from-Balanced rounds (i + 1)) b

  replayed-sum :
      (s t : Snapshot) (o : Retcode ⊎ Replay)
      → Balanced o
      → replayed malloc load_milestone load_delta s o ≡ done t
      → sum t.state ≡ sum s.state
  replayed-sum s t (inl e) b q = absurd (cc)
  replayed-sum s t (inr r) b q = elim (Bool-cases r.applied) [
    | inl y ↦ ground (
      arith,
      apply_patch_no_lock-sum malloc s t r.merged_balance_changes r.milestone_index (rw y at q),
      b,
      add64-zero_right (sum s.state) (sum-lt s.state),
    )
    | inr n ↦ same_state s t (rw n at q)
  ]

  -- A replay that succeeds keeps the sum of all balances, whatever milestones it finds, when the sum
  -- of every stored delta is 0.
  pub replay_milestones-sum :
      (s t : Snapshot) (index : ℕ)
      → replay_milestones malloc load_milestone load_delta s index ≡ done t
      → sum t.state ≡ sum s.state
  unfolding replay_milestones
  replay_milestones-sum s t index q =
      replayed-sum s t _
        (replay_from-Balanced (index - s.metadata.index) s.metadata.index _ sum-nil) q
