-- ===== src/Ledger/Build/Ends.antt =====
-- The loop of `build_snapshot` ends.
use mathlib.Core.Path.{subst}
use entangled.Prelude.{
  ℕ, zero, suc, ◌+◌, ◌≡◌, ◌≤◌, sym, ◌⊎◌, refl, inl, inr, Bool, Option, none, some, arith,
}
use entangled.Outcome.{Retcode, Outcome, done, fail}
use entangled.StateDelta.{StateDelta}
use entangled.Ledger.Build.{
  Build, take_delta, and_next, milestone_found, build_from, build_snapshot,
}

-- A call that returned.
abbrev pub IsReturned : Option (Outcome Build) → Type 0
IsReturned none = ⊥
IsReturned (some o) = Unit

-- The milestone of an index has that index, and there is none after the last.
pub record IsStored (load_milestone : ℕ → Retcode ⊎ Option (ℕ × ℕ)) (last : ℕ) : Type 0 where
  pub by_index : (i j hash : ℕ) → load_milestone i ≡ inr (some (j, hash)) → (j ≡ i) × (i ≤ last)

module _ (malloc : ℕ → Bool) (load_milestone : ℕ → Retcode ⊎ Option (ℕ × ℕ))
    (load_delta : ℕ → Retcode ⊎ StateDelta) (last : ℕ) (stored : IsStored load_milestone last) where
  and_next-IsReturned :
      (next : Build → Option (Outcome Build)) (o : Outcome Build)
      → ((b : Build) → IsReturned (next b))
      → IsReturned (and_next malloc load_milestone load_delta next o)
  and_next-IsReturned next (fail e b) k = tt
  and_next-IsReturned next (done b) k = k b

  milestone_found-IsReturned :
      (next : ℕ → Build → Option (Outcome Build)) (index : ℕ) (b : Build)
      (o : Retcode ⊎ Option (ℕ × ℕ))
      → load_milestone index ≡ o
      → (index ≤ last → (b : Build) → IsReturned (next (index + 1) b))
      → IsReturned (milestone_found malloc load_milestone load_delta next b o)
  milestone_found-IsReturned next index b (inl e) q k = tt
  milestone_found-IsReturned next index b (inr none) q k = tt
  milestone_found-IsReturned next index b (inr (some (j, hash))) q k =
      let (same, within) = stored.by_index index j hash q in
      and_next-IsReturned (next (j + 1))
        (take_delta malloc load_milestone load_delta b j hash (load_delta j))
        (λ b'. subst (λ i. IsReturned (next (i + 1) b')) (sym same) (k within b'))

  build_from-IsReturned :
      (fuel index : ℕ) (b : Build)
      → last + 2 ≤ index + fuel
      → 1 ≤ fuel
      → IsReturned (build_from malloc load_milestone load_delta fuel index b)
  unfolding build_from
  build_from-IsReturned zero index b h p = absurd (omega arith)
  build_from-IsReturned (suc fuel) index b h p =
      milestone_found-IsReturned (build_from malloc load_milestone load_delta fuel) index b
        (load_milestone index) refl
        (λ within b'. build_from-IsReturned fuel (index + 1) b' (omega arith) (omega arith))

-- The loop returns within one round more than there are milestones after the initial snapshot, in a
-- database that gives the milestone of an index under that index and has none after `last`.
pub build_snapshot-IsReturned :
    (malloc : ℕ → Bool) (load_milestone : ℕ → Retcode ⊎ Option (ℕ × ℕ))
    (load_delta : ℕ → Retcode ⊎ StateDelta) (fuel initial_index last : ℕ) (b : Build)
    → IsStored load_milestone last
    → last + 1 ≤ initial_index + fuel
    → 1 ≤ fuel
    → IsReturned (build_snapshot malloc load_milestone load_delta fuel initial_index b)
unfolding build_snapshot
build_snapshot-IsReturned malloc load_milestone load_delta fuel initial_index last b stored h p =
    build_from-IsReturned malloc load_milestone load_delta last stored fuel (initial_index + 1) b
      (omega arith) p
