-- ===== src/Ledger/Build/Safe.antt =====
-- What `build_snapshot` of ciri/consensus/ledger_validator/ledger_validator.c does to the balances.
use mathlib.Core.Path.{subst}
use entangled.Prelude.{
  ℕ, zero, suc, ◌+◌, ◌≡◌, ◌∙◌, ◌⊎◌, refl, inl, inr, Bool, true, Option, none, some, ◌==◌, chosen,
}
use entangled.Outcome.{Retcode, Outcome, done, fail}
use entangled.HashMap
use entangled.StateDelta.{StateDelta, sum, is_consistent}
use entangled.StateDelta.Balance.{IsDelta}
use entangled.StateDelta.Patch.{apply_patch-done}
use entangled.StateDelta.Consistency.{IsNonneg, is_consistent-apply_patch}
use entangled.Snapshot.{Snapshot, apply_patch, create_patch}
use entangled.Snapshot.Supply.{apply_patch-sum, apply_patch-state}
use entangled.Ledger.Build.{
  Build, advanced, judged, take_delta, and_next, milestone_found, build_from, build_snapshot,
}

-- A ledger that came from `before`: no balance is negative, and the sum is kept.
pub record IsSound (before latest : Snapshot) : Type 0 where
  pub words : IsDelta latest.state
  pub nonneg : IsNonneg latest.state
  pub sum_kept : sum latest.state ≡ sum before.state

-- What is required of a call that succeeds.
abbrev Sound : Snapshot → Outcome Build → Type 0
Sound before (done b) = IsSound before b.latest
Sound before (fail e b) = Unit

abbrev SoundOpt : Snapshot → Option (Outcome Build) → Type 0
SoundOpt before none = Unit
SoundOpt before (some o) = Sound before o

module _ (malloc : ℕ → Bool) (load_milestone : ℕ → Retcode ⊎ Option (ℕ × ℕ))
    (load_delta : ℕ → Retcode ⊎ StateDelta) (before : Snapshot)
    (deltas : (i : ℕ) (d : StateDelta) → load_delta i ≡ inr d → IsDelta d) where
  advanced-Sound :
      (b : Build) (delta patch : StateDelta) (index hash : ℕ) (o : Outcome Snapshot)
      → IsSound before b.latest
      → IsDelta delta
      → create_patch malloc b.latest delta ≡ done patch
      → (is_consistent patch).0 ≡ true
      → apply_patch malloc b.latest delta index ≡ o
      → Sound before (advanced malloc load_milestone load_delta b index hash o)
  unfolding create_patch
  advanced-Sound b delta patch index hash (fail e s) is d c ok q = tt
  advanced-Sound b delta patch index hash (done s) is d c ok q =
      let state = apply_patch-state malloc b.latest s delta index q in
      record {
        words = apply_patch-done malloc delta b.latest.state s.state d is.words state;
        nonneg =
            (is_consistent-apply_patch malloc malloc b.latest.state delta patch s.state is.words d
                is.nonneg c state).0
              ok;
        sum_kept = (apply_patch-sum malloc b.latest s delta index is.words d q).1 ∙ is.sum_kept;
      }

  judged-Sound :
      (b : Build) (delta : StateDelta) (index hash : ℕ) (o : Outcome StateDelta)
      → IsSound before b.latest
      → IsDelta delta
      → create_patch malloc b.latest delta ≡ o
      → Sound before (judged malloc load_milestone load_delta b delta index hash o)
  judged-Sound b delta index hash (fail e patch) is d c = tt
  judged-Sound b delta index hash (done patch) is d c =
      chosen (Sound before) (is_consistent patch).0 _ _
        (λ ok.
          advanced-Sound b delta patch index hash (apply_patch malloc b.latest delta index) is d c
            ok refl)
        (λ z. tt)

  take_delta-Sound :
      (b : Build) (index hash : ℕ) (o : Retcode ⊎ StateDelta)
      → IsSound before b.latest
      → load_delta index ≡ o
      → Sound before (take_delta malloc load_milestone load_delta b index hash o)
  take_delta-Sound b index hash (inl e) is q = tt
  take_delta-Sound b index hash (inr delta) is q =
      chosen (Sound before) (HashMap.size delta == 0) _ _ (λ z. is)
        (λ n.
          judged-Sound b delta index hash (create_patch malloc b.latest delta) is
            (deltas index delta q) refl)

  and_next-SoundOpt :
      (next : Build → Option (Outcome Build)) (o : Outcome Build)
      → ((b : Build) → IsSound before b.latest → SoundOpt before (next b))
      → Sound before o
      → SoundOpt before (and_next malloc load_milestone load_delta next o)
  and_next-SoundOpt next (fail e b) k is = tt
  and_next-SoundOpt next (done b) k is = k b is

  milestone_found-SoundOpt :
      (next : ℕ → Build → Option (Outcome Build)) (b : Build) (o : Retcode ⊎ Option (ℕ × ℕ))
      → ((i : ℕ) (b : Build) → IsSound before b.latest → SoundOpt before (next i b))
      → IsSound before b.latest
      → SoundOpt before (milestone_found malloc load_milestone load_delta next b o)
  milestone_found-SoundOpt next b (inl e) k is = tt
  milestone_found-SoundOpt next b (inr none) k is = is
  milestone_found-SoundOpt next b (inr (some (i, hash))) k is =
      and_next-SoundOpt (next (i + 1))
        (take_delta malloc load_milestone load_delta b i hash (load_delta i)) (k (i + 1))
        (take_delta-Sound b i hash (load_delta i) is refl)

  build_from-SoundOpt :
      (fuel index : ℕ) (b : Build)
      → IsSound before b.latest
      → SoundOpt before (build_from malloc load_milestone load_delta fuel index b)
  unfolding build_from
  build_from-SoundOpt zero index b is = tt
  build_from-SoundOpt (suc fuel) index b is =
      milestone_found-SoundOpt (build_from malloc load_milestone load_delta fuel) b
        (load_milestone index) (build_from-SoundOpt fuel) is

-- The ledger that is built at start-up, over one that lists no address twice, holds 64-bit patterns
-- and has no negative balance, from stored deltas of 64-bit patterns that list no address twice: when
-- the loop ends and reports success, the same holds of it, and the sum of all balances is what it was.
pub build_snapshot-IsSound :
    (malloc : ℕ → Bool) (load_milestone : ℕ → Retcode ⊎ Option (ℕ × ℕ))
    (load_delta : ℕ → Retcode ⊎ StateDelta) (fuel initial_index : ℕ) (b last : Build)
    → ((i : ℕ) (d : StateDelta) → load_delta i ≡ inr d → IsDelta d)
    → IsDelta b.latest.state
    → IsNonneg b.latest.state
    → build_snapshot malloc load_milestone load_delta fuel initial_index b ≡ some (done last)
    → IsSound b.latest last.latest
unfolding build_snapshot
build_snapshot-IsSound malloc load_milestone load_delta fuel initial_index b last deltas d n e =
    subst (SoundOpt b.latest) e (
      build_from-SoundOpt malloc load_milestone load_delta b.latest deltas fuel (initial_index + 1)
        b (record { words = d; nonneg = n; sum_kept = refl }))
