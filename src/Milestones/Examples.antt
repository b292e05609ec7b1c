-- ===== src/Milestones/Examples.antt =====
-- An example of a replay of one milestone.
use entangled.Prelude.{ℕ, ◌≡◌, refl, ◌⊎◌, inr, Option, none, some, ◌==◌, if◌then◌else◌}
use mathlib.Core.Path.{subst}
use entangled.Prelude.Word.{add64}
use entangled.Outcome.{Retcode, done, for_each}
use entangled.HashMap.{find, delete, assign, add}
use entangled.StateDelta.{StateDelta, sum, sum_from, apply_entry, apply_patch, add_or_sum}
use entangled.StateDelta.Examples.{ledger, transfer, patched, all}
use entangled.Snapshot.{apply_patch_no_lock}
use entangled.Snapshot.Examples.{at}
use entangled.Milestones.{replay_from, replay_milestones}
use entangled.Milestones.Sum.{replay_milestones-sum}

abbrev load_milestone : ℕ → Retcode ⊎ Option ℕ
load_milestone i = if i == 5 then inr (some 5) else inr none

abbrev load_delta : ℕ → Retcode ⊎ Option StateDelta
load_delta i = inr (some transfer)

transfer-sum : sum transfer ≡ 0
unfolding sum sum_from add64
transfer-sum = refl

same_delta :
    (d : StateDelta)
    → ◌≡◌ {A = Retcode ⊎ Option StateDelta} (inr (some transfer)) (inr (some d))
    → transfer ≡ d
same_delta d e = cc

balanced : (i : ℕ) (d : StateDelta) → load_delta i ≡ inr (some d) → sum d ≡ 0
balanced i d e = subst (λ m. sum m ≡ 0) (same_delta d e) transfer-sum

replay_test : replay_milestones all load_milestone load_delta (at 4 ledger) 6 ≡ done (at 5 patched)
unfolding replay_milestones replay_from apply_patch_no_lock apply_patch for_each apply_entry
    add_or_sum find add delete assign add64
replay_test = refl

replay_milestones-sum_example : sum (at 5 patched).state ≡ sum (at 4 ledger).state
replay_milestones-sum_example =
    replay_milestones-sum all load_milestone load_delta balanced (at 4 ledger) (at 5 patched) 6
      replay_test
