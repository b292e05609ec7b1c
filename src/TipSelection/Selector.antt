-- ===== src/TipSelection/Selector.antt =====
-- ciri/consensus/tip_selection/tip_selector.c: the two tips that a new transaction approves. The
-- randomizer stands in a table of functions, as in exit_probability_randomizer.c, and the walk of
-- `TipSelection.Walker` is one of those it may hold. The lock of the snapshot is left out.
pub mod Status
use entangled.Prelude.{
  ℕ, zero, suc, ◌⊎◌, inl, inr, Bool, true, false, Option, none, some, List, [], ◌∷◌, if◌then◌else◌,
}
use entangled.Outcome.{Retcode, Outcome, done, fail}
use entangled.Outcome.Retcode.{
  rc_tip_selector_tips_not_consistent, rc_tip_selector_reference_too_old,
}
use entangled.HashSet.{HashStack, push}
use entangled.HashMap
use entangled.Ledger.{Validator, check_consistency}
use entangled.TipSelection.CwRating.Calculate.{Rating, cw_rating_calculate_dfs}
use entangled.TipSelection.EntryPoint.{Tracker, get_entry_point}
use entangled.TipSelection.Validator.{Conf, Epv, init, destroy}
use entangled.TipSelection.Walker.{CwResult, Walk, Walked}

-- What the selector reaches: the rating and the randomizer are functions of its tables.
pub record Selector : Type 0 where
  pub conf : Conf
  pub tracker : Tracker
  pub lv : Validator
  pub milestone_load_by_index : ℕ → Retcode ⊎ Option ℕ
  pub cw_rating_calculate : ℕ → Option Rating
  pub exit_probability_randomize : ℕ → Walk → Option Walked

-- The local variables behind the label `done`: the return code, and `tips->trunk` and
-- `tips->branch` once they are written.
pub record Chosen : Type 0 where
  pub ret : Option Retcode
  pub trunk : Option ℕ
  pub branch : Option ℕ

-- What the function leaves: its return code and the tips.
pub record Selected : Type 0 where
  pub code : Option Retcode
  pub tips : Option ℕ × Option ℕ

abbrev pub failing : Option ℕ → Option ℕ → Retcode → Option Chosen
failing trunk branch e = some (record { ret = some e; trunk = trunk; branch = branch })

module _ (s : Selector) where
  abbrev pub checked : ℕ → ℕ → Option (Option Retcode × Bool) → Option Chosen
  checked trunk branch none = none
  checked trunk branch (some (some e, consistent)) = failing (some trunk) (some branch) e
  checked trunk branch (some (none, true)) =
      some (record { ret = none; trunk = some trunk; branch = some branch })
  checked trunk branch (some (none, false)) =
      failing (some trunk) (some branch) rc_tip_selector_tips_not_consistent

  abbrev pub branch_pushed : ℕ → ℕ → Outcome HashStack → Option Chosen
  branch_pushed trunk branch (fail e st) = failing (some trunk) (some branch) e
  branch_pushed trunk branch (done st) = checked trunk branch (check_consistency s.lv st)

  abbrev pub branch_chosen : ℕ → HashStack → Option Retcode → Option ℕ → Option Chosen
  branch_chosen trunk st (some e) tip = failing (some trunk) none e
  branch_chosen trunk st none none = some (record { ret = none; trunk = some trunk; branch = none })
  branch_chosen trunk st none (some branch) =
      branch_pushed trunk branch (push s.lv.malloc branch st)

  abbrev pub branch_walked : ℕ → HashStack → Option Walked → Option Chosen
  branch_walked trunk st none = none
  branch_walked trunk st (some w) = branch_chosen trunk st w.code w.tip

  -- The second walk starts from the reference, when there is one and it was rated.
  abbrev pub choose_branch : ℕ → Option ℕ → ℕ → HashStack → Walk → Option Chosen
  choose_branch ep none trunk st w = branch_walked trunk st (s.exit_probability_randomize ep w)
  choose_branch ep (some reference) trunk st w =
      if HashMap.contains w.cw_result.cw_ratings reference
      then branch_walked trunk st (s.exit_probability_randomize reference w)
      else failing (some trunk) none rc_tip_selector_reference_too_old

  abbrev pub trunk_pushed : ℕ → Option ℕ → ℕ → Walk → Outcome HashStack → Option Chosen
  trunk_pushed ep reference trunk w (fail e st) = failing (some trunk) none e
  trunk_pushed ep reference trunk w (done st) = choose_branch ep reference trunk st w

  abbrev pub trunk_chosen : ℕ → Option ℕ → Walk → Option Retcode → Option ℕ → Option Chosen
  trunk_chosen ep reference w (some e) tip = failing none none e
  trunk_chosen ep reference w none none = some (record { ret = none; trunk = none; branch = none })
  trunk_chosen ep reference w none (some trunk) =
      trunk_pushed ep reference trunk w (push s.lv.malloc trunk [])

  abbrev pub trunk_walked : ℕ → Option ℕ → Option Walked → Option Chosen
  trunk_walked ep reference none = none
  trunk_walked ep reference (some w) = trunk_chosen ep reference w.walk w.code w.tip

  -- `stale` is what the buffer of the approver's hash holds before the walk.
  abbrev pub rated : ℕ → ℕ → Option ℕ → Option Rating → Option Chosen
  rated stale ep reference none = none
  rated stale ep reference (some r) = elim (r.code) [
    | some e ↦ failing none none e
    | none ↦ trunk_walked ep reference (
        s.exit_probability_randomize ep (record {
          approver_tail_hash = stale;
          cw_result = record { cw_ratings = r.cw_ratings; tx_to_approvers = r.tx_to_approvers };
          epv = init s.conf s.tracker.latest_solid_milestone_index s.lv;
          draws = 0;
        }))
  ]

  abbrev pub started : ℕ → Option ℕ → Retcode ⊎ ℕ → Option Chosen
  started stale reference (inl e) = failing none none e
  started stale reference (inr ep) = rated stale ep reference (s.cw_rating_calculate ep)

  -- Up to the label `done`.
  unfoldable pub choose_tips : ℕ → ℕ → Option ℕ → Option Chosen
  choose_tips stale depth reference =
      started stale reference (get_entry_point s.milestone_load_by_index s.tracker depth)

  -- `if ((ret = destroy(&walker_validator)) != RC_OK)`, with the code returned after it. It is the
  -- same for every validator.
  abbrev pub cleaned_up : Option Chosen → Option Selected
  cleaned_up none = none
  cleaned_up (some c) = some (record {
    code = (destroy (init s.conf s.tracker.latest_solid_milestone_index s.lv)).1;
    tips = (c.trunk, c.branch);
  })

  -- The whole function.
  unfoldable pub get_transactions_to_approve : ℕ → ℕ → Option ℕ → Option Selected
  get_transactions_to_approve stale depth reference = cleaned_up (choose_tips stale depth reference)
