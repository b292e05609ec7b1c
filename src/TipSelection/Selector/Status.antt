-- ===== src/TipSelection/Selector/Status.antt =====
-- The status of the selection is that of its cleaning up.
use entangled.Prelude.{ℕ, ◌≡◌, refl, inr, true, false, none, some, [], ◌∷◌}
use entangled.HashSet.{push}
use entangled.Ledger.{check_consistency}
use entangled.TipSelection.CwRating.Calculate.{Rating}
use entangled.TipSelection.EntryPoint.{get_entry_point}
use entangled.TipSelection.Validator.{init, destroy}
use entangled.TipSelection.Walker.{Walk, Walked}
use entangled.TipSelection.Selector.{Selector, choose_tips, get_transactions_to_approve}

-- The walk before the first step.
abbrev pub first_walk : Selector → ℕ → Rating → Walk
first_walk s stale r = record {
  approver_tail_hash = stale;
  cw_result = record { cw_ratings = r.cw_ratings; tx_to_approvers = r.tx_to_approvers };
  epv = init s.conf s.tracker.latest_solid_milestone_index s.lv;
  draws = 0;
}

module _ (s : Selector) (stale depth ep trunk branch : ℕ) (r : Rating) (w1 w2 : Walked) where
  -- When the entry point is found, the ratings are calculated, both walks give a tip and no allocation
  -- fails, but the ledger validator finds that the two tips are not consistent, then the call without
  -- a reference returns `RC_OK`, with those two tips.
  pub get_transactions_to_approve-inconsistent :
      get_entry_point s.milestone_load_by_index s.tracker depth ≡ inr ep
      → s.cw_rating_calculate ep ≡ some r
      → r.code ≡ none
      → s.exit_probability_randomize ep (first_walk s stale r) ≡ some w1
      → w1.code ≡ none
      → w1.tip ≡ some trunk
      → s.exit_probability_randomize ep w1.walk ≡ some w2
      → w2.code ≡ none
      → w2.tip ≡ some branch
      → s.lv.malloc trunk ≡ true
      → s.lv.malloc branch ≡ true
      → check_consistency s.lv (branch ∷ trunk ∷ []) ≡ some (none, false)
      → get_transactions_to_approve s stale depth none
        ≡ some (record { code = none; tips = (some trunk, some branch) })
  unfolding get_transactions_to_approve choose_tips push destroy
  get_transactions_to_approve-inconsistent e q c x xc xt y yc yt m m' f =
      rw (e, q, c, x, xc, xt, m, y, yc, yt, m', f) refl
