-- ===== src/TipSelection/Walker/Rejected.antt =====
-- From its second step on, the walk keeps its current tail in the buffer that the search for the
-- next one writes to.
use entangled.Prelude.{
  ℕ, suc, ◌≡◌, ◌⊎◌, refl, inr, true, false, Option, none, some, List, [], ◌∷◌, ==_iff,
}
use entangled.Outcome.{Retcode}
use entangled.HashSet.{HashSet}
use entangled.HashSet
use entangled.HashMap.{HashMap}
use entangled.IndexedMap.{IndexedEntry, find}
use entangled.Tangle.FindTail.{find_tail}
use entangled.TipSelection.Validator.{Epv, Verdict, is_valid}
use entangled.TipSelection.Walker.{
  Doubles, Walk, Walked, select_approver, find_tail_if_valid, try_approvers, select_approver_tail,
  steps, random_walker_randomize,
}

remove_only : (h : ℕ) → HashSet.remove h (h ∷ []) ≡ []
unfolding HashSet.remove
remove_only h = rw ((==_iff h h).1 refl) refl

-- The tip of a walk that succeeded.
abbrev pub tip_of : Option Walked → Option ℕ
tip_of none = none
tip_of (some w) = w.tip

module _ {R : Type 0} (d : Doubles R) (alpha : R) (random : ℕ → R)
    (load_approvers : ℕ → Retcode ⊎ List ℕ) (ratings : HashMap) (first second : ℕ)
    (picks_first : (n buffer : ℕ)
      → select_approver d alpha ratings (first ∷ []) (random n) buffer ≡ inr first)
    (picks_second : (n buffer : ℕ)
      → select_approver d alpha ratings (second ∷ []) (random n) buffer ≡ inr second) where
  picks_at :
      (w : Walk) (h : ℕ) (p : R) (buffer : ℕ)
      → w.cw_result.cw_ratings ≡ ratings
      → select_approver d alpha ratings (h ∷ []) p buffer ≡ inr h
      → select_approver d alpha w.cw_result.cw_ratings (h ∷ []) p buffer ≡ inr h
  picks_at w h p buffer r q = rw r q

  -- A hash that is its own tail, as the validator judges it.
  judged_self :
      (w : Walk) (h : ℕ) (v : Verdict)
      → find_tail (w.epv.lv.db.load) load_approvers h ≡ (none, some h)
      → is_valid w.epv h ≡ some v
      → find_tail_if_valid d alpha random load_approvers (record w { approver_tail_hash = h })
        ≡ some (record {
          code = v.code;
          has_approver_tail = v.is_valid;
          walk = record w { approver_tail_hash = h; epv = v.epv };
        })
  unfolding find_tail_if_valid
  judged_self w h v c q = rw (c, q) refl

  -- Where each of two hashes is the only approver of the one before, picked as such, and its own tail, and the
  -- validator accepts the entry point and the first of them, the walk gives as its tip the second,
  -- also when the validator refuses it.
  pub random_walker_randomize-refused :
      (ep fuel : ℕ) (w : Walk) (one two : IndexedEntry) (epv1 epv2 epv3 : Epv)
      → w.cw_result.cw_ratings ≡ ratings
      → find w.cw_result.tx_to_approvers ep ≡ some one
      → one.approvers ≡ first ∷ []
      → find w.cw_result.tx_to_approvers first ≡ some two
      → two.approvers ≡ second ∷ []
      → find_tail (epv1.lv.db.load) load_approvers first ≡ (none, some first)
      → find_tail (epv2.lv.db.load) load_approvers second ≡ (none, some second)
      → is_valid w.epv ep ≡ some (record { code = none; is_valid = true; epv = epv1 })
      → is_valid epv1 first ≡ some (record { code = none; is_valid = true; epv = epv2 })
      → is_valid epv2 second ≡ some (record { code = none; is_valid = false; epv = epv3 })
      → tip_of (random_walker_randomize d alpha random load_approvers (suc (suc fuel)) ep w)
        ≡ some second
  unfolding random_walker_randomize steps select_approver_tail try_approvers
  random_walker_randomize-refused ep fuel w one two epv1 epv2 epv3 r q a q' a' c c' v v' v'' =
      let w1 : Walk = record w { epv = epv1; draws = suc w.draws } in
      let w2 : Walk = record w {
        epv = epv2;
        draws = suc (suc w.draws);
        approver_tail_hash = first;
      } in
      rw
        (
          v,
          q,
          a,
          picks_at w first (random w.draws) w.approver_tail_hash r
              (picks_first w.draws w.approver_tail_hash),
          judged_self w1 first (record { code = none; is_valid = true; epv = epv2 }) c v',
          q',
          a',
          picks_at w second (random (suc w.draws)) first r (picks_second (suc w.draws) first),
          judged_self w2 second (record { code = none; is_valid = false; epv = epv3 }) c' v'',
          remove_only second,
        )
        refl
