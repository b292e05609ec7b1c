-- ===== src/TipSelection/Walker/Endless.antt =====
-- A transaction whose tail is refused, and which is not that tail, is never taken out of the
-- approvers: the walk does not end.
use entangled.Prelude.{
  ℕ, zero, suc, ◌≡◌, ◌≢◌, ◌⊎◌, refl, inl, inr, true, false, none, some, List, [], ◌∷◌, ◌==◌,
  Bool-cases, ==_iff, sym,
}
use entangled.Outcome.{Retcode}
use entangled.HashSet.{HashSet}
use entangled.HashSet
use entangled.HashMap.{HashMap}
use entangled.IndexedMap.{IndexedEntry, find}
use entangled.Tangle.FindTail.{find_tail}
use entangled.TipSelection.CwRating.FromDb.{assign_approvers}
use entangled.TipSelection.Validator.{Epv, is_valid}
use entangled.TipSelection.Walker.{
  Doubles, Walk, select_approver, find_tail_if_valid, try_approvers, select_approver_tail, steps,
  random_walker_randomize,
}

remove_other : (h x : ℕ) → h ≢ x → HashSet.remove h (x ∷ []) ≡ x ∷ []
unfolding HashSet.remove
remove_other h x n = elim (Bool-cases (x == h)) [
  | inl y ↦ absurd (n (sym ((==_iff x h).0 y)))
  | inr z ↦ rw z refl
]

module _ {R : Type 0} (d : Doubles R) (alpha : R) (random : ℕ → R)
    (load_approvers : ℕ → Retcode ⊎ List ℕ) (approver tail : ℕ) (differ : tail ≢ approver)
    (epv : Epv) (ratings : HashMap)
    (climbs : find_tail (epv.lv.db.load) load_approvers approver ≡ (none, some tail))
    (refuses : is_valid epv tail ≡ some (record { code = none; is_valid = false; epv = epv }))
    (picks : (n buffer : ℕ)
      → select_approver d alpha ratings (approver ∷ []) (random n) buffer ≡ inr approver) where
  -- What the search for a valid tail leaves.
  abbrev after_search : Walk → Walk
  after_search w = record w { approver_tail_hash = tail; epv = epv }

  found_refused :
      (w : Walk)
      → w.epv ≡ epv
      → w.approver_tail_hash ≡ approver
      → find_tail_if_valid d alpha random load_approvers w
        ≡ some (record { code = none; has_approver_tail = false; walk = after_search w })
  unfolding find_tail_if_valid
  found_refused w e b = rw (e, b, climbs, refuses) refl

  picks_at :
      (w : Walk) (p : R) (buffer : ℕ)
      → w.cw_result.cw_ratings ≡ ratings
      → select_approver d alpha ratings (approver ∷ []) p buffer ≡ inr approver
      → select_approver d alpha w.cw_result.cw_ratings (approver ∷ []) p buffer ≡ inr approver
  picks_at w p buffer r q = rw r q

  try_approvers_endless :
      (fuel curr : ℕ) (w : Walk)
      → w.epv ≡ epv
      → w.cw_result.cw_ratings ≡ ratings
      → try_approvers d alpha random load_approvers fuel curr (approver ∷ []) w ≡ none
  unfolding try_approvers
  try_approvers_endless zero curr w e r = refl
  try_approvers_endless (suc fuel) curr w e r =
      let w' : Walk = record w { draws = suc w.draws; approver_tail_hash = approver } in
      rw
        (
          picks_at w (random w.draws) w.approver_tail_hash r (picks w.draws w.approver_tail_hash),
          found_refused w' e refl,
          remove_other tail approver differ,
        )
        (try_approvers_endless fuel curr
          (record (after_search w') {
            cw_result = record w.cw_result {
              tx_to_approvers = assign_approvers w.cw_result.tx_to_approvers curr (approver ∷ []);
            };
          })
          refl r)

  -- When the only approver of the entry point is each time the one picked, its search gives another
  -- hash as its tail, and the validator refuses that tail and stays as it is, the walk from a valid
  -- entry point does not end: no fuel is enough.
  pub random_walker_randomize-endless :
      (ep : ℕ) (e : IndexedEntry) (w : Walk)
      → is_valid w.epv ep ≡ some (record { code = none; is_valid = true; epv = epv })
      → find w.cw_result.tx_to_approvers ep ≡ some e
      → e.approvers ≡ approver ∷ []
      → w.cw_result.cw_ratings ≡ ratings
      → (fuel : ℕ) → random_walker_randomize d alpha random load_approvers fuel ep w ≡ none
  unfolding random_walker_randomize steps select_approver_tail
  random_walker_randomize-endless ep e w v q a r zero = rw v refl
  random_walker_randomize-endless ep e w v q a r (suc fuel) =
      rw (v, q, a, try_approvers_endless (suc fuel) ep (record w { epv = epv }) refl r) refl
