-- ===== src/TipSelection/Walker.antt =====
-- ciri/consensus/tip_selection/exit_probability_randomizer/walker.c and global_calcs.c: the random
-- walk from an entry point to a tip. The type `double`, its operations, `exp` and the drawn
-- probabilities are parameters, and so is the query for approvers. A loop takes fuel, and `none` is
-- a loop that the fuel was too little for.
pub mod Rejected
pub mod Endless
use entangled.Prelude.{
  ℕ, zero, suc, ◌⊎◌, inl, inr, Bool, true, false, Option, none, some, List, [], ◌∷◌, map,
  if◌then◌else◌,
}
use entangled.Outcome.{Retcode}
use entangled.Outcome.Retcode.{
  rc_exit_probabilities_missing_rating, rc_exit_probabilities_invalid_entrypoint,
}
use entangled.HashSet.{HashSet}
use entangled.HashSet
use entangled.HashMap.{HashMap}
use entangled.HashMap
use entangled.IndexedMap.{IndexedMap, IndexedEntry, find}
use entangled.Tangle.FindTail.{find_tail}
use entangled.TipSelection.CwRating.FromDb.{assign_approvers}
use entangled.TipSelection.Validator.{Epv, Verdict, is_valid}

-- The arithmetic of `double`.
pub record Doubles (R : Type 0) : Type 0 where
  pub of_int64 : ℕ → R
  pub plus : R → R → R
  pub minus : R → R → R
  pub times : R → R → R
  pub divided : R → R → R
  pub exponential : R → R
  pub less : R → R → Bool
  pub not_positive : R → Bool

module _ {R : Type 0} (d : Doubles R) where
  -- The ratings of the approvers, as `double`s.
  unfoldable pub rated : HashMap → HashSet → Retcode ⊎ List R
  rated cw_ratings [] = inr []
  rated cw_ratings (a ∷ approvers) = elim (HashMap.find a cw_ratings) [
    | none ↦ inl rc_exit_probabilities_missing_rating
    | some v ↦ elim (rated cw_ratings approvers) [
      | inl e ↦ inl e
      | inr probs ↦ inr (d.of_int64 v ∷ probs)
    ]
  ]

  -- `MAX` over the ratings, from `max_weight`.
  unfoldable pub max_from : R → List R → R
  max_from w [] = w
  max_from w (p ∷ ps) = max_from (if d.less p w then w else p) ps

  -- The sum of a list, onto `s`.
  unfoldable pub sum_from : R → List R → R
  sum_from s [] = s
  sum_from s (p ∷ ps) = sum_from (d.plus s p) ps

  unfoldable pub normalized : R → List R → List R
  normalized alpha probs =
      let w = max_from (d.of_int64 0) probs in
      let weights = map (λ p. d.exponential (d.times (d.minus p w) alpha)) probs in
      map (λ p. d.divided p (sum_from (d.of_int64 0) weights)) weights

  abbrev pub mapped : R → Retcode ⊎ List R → Retcode ⊎ List R
  mapped alpha (inl e) = inl e
  mapped alpha (inr probs) = inr (normalized alpha probs)

  unfoldable pub map_transition_probabilities : R → HashMap → HashSet → Retcode ⊎ List R
  map_transition_probabilities alpha cw_ratings approvers =
      mapped alpha (rated cw_ratings approvers)

  -- The loop of `select_approver`. The buffer keeps what it holds when no approver is reached.
  unfoldable pub reached : List R → HashSet → R → ℕ → ℕ
  reached (p ∷ ps) (a ∷ approvers) target buffer =
      let target' = d.minus target p in
      if d.not_positive target' then a else reached ps approvers target' buffer
  reached _ _ target buffer = buffer

  abbrev pub drawn : HashSet → R → ℕ → Retcode ⊎ List R → Retcode ⊎ ℕ
  drawn approvers probability buffer (inl e) = inl e
  drawn approvers probability buffer (inr probs) =
      inr (reached probs approvers (d.times probability (sum_from (d.of_int64 0) probs)) buffer)

  unfoldable pub select_approver : R → HashMap → HashSet → R → ℕ → Retcode ⊎ ℕ
  select_approver alpha cw_ratings approvers probability buffer =
      drawn approvers probability buffer (map_transition_probabilities alpha cw_ratings approvers)

-- `cw_calc_result`.
pub record CwResult : Type 0 where
  pub cw_ratings : HashMap
  pub tx_to_approvers : IndexedMap

-- What the walk changes: `approver_tail_hash`, the approvers, the validator, the draws so far.
pub record Walk : Type 0 where
  pub approver_tail_hash : ℕ
  pub cw_result : CwResult
  pub epv : Epv
  pub draws : ℕ

-- What a step leaves: its return code, `*has_approver_tail` and the walk.
pub record Step : Type 0 where
  pub code : Option Retcode
  pub has_approver_tail : Bool
  pub walk : Walk

-- The return code of the walk, the tip when there is one, and the walk.
pub record Walked : Type 0 where
  pub code : Option Retcode
  pub tip : Option ℕ
  pub walk : Walk

abbrev pub stopped : Walk → Retcode → Step
stopped w e = record { code = some e; has_approver_tail = false; walk = w }

module _ {R : Type 0} (d : Doubles R) (alpha : R) (random : ℕ → R)
    (load_approvers : ℕ → Retcode ⊎ List ℕ) where
  abbrev pub judged : Walk → Option Verdict → Option Step
  judged w none = none
  judged w (some v) =
      some
        (record { code = v.code; has_approver_tail = v.is_valid; walk = record w { epv = v.epv } })

  -- After the search for the tail, which is written over the hash that it started from.
  abbrev pub tail_found : Walk → Option Retcode × Option ℕ → Option Step
  tail_found w (some e, t) = some (stopped w e)
  tail_found w (none, none) = some (record { code = none; has_approver_tail = false; walk = w })
  tail_found w (none, some tail) =
      judged (record w { approver_tail_hash = tail }) (is_valid w.epv tail)

  -- `find_tail_if_valid(tangle, epv, approver, has_approver_tail)`.
  unfoldable pub find_tail_if_valid : Walk → Option Step
  find_tail_if_valid w =
      tail_found w (find_tail (w.epv.lv.db.load) load_approvers w.approver_tail_hash)

  -- `hash243_set_remove(&approvers_entry->approvers, approver)`.
  abbrev pub without : ℕ → HashSet → Walk → Walk
  without curr approvers w = record w {
    cw_result = record w.cw_result {
      tx_to_approvers =
          assign_approvers w.cw_result.tx_to_approvers curr
            (HashSet.remove w.approver_tail_hash approvers);
    };
  }

  abbrev pub tried : (HashSet → Walk → Option Step) → ℕ → HashSet → Option Step → Option Step
  tried again curr approvers none = none
  tried again curr approvers (some s) = elim (s.code) [
    | some e ↦ some s
    | none ↦
        if s.has_approver_tail
        then some s
        else again (HashSet.remove s.walk.approver_tail_hash approvers)
            (without curr approvers s.walk)
  ]

  abbrev pub selected :
      (HashSet → Walk → Option Step) → ℕ → HashSet → Walk → Retcode ⊎ ℕ → Option Step
  selected again curr approvers w (inl e) = some (stopped w e)
  selected again curr approvers w (inr a) =
      tried again curr approvers (find_tail_if_valid (record w { approver_tail_hash = a }))

  -- The loop over the approvers of `curr`.
  unfoldable pub try_approvers : ℕ → ℕ → HashSet → Walk → Option Step
  try_approvers fuel curr [] w = some (record { code = none; has_approver_tail = false; walk = w })
  try_approvers zero curr (a ∷ approvers) w = none
  try_approvers (suc fuel) curr (a ∷ approvers) w =
      selected (try_approvers fuel curr) curr (a ∷ approvers) (record w { draws = suc w.draws })
        (select_approver d alpha w.cw_result.cw_ratings (a ∷ approvers) (random w.draws)
          w.approver_tail_hash)

  abbrev pub from_entry : ℕ → ℕ → Walk → Option IndexedEntry → Option Step
  from_entry fuel curr w none = some (record { code = none; has_approver_tail = false; walk = w })
  from_entry fuel curr w (some e) = try_approvers fuel curr e.approvers w

  unfoldable pub select_approver_tail : ℕ → ℕ → Walk → Option Step
  select_approver_tail fuel curr w = from_entry fuel curr w (find w.cw_result.tx_to_approvers curr)

  -- `curr_tail_hash`: the entry point, or the buffer once it was set to point there.
  abbrev pub curr_tail_hash : ℕ → Bool → Walk → ℕ
  curr_tail_hash ep aliased w = if aliased then w.approver_tail_hash else ep

  abbrev pub stepped : (Bool → Walk → Option Walked) → ℕ → Bool → Option Step → Option Walked
  stepped next ep aliased none = none
  stepped next ep aliased (some s) = elim (s.code) [
    | some e ↦ some (record { code = some e; tip = none; walk = s.walk })
    | none ↦
        if s.has_approver_tail
        then next true s.walk
        else some
            (record { code = none; tip = some (curr_tail_hash ep aliased s.walk); walk = s.walk })
  ]

  -- The loop of the walk. `fuel` bounds its steps and the approvers that a step tries.
  unfoldable pub steps : ℕ → ℕ → ℕ → Bool → Walk → Option Walked
  steps tries zero ep aliased w = none
  steps tries (suc fuel) ep aliased w =
      stepped (steps tries fuel ep) ep aliased
        (select_approver_tail tries (curr_tail_hash ep aliased w) w)

  abbrev pub entered : ℕ → ℕ → Walk → Option Verdict → Option Walked
  entered fuel ep w none = none
  entered fuel ep w (some v) = elim (v.code) [
    | some e ↦ some (record { code = some e; tip = none; walk = record w { epv = v.epv } })
    | none ↦
        if v.is_valid
        then steps fuel fuel ep false (record w { epv = v.epv })
        else some (record {
          code = some rc_exit_probabilities_invalid_entrypoint;
          tip = none;
          walk = record w { epv = v.epv };
        })
  ]

  -- `iota_consensus_random_walker_randomize`.
  unfoldable pub random_walker_randomize : ℕ → ℕ → Walk → Option Walked
  random_walker_randomize fuel ep w = entered fuel ep w (is_valid w.epv ep)
