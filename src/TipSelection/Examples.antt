-- ===== src/TipSelection/Examples.antt =====
-- A tangle of five transactions, the ratings of three, and the walks from the first.
use entangled.Prelude.{
  ℕ, zero, suc, ◌+◌, ◌-◌, ◌*◌, ◌%◌, ◌≡◌, ◌≢◌, ◌≤◌, ◌<◌, ◌⊎◌, refl, inl, inr, Bool, true, false,
  Option, none, some, List, [], ◌∷◌, arith, ◌==◌, if◌then◌else◌, ltb, length,
}
use entangled.Outcome.{Retcode}
use entangled.HashSet.{contains}
use entangled.IndexedMap.{IndexedMap, find}
use entangled.Bitset.{Bitset, bitset_is_set, bitset_set_true}
use entangled.Bitset.Laws.{is_set-set_true_alias}
use entangled.Transaction.{Transaction}
use entangled.Bundle.Examples.{kerl, sig_digest}
use entangled.Snapshot.Examples.{at}
use entangled.Tangle.{Storage, zero_transaction}
use entangled.Ledger.{Validator, check_consistency}
use entangled.TipSelection.CwRating.FromDb.Whole.{unmapped}
use entangled.TipSelection.CwRating.Calculate.{cw_rating_calculate_dfs}
use entangled.TipSelection.CwRating.Calculate.Ratings.{RatesFutures, cw_rating_calculate_dfs-exact}
use entangled.TipSelection.Selector.{Selector, get_transactions_to_approve}
use entangled.TipSelection.Selector.Status.{first_walk, get_transactions_to_approve-inconsistent}
use entangled.TipSelection.Validator.{Conf, Epv, is_valid, below_max_depth}
use entangled.TipSelection.Validator.Branch.{unbranched_load, below_max_depth-unbranched}
use entangled.TipSelection.Validator.Ends.{below_max_depth-ends}
use entangled.TipSelection.Walker.{Doubles, CwResult, Walk, Walked, random_walker_randomize}
use entangled.TipSelection.Walker.Endless.{random_walker_randomize-endless}
use entangled.TipSelection.Walker.Rejected.{tip_of, random_walker_randomize-refused}

-- Shifts take their count modulo 64.
abbrev bit : ℕ → ℕ
bit n = n % 64

abbrev no_bits : Bitset
no_bits = record { raw_bits = λ i j. false; size = 2 }

is_set-set_true_alias_example : bitset_is_set bit (bitset_set_true bit no_bits 1) 65 ≡ true
is_set-set_true_alias_example = is_set-set_true_alias bit (λ n. refl) no_bits 1 (omega arith)

-- The transactions 2 and 3 approve 1, and 3 approves 2.
abbrev children : ℕ → List ℕ
children h = if h == 1 then 2 ∷ 3 ∷ [] else if h == 2 then 3 ∷ [] else []

children_within :
    (h a : ℕ)
    → contains (1 ∷ 2 ∷ 3 ∷ []) h ≡ true
    → contains (children h) a ≡ true
    → contains (1 ∷ 2 ∷ 3 ∷ []) a ≡ true
unfolding contains
children_within h a c q = ground arith

bit_below : (n : ℕ) → n < 64 → bit n ≡ n
bit_below n l = omega (arith, l)

cw_rating_calculate_dfs-exact_example :
    RatesFutures children 1
      (cw_rating_calculate_dfs bit (λ h. true) (λ h. inr (children h)) (λ i j. true) 9 1)
unfolding contains unmapped entangled.IndexedMap.contains find
cw_rating_calculate_dfs-exact_example =
    cw_rating_calculate_dfs-exact bit bit_below (λ h. true) (λ h. refl) children 1 (1 ∷ 2 ∷ 3 ∷ [])
      refl children_within (λ i j. true) 9 (omega arith) (omega arith)

-- 1 and 2 are solid tails that a milestone confirms, 3 and 5 are tails that are not solid, and 4 is
-- the transaction after 5 in its bundle.
abbrev tail : ℕ → Transaction
tail h = record zero_transaction { hash = h; trunk = 7; branch = 8; snapshot_index = 5; bundle = h }

abbrev load : ℕ → Retcode ⊎ Option Transaction
load h =
    if ltb h 3
    then inr (some (record (tail h) { solid = true }))
    else if h == 4
    then inr (some (record (tail 5) { hash = 4; current_index = 1 }))
    else inr (some (tail h))

abbrev db : Storage
db = record {
  load = load;
  update_validity = λ _ _. none;
  update_snapshot_index = λ _ _. none;
  store_delta = λ _ _. none;
}

abbrev conf : Conf
conf = record { max_depth = 15; below_max_depth = 10; genesis_hash = 9 }

below_max_depth-unbranched_example :
    below_max_depth (λ h. true) load conf [] 0 1
    ≡ below_max_depth (λ h. true) (unbranched_load load) conf [] 0 1
below_max_depth-unbranched_example =
    below_max_depth-unbranched (λ h. true) load conf [] 0 (λ h. refl) 1

below_max_depth-ends_example : below_max_depth (λ h. true) load conf [] 0 1 ≢ none
below_max_depth-ends_example = below_max_depth-ends (λ h. true) load conf [] 0 1

abbrev lv : Validator
lv = record {
  kerl = kerl;
  sig_digest = sig_digest;
  db = db;
  malloc = λ h. true;
  fuel = 12;
  genesis_hash = 9;
  initial_snapshot = at 3 [];
  latest_snapshot = at 4 [];
  unset_solid = false;
}

-- The validator with the tails that it has seen.
abbrev epv : List ℕ → Epv
epv memoization = record {
  conf = conf;
  latest_solid_milestone_index = 3;
  lv = lv;
  delta = [];
  analyzed_hashes = 1 ∷ 2 ∷ [];
  max_depth_ok_memoization = memoization;
}

entry_point_valid :
    is_valid (epv []) 1 ≡ some (record { code = none; is_valid = true; epv = epv (1 ∷ []) })
unfolding is_valid below_max_depth entangled.TipSelection.Validator.run
    entangled.TipSelection.Validator.round entangled.TipSelection.Validator.judged
    entangled.HashSet.push entangled.HashSet.add contains entangled.Ledger.update_delta
entry_point_valid = refl

first_valid :
    is_valid (epv (1 ∷ [])) 2
    ≡ some (record { code = none; is_valid = true; epv = epv (1 ∷ 2 ∷ []) })
unfolding is_valid below_max_depth entangled.TipSelection.Validator.run
    entangled.TipSelection.Validator.round entangled.TipSelection.Validator.judged
    entangled.HashSet.push entangled.HashSet.add contains entangled.Ledger.update_delta
first_valid = refl

-- Natural numbers in place of `double`: each approver has the probability 1.
abbrev numbers : Doubles ℕ
numbers = record {
  of_int64 = λ n. n;
  plus = λ a b. a + b;
  minus = λ a b. a - b;
  times = λ a b. a * b;
  divided = λ a b. 1;
  exponential = λ a. 1;
  less = ltb;
  not_positive = λ a. a == 0;
}

-- 4 approves 1 and is in the bundle of 5.
abbrev approvers : ℕ → Retcode ⊎ List ℕ
approvers h = if h == 4 then inr (5 ∷ []) else inr []

abbrev walk : IndexedMap → Walk
walk m = record {
  approver_tail_hash = 0;
  cw_result = record { cw_ratings = (1, 3) ∷ (2, 2) ∷ (3, 1) ∷ (4, 1) ∷ []; tx_to_approvers = m };
  epv = epv [];
  draws = 0;
}

abbrev one_approver : IndexedMap
one_approver = record { hash = 1; approvers = 4 ∷ []; idx = 0 } ∷ []

random_walker_randomize-endless_example :
    random_walker_randomize numbers 1 (λ n. 1) approvers 20 1 (walk one_approver) ≡ none
unfolding is_valid find entangled.Tangle.FindTail.find_tail entangled.Tangle.FindTail.climb
    entangled.Tangle.FindTail.look_through entangled.TipSelection.Walker.select_approver
    entangled.TipSelection.Walker.map_transition_probabilities entangled.TipSelection.Walker.rated
    entangled.TipSelection.Walker.normalized entangled.TipSelection.Walker.max_from
    entangled.TipSelection.Walker.sum_from entangled.TipSelection.Walker.reached
    entangled.HashMap.find
random_walker_randomize-endless_example =
    random_walker_randomize-endless numbers 1 (λ n. 1) approvers 4 5 (λ q. absurd (cc))
      (epv (1 ∷ [])) ((1, 3) ∷ (2, 2) ∷ (3, 1) ∷ (4, 1) ∷ []) refl refl (λ n b. refl) 1
      (record { hash = 1; approvers = 4 ∷ []; idx = 0 }) (walk one_approver) entry_point_valid refl
      refl refl 20

-- 2 approves 1, and 3 approves 2.
abbrev chain : IndexedMap
chain =
    record { hash = 1; approvers = 2 ∷ []; idx = 0 }
    ∷ record { hash = 2; approvers = 3 ∷ []; idx = 1 }
    ∷ record { hash = 3; approvers = []; idx = 2 }
    ∷ []

random_walker_randomize-refused_example :
    tip_of (random_walker_randomize numbers 1 (λ n. 1) approvers 5 1 (walk chain)) ≡ some 3
unfolding is_valid find entangled.Tangle.FindTail.find_tail entangled.Tangle.FindTail.climb
    entangled.Tangle.FindTail.look_through entangled.TipSelection.Walker.select_approver
    entangled.TipSelection.Walker.map_transition_probabilities entangled.TipSelection.Walker.rated
    entangled.TipSelection.Walker.normalized entangled.TipSelection.Walker.max_from
    entangled.TipSelection.Walker.sum_from entangled.TipSelection.Walker.reached
    entangled.HashMap.find
random_walker_randomize-refused_example =
    random_walker_randomize-refused numbers 1 (λ n. 1) approvers
      ((1, 3) ∷ (2, 2) ∷ (3, 1) ∷ (4, 1) ∷ []) 2 3 (λ n b. refl) (λ n b. refl) 1 3 (walk chain)
      (record { hash = 1; approvers = 2 ∷ []; idx = 0 })
      (record { hash = 2; approvers = 3 ∷ []; idx = 1 }) (epv (1 ∷ [])) (epv (1 ∷ 2 ∷ []))
      (epv (1 ∷ 2 ∷ [])) refl refl refl refl refl refl refl entry_point_valid first_valid refl

-- A tail that no milestone confirms and whose bundle is not valid.
abbrev unconfirmed : Validator
unconfirmed = record lv {
  db = record db {
    load = λ h.
        inr (some (record (tail h) { solid = true; snapshot_index = 0; trunk = 9; branch = 9 }));
  };
}

abbrev selector : Selector
selector = record {
  conf = conf;
  tracker = record { latest_solid_milestone_index = 3; latest_solid_milestone = 1 };
  lv = unconfirmed;
  milestone_load_by_index = λ n. inr none;
  cw_rating_calculate = λ ep. some (record { code = none; cw_ratings = []; tx_to_approvers = [] });
  exit_probability_randomize = λ ep w. some (record { code = none; tip = some (suc ep); walk = w });
}

inconsistent : check_consistency unconfirmed (2 ∷ 2 ∷ []) ≡ some (none, false)
unfolding check_consistency entangled.Ledger.check_from entangled.Ledger.update_delta
    entangled.HashSet.append entangled.Ledger.walked_tip entangled.Ledger.get_latest_delta
    entangled.Tangle.Traversal.dfs_to_past entangled.HashSet.push entangled.HashSet.add contains
    entangled.Ledger.solid_entry_points_set entangled.Ledger.map_keys entangled.Tangle.Traversal.run
    entangled.Tangle.Traversal.round entangled.Tangle.Traversal.visit
    entangled.Tangle.Traversal.visited entangled.Ledger.get_latest_delta_do_func
    entangled.Ledger.take_bundle entangled.Tangle.BundleLoad.bundle_validator_validate
    entangled.Tangle.BundleLoad.bundle_load entangled.Tangle.BundleLoad.load_from
    entangled.Outcome.for_each entangled.Bundle.validate entangled.Bundle.validate_from
    entangled.Prelude.Word.llabs entangled.Prelude.Word.gt64 entangled.Prelude.Word.add64
    entangled.Bundle.validate_last entangled.Bundle.calculate_hash entangled.Transaction.from_trits
inconsistent = refl

get_transactions_to_approve-inconsistent_example :
    get_transactions_to_approve selector 0 2 none
    ≡ some (record { code = none; tips = (some 2, some 2) })
unfolding entangled.TipSelection.EntryPoint.get_entry_point
    entangled.TipSelection.EntryPoint.entry_point
get_transactions_to_approve-inconsistent_example =
    get_transactions_to_approve-inconsistent selector 0 2 1 2 2
      (record { code = none; cw_ratings = []; tx_to_approvers = [] })
      (record { code = none; tip = some 2; walk = start })
      (record { code = none; tip = some 2; walk = start }) refl refl refl refl refl refl refl refl
      refl refl refl inconsistent
  where
    start : Walk
    start = first_walk selector 0 (record { code = none; cw_ratings = []; tx_to_approvers = [] })
