-- ===== src/TipSelection/Validator.antt =====
-- ciri/consensus/tip_selection/exit_probability_validator/exit_probability_validator.c: whether a
-- tail may be a step of the random walk. The queries are those of the ledger validator's storage.
pub mod Branch
pub mod Ends
use entangled.Prelude.{
  ℕ, zero, suc, ◌+◌, ◌-◌, ◌*◌, ◌%◌, ◌^◌, ◌⊎◌, inl, inr, Bool, true, false, not, ◌&&◌, Option, none,
  some, List, [], ◌∷◌, ◌==◌, if◌then◌else◌, ltb,
}
use entangled.Outcome.{Retcode, Outcome, done, fail}
use entangled.HashSet.{HashSet, HashStack, size, contains, push}
use entangled.HashSet
use entangled.StateDelta.{StateDelta}
use entangled.Transaction.{Transaction}
use entangled.Tangle.{zero_transaction}
use entangled.Ledger.{Validator, Tips, update_delta}

-- The fields of `iota_consensus_conf_t` that the validator reads.
pub record Conf : Type 0 where
  pub max_depth : ℕ
  pub below_max_depth : ℕ
  pub genesis_hash : ℕ

-- The local variables of the walk. `tx` is the last transaction loaded into the pack.
pub record Descent : Type 0 where
  pub stack : HashStack
  pub analyzed : HashSet
  pub tx : Transaction

-- How the loop ends: its stack is empty, a test tells that the tail is too deep, or a call fails.
pub data Ending : Type 0 where
  exhausted : Ending
  refused : Ending
  broken : Retcode → Ending

pub data Round : Type 0 where
  ended : Ending → Round
  going : Descent → Round

-- What the function leaves: its return code, `*below_max_depth` and `max_depth_ok_memoization`.
pub record Depth : Type 0 where
  pub code : Option Retcode
  pub is_below : Bool
  pub memoization : HashSet

-- `hash243_stack_pop`.
abbrev pub pop : HashStack → HashStack
pop [] = []
pop (h ∷ rest) = rest

abbrev pub popped : Descent → Round
popped w = going (record w { stack = pop w.stack })

module _ (malloc : ℕ → Bool) (load : ℕ → Retcode ⊎ Option Transaction) (conf : Conf)
    (memoized : HashSet) (lowest_allowed_index : ℕ) where
  abbrev pub pushed_branch : Descent → Outcome HashStack → Round
  pushed_branch w (fail e s) = ended (broken e)
  pushed_branch w (done s) = popped (record w { stack = s })

  abbrev pub pushed_trunk : Descent → Outcome HashStack → Round
  pushed_trunk w (fail e s) = ended (broken e)
  pushed_trunk w (done s) = pushed_branch w (push malloc w.tx.branch s)

  -- The trunk is pushed, the branch on top of it, and then the top is popped.
  unfoldable pub push_approvees : Descent → Round
  push_approvees w = pushed_trunk w (push malloc w.tx.trunk w.stack)

  -- What follows the load. `index` is `curr_snapshot_index`, a `uint32_t`, as is the lowest allowed index.
  unfoldable pub judged : Bool → ℕ → Descent → ℕ → Round
  judged is_genesis_hash hash w index =
      if not (index == 0) && ltb index lowest_allowed_index
      then ended refused
      else if not is_genesis_hash && (w.tx.snapshot_index == 0)
      then if contains memoized hash then popped w else push_approvees w
      else popped w

  abbrev pub loaded : ℕ → Descent → Retcode ⊎ Option Transaction → Round
  loaded hash w (inl e) = ended (broken e)
  loaded hash w (inr none) = judged false hash w (w.tx.snapshot_index % 2 ^ 32)
  loaded hash w (inr (some tx)) =
      judged false hash (record w { tx = tx }) (tx.snapshot_index % 2 ^ 32)

  abbrev pub marked : ℕ → Descent → Outcome HashSet → Round
  marked hash w (fail e s) = ended (broken e)
  marked hash w (done s) =
      let w' : Descent = record w { analyzed = s } in
      if conf.genesis_hash == hash then judged true hash w' 0 else loaded hash w' (load hash)

  abbrev pub peeked : Descent → HashStack → Round
  peeked w [] = ended exhausted
  peeked w (hash ∷ rest) =
      if size w.analyzed == conf.below_max_depth
      then ended refused
      else if contains w.analyzed hash
      then popped w
      else marked hash w (HashSet.add malloc hash w.analyzed)

  -- The body of the loop, after its test.
  unfoldable pub round : Descent → Round
  round w = peeked w w.stack

  abbrev pub continued : (Descent → Option Ending) → Round → Option Ending
  continued next (ended e) = some e
  continued next (going w) = next w

  -- The loop, `none` when the fuel runs out.
  unfoldable pub run : ℕ → Descent → Option Ending
  run zero w = none
  run (suc fuel) w = continued (run fuel) (round w)

  abbrev pub memoized_tail : Outcome HashSet → Depth
  memoized_tail (done s) = record { code = none; is_below = false; memoization = s }
  memoized_tail (fail e s) = record { code = some e; is_below = false; memoization = s }

  abbrev pub answered : ℕ → Ending → Depth
  answered tail_hash exhausted = memoized_tail (HashSet.add malloc tail_hash memoized)
  answered tail_hash refused = record { code = none; is_below = true; memoization = memoized }
  answered tail_hash (broken e) = record { code = some e; is_below = true; memoization = memoized }

  abbrev pub finished : ℕ → Option Ending → Option Depth
  finished tail_hash none = none
  finished tail_hash (some e) = some (answered tail_hash e)

  abbrev pub entered : ℕ → Outcome HashStack → Option Depth
  entered tail_hash (fail e s) = some (answered tail_hash (broken e))
  entered tail_hash (done s) = finished tail_hash (
      run (2 * conf.below_max_depth + 3)
        (record { stack = s; analyzed = []; tx = zero_transaction }))

  -- The whole function, with fuel from the limit on the number of transactions.
  unfoldable pub below_max_depth : ℕ → Option Depth
  below_max_depth tail_hash = entered tail_hash (push malloc tail_hash [])

-- `exit_prob_transaction_validator_t`, with the tracker's index of the latest solid milestone.
pub record Epv : Type 0 where
  pub conf : Conf
  pub latest_solid_milestone_index : ℕ
  pub lv : Validator
  pub delta : StateDelta
  pub analyzed_hashes : HashSet
  pub max_depth_ok_memoization : HashSet

-- The validator after `init`.
unfoldable pub init : Conf → ℕ → Validator → Epv
init conf index lv = record {
  conf = conf;
  latest_solid_milestone_index = index;
  lv = lv;
  delta = [];
  analyzed_hashes = [];
  max_depth_ok_memoization = [];
}

-- The validator after `destroy`, and the return code. The pointers that it clears are left out.
unfoldable pub destroy : Epv → Epv × Option Retcode
destroy epv = (record epv { delta = []; analyzed_hashes = []; max_depth_ok_memoization = [] }, none)

-- What `is_valid` leaves: the return code, `*is_valid` and the validator.
pub record Verdict : Type 0 where
  pub code : Option Retcode
  pub is_valid : Bool
  pub epv : Epv

abbrev pub refused_by : Epv → Verdict
refused_by epv = record { code = none; is_valid = false; epv = epv }

abbrev pub lowest_index : Epv → ℕ
lowest_index epv =
    if ltb epv.latest_solid_milestone_index epv.conf.max_depth
    then epv.latest_solid_milestone_index
    else epv.latest_solid_milestone_index - epv.conf.max_depth

abbrev pub consistent : Epv → Option Tips → Option Verdict
consistent epv none = none
consistent epv (some t) = some (record {
  code = t.code;
  is_valid = t.consistent;
  epv = record epv { analyzed_hashes = t.analyzed; delta = t.delta };
})

abbrev pub judged_consistent : ℕ → Epv → Option Verdict
judged_consistent tail_hash epv =
    consistent epv (update_delta epv.lv epv.analyzed_hashes epv.delta tail_hash)

abbrev pub measured : ℕ → Epv → Option Depth → Option Verdict
measured tail_hash epv none = none
measured tail_hash epv (some d) =
    let epv' : Epv = record epv { max_depth_ok_memoization = d.memoization } in
    elim (d.code) [
      | some e ↦ some (record { code = some e; is_valid = false; epv = epv' })
      | none ↦ if d.is_below then some (refused_by epv') else judged_consistent tail_hash epv'
    ]

abbrev pub tail_loaded : ℕ → Epv → Retcode ⊎ Option Transaction → Option Verdict
tail_loaded tail_hash epv (inl e) = some (record { code = some e; is_valid = false; epv = epv })
tail_loaded tail_hash epv (inr none) = some (refused_by epv)
tail_loaded tail_hash epv (inr (some tx)) =
    if tx.current_index == 0
    then if tx.solid
      then measured tail_hash epv (
          below_max_depth epv.lv.malloc (epv.lv.db.load) epv.conf epv.max_depth_ok_memoization
            (lowest_index epv % 2 ^ 32) tail_hash)
      else some (refused_by epv)
    else some (refused_by epv)

unfoldable pub is_valid : Epv → ℕ → Option Verdict
is_valid epv tail_hash = tail_loaded tail_hash epv (epv.lv.db.load tail_hash)
