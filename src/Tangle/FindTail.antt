-- ===== src/Tangle/FindTail.antt =====
-- ciri/consensus/tangle/tangle.c, `iota_tangle_find_tail`: from a transaction to the tail of its
-- bundle, along the transactions that approve it. The two queries are parameters: by hash, and the
-- hashes of the approvers of a hash. `hash_pack_init` succeeds here.
pub mod Aliased
use entangled.Prelude.{
  ℕ, zero, suc, ◌%◌, ◌^◌, ◌⊎◌, inl, inr, Bool, true, false, Option, none, some, List, [], ◌∷◌, ◌==◌,
  ◌&&◌, if◌then◌else◌,
}
use entangled.Outcome.{Retcode}
use entangled.Transaction.{Transaction}
use entangled.Tangle.{zero_transaction}

-- The local variables. `curr_tx` points into its own buffer or, once it was set to `next_tx`, into the
-- buffer that each load of an approver overwrites.
pub record Search : Type 0 where
  pub own : Transaction
  pub next_tx : Transaction
  pub aliased : Bool
  pub found_approver : Bool
  pub code : Option Retcode

abbrev pub curr_tx : Search → Transaction
curr_tx s = if s.aliased then s.next_tx else s.own

-- The test for an approver in the same bundle, after its load.
abbrev pub compared : (Search → Search) → ℕ → Search → Search
compared others index s =
    if (s.next_tx.current_index == index) && (s.next_tx.bundle == (curr_tx s).bundle)
    then record s { aliased = true; found_approver = true }
    else others s

abbrev pub approver_loaded : (Search → Search) → ℕ → Search → Retcode ⊎ Option Transaction → Search
approver_loaded others index s (inl e) = record s { code = some e }
approver_loaded others index s (inr none) = s
approver_loaded others index s (inr (some tx)) = compared others index (record s { next_tx = tx })

module _ (load : ℕ → Retcode ⊎ Option Transaction) (approvers : ℕ → Retcode ⊎ List ℕ) where
  -- The inner loop.
  unfoldable pub look_through : ℕ → List ℕ → Search → Search
  look_through index [] s = s
  look_through index (h ∷ hashes) s = approver_loaded (look_through index hashes) index s (load h)

  abbrev pub step : ℕ → Search → Retcode ⊎ List ℕ → Search
  step index s (inl e) = record s { found_approver = false; code = some e }
  step index s (inr hashes) = look_through index hashes (record s { found_approver = false })

  -- The outer loop, for the indexes below `count`.
  unfoldable pub climb : ℕ → Search → Search
  climb zero s = s
  climb (suc index) s =
      let s' = step index s (approvers (curr_tx s).hash) in
      let above = climb index s' in if s'.found_approver then above else s'

  -- The index is a `uint32_t`. The return code, and the tail when one is found.
  abbrev pub answered : Search → Option Retcode × Option ℕ
  answered s = (s.code, if (curr_tx s).current_index == 0 then some (curr_tx s).hash else none)

  abbrev pub from_loaded : Retcode ⊎ Option Transaction → Option Retcode × Option ℕ
  from_loaded (inl e) = (some e, none)
  from_loaded (inr none) = (none, none)
  from_loaded (inr (some tx)) = answered (
      climb (tx.current_index % 2 ^ 32) (record {
        own = tx;
        next_tx = zero_transaction;
        aliased = false;
        found_approver = true;
        code = none;
      }))

  unfoldable pub find_tail : ℕ → Option Retcode × Option ℕ
  find_tail tx_hash = from_loaded (load tx_hash)
