-- ===== src/Tangle.antt =====
-- ciri/consensus/tangle: the transactions of the tangle, which a database outside the model keeps.
-- What a call reads and writes there is the parameter `Storage`, fixed while one operation runs.
pub mod Traversal
pub mod BundleLoad
pub mod FindTail
use entangled.Prelude.{ℕ, ◌⊎◌, Option, Bool, false}
use entangled.Outcome.{Retcode}
use entangled.HashSet.{HashSet}
use entangled.StateDelta.{StateDelta}
use entangled.Transaction.{Transaction, BundleStatus, not_initialized}
use entangled.Bundle.{Bundle}

-- A query gives an error, or what it found, which may be nothing; a write gives an error or `none`.
pub record Storage : Type 0 where
  pub load : ℕ → Retcode ⊎ Option Transaction
  pub update_validity : Bundle → BundleStatus → Option Retcode
  pub update_snapshot_index : HashSet → ℕ → Option Retcode
  pub store_delta : ℕ → StateDelta → Option Retcode

-- A pack of one transaction before anything is loaded into it.
abbrev pub zero_transaction : Transaction
zero_transaction = record {
  hash = 0;
  address = 0;
  value = 0;
  obsolete_tag = 0;
  timestamp = 0;
  attachment_timestamp = 0;
  current_index = 0;
  last_index = 0;
  bundle = 0;
  trunk = 0;
  branch = 0;
  signature = 0;
  snapshot_index = 0;
  solid = false;
  validity = not_initialized;
}
