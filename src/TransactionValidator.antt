-- ===== src/TransactionValidator.antt =====
-- ciri/consensus/transaction_validator/transaction_validator.c: which transactions the node takes in.
-- The time of the clock and the weight magnitude of the hash are arguments.
pub mod Accepts
pub mod Examples
use entangled.Prelude.{ℕ, ◌+◌, ◌*◌, ◌%◌, Bool, true, false, ◌==◌, ◌&&◌, not, if◌then◌else◌, ltb}
use entangled.Prelude.Word.{u64_mod, gt64, llabs}
use entangled.Snapshot.{Snapshot, has_solid_entry_point}
use entangled.Requester.{Requester, was_requested}
use entangled.Transaction.{Transaction}
use entangled.Bundle.{last_trit_set, max_iota_supply}

-- What the validator reaches: `mwm` and `genesis_hash` of its configuration, the initial snapshot
-- and the requester.
pub record TransactionValidator : Type 0 where
  pub mwm : ℕ
  pub genesis_hash : ℕ
  pub initial_snapshot : Snapshot
  pub requester : Requester

-- Two hours.
abbrev pub max_timestamp_future_ms : ℕ
max_timestamp_future_ms = 7200000

-- `timestamp_ms`: the time of attachment, or the transaction's own.
unfoldable pub timestamp_ms : Transaction → ℕ
timestamp_ms tx =
    if tx.attachment_timestamp == 0 then tx.timestamp * 1000 % u64_mod else tx.attachment_timestamp

unfoldable pub has_invalid_timestamp : TransactionValidator → ℕ → Transaction → Bool
has_invalid_timestamp tv now tx =
    let is_too_futuristic = ltb ((now + max_timestamp_future_ms) % u64_mod) (timestamp_ms tx) in
    let is_below_snapshot =
      ltb (timestamp_ms tx) (tv.initial_snapshot.metadata.timestamp * 1000 % u64_mod)
      && not (has_solid_entry_point tv.initial_snapshot tx.hash) in
    if was_requested tv.requester tx.hash
    then false
    else if is_too_futuristic
    then true
    else if is_below_snapshot
    then not (tx.hash == tv.genesis_hash)
    else false

unfoldable pub transaction_validate : TransactionValidator → ℕ → ℕ → Transaction → Bool
transaction_validate tv now weight_magnitude tx =
    if ltb weight_magnitude tv.mwm
    then false
    else if has_invalid_timestamp tv now tx
    then false
    else if gt64 (llabs tx.value) max_iota_supply
    then false
    else if not (tx.value == 0) && last_trit_set tx.address
    then false
    else true
