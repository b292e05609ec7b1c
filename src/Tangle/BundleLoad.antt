-- ===== src/Tangle/BundleLoad.antt =====
-- ciri/consensus/tangle/tangle.c, `iota_tangle_bundle_load`, and
-- ciri/consensus/bundle_validator/bundle_validator.c: a bundle is read along the trunks from its
-- tail, and judged once.
pub mod Values
pub mod Chain
use entangled.Prelude.{
  ℕ, zero, suc, ◌+◌, ◌⊎◌, inl, inr, Bool, true, false, Option, none, some, List, [], ◌∷◌, ◌==◌,
  if◌then◌else◌,
}
use entangled.Prelude.Int.{ℤ}
use entangled.Outcome.{Retcode}
use entangled.Outcome.Retcode.{rc_tangle_tail_not_found, rc_tangle_not_a_tail}
use entangled.Transaction.{
  Transaction, BundleStatus, not_initialized, valid, empty, incomplete, invalid_tx,
  invalid_input_address, invalid_value, invalid_hash, invalid_signature,
}
use entangled.Bundle.{Bundle, validate}
use entangled.Tangle.{Storage, zero_transaction}

abbrev pub prepend : Transaction → Retcode ⊎ Bundle → Retcode ⊎ Bundle
prepend tx (inl e) = inl e
prepend tx (inr txs) = inr (tx ∷ txs)

-- A transaction is added, and the loop goes on with the one found under its trunk.
abbrev pub follow :
    (Transaction → Retcode ⊎ Bundle) → Transaction → Retcode ⊎ Option Transaction → Retcode ⊎ Bundle
follow next tx (inl e) = inl e
follow next tx (inr none) = inr (tx ∷ [])
follow next tx (inr (some found)) = prepend tx (next found)

-- The loop, in the rounds from `curr_index` up to `last_index`. `bundle_hash` points into the buffer
-- of `curr_tx`, so that each transaction's bundle is compared with itself.
unfoldable pub load_from : Storage → ℕ → Transaction → Retcode ⊎ Bundle
load_from db zero curr_tx = inr []
load_from db (suc rounds) curr_tx =
    let bundle_hash = curr_tx.bundle in
    let more = follow (load_from db rounds) curr_tx (db.load curr_tx.trunk) in
    if bundle_hash == curr_tx.bundle then more else inr []

abbrev pub from_tail : Storage → Retcode ⊎ Option Transaction → Retcode ⊎ Bundle
from_tail db (inl e) = inl e
from_tail db (inr none) = inl rc_tangle_tail_not_found
from_tail db (inr (some tx)) =
    if tx.current_index == 0 then load_from db (tx.last_index + 1) tx else inl rc_tangle_not_a_tail

unfoldable pub bundle_load : Storage → ℕ → Retcode ⊎ Bundle
bundle_load db tail_hash = from_tail db (db.load tail_hash)

abbrev pub is_not_initialized : BundleStatus → Bool
is_not_initialized not_initialized = true
is_not_initialized _ = false

abbrev pub is_incomplete : BundleStatus → Bool
is_incomplete incomplete = true
is_incomplete _ = false

abbrev pub written : Bundle → BundleStatus → Option Retcode → Retcode ⊎ (BundleStatus × Bundle)
written bundle status none = inr (status, bundle)
written bundle status (some e) = inl e

-- The end of `iota_consensus_bundle_validator_validate`: a bundle that is not incomplete has its
-- status written to the database. An array is never empty there.
abbrev pub record_status :
    Storage → Bundle → Option BundleStatus → Retcode ⊎ (BundleStatus × Bundle)
record_status db bundle none = inr (not_initialized, bundle)
record_status db bundle (some status) =
    if is_incomplete status
    then inr (status, bundle)
    else written bundle status (db.update_validity bundle status)

-- A status already written is taken; `zero_transaction` is the pack when nothing is found.
abbrev pub judge :
    (List (List ℤ) → List ℤ)
    → (List ℤ → ℕ → List ℤ)
    → Storage
    → Bundle
    → Retcode ⊎ Option Transaction
    → Retcode ⊎ (BundleStatus × Bundle)
judge kerl sig_digest db bundle (inl e) = inl e
judge kerl sig_digest db bundle (inr none) =
    record_status db bundle (validate kerl sig_digest bundle)
judge kerl sig_digest db bundle (inr (some tx)) =
    if is_not_initialized tx.validity
    then record_status db bundle (validate kerl sig_digest bundle)
    else inr (tx.validity, bundle)

abbrev pub validate_loaded :
    (List (List ℤ) → List ℤ)
    → (List ℤ → ℕ → List ℤ)
    → Storage
    → ℕ
    → Retcode ⊎ Bundle
    → Retcode ⊎ (BundleStatus × Bundle)
validate_loaded kerl sig_digest db tail_hash (inl e) = inl e
validate_loaded kerl sig_digest db tail_hash (inr []) = inr (empty, [])
validate_loaded kerl sig_digest db tail_hash (inr (tx ∷ txs)) =
    judge kerl sig_digest db (tx ∷ txs) (db.load tail_hash)

unfoldable pub bundle_validator_validate :
    (List (List ℤ) → List ℤ)
    → (List ℤ → ℕ → List ℤ)
    → Storage
    → ℕ
    → Retcode ⊎ (BundleStatus × Bundle)
bundle_validator_validate kerl sig_digest db tail_hash =
    validate_loaded kerl sig_digest db tail_hash (bundle_load db tail_hash)
