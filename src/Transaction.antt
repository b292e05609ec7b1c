-- ===== src/Transaction.antt =====
-- common/model/transaction.h: the fields of a transaction that the modelled code reads. Every hash,
-- address, tag and signature is the number that its trits spell, least trit first; a 64-bit field is
-- its pattern. The masks of loaded columns and the bounds on the time of attachment are left out.
use entangled.Prelude.{ℕ, zero, suc, ◌+◌, ◌*◌, ◌/◌, ◌%◌, Bool, List, [], ◌∷◌, ◌==◌, if◌then◌else◌}
use entangled.Prelude.Int.{ℤ, pos, negsuc, pos_part, neg_part}

-- `bundle_status_t` of common/model/bundle.h.
pub data BundleStatus : Type 0 where
  not_initialized : BundleStatus
  valid : BundleStatus
  empty : BundleStatus
  incomplete : BundleStatus
  invalid_tx : BundleStatus
  invalid_input_address : BundleStatus
  invalid_value : BundleStatus
  invalid_hash : BundleStatus
  invalid_signature : BundleStatus

pub record Transaction : Type 0 where
  pub hash : ℕ
  pub address : ℕ
  pub value : ℕ
  pub obsolete_tag : ℕ
  pub timestamp : ℕ
  pub attachment_timestamp : ℕ
  pub current_index : ℕ
  pub last_index : ℕ
  pub bundle : ℕ
  pub trunk : ℕ
  pub branch : ℕ
  pub signature : ℕ
  pub snapshot_index : ℕ
  pub solid : Bool
  pub validity : BundleStatus

-- The trit of a base-3 digit, 2 for -1.
abbrev pub trit : ℕ → ℤ
trit d = if d == 0 then pos 0 else if d == 1 then pos 1 else negsuc 0

-- `flex_trits_to_trits`: the first trits of a number.
unfoldable pub to_trits : ℕ → ℕ → List ℤ
to_trits zero h = []
to_trits (suc n) h = trit (h % 3) ∷ to_trits n (h / 3)

-- `flex_trits_from_trits`.
unfoldable pub from_trits : List ℤ → ℕ
from_trits [] = 0
from_trits (t ∷ ts) = (pos_part t + 2 * neg_part t) + 3 * from_trits ts
