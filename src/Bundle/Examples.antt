-- ===== src/Bundle/Examples.antt =====
-- Examples of a bundle that moves 5 from one address to another.
use entangled.Prelude.{ℕ, ◌≡◌, ◌↔◌, ◌-◌, ◌+◌, refl, true, some, List, [], ◌∷◌, arith, length}
use entangled.Prelude.Int.{ℤ, pos}
use entangled.Transaction.{Transaction, not_initialized, valid, from_trits}
use entangled.Bundle.{validate, validate_signatures, validate_signatures_loop, absorb_digests}
use entangled.Bundle.Valid.{IsValidBundle, validate-IsValidBundle}
use entangled.Bundle.Signatures.{IsSigned, validate_signatures-IsSigned}

-- A sponge that squeezes the length of its input, and a digest that is its signature's first trits.
abbrev pub kerl : List (List ℤ) → List ℤ
kerl blocks = pos (length blocks - 1) ∷ []

abbrev pub sig_digest : List ℤ → ℕ → List ℤ
sig_digest fragment signature = pos signature ∷ fragment

abbrev pub transaction : ℕ → ℕ → ℕ → ℕ → Transaction
transaction index address value trunk = record {
  hash = index + 1;
  address = address;
  value = value;
  obsolete_tag = 0;
  timestamp = 1000;
  attachment_timestamp = 0;
  current_index = index;
  last_index = 1;
  bundle = 1;
  trunk = trunk;
  branch = 0;
  signature = 0;
  snapshot_index = 0;
  solid = true;
  validity = not_initialized;
}

abbrev pub output : Transaction
output = transaction 0 2 5 2

abbrev pub input : Transaction
input = transaction 1 0 18446744073709551611 0

validate-IsValidBundle_example :
    (validate kerl sig_digest (output ∷ input ∷ []) ≡ some valid)
    ↔ IsValidBundle kerl sig_digest output (input ∷ [])
validate-IsValidBundle_example =
    validate-IsValidBundle kerl sig_digest output (input ∷ []) (omega arith)

-- An input of two fragments.
abbrev first : Transaction
first = transaction 1 1 18446744073709551611 0

abbrev second : Transaction
second = transaction 2 1 0 0

accepted : validate_signatures kerl sig_digest [] (first ∷ second ∷ []) ≡ true
unfolding validate_signatures validate_signatures_loop absorb_digests from_trits
accepted = refl

validate_signatures-IsSigned_example :
    (validate_signatures kerl sig_digest [] (first ∷ second ∷ []) ≡ true)
    ↔ IsSigned kerl sig_digest [] (first ∷ second ∷ [])
validate_signatures-IsSigned_example =
    validate_signatures-IsSigned kerl sig_digest [] (first ∷ second ∷ [])
