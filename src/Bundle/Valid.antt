-- ===== src/Bundle/Valid.antt =====
-- What `bundle_validate` accepts.
use entangled.Prelude.{
  ℕ, suc, ◌+◌, ◌%◌, ◌≡◌, ◌<◌, ◌↔◌, sym, true, some, List, ◌∷◌, ◌==◌, map, arith, if◌then◌else◌,
  length,
}
use mathlib.Core.Path.{subst}
use entangled.Prelude.Int.{ℤ}
use entangled.Prelude.Word.{u64_mod}
use entangled.Transaction.{
  Transaction, BundleStatus, from_trits, not_initialized, valid, incomplete,
}
use entangled.Normalize.{normalize_flex_hash_to_trits}
use entangled.Bundle.Placed.{ArePlaced, value_from, validate_from_sound, validate_from_complete}
use entangled.Bundle.Signatures.{IsSigned, validate_signatures-IsSigned}
use entangled.Bundle.{
  Bundle, essence, calculate_hash, validate_signatures, validate_last, validate_from, validate,
}

-- What a valid bundle is: as many transactions as its head says, each in its place, of the total
-- value 0, under the hash of its essence, and signed.
pub record IsValidBundle (kerl : List (List ℤ) → List ℤ) (sig_digest : List ℤ → ℕ → List ℤ)
    (tx : Transaction) (txs : Bundle) : Type 0 where
  pub complete : length txs ≡ tx.last_index
  pub placed : ArePlaced tx.last_index 0 0 (tx ∷ txs)
  pub balanced : value_from 0 (tx ∷ txs) ≡ 0
  pub hashed : tx.bundle ≡ from_trits (kerl (map essence (tx ∷ txs)))
  pub signed : IsSigned kerl sig_digest (normalize_flex_hash_to_trits tx.bundle) (tx ∷ txs)

validate_last-tests :
    (kerl : List (List ℤ) → List ℤ) (sig_digest : List ℤ → ℕ → List ℤ) (b : Bundle) (hash total : ℕ)
    → (validate_last kerl sig_digest b hash total ≡ valid) ↔ (
        (total ≡ 0)
        × (hash ≡ calculate_hash kerl b)
        × (validate_signatures kerl sig_digest
              (normalize_flex_hash_to_trits (calculate_hash kerl b))
              b
            ≡ true))
unfolding validate_last
validate_last-tests kerl sig_digest b hash total = ground arith

-- The checks on the last transaction, with the signatures read under the hash that the bundle has.
validate_last-accepts :
    (kerl : List (List ℤ) → List ℤ) (sig_digest : List ℤ → ℕ → List ℤ) (b : Bundle) (hash total : ℕ)
    → (validate_last kerl sig_digest b hash total ≡ valid) ↔ (
        (total ≡ 0)
        × (hash ≡ from_trits (kerl (map essence b)))
        × IsSigned kerl sig_digest (normalize_flex_hash_to_trits hash) b)
unfolding calculate_hash
validate_last-accepts kerl sig_digest b hash total =
    let tests = validate_last-tests kerl sig_digest b hash total in
    let under : ℕ → Type 0 =
      λ h. validate_signatures kerl sig_digest (normalize_flex_hash_to_trits h) b ≡ true in
    let signed =
      validate_signatures-IsSigned kerl sig_digest (normalize_flex_hash_to_trits hash) b in
    (
      λ h.
          let (balanced, hashed, accepted) = tests.0 h in
          (balanced, hashed, signed.0 (subst under (sym hashed) accepted)),
      λ v.
          let (balanced, hashed, s) = v in
          tests.1 (balanced, hashed, subst under hashed (signed.1 s)),
    )

complete_test :
    (n last : ℕ) (x : BundleStatus)
    → last + 1 < u64_mod
    → some (if suc n == (last + 1) % u64_mod then x else incomplete) ≡ some valid
    → (n ≡ last) × (x ≡ valid)
complete_test n last x p h = ground arith

complete_pass :
    (n last : ℕ) (x : BundleStatus)
    → last + 1 < u64_mod
    → n ≡ last
    → x ≡ valid
    → some (if suc n == (last + 1) % u64_mod then x else incomplete) ≡ some valid
complete_pass n last x p e h = ground arith

-- `bundle_validate` reports a bundle valid exactly when it is a valid bundle, where its last index
-- is below 2^64 - 1: it has as many transactions as its head says, each with its indexes, with its
-- value and the sum up to it in the supply, positive or negative, or the least `int64_t`, and with
-- an address that ends in the trit 0 if it moves a value; the values cancel out, the hash is the
-- one squeezed from the essences, and every input is signed.
pub validate-IsValidBundle :
    (kerl : List (List ℤ) → List ℤ) (sig_digest : List ℤ → ℕ → List ℤ) (tx : Transaction)
    (txs : Bundle)
    → tx.last_index + 1 < u64_mod
    → (validate kerl sig_digest (tx ∷ txs) ≡ some valid) ↔ IsValidBundle kerl sig_digest tx txs
unfolding validate
validate-IsValidBundle kerl sig_digest tx txs p =
    let last = validate_last kerl sig_digest (tx ∷ txs) tx.bundle in
    let run = validate_from last tx.last_index 0 0 not_initialized (tx ∷ txs) in
    let accepts =
      validate_last-accepts kerl sig_digest (tx ∷ txs) tx.bundle (value_from 0 (tx ∷ txs)) in
    (
      λ h.
          let (size, ok) = complete_test (length txs) tx.last_index run p h in
          let (placed, total) =
            validate_from_sound last tx.last_index 0 0 not_initialized tx txs (omega (arith, size))
              p ok in
          let (balanced, hashed, signed) = accepts.0 total in
          record {
            complete = size;
            placed = placed;
            balanced = balanced;
            hashed = hashed;
            signed = signed;
          },
      λ v. complete_pass (length txs) tx.last_index run p v.complete (
          validate_from_complete last tx.last_index 0 0 not_initialized tx txs
            (omega (arith, v.complete)) p v.placed (accepts.1 (v.balanced, v.hashed, v.signed))),
    )
