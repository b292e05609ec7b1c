-- ===== src/Bundle/Signatures.antt =====
-- What `validate_signatures` accepts: its loops, which jump over the fragments of an input and stop
-- at the first fault, test every input of the bundle, and end within the number of transactions.
use entangled.Prelude.{
  ℕ, zero, suc, ◌+◌, ◌*◌, ◌%◌, ◌≡◌, ◌≤◌, ◌↔◌, ◌⊎◌, inl, inr, refl, Bool, true, false, List, [], ◌∷◌,
  ◌==◌, ◌&&◌, arith, if◌then◌else◌, length, chosen, drop, Bool-cases, ==_iff, ap,
}
use entangled.Prelude.Int.{ℤ}
use entangled.Prelude.Word.{is_neg}
use entangled.Transaction.{Transaction, from_trits}
use entangled.Bundle.{
  Bundle, absorb_digests, continues, validate_signatures, validate_signatures_loop,
}

-- The transactions in front of a sequence that carry on the signature of an address.
unfoldable pub fragments : ℕ → Bundle → Bundle
fragments address [] = []
fragments address (tx ∷ txs) =
    let rest = fragments address txs in
    if (tx.address == address) && (tx.value == 0) then tx ∷ rest else []

module _ (kerl : List (List ℤ) → List ℤ) (sig_digest : List ℤ → ℕ → List ℤ)
    (normalized : List ℤ) where
  -- The digest of the fragment of a number, under the third of the normalized hash that is its turn.
  abbrev pub digest_at : ℕ → Transaction → List ℤ
  digest_at i tx = sig_digest (drop (81 * (i % 3)) normalized) tx.signature

  unfoldable pub digests_from : ℕ → Bundle → List (List ℤ)
  digests_from i [] = []
  digests_from i (tx ∷ txs) = digest_at i tx ∷ digests_from (suc i) txs

  -- Of each transaction: it takes nothing from its address, or the digests of its fragments hash to
  -- that address.
  unfoldable pub IsSigned : Bundle → Type 0
  IsSigned [] = Unit
  IsSigned (tx ∷ txs) =
      ((is_neg tx.value ≡ false)
        ⊎ (from_trits (kerl (digests_from 0 (tx ∷ fragments tx.address txs))) ≡ tx.address))
      × IsSigned txs

  length-absorb_digests :
      (address offset : ℕ) (txs : Bundle)
      → length (absorb_digests sig_digest normalized address offset txs).1 ≤ length txs
  unfolding absorb_digests
  length-absorb_digests address offset [] = omega arith
  length-absorb_digests address offset (tx ∷ txs) =
      let ih = length-absorb_digests address ((offset + 80) % 243 + 1) txs in
      chosen (λ (r : List (List ℤ) × Bundle). length r.1 ≤ suc (length txs)) (continues address txs)
        _ _ (λ y. omega (arith, ih)) (λ n. omega arith)

  -- The fragments of an input take at least its own transaction.
  absorb_digests-shorter :
      (address offset : ℕ) (tx : Transaction) (txs : Bundle)
      → length (absorb_digests sig_digest normalized address offset (tx ∷ txs)).1 ≤ length txs
  unfolding absorb_digests
  absorb_digests-shorter address offset tx txs =
      chosen (λ (r : List (List ℤ) × Bundle). length r.1 ≤ length txs) (continues address txs) _ _
        (λ y. length-absorb_digests address ((offset + 80) % 243 + 1) txs) (λ n. omega arith)

  -- The loop absorbs the digests of the fragments.
  absorb_digests-fragments :
      (address offset i : ℕ) (tx : Transaction) (txs : Bundle)
      → offset % 243 ≡ 81 * (i % 3)
      → (absorb_digests sig_digest normalized address offset (tx ∷ txs)).0
        ≡ digests_from i (tx ∷ fragments address txs)
  unfolding absorb_digests fragments digests_from
  absorb_digests-fragments address offset i tx [] e = rw e refl
  absorb_digests-fragments address offset i tx (next ∷ txs) e =
      let turn : ((offset + 80) % 243 + 1) % 243 ≡ 81 * (suc i % 3) = omega (arith, e) in
      let ih = absorb_digests-fragments address ((offset + 80) % 243 + 1) (suc i) next txs turn in
      elim (Bool-cases ((next.address == address) && (next.value == 0))) [
        | inl y ↦ rw (y, e) (ap (λ r. digest_at i tx ∷ r) ih)
        | inr n ↦ rw (n, e) refl
      ]

  -- A fragment that the loop jumps over takes nothing from its address.
  jumped :
      (address offset : ℕ) (tx : Transaction) (txs : Bundle)
      → IsSigned (absorb_digests sig_digest normalized address offset (tx ∷ txs)).1 ↔ IsSigned txs
  unfolding absorb_digests IsSigned
  jumped address offset tx [] = (λ s. tt, λ s. tt)
  jumped address offset tx (next ∷ txs) =
      let ih = jumped address ((offset + 80) % 243 + 1) next txs in
      elim (Bool-cases ((next.address == address) && (next.value == 0))) [
        | inl y ↦ rw y (λ s. (inl (ground arith), ih.0 s), λ s. ih.1 s.1)
        | inr n ↦ rw n (λ s. s, λ s. s)
      ]

  both_tests : (a b : Bool) → ((if a then b else false) ≡ true) ↔ ((a ≡ true) × (b ≡ true))
  both_tests a b = ground arith

  loop-IsSigned :
      (fuel : ℕ) (txs : Bundle)
      → length txs ≤ fuel
      → (validate_signatures_loop fuel kerl sig_digest normalized txs ≡ true) ↔ IsSigned txs
  unfolding validate_signatures_loop IsSigned
  loop-IsSigned zero [] p = (λ h. tt, λ s. refl)
  loop-IsSigned (suc fuel) [] p = (λ h. tt, λ s. refl)
  loop-IsSigned zero (tx ∷ txs) p = absurd (omega (arith, p))
  loop-IsSigned (suc fuel) (tx ∷ txs) p = elim (Bool-cases (is_neg tx.value)) [
    | inr n ↦
        let ih = loop-IsSigned fuel txs (omega (arith, p)) in
        rw n (λ h. (inl refl, ih.0 h), λ s. ih.1 s.1)
    | inl y ↦
        let absorbed = absorb_digests sig_digest normalized tx.address 0 (tx ∷ txs) in
        let short = absorb_digests-shorter tx.address 0 tx txs in
        let ih = loop-IsSigned fuel absorbed.1 (omega (arith, p, short)) in
        let jump = jumped tx.address 0 tx txs in
        let same = absorb_digests-fragments tx.address 0 0 tx txs refl in
        let hash = from_trits (kerl (digests_from 0 (tx ∷ fragments tx.address txs))) in
        let tests =
          both_tests (hash == tx.address)
            (validate_signatures_loop fuel kerl sig_digest normalized absorbed.1) in
        rw (y, same)
          (
            λ h. let (a, b) = tests.0 h in (inr ((==_iff hash tx.address).0 a), jump.0 (ih.0 b)),
            λ s. tests.1 (
              elim (s.0) [ inl e ↦ absurd (cc) | inr e ↦ (==_iff hash tx.address).1 e ],
              ih.1 (jump.1 s.1),
            ),
          )
  ]

  -- The signatures are found valid exactly when every transaction that takes from its address is
  -- signed: the digests of its own signature and of the signatures in the transactions right behind
  -- it that have its address and the value 0, each under its third of the normalized hash in turn,
  -- hash to that address.
  pub validate_signatures-IsSigned :
      (bundle : Bundle)
      → (validate_signatures kerl sig_digest normalized bundle ≡ true) ↔ IsSigned bundle
  unfolding validate_signatures
  validate_signatures-IsSigned bundle = loop-IsSigned (length bundle) bundle (omega arith)
