-- ===== src/Tangle/BundleLoad/Values.antt =====
-- A loaded bundle holds what the database holds.
use entangled.Prelude.{
  ℕ, zero, suc, ◌+◌, ◌≡◌, ◌⊎◌, refl, inl, inr, Option, none, some, List, [], ◌∷◌, ◌==◌, All, chosen,
}
use entangled.Prelude.Int.{ℤ}
use entangled.Outcome.{Retcode}
use entangled.Outcome.Retcode.{rc_tangle_not_a_tail}
use entangled.Transaction.{Transaction, BundleStatus}
use entangled.Bundle.{Bundle, validate}
use entangled.Tangle.{Storage}
use entangled.Tangle.BundleLoad.{
  prepend, follow, load_from, from_tail, bundle_load, written, record_status, judge,
  validate_loaded, bundle_validator_validate, is_incomplete, is_not_initialized,
}

module _ (P : Transaction → Type 0) (db : Storage)
    (holds : (h : ℕ) (tx : Transaction) → db.load h ≡ inr (some tx) → P tx) where
  abbrev pub FromDb : Retcode ⊎ Bundle → Type 0
  FromDb (inl e) = Unit
  FromDb (inr b) = All P b

  abbrev pub FromDbStatus : Retcode ⊎ (BundleStatus × Bundle) → Type 0
  FromDbStatus (inl e) = Unit
  FromDbStatus (inr (status, b)) = All P b

  prepend-FromDb :
      (tx : Transaction) (r : Retcode ⊎ Bundle) → P tx → FromDb r → FromDb (prepend tx r)
  prepend-FromDb tx (inl e) p h = tt
  prepend-FromDb tx (inr b) p h = (p, h)

  follow-FromDb :
      (next : Transaction → Retcode ⊎ Bundle) (tx : Transaction) (h : ℕ)
      (r : Retcode ⊎ Option Transaction)
      → ((t : Transaction) → P t → FromDb (next t))
      → db.load h ≡ r
      → P tx
      → FromDb (follow next tx r)
  follow-FromDb next tx h (inl e) k q p = tt
  follow-FromDb next tx h (inr none) k q p = (p, tt)
  follow-FromDb next tx h (inr (some found)) k q p =
      prepend-FromDb tx (next found) p (k found (holds h found q))

  load_from-FromDb : (rounds : ℕ) (tx : Transaction) → P tx → FromDb (load_from db rounds tx)
  unfolding load_from
  load_from-FromDb zero tx p = tt
  load_from-FromDb (suc rounds) tx p =
      chosen FromDb (tx.bundle == tx.bundle) _ (inr [])
        (λ y.
          follow-FromDb (load_from db rounds) tx tx.trunk (db.load tx.trunk)
            (load_from-FromDb rounds) refl p)
        (λ n. tt)

  from_tail-FromDb :
      (h : ℕ) (r : Retcode ⊎ Option Transaction) → db.load h ≡ r → FromDb (from_tail db r)
  from_tail-FromDb h (inl e) q = tt
  from_tail-FromDb h (inr none) q = tt
  from_tail-FromDb h (inr (some tx)) q =
      chosen FromDb (tx.current_index == 0) _ (inl rc_tangle_not_a_tail)
        (λ y. load_from-FromDb (tx.last_index + 1) tx (holds h tx q)) (λ n. tt)

  -- What every transaction of the database has, every transaction of a loaded bundle has.
  pub bundle_load-FromDb : (h : ℕ) → FromDb (bundle_load db h)
  unfolding bundle_load
  bundle_load-FromDb h = from_tail-FromDb h (db.load h) refl

  module _ (kerl : List (List ℤ) → List ℤ) (sig_digest : List ℤ → ℕ → List ℤ) where
    written-FromDb :
        (b : Bundle) (s : BundleStatus) (c : Option Retcode)
        → All P b
        → FromDbStatus (written b s c)
    written-FromDb b s none p = p
    written-FromDb b s (some e) p = tt

    record_status-FromDb :
        (b : Bundle) (s : Option BundleStatus) → All P b → FromDbStatus (record_status db b s)
    record_status-FromDb b none p = p
    record_status-FromDb b (some s) p =
        chosen FromDbStatus (is_incomplete s) (inr (s, b)) _ (λ y. p)
          (λ n. written-FromDb b s (db.update_validity b s) p)

    judge-FromDb :
        (b : Bundle) (r : Retcode ⊎ Option Transaction)
        → All P b
        → FromDbStatus (judge kerl sig_digest db b r)
    judge-FromDb b (inl e) p = tt
    judge-FromDb b (inr none) p = record_status-FromDb b (validate kerl sig_digest b) p
    judge-FromDb b (inr (some tx)) p =
        chosen FromDbStatus (is_not_initialized tx.validity) _ (inr (tx.validity, b))
          (λ y. record_status-FromDb b (validate kerl sig_digest b) p) (λ n. p)

    validate_loaded-FromDb :
        (h : ℕ) (r : Retcode ⊎ Bundle)
        → FromDb r
        → FromDbStatus (validate_loaded kerl sig_digest db h r)
    validate_loaded-FromDb h (inl e) p = tt
    validate_loaded-FromDb h (inr []) p = tt
    validate_loaded-FromDb h (inr (tx ∷ txs)) p = judge-FromDb (tx ∷ txs) (db.load h) p

    pub bundle_validator_validate-FromDb :
        (h : ℕ) → FromDbStatus (bundle_validator_validate kerl sig_digest db h)
    unfolding bundle_validator_validate
    bundle_validator_validate-FromDb h =
        validate_loaded-FromDb h (bundle_load db h) (bundle_load-FromDb h)
