-- ===== src/Bundle/Supply.antt =====
-- What the test of a value against the supply lets pass, in `bundle_validate` and in
-- `iota_consensus_transaction_validate`.
use entangled.Prelude.{ℕ, ◌+◌, ◌≡◌, ◌≤◌, ◌⊎◌, inl, inr, false, arith, Bool-cases, ==_iff, ◌==◌}
use entangled.Prelude.Word.{u64_mod, i64_min, is_neg, gt64, llabs, neg64}
use entangled.Bundle.{max_iota_supply}

-- A number between the supply and its opposite, or the least `int64_t`, which `llabs` leaves as it
-- is.
pub InSupply : ℕ → Type 0
InSupply v = (v ≤ max_iota_supply) ⊎ (u64_mod ≤ v + max_iota_supply) ⊎ (v ≡ i64_min)

pub passes-InSupply : (v : ℕ) → gt64 (llabs v) max_iota_supply ≡ false → InSupply v
unfolding gt64 llabs neg64 InSupply
passes-InSupply v h = elim (Bool-cases (is_neg v)) [
  | inl y ↦ elim (Bool-cases (v == i64_min)) [
    | inl e ↦ inr (inr ((==_iff v i64_min).0 e))
    | inr n ↦ inr (inl (ground arith))
  ]
  | inr n ↦ inl (ground arith)
]

pub InSupply-passes : (v : ℕ) → InSupply v → gt64 (llabs v) max_iota_supply ≡ false
unfolding gt64 llabs neg64 InSupply
InSupply-passes v (inl p) = ground arith
InSupply-passes v (inr (inl p)) = ground arith
InSupply-passes v (inr (inr e)) = ground arith
