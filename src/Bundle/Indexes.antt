-- ===== src/Bundle/Indexes.antt =====
-- `bundle_reset_indexes` numbers a bundle.
use entangled.Prelude.{ℕ, ◌+◌, ◌-◌, ◌≡◌, refl, Option, none, some, [], ◌∷◌, arith, length}
use entangled.Transaction.{Transaction}
use entangled.Bundle.{Bundle, bundle_at, reset_indexes, reset_indexes_from}

-- A transaction under other indexes.
abbrev pub numbered : ℕ → ℕ → Option Transaction → Option Transaction
numbered last_index index none = none
numbered last_index index (some tx) =
    some (record tx { last_index = last_index; current_index = index })

bundle_at-reset_indexes_from :
    (last_index index i : ℕ) (b : Bundle)
    → bundle_at (reset_indexes_from last_index index b) i
      ≡ numbered last_index (index + i) (bundle_at b i)
unfolding bundle_at reset_indexes_from
bundle_at-reset_indexes_from last_index index i [] = refl
bundle_at-reset_indexes_from last_index index i (tx ∷ txs) =
    ground (arith, bundle_at-reset_indexes_from last_index (index + 1) (i - 1) txs)

-- After `bundle_reset_indexes` the transaction at a place has that place for its index and the last
-- place for its last index, and is otherwise the one that stood there; outside the bundle there is
-- none as before.
pub bundle_at-reset_indexes :
    (b : Bundle) (i : ℕ) → bundle_at (reset_indexes b) i ≡ numbered (length b - 1) i (bundle_at b i)
unfolding reset_indexes
bundle_at-reset_indexes b i =
    let plus_zero : 0 + i ≡ i = omega arith in
    rw plus_zero at (bundle_at-reset_indexes_from (length b - 1) 0 i b)
