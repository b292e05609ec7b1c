-- ===== src/StateDelta/Examples.antt =====
-- Examples of deltas and patches, at small balances.
use entangled.Prelude.{ℕ, ◌≡◌, ◌↔◌, refl, Bool, true, [], ◌∷◌, arith}
use entangled.Prelude.Word.{add64}
use entangled.Outcome.{done, for_each}
use entangled.HashMap.{find, delete, assign, add}
use entangled.StateDelta.{
  StateDelta, add_or_sum, add_or_replace, balance, create_patch, apply_entry, apply_patch,
  merge_patch, is_consistent,
}
use entangled.StateDelta.Balance.{IsDelta}
use entangled.StateDelta.Consistency.{IsNonneg, is_consistent-apply_patch}
use entangled.StateDelta.Patch.{balance-apply_patch}

-- Address 1 has 10 and address 2 has 5.
abbrev pub ledger : StateDelta
ledger = (1, 10) ∷ (2, 5) ∷ []

-- 10 go from address 1, and 7 and 3 to the addresses 2 and 3.
abbrev pub transfer : StateDelta
transfer = (1, 18446744073709551606) ∷ (2, 7) ∷ (3, 3) ∷ []

abbrev pub patched : StateDelta
patched = (2, 12) ∷ (3, 3) ∷ []

abbrev sums : StateDelta
sums = (1, 0) ∷ (2, 12) ∷ (3, 3) ∷ []

abbrev pub all : ℕ → Bool
all _ = true

pub ledger-IsDelta : IsDelta ledger
unfolding find
ledger-IsDelta = record { distinct = (refl, (refl, tt)); words = omega arith }

pub transfer-IsDelta : IsDelta transfer
unfolding find
transfer-IsDelta = record { distinct = (refl, (refl, (refl, tt))); words = omega arith }

pub ledger-IsNonneg : IsNonneg ledger
ledger-IsNonneg = (refl, (refl, tt))

apply_test : apply_patch all ledger transfer ≡ done patched
unfolding apply_patch for_each apply_entry add_or_sum find add delete assign add64
apply_test = refl

patch_test : create_patch all ledger transfer [] ≡ done sums
unfolding create_patch for_each balance find add add64
patch_test = refl

is_consistent-apply_patch_example : ((is_consistent sums).0 ≡ true) ↔ IsNonneg patched
is_consistent-apply_patch_example =
    is_consistent-apply_patch all all ledger transfer sums patched ledger-IsDelta transfer-IsDelta
      ledger-IsNonneg patch_test apply_test

balance-apply_patch_example : balance 2 patched ≡ add64 (balance 2 ledger) (balance 2 transfer)
balance-apply_patch_example =
    balance-apply_patch all 2 transfer ledger patched transfer-IsDelta ledger-IsDelta apply_test

merge_test :
    merge_patch all ledger transfer ≡ done ((1, 18446744073709551606) ∷ (2, 7) ∷ (3, 3) ∷ [])
unfolding merge_patch for_each add_or_replace find add delete assign
merge_test = refl
