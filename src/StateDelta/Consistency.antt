-- ===== src/StateDelta/Consistency.antt =====
-- `state_delta_create_patch` and `state_delta_is_consistent`: together they test whether a delta
-- leaves any balance of the ledger below zero.
use mathlib.Core.Path.{subst}
use entangled.Prelude.{
  ℕ, ◌≡◌, ◌↔◌, ◌<◌, refl, ap, ◌∙◌, Bool, true, false, none, [], ◌∷◌, arith, ◌==◌, if◌then◌else◌,
  Bool-cases, ==_iff, inl, inr,
}
use entangled.Prelude.Word.{add64, is_neg, u64_mod, add64-zero_right}
use entangled.Outcome.{done}
use entangled.HashMap.{find}
use entangled.HashMap.Copy.{valued, add_all-nil}
use entangled.HashMap.Keys.{Distinct}
use entangled.HashMap.Values.{Values}
use entangled.StateDelta.{StateDelta, balance, apply_patch, create_patch, is_consistent}
use entangled.StateDelta.Balance.{IsDelta, balance-lt, balance-nil, balance-cons, balance-absent}
use entangled.StateDelta.Patch.{balance-apply_patch, apply_patch-done}

-- No value is negative.
abbrev pub IsNonneg : StateDelta → Type 0
IsNonneg = Values (λ v. is_neg v ≡ false)

-- `state_delta_is_consistent` answers whether no value is negative.
pub is_consistent_iff : (m : StateDelta) → ((is_consistent m).0 ≡ true) ↔ IsNonneg m
unfolding is_consistent
is_consistent_iff [] = (λ _. tt, λ _. refl)
is_consistent_iff (x ∷ m) = elim (Bool-cases (is_neg x.1)) [
  | inl y ↦ rw y (λ e. absurd (cc), λ h. absurd (cc (h.0)))
  | inr n ↦ rw n (elim (Bool-cases (x.1 == 0)) [
    | inl z ↦ rw z (λ e. (refl, (is_consistent_iff m).0 e), λ h. (is_consistent_iff m).1 h.1)
    | inr nz ↦ rw nz (λ e. (refl, (is_consistent_iff m).0 e), λ h. (is_consistent_iff m).1 h.1)
  ])
]

-- The entries that are not zero, in their order.
abbrev pub nonzero : StateDelta → StateDelta
nonzero [] = []
nonzero (e ∷ m) = if e.1 == 0 then nonzero m else e ∷ nonzero m

-- A delta that it finds consistent is left with exactly its entries that are not zero.
pub is_consistent-left : (m : StateDelta) → IsNonneg m → (is_consistent m).1 ≡ nonzero m
unfolding is_consistent
is_consistent-left [] h = refl
is_consistent-left (x ∷ m) h = ground (arith, is_consistent-left m h.1)

module _ (state : StateDelta) where
  -- The balance that each address of a delta would have.
  abbrev pub summed : StateDelta → StateDelta
  summed [] = []
  summed (e ∷ m) = (e.0, add64 (balance e.0 state) e.1) ∷ summed m

add_all-summed :
    (state delta : StateDelta)
    → valued (λ x. add64 (balance x.0 state) x.1) delta ≡ summed state delta
add_all-summed state [] = refl
add_all-summed state (e ∷ m) =
    ap (◌∷◌ (e.0, add64 (balance e.0 state) e.1)) (add_all-summed state m)

-- Into an empty patch `state_delta_create_patch` puts the new balance of each address of the
-- delta, in the delta's order.
pub create_patch-summed :
    (malloc : ℕ → Bool) (state delta n : StateDelta)
    → Distinct delta
    → create_patch malloc state delta [] ≡ done n
    → n ≡ summed state delta
unfolding create_patch
create_patch-summed malloc state delta n d e =
    add_all-nil (λ x. add64 (balance x.0 state) x.1) malloc delta n d e ∙ add_all-summed state delta

-- Where no new balance is negative, neither is any balance after the delta.
sum_nonneg :
    (state delta : StateDelta) (h : ℕ)
    → IsNonneg (summed state delta)
    → is_neg (balance h state) ≡ false
    → balance h state < u64_mod
    → is_neg (add64 (balance h state) (balance h delta)) ≡ false
sum_nonneg state [] h c n b = rw (balance-nil h, add64-zero_right (balance h state) b) n
sum_nonneg state (e ∷ m) h c n b = elim (Bool-cases (e.0 == h)) [
  | inl y ↦
      rw (balance-cons h e m)
        (rw y (subst (λ k. is_neg (add64 (balance k state) e.1) ≡ false) ((==_iff e.0 h).0 y) c.0))
  | inr ne ↦ rw (balance-cons h e m) (rw ne (sum_nonneg state m h c.1 n b))
]

absent_at : (k h : ℕ) (m : StateDelta) → find k m ≡ none → k ≡ h → balance h m ≡ 0
absent_at k h m n q = balance-absent h m (subst (λ j. find j m ≡ none) q n)

summed-IsNonneg :
    (state delta : StateDelta)
    → Distinct delta
    → ((h : ℕ) → balance h state < u64_mod)
    → ((h : ℕ) → is_neg (balance h state) ≡ false)
    → ((h : ℕ) → is_neg (add64 (balance h state) (balance h delta)) ≡ false)
    → IsNonneg (summed state delta)
summed-IsNonneg state [] d b p f = tt
summed-IsNonneg state (e ∷ m) d b p f = (
  ground (arith, f e.0, balance-cons e.0 e m),
  summed-IsNonneg state m d.1 b p λ h. ground (
    arith,
    f h,
    p h,
    balance-cons h e m,
    absent_at e.0 h m d.0,
    add64-zero_right (balance h state) (b h),
  ),
)

balance-IsNonneg :
    (m : StateDelta) → Distinct m → ((h : ℕ) → is_neg (balance h m) ≡ false) → IsNonneg m
balance-IsNonneg [] d f = tt
balance-IsNonneg (e ∷ m) d f = (
  ground (arith, f e.0, balance-cons e.0 e m),
  balance-IsNonneg m d.1 (λ h. ground (arith, f h, balance-cons h e m, absent_at e.0 h m d.0)),
)

IsNonneg-balance : (h : ℕ) (m : StateDelta) → IsNonneg m → is_neg (balance h m) ≡ false
IsNonneg-balance h [] f = rw balance-nil refl
IsNonneg-balance h (e ∷ m) f = elim (Bool-cases (e.0 == h)) [
  | inl y ↦ rw (balance-cons h e m) (rw y f.0)
  | inr ne ↦ rw (balance-cons h e m) (rw ne (IsNonneg-balance h m f.1))
]

-- Over a ledger without negative balances, where the ledger and the delta list no address twice
-- and hold 64-bit patterns, and the patch and the new ledger were made without an error: the
-- patch of the delta is found consistent exactly when the ledger after the delta is applied has
-- no negative balance.
pub is_consistent-apply_patch :
    (malloc malloc' : ℕ → Bool) (state delta patch n : StateDelta)
    → IsDelta state
    → IsDelta delta
    → IsNonneg state
    → create_patch malloc state delta [] ≡ done patch
    → apply_patch malloc' state delta ≡ done n
    → ((is_consistent patch).0 ≡ true) ↔ IsNonneg n
is_consistent-apply_patch malloc malloc' state delta patch n ds dd nn c e =
    let same = create_patch-summed malloc state delta patch dd.distinct c in
    let old = λ (h : ℕ). IsNonneg-balance h state nn in
    let words = λ (h : ℕ). balance-lt h state ds.words in
    let after = λ (h : ℕ). balance-apply_patch malloc' h delta state n dd ds e in
    (
      λ ok. balance-IsNonneg n (apply_patch-done malloc' delta state n dd ds e).distinct λ h.
          rw (after h) (
            sum_nonneg state delta h (subst IsNonneg same ((is_consistent_iff patch).0 ok)) (old h)
              (words h)),
      λ q. (is_consistent_iff patch).1 (
          rw same (
            summed-IsNonneg state delta dd.distinct words old
              (λ h. rw (← after h) (IsNonneg-balance h n q)))),
    )
