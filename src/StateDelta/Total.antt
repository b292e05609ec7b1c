-- ===== src/StateDelta/Total.antt =====
-- `state_delta_sum`: a patch changes the sum of the ledger by its own sum.
use entangled.Prelude.{
  ℕ, ◌≡◌, ◌<◌, sym, ◌∙◌, Bool, some, [], ◌∷◌, ◌++◌, arith, ◌==◌, Bool-cases, inl, inr,
}
use mathlib.Core.Option.{some-injective}
use entangled.Prelude.Word.{add64, u64_mod, add64-zero, add64-zero_right, add64-lt, add64_assoc}
use entangled.Outcome.{done, for_each, >>=-eq-done}
use entangled.HashMap.{Entry, find, delete, assign}
use entangled.StateDelta.{StateDelta, sum, sum_from, add_or_sum, apply_entry, apply_patch}
use entangled.StateDelta.Balance.{add_or_sum_cases}

-- The sum by recursion from the other end.
total : StateDelta → ℕ
total [] = 0
total (e ∷ m) = add64 e.1 (total m)

total-lt : (m : StateDelta) → total m < u64_mod
unfolding total
total-lt [] = omega arith
total-lt (e ∷ m) = add64-lt e.1 (total m)

sum_from-total : (acc : ℕ) (m : StateDelta) → acc < u64_mod → sum_from acc m ≡ add64 acc (total m)
unfolding sum_from total
sum_from-total acc [] b = sym (add64-zero_right acc b)
sum_from-total acc (e ∷ m) b =
    rw (sum_from-total (add64 acc e.1) m (add64-lt acc e.1)) (add64_assoc acc e.1 (total m))

sum-total : (m : StateDelta) → sum m ≡ total m
unfolding sum
sum-total m = sum_from-total 0 m (omega arith) ∙ add64-zero (total m) (total-lt m)

total-append : (h v : ℕ) (m : StateDelta) → total (m ++ (h, v) ∷ []) ≡ add64 (total m) v
unfolding total add64
total-append h v [] = omega arith
total-append h v (e ∷ m) = omega (arith, total-append h v m)

total-assign :
    (h v w : ℕ) (m : StateDelta)
    → find h m ≡ some w
    → total (assign h (add64 w v) m) ≡ add64 (total m) v
unfolding total assign find add64
total-assign h v w [] e = absurd (cc)
total-assign h v w (x ∷ m) e = elim (Bool-cases (x.0 == h)) [
  | inl y ↦ rw y (omega (arith, some-injective x.1 w (rw y at e)))
  | inr n ↦ rw n (omega (arith, total-assign h v w m (rw n at e)))
]

total-delete :
    (h w : ℕ) (m : StateDelta) → find h m ≡ some w → add64 w (total (delete h m)) ≡ total m
unfolding total delete find add64
total-delete h w [] e = absurd (cc)
total-delete h w (x ∷ m) e = elim (Bool-cases (x.0 == h)) [
  | inl y ↦ rw y (omega (arith, some-injective x.1 w (rw y at e)))
  | inr n ↦ rw n (omega (arith, total-delete h w m (rw n at e)))
]

-- w + v = 0 and w + d = t give d = t + v.
add64_cancel : (w v d t : ℕ) → d < u64_mod → add64 w v ≡ 0 → add64 w d ≡ t → d ≡ add64 t v
unfolding add64
add64_cancel w v d t b p q = omega arith

total-add_or_sum :
    (malloc : ℕ → Bool) (h v : ℕ) (m n : StateDelta)
    → add_or_sum malloc h v m ≡ done n
    → total n ≡ add64 (total m) v
total-add_or_sum malloc h v m n =
    add_or_sum_cases (λ r. r ≡ done n → total n ≡ add64 (total m) v) malloc h v m
      (λ z e. ground (arith, add64-zero_right (total m) (total-lt m)))
      (λ w e c f. ground (
        arith,
        add64_cancel w v (total (delete h m)) (total m) (total-lt (delete h m)) c
            (total-delete h w m e),
      ))
      (λ w e _ f. ground (arith, total-assign h v w m e))
      (λ _ _ f. ground (arith, total-append h v m)) (λ _ f. absurd (cc))

total-apply_entry :
    (malloc : ℕ → Bool) (x : Entry) (m n : StateDelta)
    → apply_entry malloc x m ≡ done n
    → total n ≡ add64 (total m) x.1
unfolding apply_entry
total-apply_entry malloc x m n f = elim (Bool-cases (x.1 == 0)) [
  | inl z ↦ ground (arith, rw z at f, add64-zero_right (total m) (total-lt m))
  | inr nz ↦ total-add_or_sum malloc x.0 x.1 m n (rw nz at f)
]

total-apply_patch :
    (malloc : ℕ → Bool) (p m n : StateDelta)
    → apply_patch malloc m p ≡ done n
    → total n ≡ add64 (total m) (total p)
unfolding apply_patch for_each total
total-apply_patch malloc [] m n e = ground (arith, add64-zero_right (total m) (total-lt m))
total-apply_patch malloc (x ∷ p) m n e =
    let (t, first, rest) = >>=-eq-done (apply_entry malloc x m) _ e in
    ground (
      arith,
      total-apply_patch malloc p t n rest,
      total-apply_entry malloc x m t first,
      add64_assoc (total m) x.1 (total p),
    )

-- After a patch that succeeds the sum of the ledger is the sum before plus the patch's own sum.
pub sum-apply_patch :
    (malloc : ℕ → Bool) (p m n : StateDelta)
    → apply_patch malloc m p ≡ done n
    → sum n ≡ add64 (sum m) (sum p)
sum-apply_patch malloc p m n e =
    rw (sum-total n, sum-total m, sum-total p) (total-apply_patch malloc p m n e)

pub sum-lt : (m : StateDelta) → sum m < u64_mod
sum-lt m = rw (sum-total m) (total-lt m)
