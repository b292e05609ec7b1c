-- ===== src/HashMap/Values.antt =====
-- What holds of every value keeps holding under the primitives of the map.
use entangled.Prelude.{ℕ, ◌≡◌, refl, some, [], ◌∷◌, ◌++◌, arith, ◌==◌, All, Bool-cases, inl, inr}
use mathlib.Core.Option.{some-injective}
use mathlib.Core.Path.{subst}
use entangled.HashMap.{HashMap, find, delete, assign}

abbrev pub Values {κ} : (ℕ → Type κ) → HashMap → Type κ
Values P = All (λ e. P e.1)

pub delete-assign : (h v : ℕ) (m : HashMap) → delete h (assign h v m) ≡ delete h m
unfolding delete assign
delete-assign h v [] = refl
delete-assign h v (e ∷ m) = ground (arith, delete-assign h v m)

module _ {κ} (P : ℕ → Type κ) where
  pub append-Values : (h v : ℕ) (m : HashMap) → Values P m → P v → Values P (m ++ (h, v) ∷ [])
  append-Values h v [] a p = (p, tt)
  append-Values h v (e ∷ m) a p = (a.0, append-Values h v m a.1 p)

  pub assign-Values : (h v : ℕ) (m : HashMap) → Values P m → P v → Values P (assign h v m)
  unfolding assign
  assign-Values h v [] a p = tt
  assign-Values h v (e ∷ m) a p = elim (Bool-cases (e.0 == h)) [
    | inl y ↦ rw y (p, a.1)
    | inr n ↦ rw n (a.0, assign-Values h v m a.1 p)
  ]

  pub delete-Values : (h : ℕ) (m : HashMap) → Values P m → Values P (delete h m)
  unfolding delete
  delete-Values h [] a = tt
  delete-Values h (e ∷ m) a = elim (Bool-cases (e.0 == h)) [
    | inl y ↦ rw y a.1
    | inr n ↦ rw n (a.0, delete-Values h m a.1)
  ]

  pub find-Values : (h : ℕ) (m : HashMap) {v : ℕ} → Values P m → find h m ≡ some v → P v
  unfolding find
  find-Values h [] a e = absurd (cc)
  find-Values h (x ∷ m) a e = elim (Bool-cases (x.0 == h)) [
    | inl y ↦ subst P (some-injective x.1 _ (rw y at e)) a.0
    | inr n ↦ find-Values h m a.1 (rw n at e)
  ]
