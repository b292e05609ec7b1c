-- ===== src/HashSet/Laws.antt =====
-- Membership and size under each operation of a hash set, and that no hash stands in it twice.
use mathlib.Core.Path.{subst, sym}
use entangled.Prelude.{
  ℕ, ◌≡◌, ◌≢◌, ◌≤◌, ◌+◌, refl, inl, inr, Bool, true, false, [], ◌∷◌, ◌++◌, arith, ◌==◌,
  if◌then◌else◌, Bool-cases, ==_iff,
}
use entangled.Outcome.{Outcome, done, fail}
use entangled.Outcome.Retcode.{rc_oom}
use entangled.HashSet.{HashSet, size, contains, add, remove}

abbrev pub Distinct : HashSet → Type 0
Distinct [] = Unit
Distinct (x ∷ s) = (contains s x ≡ false) × Distinct s

pub contains-append :
    (h x : ℕ) (s : HashSet) → contains (s ++ x ∷ []) h ≡ (if x == h then true else contains s h)
unfolding contains
contains-append h x [] = ground arith
contains-append h x (y ∷ s) = ground (arith, contains-append h x s)

pub append-Distinct :
    (h : ℕ) (s : HashSet) → Distinct s → contains s h ≡ false → Distinct (s ++ h ∷ [])
unfolding contains
append-Distinct h [] d n = (refl, tt)
append-Distinct h (x ∷ s) d n =
    (ground (arith, contains-append x h s, d.0), append-Distinct h s d.1 (ground arith))

pub contains-remove_ne : (h x : ℕ) (s : HashSet) → h ≢ x → contains (remove x s) h ≡ contains s h
unfolding contains remove
contains-remove_ne h x [] n = refl
contains-remove_ne h x (y ∷ s) n = ground (arith, contains-remove_ne h x s n)

pub contains-remove_self : (h : ℕ) (s : HashSet) → Distinct s → contains (remove h s) h ≡ false
unfolding contains remove
contains-remove_self h [] d = refl
contains-remove_self h (x ∷ s) d = ground (arith, contains-remove_self h s d.1)

pub remove-Distinct : (h : ℕ) (s : HashSet) → Distinct s → Distinct (remove h s)
unfolding remove
remove-Distinct h [] d = tt
remove-Distinct h (x ∷ s) d = elim (Bool-cases (x == h)) [
  | inl y ↦ rw y d.1
  | inr n ↦ rw n (ground (arith, contains-remove_ne x h s, d.0), remove-Distinct h s d.1)
]

pub size-remove : (h : ℕ) (s : HashSet) → size (remove h s) ≤ size s
unfolding remove
size-remove h [] = omega arith
size-remove h (x ∷ s) = ground (arith, size-remove h s)

pub size-append : (h : ℕ) (s : HashSet) → size (s ++ h ∷ []) ≡ size s + 1
size-append h [] = omega arith
size-append h (x ∷ s) = omega (arith, size-append h s)

-- The three ways in which `hash_set_add` ends.
pub add_cases {ℓ} :
    (P : Outcome HashSet → Type ℓ) (malloc : ℕ → Bool) (h : ℕ) (s : HashSet)
    → (contains s h ≡ true → P (done s))
    → (contains s h ≡ false → P (done (s ++ h ∷ [])))
    → (contains s h ≡ false → P (fail rc_oom s))
    → P (add malloc h s)
unfolding add
add_cases P malloc h s old new oom = elim (Bool-cases (contains s h)) [
  | inl y ↦ rw y (old y)
  | inr n ↦ rw n (elim (Bool-cases (malloc h)) [ inl y ↦ rw y (new n) | inr z ↦ rw z (oom n) ])
]

pub contains-remove :
    (h x : ℕ) (s : HashSet)
    → Distinct s
    → contains (remove h s) x ≡ (if x == h then false else contains s x)
contains-remove h x s d = elim (Bool-cases (x == h)) [
  | inl y ↦
      let same : x ≡ h = (==_iff x h).0 y in
      rw y (subst (λ k. contains (remove h s) k ≡ false) (sym same) (contains-remove_self h s d))
  | inr n ↦ rw n (contains-remove_ne x h s (ground arith))
]
