-- ===== src/StateDelta/Balance.antt =====
-- The balance of an address after each operation on one entry.
use entangled.Prelude.{
  ℕ, ◌≡◌, ◌≢◌, ◌<◌, refl, Bool, none, some, [], ◌∷◌, ◌++◌, arith, ◌==◌, if◌then◌else◌, Bool-cases,
  Option-cases, ==_iff, inl, inr,
}
use entangled.Prelude.Word.{add64, u64_mod, add64-zero, add64-zero_right, add64-lt}
use entangled.Outcome.{Outcome, done, fail, left, rc_oom}
use entangled.HashMap.{Entry, find, delete, assign, add}
use entangled.HashMap.Lookup.{find-append, find-assign}
use entangled.HashMap.Keys.{
  Distinct, find-delete, assign-Distinct, delete-Distinct, append-Distinct,
}
use entangled.HashMap.Values.{Values, delete-assign, append-Values, assign-Values, delete-Values}
use entangled.StateDelta.{StateDelta, balance, add_or_sum}

-- A delta as the operations leave it: no address twice, and every value a 64-bit pattern.
pub record IsDelta (m : StateDelta) : Type 0 where
  pub distinct : Distinct m
  pub words : Values (λ v. v < u64_mod) m

pub balance-lt : (h : ℕ) (m : StateDelta) → Values (λ v. v < u64_mod) m → balance h m < u64_mod
unfolding balance find
balance-lt h [] w = omega arith
balance-lt h (e ∷ m) w = ground (arith, balance-lt h m w.1)

pub balance-nil : (h : ℕ) → balance h [] ≡ 0
unfolding balance find
balance-nil h = refl

pub balance-cons :
    (h : ℕ) (e : Entry) (m : StateDelta)
    → balance h (e ∷ m) ≡ (if e.0 == h then e.1 else balance h m)
unfolding balance find
balance-cons h e m = ground arith

pub balance-absent : (h : ℕ) (m : StateDelta) → find h m ≡ none → balance h m ≡ 0
unfolding balance
balance-absent h m e = rw (e, balance)

-- The five ways in which `state_delta_add_or_sum` ends.
pub add_or_sum_cases {ℓ} :
    (P : Outcome StateDelta → Type ℓ) (malloc : ℕ → Bool) (h v : ℕ) (m : StateDelta)
    → (v ≡ 0 → P (done m))
    → ((w : ℕ) → find h m ≡ some w → add64 w v ≡ 0 → P (done (delete h m)))
    → ((w : ℕ) → find h m ≡ some w → add64 w v ≢ 0 → P (done (assign h (add64 w v) m)))
    → (find h m ≡ none → v ≢ 0 → P (done (m ++ (h, v) ∷ [])))
    → (find h m ≡ none → P (fail rc_oom m))
    → P (add_or_sum malloc h v m)
unfolding add_or_sum add
add_or_sum_cases P malloc h v m zero cancel more new oom = elim (Bool-cases (v == 0)) [
  | inl z ↦ rw z (zero ((==_iff v 0).0 z))
  | inr nz ↦ rw nz (elim (Option-cases (find h m)) [
    | inl e ↦ rw e (
        rw (e, add)
          (elim (Bool-cases (malloc h)) [
            | inl y ↦ rw y (new e (ground arith))
            | inr n ↦ rw n (oom e)
          ]))
    | inr (w, e) ↦ rw e (elim (Bool-cases (add64 w v == 0)) [
      | inl y ↦ rw y (rw (delete-assign h 0 m) (cancel w e ((==_iff _ 0).0 y)))
      | inr n ↦ rw n (more w e (ground arith))
    ])
  ])
]

-- Also a failed `state_delta_add_or_sum` leaves a delta.
pub add_or_sum-IsDelta :
    (malloc : ℕ → Bool) (h v : ℕ) (m : StateDelta)
    → v < u64_mod
    → IsDelta m
    → IsDelta (left (add_or_sum malloc h v m))
add_or_sum-IsDelta malloc h v m b d =
    add_or_sum_cases (λ r. IsDelta (left r)) malloc h v m (λ _. d)
      (λ w _ _. record {
        distinct = delete-Distinct h m d.distinct;
        words = delete-Values (λ v. v < u64_mod) h m d.words;
      })
      (λ w _ _. record {
        distinct = assign-Distinct h _ m d.distinct;
        words = assign-Values (λ v. v < u64_mod) h _ m d.words (add64-lt w v);
      })
      (λ e _. record {
        distinct = append-Distinct h v m d.distinct e;
        words = append-Values (λ v. v < u64_mod) h v m d.words b;
      })
      (λ _. d)

-- A delta without zero entries stays without them.
pub add_or_sum-nonzero :
    (malloc : ℕ → Bool) (h v : ℕ) (m : StateDelta)
    → Values (λ v. v ≢ 0) m
    → Values (λ v. v ≢ 0) (left (add_or_sum malloc h v m))
add_or_sum-nonzero malloc h v m d =
    add_or_sum_cases (λ r. Values (λ v. v ≢ 0) (left r)) malloc h v m (λ _. d)
      (λ w _ _. delete-Values (λ v. v ≢ 0) h m d) (λ w _ n. assign-Values (λ v. v ≢ 0) h _ m d n)
      (λ _ n. append-Values (λ v. v ≢ 0) h v m d n) (λ _. d)

-- A successful `state_delta_add_or_sum` adds to the balance of its address, and to no other.
pub balance-add_or_sum :
    (malloc : ℕ → Bool) (h k v : ℕ) (m n : StateDelta)
    → IsDelta m
    → v < u64_mod
    → add_or_sum malloc h v m ≡ done n
    → balance k n ≡ (if h == k then add64 (balance k m) v else balance k m)
unfolding balance
balance-add_or_sum malloc h k v m n d b =
    add_or_sum_cases
      (λ r. r ≡ done n → balance k n ≡ (if h == k then add64 (balance k m) v else balance k m))
      malloc h v m (λ z e. ground (arith, balance-lt k m d.words, add64-zero_right (balance k m)))
      (λ x e c f. ground (arith, find-delete k h m d.distinct))
      (λ x e _ f. ground (arith, find-assign k h (add64 x v) m))
      (λ e _ f. ground (arith, find-append k h v m, add64-zero v b)) (λ e f. cc)
