-- ===== src/StateDelta/Patch.antt =====
-- What a patch does to every balance: the ledger after `state_delta_apply_patch` is the pointwise
-- sum of the ledger before and the patch.
use entangled.Prelude.{
  ℕ, ◌≡◌, ◌≢◌, ◌<◌, refl, Bool, true, none, [], ◌∷◌, ◌++◌, arith, ◌==◌, if◌then◌else◌, Bool-cases,
  Option-cases, inl, inr,
}
use mathlib.Core.Path.{subst}
use entangled.Prelude.Word.{add64, u64_mod, add64-zero_right}
use entangled.Outcome.{done, left, for_each, >>=-eq-done, >>=-left, for_each-left}
use entangled.HashMap.{Entry, find, add, delete, assign}
use entangled.HashMap.Values.{Values}
use entangled.StateDelta.{StateDelta, balance, add_or_sum, apply_entry, apply_patch}
use entangled.StateDelta.Balance.{
  IsDelta, balance-lt, balance-nil, balance-cons, balance-absent, add_or_sum-IsDelta,
  add_or_sum-nonzero, balance-add_or_sum,
}

IsDelta-tail : {e : Entry} {m : StateDelta} → IsDelta (e ∷ m) → IsDelta m
IsDelta-tail d = record { distinct = d.distinct.1; words = d.words.1 }

pub apply_entry-IsDelta :
    (malloc : ℕ → Bool) (e : Entry) (m : StateDelta)
    → e.1 < u64_mod
    → IsDelta m
    → IsDelta (left (apply_entry malloc e m))
unfolding apply_entry
apply_entry-IsDelta malloc e m b d = elim (Bool-cases (e.1 == 0)) [
  | inl z ↦ rw z d
  | inr n ↦ rw n (add_or_sum-IsDelta malloc e.0 e.1 m b d)
]

balance-apply_entry :
    (malloc : ℕ → Bool) (k : ℕ) (e : Entry) (m n : StateDelta)
    → IsDelta m
    → e.1 < u64_mod
    → apply_entry malloc e m ≡ done n
    → balance k n ≡ (if e.0 == k then add64 (balance k m) e.1 else balance k m)
unfolding apply_entry
balance-apply_entry malloc k e m n d b f = elim (Bool-cases (e.1 == 0)) [
  | inl z ↦ ground (arith, rw z at f, balance-lt k m d.words, add64-zero_right (balance k m))
  | inr nz ↦ balance-add_or_sum malloc e.0 k e.1 m n d b (rw nz at f)
]

apply_entry-total :
    (x : Entry) (m : StateDelta) → (n : StateDelta) × (apply_entry (λ _. true) x m ≡ done n)
unfolding apply_entry add_or_sum add
apply_entry-total x m = elim (Bool-cases (x.1 == 0)) [
  | inl z ↦ (m, rw z)
  | inr nz ↦ rw nz (elim (Option-cases (find x.0 m)) [
    | inl e ↦ (m ++ (x.0, x.1) ∷ [], rw e (rw (e, add)))
    | inr (w, e) ↦ rw e (elim (Bool-cases (add64 w x.1 == 0)) [
      | inl y ↦ (delete x.0 (assign x.0 0 m), rw y)
      | inr n ↦ (assign x.0 (add64 w x.1) m, rw n)
    ])
  ])
]

-- Every patch, also one that runs out of memory on the way, leaves a delta.
pub apply_patch-IsDelta :
    (malloc : ℕ → Bool) (p m : StateDelta)
    → IsDelta p
    → IsDelta m
    → IsDelta (left (apply_patch malloc m p))
unfolding apply_patch for_each
apply_patch-IsDelta malloc [] m dp d = d
apply_patch-IsDelta malloc (e ∷ p) m dp d =
    >>=-left IsDelta (apply_entry malloc e m) (for_each (apply_entry malloc) p)
      (apply_entry-IsDelta malloc e m dp.words.0 d)
      (λ n dn. apply_patch-IsDelta malloc p n (IsDelta-tail dp) dn)

pub apply_patch-done :
    (malloc : ℕ → Bool) (p m n : StateDelta)
    → IsDelta p
    → IsDelta m
    → apply_patch malloc m p ≡ done n
    → IsDelta n
apply_patch-done malloc p m n dp d e =
    subst (λ r. IsDelta (left r)) e (apply_patch-IsDelta malloc p m dp d)

apply_entry-done :
    (malloc : ℕ → Bool) (x : Entry) (m t : StateDelta)
    → x.1 < u64_mod
    → IsDelta m
    → apply_entry malloc x m ≡ done t
    → IsDelta t
apply_entry-done malloc x m t b d e =
    subst (λ r. IsDelta (left r)) e (apply_entry-IsDelta malloc x m b d)

-- What one entry and the rest of a patch do to a balance, together.
add64_split :
    (h k v a b : ℕ)
    → a < u64_mod
    → (h ≡ k → b ≡ 0)
    → add64 (if h == k then add64 a v else a) b ≡ add64 a (if h == k then v else b)
unfolding add64
add64_split h k v a b la z = ground arith

-- After a patch that succeeds every balance is the sum of the balance before and the patch's,
-- where both maps list no address twice and hold 64-bit patterns.
pub balance-apply_patch :
    (malloc : ℕ → Bool) (h : ℕ) (p m n : StateDelta)
    → IsDelta p
    → IsDelta m
    → apply_patch malloc m p ≡ done n
    → balance h n ≡ add64 (balance h m) (balance h p)
unfolding apply_patch for_each
balance-apply_patch malloc h [] m n dp d e =
    ground (arith, balance-nil h, balance-lt h m d.words, add64-zero_right (balance h m))
balance-apply_patch malloc h (x ∷ p) m n dp d e =
    let (t, first, rest) = >>=-eq-done (apply_entry malloc x m) _ e in
    let dt = apply_entry-done malloc x m t dp.words.0 d first in
    ground (
      arith,
      balance-apply_patch malloc h p t n (IsDelta-tail dp) dt rest,
      balance-apply_entry malloc h x m t d dp.words.0 first,
      balance-cons h x p,
      add64_split x.0 h x.1 (balance h m) (balance h p) (balance-lt h m d.words)
          (λ q. balance-absent h p (subst (λ k. find k p ≡ none) q dp.distinct.0)),
    )

-- A patch without zero sums leaves a ledger without zero entries as it was: the ledger holds the
-- addresses with a balance, and no other.
pub apply_patch-nonzero :
    (malloc : ℕ → Bool) (p m : StateDelta)
    → Values (λ v. v ≢ 0) m
    → Values (λ v. v ≢ 0) (left (apply_patch malloc m p))
unfolding apply_patch for_each apply_entry
apply_patch-nonzero malloc p m d =
    for_each-left (Values (λ v. v ≢ 0)) (apply_entry malloc)
      (λ x s k. elim (Bool-cases (x.1 == 0)) [
        | inl z ↦ rw z k
        | inr nz ↦ rw nz (add_or_sum-nonzero malloc x.0 x.1 s k)
      ])
      p m d

-- With memory for the entries a patch succeeds.
pub apply_patch-total :
    (p m : StateDelta) → (n : StateDelta) × (apply_patch (λ _. true) m p ≡ done n)
unfolding apply_patch for_each
apply_patch-total [] m = (m, refl)
apply_patch-total (x ∷ p) m = let (t, e) = apply_entry-total x m in rw e (apply_patch-total p t)
