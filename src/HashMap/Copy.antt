-- ===== src/HashMap/Copy.antt =====
-- Adding the entries of one map to another, with new values: the loop of `hash_to_{TYPE}_map_copy`
-- and of `state_delta_create_patch`.
use mathlib.Core.List.{append-nil, append_assoc}
use mathlib.Core.Path.{subst}
use entangled.Prelude.{
  ℕ, ◌≡◌, refl, ap, ◌∙◌, Bool, true, none, [], ◌∷◌, ◌++◌, arith, ◌==◌, Bool-cases, Option-cases,
  inl, inr,
}
use entangled.Outcome.{Outcome, done, for_each, >>=-eq-done}
use entangled.HashMap.{HashMap, Entry, find, add, copy}
use entangled.HashMap.Lookup.{find-append}
use entangled.HashMap.Keys.{Distinct}

-- No hash of the second map stands in the first.
abbrev Fresh : HashMap → HashMap → Type 0
Fresh dst [] = Unit
Fresh dst (e ∷ src) = (find e.0 dst ≡ none) × Fresh dst src

Fresh-nil : (m : HashMap) → Fresh [] m
unfolding find
Fresh-nil [] = tt
Fresh-nil (e ∷ m) = (refl, Fresh-nil m)

Fresh-append :
    (dst : HashMap) (k v : ℕ) (m : HashMap)
    → find k m ≡ none
    → Fresh dst m
    → Fresh (dst ++ (k, v) ∷ []) m
unfolding find
Fresh-append dst k v [] n f = tt
Fresh-append dst k v (e ∷ m) n f = elim (Bool-cases (e.0 == k)) [
  | inl y ↦ absurd (cc (rw y at n))
  | inr ne ↦ (ground (arith, find-append e.0 k v dst, f.0), Fresh-append dst k v m (rw ne at n) f.1)
]

add-new :
    (malloc : ℕ → Bool) (h v : ℕ) (m t : HashMap)
    → find h m ≡ none
    → add malloc h v m ≡ done t
    → t ≡ m ++ (h, v) ∷ []
unfolding add
add-new malloc h v m t n e = ground arith

module _ (value : Entry → ℕ) where
  -- The entries of a map with new values.
  abbrev pub valued : HashMap → HashMap
  valued [] = []
  valued (e ∷ m) = (e.0, value e) ∷ valued m

  abbrev pub add_all : (ℕ → Bool) → HashMap → HashMap → Outcome HashMap
  add_all malloc src dst = for_each (λ e. add malloc e.0 (value e)) src dst

  add_all-append :
      (malloc : ℕ → Bool) (src dst n : HashMap)
      → Distinct src
      → Fresh dst src
      → add_all malloc src dst ≡ done n
      → n ≡ dst ++ valued src
  unfolding for_each
  add_all-append malloc [] dst n d f e = rw append-nil (cc)
  add_all-append malloc (x ∷ m) dst n d f e =
      let (t, first, rest) = >>=-eq-done (add malloc x.0 (value x) dst) _ e in
      let new = add-new malloc x.0 (value x) dst t f.0 first in
      add_all-append malloc m (dst ++ (x.0, value x) ∷ []) n d.1
        (Fresh-append dst x.0 (value x) m d.0 f.1)
        (subst (λ s. add_all malloc m s ≡ done n) new rest)
      ∙ append_assoc dst ((x.0, value x) ∷ []) (valued m)

  pub add_all-nil :
      (malloc : ℕ → Bool) (src n : HashMap)
      → Distinct src
      → add_all malloc src [] ≡ done n
      → n ≡ valued src
  add_all-nil malloc src n d e = add_all-append malloc src [] n d (Fresh-nil src) e

  pub add_all-total : (src dst : HashMap) → (n : HashMap) × (add_all (λ _. true) src dst ≡ done n)
  unfolding for_each add
  add_all-total [] dst = (dst, refl)
  add_all-total (x ∷ m) dst = elim (Option-cases (find x.0 dst)) [
    | inl e ↦ let (n, q) = add_all-total m (dst ++ (x.0, value x) ∷ []) in (n, rw (e, add) q)
    | inr (w, e) ↦ let (n, q) = add_all-total m dst in (n, rw (e, add) q)
  ]

valued_self : (m : HashMap) → valued (λ e. e.1) m ≡ m
valued_self [] = refl
valued_self (e ∷ m) = ap (◌∷◌ e) (valued_self m)

-- A copy into an empty map that does not run out of memory is the map itself, in its order.
pub copy-eq :
    (malloc : ℕ → Bool) (src n : HashMap) → Distinct src → copy malloc src [] ≡ done n → n ≡ src
unfolding copy
copy-eq malloc src n d e = add_all-nil (λ x. x.1) malloc src n d e ∙ valued_self src
