-- ===== src/HashMap/Equal.antt =====
-- `hash_to_{TYPE}_map_equal` against equality of the maps as functions.
use mathlib.Core.Path.{subst}
use entangled.Prelude.{
  ℕ, suc, ◌≡◌, ◌↔◌, refl, sym, ◌∙◌, true, none, some, [], ◌∷◌, arith, ◌==◌, if◌then◌else◌,
  Bool-cases, inl, inr,
}
use entangled.HashMap.{HashMap, find, delete, size, all_found, equal}
use entangled.HashMap.Lookup.{find-delete_ne}
use entangled.HashMap.Keys.{Distinct, delete-Distinct, find-delete}

size-delete : (h v : ℕ) (m : HashMap) → find h m ≡ some v → size m ≡ suc (size (delete h m))
unfolding find delete
size-delete h v [] e = absurd (cc)
size-delete h v (x ∷ m) e = elim (Bool-cases (x.0 == h)) [
  | inl y ↦ rw y refl
  | inr n ↦ rw n (omega (arith, size-delete h v m (rw n at e)))
]

all_found-delete :
    (k : ℕ) (lhs rhs : HashMap)
    → find k lhs ≡ none
    → all_found lhs (delete k rhs) ≡ all_found lhs rhs
unfolding all_found find
all_found-delete k [] rhs n = refl
all_found-delete k (e ∷ lhs) rhs n = elim (Bool-cases (e.0 == k)) [
  | inl y ↦ absurd (cc (rw y at n))
  | inr ne ↦ ground (arith, find-delete_ne e.0 k rhs, all_found-delete k lhs rhs (rw ne at n))
]

size-zero : (m : HashMap) → size m ≡ 0 → (h : ℕ) → find h m ≡ none
unfolding find
size-zero [] z h = refl
size-zero (e ∷ m) z h = absurd (omega (arith, z))

-- One entry of an `all_found` list is found with its value, and the rest too.
all_found_head :
    (e : ℕ × ℕ) (lhs rhs : HashMap)
    → all_found (e ∷ lhs) rhs ≡ true
    → (find e.0 rhs ≡ some e.1) × (all_found lhs rhs ≡ true)
unfolding all_found
all_found_head e lhs rhs h = ground arith

find-cons :
    (h : ℕ) (e : ℕ × ℕ) (m : HashMap) → find h (e ∷ m) ≡ (if e.0 == h then some e.1 else find h m)
unfolding find
find-cons h e m = refl

find-nil : (h : ℕ) → find h [] ≡ none
unfolding find
find-nil h = refl

all_found-find :
    (lhs rhs : HashMap)
    → Distinct lhs
    → Distinct rhs
    → size lhs ≡ size rhs
    → all_found lhs rhs ≡ true
    → (h : ℕ) → find h lhs ≡ find h rhs
all_found-find [] rhs dl dr s a h = rw (find-nil h) (sym (size-zero rhs (sym s) h))
all_found-find (e ∷ lhs) rhs dl dr s a h =
    let (here, rest) = all_found_head e lhs rhs a in
    let ih =
      all_found-find lhs (delete e.0 rhs) dl.1 (delete-Distinct e.0 rhs dr)
        (omega (arith, s, size-delete e.0 e.1 rhs here)) (all_found-delete e.0 lhs rhs dl.0 ∙ rest)
        h in
    ground (arith, ih, here, find-cons h e lhs, find-delete h e.0 rhs dr)

all_found_cons :
    (e : ℕ × ℕ) (lhs rhs : HashMap)
    → find e.0 rhs ≡ some e.1
    → all_found lhs rhs ≡ true
    → all_found (e ∷ lhs) rhs ≡ true
unfolding all_found
all_found_cons e lhs rhs h a = ground arith

find-all_found :
    (lhs rhs : HashMap)
    → Distinct lhs
    → Distinct rhs
    → ((h : ℕ) → find h lhs ≡ find h rhs)
    → (size lhs ≡ size rhs) × (all_found lhs rhs ≡ true)
unfolding all_found
find-all_found [] [] dl dr f = (refl, refl)
find-all_found [] (x ∷ rhs) dl dr f =
    absurd (ground (arith, f x.0, find-cons x.0 x rhs, find-nil x.0))
find-all_found (e ∷ lhs) rhs dl dr f =
    let here : find e.0 rhs ≡ some e.1 = ground (arith, f e.0, find-cons e.0 e lhs) in
    let ih =
      find-all_found lhs (delete e.0 rhs) dl.1 (delete-Distinct e.0 rhs dr)
        (λ h. same_rest h (f h)) in
    (
      omega (arith, ih.0, size-delete e.0 e.1 rhs here),
      all_found_cons e lhs rhs here (sym (all_found-delete e.0 lhs rhs dl.0) ∙ ih.1),
    )
  where
    same_rest : (h : ℕ) → find h (e ∷ lhs) ≡ find h rhs → find h lhs ≡ find h (delete e.0 rhs)
    same_rest h q = ground (
      arith,
      q,
      find-cons h e lhs,
      find-delete h e.0 rhs dr,
      λ (y : e.0 ≡ h). subst (λ k. find k lhs ≡ none) y dl.0,
    )

-- `equal` answers whether two maps, neither of which lists a hash twice, find the same value for
-- every hash.
pub equal_iff :
    (lhs rhs : HashMap)
    → Distinct lhs
    → Distinct rhs
    → (equal lhs rhs ≡ true) ↔ ((h : ℕ) → find h lhs ≡ find h rhs)
unfolding equal
equal_iff lhs rhs dl dr = (
  λ e. all_found-find lhs rhs dl dr (ground arith) (ground arith),
  λ f. let (s, a) = find-all_found lhs rhs dl dr f in ground (arith, s, a),
)
