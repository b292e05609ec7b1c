-- ===== src/TipSelection/CwRating/Visits.antt =====
-- The light walk counts what it can reach.
use entangled.Prelude.{
  ℕ, ◌+◌, ◌≡◌, ◌≤◌, refl, inl, inr, Bool, true, false, some, List, [], ◌∷◌, ◌++◌, ◌==◌,
  if◌then◌else◌, arith, length, All, Bool-cases, ==_iff, sym,
}
use entangled.Outcome.{done, for_each}
use entangled.HashSet.{HashSet, HashStack, contains, push}
use entangled.HashSet.Laws.{contains-append}
use entangled.IndexedMap.{IndexedMap, IndexedEntry, find}

-- From a hash to the approvers that the map has for it, and on.
pub data Reach (m : IndexedMap) (ep : ℕ) : ℕ → Type 0 where
  at_start : Reach m ep ep
  from :
      {h a : ℕ} (e : IndexedEntry)
      → Reach m ep h
      → find m h ≡ some e
      → contains e.approvers a ≡ true
      → Reach m ep a

-- The stack after a list is pushed on it.
abbrev pub pushed_all : List ℕ → HashStack → HashStack
pushed_all [] s = s
pushed_all (x ∷ xs) s = pushed_all xs (x ∷ s)

pub contains-pushed_all :
    (xs : List ℕ) (s : HashStack) (a : ℕ)
    → contains (pushed_all xs s) a ≡ (if contains xs a then true else contains s a)
unfolding contains
contains-pushed_all [] s a = refl
contains-pushed_all (x ∷ xs) s a = ground (arith, contains-pushed_all xs (x ∷ s) a)

pub length-pushed_all :
    (xs : List ℕ) (s : HashStack) → length (pushed_all xs s) ≡ length xs + length s
length-pushed_all [] s = omega arith
length-pushed_all (x ∷ xs) s = omega (arith, length-pushed_all xs (x ∷ s))

pub pushed_all-All :
    (P : ℕ → Type 0) (xs : List ℕ) (s : HashStack)
    → ((a : ℕ) → contains xs a ≡ true → P a)
    → All P s
    → All P (pushed_all xs s)
unfolding contains
pushed_all-All P [] s f q = q
pushed_all-All P (x ∷ xs) s f q =
    pushed_all-All P xs (x ∷ s) (λ a c. f a (ground (arith, c))) (f x (ground arith), q)

pub for_each-push :
    (malloc : ℕ → Bool)
    → ((h : ℕ) → malloc h ≡ true)
    → (xs : List ℕ) (s : HashStack) → for_each (push malloc) xs s ≡ done (pushed_all xs s)
unfolding for_each push
for_each-push malloc enough [] s = refl
for_each-push malloc enough (x ∷ xs) s = rw (enough x) (for_each-push malloc enough xs (x ∷ s))

-- The approvers of the entries that are not visited, counted.
unfoldable pub weight : IndexedMap → HashSet → ℕ
weight [] vs = 0
weight (e ∷ m) vs =
    let rest = weight m vs in if contains vs e.hash then rest else length e.approvers + rest

weight-le : (m : IndexedMap) (vs : HashSet) (h : ℕ) → weight m (vs ++ h ∷ []) ≤ weight m vs
unfolding weight
weight-le [] vs h = omega arith
weight-le (e ∷ m) vs h = ground (arith, weight-le m vs h, contains-append e.hash h vs)

pub weight-visit :
    (m : IndexedMap) (vs : HashSet) (h : ℕ) (e : IndexedEntry)
    → find m h ≡ some e
    → contains vs h ≡ false
    → weight m (vs ++ h ∷ []) + length e.approvers ≤ weight m vs
unfolding weight find
weight-visit [] vs h e f n = absurd (cc)
weight-visit (x ∷ m) vs h e f n = elim (Bool-cases (x.hash == h)) [
  | inl y ↦
      let same : some x ≡ some e = rw (sym f, y) refl in
      let got : x ≡ e = cc in
      let q : x.hash ≡ h = (==_iff x.hash h).0 y in
      ground (arith, got, q, n, weight-le m vs h, contains-append x.hash h vs)
  | inr z ↦
      ground
        (arith, weight-le m vs h, contains-append x.hash h vs, weight-visit m vs h e (rw z at f) n)
]
