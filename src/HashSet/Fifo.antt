-- ===== src/HashSet/Fifo.antt =====
-- A set that is kept below a capacity by dropping its oldest entry before one is added: what the
-- tips cache and the transaction requester do.
use mathlib.Core.List.{reverse, reverse-cons, append_assoc}
use entangled.Prelude.{
  ℕ, ◌≡◌, ◌≤◌, ◌<◌, refl, inl, inr, Bool, true, [], ◌∷◌, ◌++◌, arith, ◌==◌, if◌then◌else◌, leb, ap,
  ==_iff, Bool-cases,
}
use entangled.Outcome.{done, left, for_each}
use entangled.HashSet.{HashSet, size, contains, HashStack, push, add, remove_first}
use entangled.HashSet.Laws.{Distinct, append-Distinct, add_cases, size-append, contains-append}

-- The oldest entry is dropped when the set has reached its capacity.
abbrev pub make_room : ℕ → HashSet → HashSet
make_room capacity s = if leb capacity (size s) then remove_first s else s

pub make_room-Distinct : (c : ℕ) (s : HashSet) → Distinct s → Distinct (make_room c s)
unfolding remove_first
make_room-Distinct c [] d = elim (Bool-cases (leb c 0)) [ inl y ↦ rw y tt | inr n ↦ rw n tt ]
make_room-Distinct c (x ∷ s) d = elim (Bool-cases (leb c (size (x ∷ s)))) [
  | inl y ↦ rw y d.1
  | inr n ↦ rw n d
]

pub size-make_room : (c : ℕ) (s : HashSet) → 0 < c → size s ≤ c → size (make_room c s) < c
unfolding remove_first
size-make_room c [] p h = ground arith
size-make_room c (x ∷ s) p h = ground arith

pub add-make_room-Distinct :
    (malloc : ℕ → Bool) (c h : ℕ) (s : HashSet)
    → Distinct s
    → Distinct (left (add malloc h (make_room c s)))
add-make_room-Distinct malloc c h s d =
    let d' = make_room-Distinct c s d in
    add_cases (λ r. Distinct (left r)) malloc h (make_room c s) (λ _. d')
      (append-Distinct h (make_room c s) d') (λ _. d')

pub size-add-make_room :
    (malloc : ℕ → Bool) (c h : ℕ) (s : HashSet)
    → 0 < c
    → size s ≤ c
    → size (left (add malloc h (make_room c s))) ≤ c
size-add-make_room malloc c h s p b =
    let b' = size-make_room c s p b in
    add_cases (λ r. size (left r) ≤ c) malloc h (make_room c s) (λ _. omega (arith, b'))
      (λ _. omega (arith, b', size-append h (make_room c s))) (λ _. omega (arith, b'))

-- What is added is there.
pub contains-add :
    (malloc : ℕ → Bool) (h : ℕ) (s t : HashSet) → add malloc h s ≡ done t → contains t h ≡ true
contains-add malloc h s t =
    add_cases (λ r. r ≡ done t → contains t h ≡ true) malloc h s (λ y e. ground arith)
      (λ n e. ground (arith, contains-append h h s)) (λ _ e. absurd (cc))

-- What is there stays when something is added.
pub contains-add_old :
    (malloc : ℕ → Bool) (h x : ℕ) (s : HashSet)
    → contains s x ≡ true
    → contains (left (add malloc h s)) x ≡ true
contains-add_old malloc h x s c =
    add_cases (λ r. contains (left r) x ≡ true) malloc h s (λ y. c)
      (λ n. ground (arith, contains-append x h s, c)) (λ _. c)

-- A loop that pushes a set reverses it onto the stack.
pub push_all :
    (s : HashSet) (stack : HashStack)
    → for_each (push (λ _. true)) s stack ≡ done (reverse s ++ stack)
unfolding for_each push
push_all [] stack = refl
push_all (x ∷ s) stack =
    rw (push_all s (x ∷ stack), reverse-cons x s, append_assoc (reverse s) (x ∷ []) stack) refl

-- With memory, a set has what it had and what is added.
pub contains-left-add :
    (h x : ℕ) (s : HashSet)
    → contains (left (add (λ _. true) h s)) x ≡ (if h == x then true else contains s x)
unfolding add
contains-left-add h x s = elim (Bool-cases (h == x)) [
  | inl y ↦
      let same : h ≡ x = (==_iff h x).0 y in
      ground (arith, contains-append x h s, ap (contains s) same)
  | inr n ↦ ground (arith, contains-append x h s)
]
