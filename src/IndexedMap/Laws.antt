-- ===== src/IndexedMap/Laws.antt =====
-- An entry at the end of the map, and maps whose indexes count their entries.
use entangled.Prelude.{
  ℕ, suc, ◌+◌, ◌≡◌, ◌≤◌, ◌<◌, refl, inl, inr, true, false, none, some, [], ◌∷◌, ◌++◌, ◌==◌,
  if◌then◌else◌, arith, length, Bool-cases, Option-cases, ==_iff, sym, ap, ◌∙◌, All,
}
use entangled.HashSet.{HashSet, size}
use entangled.HashSet
use entangled.HashSet.Laws.{Distinct, append-Distinct}
use entangled.IndexedMap.{IndexedMap, IndexedEntry, find, contains}

pub find-append_known :
    (m : IndexedMap) (e k : IndexedEntry) (x : ℕ)
    → find m x ≡ some k
    → find (m ++ e ∷ []) x ≡ some k
unfolding find
find-append_known [] e k x q = absurd (cc)
find-append_known (y ∷ m) e k x q = elim (Bool-cases (y.hash == x)) [
  | inl z ↦ rw z (rw z at q)
  | inr n ↦ rw n (find-append_known m e k x (rw n at q))
]

pub find-append_new :
    (m : IndexedMap) (e : IndexedEntry) (x : ℕ)
    → find m x ≡ none
    → find (m ++ e ∷ []) x ≡ (if e.hash == x then some e else none)
unfolding find
find-append_new [] e x q = refl
find-append_new (y ∷ m) e x q = elim (Bool-cases (y.hash == x)) [
  | inl z ↦ absurd (let q' = rw z at q in cc)
  | inr n ↦ rw n (find-append_new m e x (rw n at q))
]

pub contains-find-none : (m : IndexedMap) (x : ℕ) → contains m x ≡ false → find m x ≡ none
unfolding contains
contains-find-none m x c = ground arith

pub contains-find-some :
    (m : IndexedMap) (x : ℕ) → contains m x ≡ true → (e : IndexedEntry) × (find m x ≡ some e)
unfolding contains
contains-find-some m x c = elim (Option-cases (find m x)) [
  | inl n ↦ absurd (let c' = rw (n, contains) at c in cc)
  | inr s ↦ s
]

pub find-contains :
    (m : IndexedMap) (x : ℕ) (e : IndexedEntry) → find m x ≡ some e → contains m x ≡ true
unfolding contains
find-contains m x e q = rw (q, contains) refl

pub contains-nil : (x : ℕ) → contains [] x ≡ false
unfolding contains find
contains-nil x = refl

pub contains-cons :
    (e : IndexedEntry) (m : IndexedMap) (x : ℕ)
    → contains (e ∷ m) x ≡ (if e.hash == x then true else contains m x)
unfolding contains find
contains-cons e m x = ground arith

pub contains-append :
    (m : IndexedMap) (e : IndexedEntry) (x : ℕ)
    → contains (m ++ e ∷ []) x ≡ (if e.hash == x then true else contains m x)
unfolding contains find
contains-append [] e x = ground arith
contains-append (y ∷ m) e x = ground (arith, contains-append m e x)

-- The indexes go up by one from the first.
unfoldable pub IsNumbered : ℕ → IndexedMap → Type 0
IsNumbered n [] = Unit
IsNumbered n (e ∷ m) = (e.idx ≡ n) × IsNumbered (suc n) m

pub append-IsNumbered :
    (n : ℕ) (m : IndexedMap) (e : IndexedEntry)
    → IsNumbered n m
    → e.idx ≡ n + length m
    → IsNumbered n (m ++ e ∷ [])
unfolding IsNumbered
append-IsNumbered n [] e i q = (omega (arith, q), tt)
append-IsNumbered n (y ∷ m) e i q = (i.0, append-IsNumbered (suc n) m e i.1 (omega (arith, q)))

pub idx-bounds :
    (n : ℕ) (m : IndexedMap) (x : ℕ) (e : IndexedEntry)
    → IsNumbered n m
    → find m x ≡ some e
    → (n ≤ e.idx) × (e.idx < n + length m)
unfolding find IsNumbered
idx-bounds n [] x e i q = absurd (cc)
idx-bounds n (y ∷ m) x e i q = elim (Bool-cases (y.hash == x)) [
  | inl z ↦
      let one : some y ≡ some e = rw z at q in
      let same : y ≡ e = cc in rw (sym same, i.0) (omega arith, omega arith)
  | inr k ↦
      let b = idx-bounds (suc n) m x e i.1 (rw k at q) in (omega (arith, b.0), omega (arith, b.1))
]

pub find-hash : (m : IndexedMap) (x : ℕ) (e : IndexedEntry) → find m x ≡ some e → e.hash ≡ x
unfolding find
find-hash [] x e q = absurd (cc)
find-hash (y ∷ m) x e q = elim (Bool-cases (y.hash == x)) [
  | inl z ↦
      let one : some y ≡ some e = rw z at q in
      let same : y ≡ e = cc in rw (sym same) ((==_iff y.hash x).0 z)
  | inr k ↦ find-hash m x e (rw k at q)
]

-- An index stands for one hash.
pub idx-apart :
    (n : ℕ) (m : IndexedMap) (x x' : ℕ) (e e' : IndexedEntry)
    → IsNumbered n m
    → find m x ≡ some e
    → find m x' ≡ some e'
    → e.idx ≡ e'.idx
    → x ≡ x'
unfolding find IsNumbered
idx-apart n [] x x' e e' i q q' s = absurd (cc)
idx-apart n (y ∷ m) x x' e e' i q q' s = elim (Bool-cases (y.hash == x)) [
  | inl z ↦ elim (Bool-cases (y.hash == x')) [
    | inl z' ↦ sym ((==_iff y.hash x).0 z) ∙ (==_iff y.hash x').0 z'
    | inr k' ↦
        let one : some y ≡ some e = rw z at q in
        let same : y ≡ e = cc in
        let first : e.idx ≡ n = rw (sym same) i.0 in
        absurd (omega (arith, first, s, (idx-bounds (suc n) m x' e' i.1 (rw k' at q')).0))
  ]
  | inr k ↦ elim (Bool-cases (y.hash == x')) [
    | inl z' ↦
        let one : some y ≡ some e' = rw z' at q' in
        let same : y ≡ e' = cc in
        let first : e'.idx ≡ n = rw (sym same) i.0 in
        absurd (omega (arith, first, s, (idx-bounds (suc n) m x e i.1 (rw k at q)).0))
    | inr k' ↦ idx-apart (suc n) m x x' e e' i.1 (rw k at q) (rw k' at q') s
  ]
]

-- The hashes of the map.
unfoldable pub keys : IndexedMap → HashSet
keys [] = []
keys (e ∷ m) = e.hash ∷ keys m

pub contains-keys : (m : IndexedMap) (h : ℕ) → HashSet.contains (keys m) h ≡ contains m h
unfolding keys HashSet.contains
contains-keys [] h = sym (contains-nil h)
contains-keys (e ∷ m) h = ground (arith, contains-keys m h, contains-cons e m h)

pub append-Distinct-keys :
    (m : IndexedMap) (e : IndexedEntry)
    → Distinct (keys m)
    → contains m e.hash ≡ false
    → Distinct (keys (m ++ e ∷ []))
unfolding keys
append-Distinct-keys m e d n =
    rw (keys_append m e) (append-Distinct e.hash (keys m) d (contains-keys m e.hash ∙ n))
  where
    keys_append : (k : IndexedMap) (x : IndexedEntry) → keys (k ++ x ∷ []) ≡ keys k ++ x.hash ∷ []
    keys_append [] x = refl
    keys_append (y ∷ k) x = ap (λ t. y.hash ∷ t) (keys_append k x)

pub size-keys : (m : IndexedMap) → size (keys m) ≡ length m
unfolding keys
size-keys [] = refl
size-keys (e ∷ m) = omega (arith, size-keys m)

-- What holds of every hash that the map has, holds of every entry's.
pub hashes-All :
    (P : ℕ → Type 0) (m : IndexedMap)
    → ((h : ℕ) → contains m h ≡ true → P h)
    → All (λ (e : IndexedEntry). P e.hash) m
hashes-All P [] f = tt
hashes-All P (e ∷ m) f = (
  f e.hash (rw (contains-cons e m e.hash, (==_iff e.hash e.hash).1 refl) refl),
  hashes-All P m (λ h c. f h (ground (arith, contains-cons e m h, c))),
)
