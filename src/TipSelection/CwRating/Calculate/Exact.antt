-- ===== src/TipSelection/CwRating/Calculate/Exact.antt =====
-- The rating of a transaction is the size of its future.
use entangled.Prelude.{
  ℕ, ◌≡◌, ◌≢◌, ◌≤◌, ◌<◌, ◌⊎◌, refl, inl, inr, Bool, true, false, none, some, List, [], ◌∷◌, ◌++◌,
  ◌==◌, arith, length, Bool-cases, Option-cases, ==_iff, sym, ◌∙◌,
}
use entangled.Outcome.{done}
use entangled.HashSet.{HashSet, contains, size}
use entangled.HashSet.Laws.{Distinct}
use entangled.HashMap.{HashMap}
use entangled.HashMap
use entangled.HashMap.Lookup.{find-append}
use entangled.IndexedMap.{IndexedMap}
use entangled.IndexedMap.Laws.{idx-bounds, idx-apart}
use entangled.Bitset.{Bitset, bitset_reset, bitset_is_set}
use entangled.TipSelection.CwRating.Visits.{Reach, at_start, from, weight}
use entangled.TipSelection.CwRating.Counts.{IsIndexed, IsFuture}
use entangled.TipSelection.CwRating.FromDb.Future.{Future, here, later, IsFutureMap}
use entangled.TipSelection.CwRating.Calculate.{total_approvers}

-- The number of the transactions in the future of `h`, `h` included.
pub record IsFutureSize (children : ℕ → List ℕ) (h n : ℕ) : Type 0 where
  pub future : HashSet
  pub counted : n ≡ size future
  pub distinct : Distinct future
  pub sound : (a : ℕ) → contains future a ≡ true → Future children h a
  pub complete : (a : ℕ) → Future children h a → contains future a ≡ true

pub weight-nil : (m : IndexedMap) → weight m [] ≡ total_approvers m
unfolding weight total_approvers contains
weight-nil [] = refl
weight-nil (e ∷ m) = omega (arith, weight-nil m)

Future-trans :
    (children : ℕ → List ℕ) (ep h a : ℕ)
    → Future children ep h
    → Future children h a
    → Future children ep a
Future-trans children ep h _ f here = f
Future-trans children ep h a f (later g c) = later (Future-trans children ep h _ f g) c

-- The map after an addition.
pub record Extends (r : HashMap) (h v : ℕ) (r' : HashMap) : Type 0 where
  pub keeps : (k n : ℕ) → HashMap.find k r ≡ some n → HashMap.find k r' ≡ some n
  pub only :
      (k n : ℕ) → HashMap.find k r' ≡ some n → (HashMap.find k r ≡ some n) ⊎ ((h ≡ k) × (v ≡ n))
  pub has : (n : ℕ) × (HashMap.find h r' ≡ some n)

pub add-Extends :
    (malloc : ℕ → Bool)
    → ((h : ℕ) → malloc h ≡ true)
    → (h v : ℕ) (r : HashMap)
    → (r' : HashMap) × (HashMap.add malloc h v r ≡ done r') × Extends r h v r'
unfolding HashMap.add
add-Extends malloc enough h v r = elim (Option-cases (HashMap.find h r)) [
  | inr (w, q) ↦ (
    r,
    rw (q, HashMap.add) refl,
    record { keeps = λ k n f. f; only = λ k n f. inl f; has = (w, q) },
  )
  | inl q ↦ (
    r ++ (h, v) ∷ [],
    rw (q, HashMap.add) (rw (enough h) refl),
    record {
      keeps = λ k n f. rw (find-append k h v r, f) refl;
      only = λ k n f. new_only q k n f;
      has = (v, rw (find-append h h v r, q, (==_iff h h).1 refl) refl);
    },
  )
]
  where
    new_only :
        HashMap.find h r ≡ none
        → (k n : ℕ) → HashMap.find k (r ++ (h, v) ∷ []) ≡ some n
        → (HashMap.find k r ≡ some n) ⊎ ((h ≡ k) × (v ≡ n))
    new_only q k n f = elim (Option-cases (HashMap.find k r)) [
      | inr (w, s) ↦ inl (s ∙ (let f' = rw (find-append k h v r, s) at f in f'))
      | inl s ↦ elim (Bool-cases (h == k)) [
        | inl y ↦
            let f' : some v ≡ some n = rw (find-append k h v r, s, y) at f in
            inr ((==_iff h k).0 y, cc)
        | inr z ↦ absurd (let f' = rw (find-append k h v r, s, z) at f in cc)
      ]
    ]

pub reset_blank :
    (bit : ℕ → ℕ) (b : Bitset) → b.size ≢ 0 → (i : ℕ) → bitset_is_set bit (bitset_reset b) i ≡ false
unfolding bitset_is_set bitset_reset
reset_blank bit b n i = elim (Bool-cases (b.size == 0)) [
  | inl y ↦ absurd (n ((==_iff b.size 0).0 y))
  | inr z ↦ rw z refl
]

module _ (bit : ℕ → ℕ) (below : (n : ℕ) → n < 64 → bit n ≡ n) (malloc : ℕ → Bool)
    (enough : (h : ℕ) → malloc h ≡ true) (children : ℕ → List ℕ) (ep : ℕ) (m : IndexedMap)
    (mapped : IsFutureMap children ep m) (small : length m ≤ 64) where
  pub indexed : IsIndexed m
  indexed = record {
    small = λ h e q. omega (arith, small, (idx-bounds 0 m h e mapped.numbered q).1);
    apart = λ h h' e e' q q' s. idx-apart 0 m h h' e e' mapped.numbered q q' s;
  }

  Reach-Future : (h a : ℕ) → Reach m h a → Future children h a
  Reach-Future h _ at_start = here
  Reach-Future h a (from {h = x} e r q c) =
      later (Reach-Future h x r) (sym (mapped.told x a e q) ∙ c)

  Future-Reach : (h a : ℕ) → Future children ep h → Future children h a → Reach m h a
  Future-Reach h _ f here = at_start
  Future-Reach h a f (later {h = x} g c) =
      let (e, q) = mapped.complete x (Future-trans children ep h x f g) in
      from e (Future-Reach h x f g) q (mapped.told x a e q ∙ c)

  pub count-Future :
      (h n : ℕ) (vs : HashSet)
      → Future children ep h
      → n ≡ size vs
      → IsFuture m h vs
      → IsFutureSize children h n
  count-Future h n vs f q i = record {
    future = vs;
    counted = q;
    distinct = i.distinct;
    sound = λ a c. Reach-Future h a (i.sound a c);
    complete = λ a g.
        let (e, s) = mapped.complete a (Future-trans children ep h a f g) in
        i.complete a e (Future-Reach h a f g) s;
  }
