-- ===== src/TipSelection/CwRating/Counts.antt =====
-- The light walk counts exactly the transactions that it can reach.
use entangled.Prelude.{
  ℕ, zero, suc, ◌+◌, ◌≡◌, ◌≤◌, ◌<◌, refl, inl, inr, Bool, true, false, Option, none, some, [], ◌∷◌,
  ◌++◌, ◌==◌, arith, length, All, chosen, Bool-cases, ==_iff, sym, ◌∙◌,
}
use entangled.Outcome.{Outcome, done}
use entangled.HashSet.{HashSet, HashStack, contains, push, size}
use entangled.HashSet.Laws.{Distinct, contains-append, append-Distinct, size-append}
use entangled.IndexedMap.{IndexedMap, IndexedEntry, find}
use entangled.Bitset.{Bitset, bitset_is_set, bitset_set_true}
use entangled.Bitset.Laws.{is_set-set_true}
use entangled.TipSelection.CwRating.{
  Light, Round, halted, going, visit, entry_found, peeked, round, continued, run, dfs_light,
}
use entangled.TipSelection.CwRating.Visits.{
  Reach, at_start, from, pushed_all, contains-pushed_all, length-pushed_all, pushed_all-All,
  for_each-push, weight, weight-visit,
}

-- Each index is below 64 and stands for one hash.
pub record IsIndexed (m : IndexedMap) : Type 0 where
  pub small : (h : ℕ) (e : IndexedEntry) → find m h ≡ some e → e.idx < 64
  pub apart :
      (h h' : ℕ) (e e' : IndexedEntry)
      → find m h ≡ some e
      → find m h' ≡ some e'
      → e.idx ≡ e'.idx
      → h ≡ h'

-- The hashes `vs` are those that the map has and that the walk can reach.
pub record IsFuture (m : IndexedMap) (ep : ℕ) (vs : HashSet) : Type 0 where
  pub distinct : Distinct vs
  pub sound : (h : ℕ) → contains vs h ≡ true → Reach m ep h
  pub known : (h : ℕ) → contains vs h ≡ true → (e : IndexedEntry) × (find m h ≡ some e)
  pub complete :
      (h : ℕ) (e : IndexedEntry) → Reach m ep h → find m h ≡ some e → contains vs h ≡ true

-- An entry of the map that is not visited waits on the stack.
abbrev Pending : IndexedMap → HashStack → HashSet → ℕ → Type 0
Pending m st vs a =
    (e : IndexedEntry) → find m a ≡ some e → contains vs a ≡ false → contains st a ≡ true

record Inv (bit : ℕ → ℕ) (m : IndexedMap) (ep : ℕ) (w : Light) (st : HashStack) (vs : HashSet)
    : Type 0 where
  distinct : Distinct vs
  counted : w.subtangle_size ≡ size vs
  bits :
      (h : ℕ) (e : IndexedEntry)
      → find m h ≡ some e
      → bitset_is_set bit w.visited e.idx ≡ contains vs h
  sound : (h : ℕ) → contains vs h ≡ true → Reach m ep h
  known : (h : ℕ) → contains vs h ≡ true → (e : IndexedEntry) × (find m h ≡ some e)
  stacked : All (Reach m ep) st
  closed :
      (h a : ℕ) (e : IndexedEntry)
      → contains vs h ≡ true
      → find m h ≡ some e
      → contains e.approvers a ≡ true
      → Pending m st vs a
  start : Pending m st vs ep

module _ (bit : ℕ → ℕ) (below : (n : ℕ) → n < 64 → bit n ≡ n) (malloc : ℕ → Bool)
    (enough : (h : ℕ) → malloc h ≡ true) (m : IndexedMap) (indexed : IsIndexed m) (ep : ℕ) where
  -- The hash at the top is not needed any more.
  Pending-pop :
      (h : ℕ) (rest : HashStack) (vs : HashSet) (a : ℕ)
      → ((e : IndexedEntry) → find m h ≡ some e → contains vs h ≡ true)
      → Pending m (h ∷ rest) vs a
      → Pending m rest vs a
  unfolding contains
  Pending-pop h rest vs a f p e q n = elim (Bool-cases (h == a)) [
    | inl y ↦
        let same : h ≡ a = (==_iff h a).0 y in
        let c : contains vs a ≡ true = rw (sym same) (f e (rw same q)) in absurd (cc)
    | inr z ↦ let c = p e q n in rw z at c
  ]

  Inv-pop :
      (w : Light) (h : ℕ) (rest : HashStack) (vs : HashSet)
      → ((e : IndexedEntry) → find m h ≡ some e → contains vs h ≡ true)
      → Inv bit m ep w (h ∷ rest) vs
      → Inv bit m ep (record w { stack = rest }) rest vs
  Inv-pop w h rest vs f i = record {
    distinct = i.distinct;
    counted = i.counted;
    bits = i.bits;
    sound = i.sound;
    known = i.known;
    stacked = i.stacked.1;
    closed = λ x a e c q s. Pending-pop h rest vs a f (i.closed x a e c q s);
    start = Pending-pop h rest vs ep f i.start;
  }

  -- The hash at the top is visited, and its approvers are pushed.
  Pending-visit :
      (h : ℕ) (e : IndexedEntry) (rest : HashStack) (vs : HashSet) (a : ℕ)
      → Pending m (h ∷ rest) vs a
      → Pending m (pushed_all e.approvers rest) (vs ++ h ∷ []) a
  unfolding contains
  Pending-visit h e rest vs a p x q n = elim (Bool-cases (h == a)) [
    | inl y ↦ absurd (ground (arith, contains-append a h vs, n))
    | inr z ↦ ground (arith, p x q, contains-append a h vs, contains-pushed_all e.approvers rest a)
  ]

  bits_visit :
      (w : Light) (h : ℕ) (e : IndexedEntry) (vs : HashSet)
      → find m h ≡ some e
      → ((x : ℕ) (k : IndexedEntry)
          → find m x ≡ some k
          → bitset_is_set bit w.visited k.idx ≡ contains vs x)
      → (x : ℕ) (k : IndexedEntry) → find m x ≡ some k
      → bitset_is_set bit (bitset_set_true bit w.visited e.idx) k.idx ≡ contains (vs ++ h ∷ []) x
  bits_visit w h e vs q f x k r =
      rw
        (
          is_set-set_true bit below w.visited e.idx k.idx (indexed.small h e q)
              (indexed.small x k r),
          contains-append x h vs,
          f x k r,
        )
        (elim (Bool-cases (k.idx == e.idx)) [
          | inl y ↦
              let same : h ≡ x = indexed.apart h x e k q r (sym ((==_iff k.idx e.idx).0 y)) in
              ground (arith, y, same)
          | inr z ↦ elim (Bool-cases (h == x)) [
            | inl y ↦
                let same : h ≡ x = (==_iff h x).0 y in
                let one : some e ≡ some k = sym q ∙ rw same r in
                let both : e ≡ k = cc in absurd (ground (arith, both, z))
            | inr n ↦ rw (z, n) refl
          ]
        ])

  Inv-visit :
      (w : Light) (h : ℕ) (e : IndexedEntry) (rest : HashStack) (vs : HashSet)
      → find m h ≡ some e
      → contains vs h ≡ false
      → Inv bit m ep w (h ∷ rest) vs
      → Inv bit m ep
          (record {
            stack = pushed_all e.approvers rest;
            visited = bitset_set_true bit w.visited e.idx;
            subtangle_size = suc w.subtangle_size;
          })
          (pushed_all e.approvers rest)
          (vs ++ h ∷ [])
  Inv-visit w h e rest vs q n i = record {
    distinct = append-Distinct h vs i.distinct n;
    counted = omega (arith, i.counted, size-append h vs);
    bits = bits_visit w h e vs q i.bits;
    sound = λ x c. by_last (Reach m ep) i.sound i.stacked.0 x c;
    known = λ x c. by_last (λ y. (k : IndexedEntry) × (find m y ≡ some k)) i.known (e, q) x c;
    stacked =
        pushed_all-All (Reach m ep) e.approvers rest (λ a c. from e i.stacked.0 q c) i.stacked.1;
    closed = λ x a k c r s. closed_visit x a k c r s;
    start = Pending-visit h e rest vs ep i.start;
  }
    where
      by_last :
          (P : ℕ → Type 0)
          → ((x : ℕ) → contains vs x ≡ true → P x)
          → P h
          → (x : ℕ) → contains (vs ++ h ∷ []) x ≡ true
          → P x
      by_last P f p x c = elim (Bool-cases (h == x)) [
        | inl y ↦ rw (sym ((==_iff h x).0 y)) p
        | inr z ↦ f x (ground (arith, contains-append x h vs, c, z))
      ]

      approver_pending :
          (a : ℕ)
          → contains e.approvers a ≡ true
          → Pending m (pushed_all e.approvers rest) (vs ++ h ∷ []) a
      approver_pending a c k r z = ground (arith, contains-pushed_all e.approvers rest a, c)

      closed_visit :
          (x a : ℕ) (k : IndexedEntry)
          → contains (vs ++ h ∷ []) x ≡ true
          → find m x ≡ some k
          → contains k.approvers a ≡ true
          → Pending m (pushed_all e.approvers rest) (vs ++ h ∷ []) a
      closed_visit x a k c r s = elim (Bool-cases (h == x)) [
        | inl y ↦
            let same : h ≡ x = (==_iff h x).0 y in
            let one : some e ≡ some k = sym q ∙ rw same r in
            let both : k ≡ e = cc in approver_pending a (let s' = s in rw both at s')
        | inr z ↦
            Pending-visit h e rest vs a
              (i.closed x a k (ground (arith, contains-append x h vs, c, z)) r s)
      ]

  -- With nothing on the stack, what is visited is closed.
  complete_visit :
      (w : Light) (vs : HashSet)
      → Inv bit m ep w [] vs
      → (h : ℕ) (e : IndexedEntry) → Reach m ep h
      → find m h ≡ some e
      → contains vs h ≡ true
  unfolding contains
  complete_visit w vs i h e at_start q = elim (Bool-cases (contains vs ep)) [
    | inl y ↦ y
    | inr n ↦ absurd (let c = i.start e q n in cc)
  ]
  complete_visit w vs i a e (from {h} k r q c) p = elim (Bool-cases (contains vs a)) [
    | inl y ↦ y
    | inr n ↦ absurd (let s = i.closed h a k (complete_visit w vs i h k r q) q c e p n in cc)
  ]

  -- A walk that ends with the count of the future of the entry point.
  abbrev pub IsCounted : Option (Outcome Light) → Type 0
  IsCounted r =
      (w : Light) × (r ≡ some (done w))
      × (vs : HashSet) × (w.subtangle_size ≡ size vs)
      × IsFuture m ep vs

  abbrev measure : HashStack → HashSet → ℕ
  measure st vs = length st + weight m vs

  -- What a round leaves: the end of the walk, or less to do.
  abbrev Advances : ℕ → Round → Type 0
  Advances n (halted r) = IsCounted (some r)
  Advances n (going w) = (vs : HashSet) × (measure w.stack vs < n) × Inv bit m ep w w.stack vs

  visit-Advances :
      (w : Light) (h : ℕ) (e : IndexedEntry) (rest : HashStack) (vs : HashSet)
      → find m h ≡ some e
      → contains vs h ≡ false
      → Inv bit m ep w (h ∷ rest) vs
      → Advances (measure (h ∷ rest) vs) (visit bit malloc m (record w { stack = rest }) e)
  unfolding visit
  visit-Advances w h e rest vs q n i = rw (for_each-push malloc enough e.approvers rest) (
    vs ++ h ∷ [],
    omega (arith, length-pushed_all e.approvers rest, weight-visit m vs h e q n),
    Inv-visit w h e rest vs q n i,
  )

  pop-Advances :
      (w : Light) (h : ℕ) (rest : HashStack) (vs : HashSet)
      → ((e : IndexedEntry) → find m h ≡ some e → contains vs h ≡ true)
      → Inv bit m ep w (h ∷ rest) vs
      → Advances (measure (h ∷ rest) vs) (going (record w { stack = rest }))
  pop-Advances w h rest vs f i = (vs, omega arith, Inv-pop w h rest vs f i)

  entry_found-Advances :
      (w : Light) (h : ℕ) (rest : HashStack) (vs : HashSet) (found : Option IndexedEntry)
      → find m h ≡ found
      → Inv bit m ep w (h ∷ rest) vs
      → Advances
          (measure (h ∷ rest) vs)
          (entry_found bit malloc m (record w { stack = rest }) found)
  entry_found-Advances w h rest vs none q i =
      pop-Advances w h rest vs (λ e r. let z = sym q ∙ r in absurd (cc)) i
  entry_found-Advances w h rest vs (some e) q i =
      chosen (Advances (measure (h ∷ rest) vs)) (bitset_is_set bit w.visited e.idx) _ _
        (λ y. pop-Advances w h rest vs (λ k r. sym (i.bits h e q) ∙ y) i)
        (λ n. visit-Advances w h e rest vs q (sym (i.bits h e q) ∙ n) i)

  peeked-Advances :
      (w : Light) (st : HashStack) (vs : HashSet)
      → Inv bit m ep w st vs
      → Advances (measure st vs) (peeked bit malloc m w st)
  peeked-Advances w [] vs i = (
    w,
    refl,
    vs,
    i.counted,
    record {
      distinct = i.distinct;
      sound = i.sound;
      known = i.known;
      complete = complete_visit w vs i;
    },
  )
  peeked-Advances w (h ∷ rest) vs i = entry_found-Advances w h rest vs (find m h) refl i

  continued-Counted :
      (n fuel : ℕ) (r : Round)
      → ((w : Light) (vs : HashSet)
          → measure w.stack vs < fuel
          → Inv bit m ep w w.stack vs
          → IsCounted (run bit malloc m fuel w))
      → n ≤ fuel
      → Advances n r
      → IsCounted (continued bit malloc m (run bit malloc m fuel) r)
  continued-Counted n fuel (halted r) k p a = a
  continued-Counted n fuel (going w) k p a = k w a.0 (omega (arith, p, a.1)) a.2

  run-Counted :
      (fuel : ℕ) (w : Light) (vs : HashSet)
      → measure w.stack vs < fuel
      → Inv bit m ep w w.stack vs
      → IsCounted (run bit malloc m fuel w)
  unfolding run round
  run-Counted zero w vs p i = absurd (omega (arith, p))
  run-Counted (suc fuel) w vs p i =
      continued-Counted (measure w.stack vs) fuel (round bit malloc m w) (run-Counted fuel)
        (omega (arith, p)) (peeked-Advances w w.stack vs i)

  -- When no allocation fails, every index of the map is below 64 and stands for one hash, and the
  -- bits start empty, the light walk from a hash ends, with fuel for the approvers of every entry,
  -- and counts the hashes of the map that it can reach from there, each once.
  pub dfs_light-counts :
      (fuel : ℕ) (visited : Bitset)
      → ((i : ℕ) → bitset_is_set bit visited i ≡ false)
      → weight m [] + 1 < fuel
      → IsCounted (dfs_light bit malloc m fuel ep visited)
  unfolding dfs_light push contains
  dfs_light-counts fuel visited blank p = rw (enough ep) (
      run-Counted fuel (record { stack = ep ∷ []; visited = visited; subtangle_size = 0 }) []
        (omega (arith, p))
        (record {
          distinct = tt;
          counted = refl;
          bits = λ h e q. blank e.idx;
          sound = λ h c. absurd (cc);
          known = λ h c. absurd (cc);
          stacked = (at_start, tt);
          closed = λ h a e c q s. absurd (cc);
          start = λ e q n. ground arith;
        }))
