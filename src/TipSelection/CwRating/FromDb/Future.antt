-- ===== src/TipSelection/CwRating/FromDb/Future.antt =====
-- The walk over the database maps the future of the entry point, and nothing else.
use entangled.Prelude.{
  ℕ, suc, ◌≡◌, ◌⊎◌, refl, inl, inr, Bool, true, false, some, List, [], ◌∷◌, ◌++◌, ◌==◌,
  if◌then◌else◌, arith, length, length-append, All, Bool-cases, ==_iff, sym,
}
use entangled.Outcome.{Retcode, done, for_each}
use entangled.HashSet.{HashSet, HashStack, contains, push}
use entangled.HashSet
use entangled.HashSet.Laws.{Distinct, contains-append}
use entangled.IndexedMap.{IndexedMap, IndexedEntry, find, add_new_set}
use entangled.IndexedMap
use entangled.IndexedMap.Laws.{
  IsNumbered, append-IsNumbered, find-append_known, find-append_new, find-hash, find-contains,
  contains-find-none, contains-find-some, keys,
}
use entangled.IndexedMap.Laws as Laws
use entangled.TipSelection.CwRating.FromDb.{
  FromDb, going, Linked, assign_approvers, backwards, link, queried,
}
use entangled.TipSelection.CwRating.Visits.{pushed_all, contains-pushed_all}

-- The set after a list is added to it.
abbrev pub added_all : List ℕ → HashSet → HashSet
added_all [] s = s
added_all (x ∷ xs) s = added_all xs (if contains s x then s else s ++ x ∷ [])

contains-add_one :
    (s : HashSet) (x a : ℕ)
    → contains (if contains s x then s else s ++ x ∷ []) a ≡ (if x == a then true else contains s a)
contains-add_one s x a = elim (Bool-cases (contains s x)) [
  | inl y ↦ elim (Bool-cases (x == a)) [
    | inl z ↦ let same : x ≡ a = (==_iff x a).0 z in rw (y, z, sym same) y
    | inr n ↦ rw (y, n) refl
  ]
  | inr n ↦ rw n (contains-append a x s)
]

pub contains-added_all :
    (xs : List ℕ) (s : HashSet) (a : ℕ)
    → contains (added_all xs s) a ≡ (if contains xs a then true else contains s a)
unfolding contains
contains-added_all [] s a = refl
contains-added_all (x ∷ xs) s a = ground (
  arith,
  contains-added_all xs (if contains s x then s else s ++ x ∷ []) a,
  contains-add_one s x a,
)

pub contains-backwards : (xs : List ℕ) (a : ℕ) → contains (backwards xs) a ≡ contains xs a
unfolding contains backwards
contains-backwards [] a = refl
contains-backwards (x ∷ xs) a =
    ground (arith, contains-append a x (backwards xs), contains-backwards xs a)

pub length-backwards : (xs : List ℕ) → length (backwards xs) ≡ length xs
unfolding backwards
length-backwards [] = refl
length-backwards (x ∷ xs) =
    omega (arith, length-append (backwards xs) (x ∷ []), length-backwards xs)

assign-append :
    (m : IndexedMap) (h i : ℕ) (s : HashSet)
    → IndexedMap.contains m h ≡ false
    → assign_approvers (m ++ record { hash = h; approvers = []; idx = i } ∷ []) h s
      ≡ m ++ record { hash = h; approvers = s; idx = i } ∷ []
unfolding assign_approvers
assign-append [] h i s c = rw ((==_iff h h).1 refl) refl
assign-append (y ∷ m) h i s c = elim (Bool-cases (y.hash == h)) [
  | inl z ↦ absurd (ground (arith, Laws.contains-cons y m h, c))
  | inr n ↦ rw (n, assign-append m h i s (ground (arith, Laws.contains-cons y m h, c))) refl
]

-- From a transaction to its approvers, and on.
pub data Future (children : ℕ → List ℕ) (ep : ℕ) : ℕ → Type 0 where
  here : Future children ep ep
  later : {h a : ℕ} → Future children ep h → contains (children h) a ≡ true → Future children ep a

-- The map has the future of the entry point, each transaction once, with its approvers.
pub record IsFutureMap (children : ℕ → List ℕ) (ep : ℕ) (m : IndexedMap) : Type 0 where
  pub numbered : IsNumbered 0 m
  pub told :
      (h a : ℕ) (e : IndexedEntry)
      → find m h ≡ some e
      → contains e.approvers a ≡ contains (children h) a
  pub sound : (h : ℕ) (e : IndexedEntry) → find m h ≡ some e → Future children ep h
  pub distinct : Distinct (keys m)
  pub root : (e : IndexedEntry) × (find m ep ≡ some e) × (e.idx ≡ 0)
  pub complete : (h : ℕ) → Future children ep h → (e : IndexedEntry) × (find m h ≡ some e)

nonempty : (m : IndexedMap) (h : ℕ) → IndexedMap.contains m h ≡ true → m ≡ [] → ⊥
nonempty m h c e = let c' = rw (e, Laws.contains-nil h) at c in cc

-- A transaction that the map has not got waits on the stack.
abbrev pub Pending : IndexedMap → HashStack → ℕ → Type 0
Pending m st a = IndexedMap.contains m a ≡ false → contains st a ≡ true

pub record Inv (children : ℕ → List ℕ) (ep : ℕ) (w : FromDb) (st : HashStack) : Type 0 where
  pub counted : w.subtangle_size ≡ length w.tx_to_approvers
  pub numbered : IsNumbered 0 w.tx_to_approvers
  pub told :
      (h a : ℕ) (e : IndexedEntry)
      → find w.tx_to_approvers h ≡ some e
      → contains e.approvers a ≡ contains (children h) a
  pub sound : (h : ℕ) (e : IndexedEntry) → find w.tx_to_approvers h ≡ some e → Future children ep h
  pub stacked : All (Future children ep) st
  pub closed :
      (h a : ℕ) (e : IndexedEntry)
      → find w.tx_to_approvers h ≡ some e
      → contains (children h) a ≡ true
      → Pending w.tx_to_approvers st a
  pub start : Pending w.tx_to_approvers st ep
  pub distinct : Distinct (keys w.tx_to_approvers)
  pub root :
      ((w.tx_to_approvers ≡ []) × (st ≡ ep ∷ []))
      ⊎ ((e : IndexedEntry) × (find w.tx_to_approvers ep ≡ some e) × (e.idx ≡ 0))

module _ (malloc : ℕ → Bool) (enough : (h : ℕ) → malloc h ≡ true) (children : ℕ → List ℕ)
    (ep : ℕ) where
  abbrev pub approvers : ℕ → Retcode ⊎ List ℕ
  approvers h = inr (children h)

  for_each-link :
      (xs : List ℕ) (l : Linked)
      → for_each (link malloc approvers) xs l
        ≡ done (record { stack = pushed_all xs l.stack; approvers = added_all xs l.approvers })
  unfolding for_each link push HashSet.add
  for_each-link [] l = refl
  for_each-link (x ∷ xs) l = elim (Bool-cases (contains l.approvers x)) [
    | inl y ↦
        rw (enough x, y)
          (for_each-link xs (record { stack = x ∷ l.stack; approvers = l.approvers }))
    | inr n ↦
        rw (enough x, n, enough x)
          (for_each-link xs (record { stack = x ∷ l.stack; approvers = l.approvers ++ x ∷ [] }))
  ]

  -- The entry of a transaction, and the walk after it.
  abbrev pub entry : ℕ → ℕ → IndexedEntry
  entry h i = record { hash = h; approvers = added_all (backwards (children h)) []; idx = i }

  abbrev pub after : ℕ → FromDb → HashStack → FromDb
  after h w rest = record {
    stack = pushed_all (backwards (children h)) rest;
    tx_to_approvers = w.tx_to_approvers ++ entry h w.subtangle_size ∷ [];
    subtangle_size = suc w.subtangle_size;
  }

  pub queried_after :
      (h : ℕ) (w : FromDb) (rest : HashStack)
      → IndexedMap.contains w.tx_to_approvers h ≡ false
      → queried malloc approvers h w rest (approvers h) ≡ going (after h w rest)
  unfolding add_new_set
  queried_after h w rest n =
      rw
        (
          enough h,
          for_each-link (backwards (children h)) (record { stack = rest; approvers = [] }),
          assign-append w.tx_to_approvers h w.subtangle_size (added_all (backwards (children h)) [])
              n,
        )
        refl

  -- The transaction at the top is in the map.
  Pending-pop :
      (m : IndexedMap) (h : ℕ) (rest : HashStack) (a : ℕ)
      → IndexedMap.contains m h ≡ true
      → Pending m (h ∷ rest) a
      → Pending m rest a
  unfolding contains
  Pending-pop m h rest a c p n = elim (Bool-cases (h == a)) [
    | inl y ↦
        let same : h ≡ a = (==_iff h a).0 y in
        let c' : IndexedMap.contains m a ≡ true = rw (sym same) c in absurd (cc)
    | inr z ↦ let c' = p n in rw z at c'
  ]

  pub Pending-add :
      (m : IndexedMap) (h i : ℕ) (rest : HashStack) (a : ℕ)
      → Pending m (h ∷ rest) a
      → Pending (m ++ entry h i ∷ []) (pushed_all (backwards (children h)) rest) a
  unfolding contains
  Pending-add m h i rest a p n = elim (Bool-cases (h == a)) [
    | inl y ↦ absurd (ground (arith, Laws.contains-append m (entry h i) a, n))
    | inr z ↦ ground (
      arith,
      p,
      Laws.contains-append m (entry h i) a,
      n,
      contains-pushed_all (backwards (children h)) rest a,
    )
  ]

  pub Pending-child :
      (m : IndexedMap) (h : ℕ) (rest : HashStack) (a : ℕ)
      → contains (children h) a ≡ true
      → Pending m (pushed_all (backwards (children h)) rest) a
  Pending-child m h rest a c n = ground (
    arith,
    contains-pushed_all (backwards (children h)) rest a,
    contains-backwards (children h) a,
    c,
  )

  pub Inv-pop :
      (w : FromDb) (h : ℕ) (rest : HashStack)
      → IndexedMap.contains w.tx_to_approvers h ≡ true
      → Inv children ep w (h ∷ rest)
      → Inv children ep (record w { stack = rest }) rest
  Inv-pop w h rest c i = record {
    counted = i.counted;
    numbered = i.numbered;
    told = i.told;
    sound = i.sound;
    stacked = i.stacked.1;
    closed = λ x a e q r. Pending-pop w.tx_to_approvers h rest a c (i.closed x a e q r);
    start = Pending-pop w.tx_to_approvers h rest ep c i.start;
    distinct = i.distinct;
    root = elim i.root [ inl (e, s) ↦ absurd (nonempty w.tx_to_approvers h c e) | inr r ↦ inr r ];
  }
