-- ===== src/TipSelection/CwRating/FromDb/Whole.antt =====
-- The walk over the database ends, with the whole future of the entry point.
use entangled.Prelude.{
  ℕ, zero, suc, ◌+◌, ◌≡◌, ◌≤◌, ◌<◌, ◌⊎◌, refl, inl, inr, Bool, true, false, Option, some, List, [],
  ◌∷◌, ◌++◌, ◌==◌, if◌then◌else◌, arith, length, length-append, chosen, Bool-cases, Option-cases,
  ==_iff, sym, ◌∙◌,
}
use entangled.Outcome.{Retcode, Outcome, done}
use entangled.HashSet.{HashStack, contains, push}
use entangled.IndexedMap.{IndexedMap, IndexedEntry, find}
use entangled.IndexedMap
use entangled.IndexedMap.Laws.{
  IsNumbered, append-IsNumbered, find-append_known, find-append_new, find-hash, find-contains,
  contains-find-none, contains-find-some, append-Distinct-keys, keys,
}
use entangled.IndexedMap.Laws as Laws
use entangled.TipSelection.CwRating.FromDb.{
  FromDb, Round, halted, going, backwards, peeked, round, continued, run, dfs_from_db,
}
use entangled.TipSelection.CwRating.FromDb.Future.{
  contains-added_all, contains-backwards, length-backwards, Future, here, later, IsFutureMap,
  Pending, Inv, approvers, entry, after, queried_after, Pending-add, Pending-child, Inv-pop,
}
use entangled.TipSelection.CwRating.Visits.{pushed_all, length-pushed_all, pushed_all-All}

-- An entry of the longer map is one of the map or the new one.
found_append {ℓ} :
    (P : ℕ → IndexedEntry → Type ℓ) (m : IndexedMap) (e : IndexedEntry)
    → ((x : ℕ) (k : IndexedEntry) → find m x ≡ some k → P x k)
    → P e.hash e
    → (x : ℕ) (k : IndexedEntry) → find (m ++ e ∷ []) x ≡ some k
    → P x k
found_append P m e f p x k q = elim (Option-cases (find m x)) [
  | inl n ↦ elim (Bool-cases (e.hash == x)) [
    | inl y ↦
        let r : some e ≡ some k = rw (find-append_new m e x n, y) at q in
        let same : e ≡ k = cc in
        let at : e.hash ≡ x = (==_iff e.hash x).0 y in rw (sym at, sym same) p
    | inr z ↦ absurd (let r = rw (find-append_new m e x n, z) at q in cc)
  ]
  | inr (j, s) ↦ f x k (s ∙ (sym (find-append_known m e j x s) ∙ q))
]

-- The approvers of the hashes of a list that the map has not got, counted.
unfoldable pub unmapped : (ℕ → List ℕ) → List ℕ → IndexedMap → ℕ
unmapped children [] m = 0
unmapped children (x ∷ xs) m =
    let rest = unmapped children xs m in
    if IndexedMap.contains m x then rest else length (children x) + rest

unmapped-le :
    (children : ℕ → List ℕ) (xs : List ℕ) (m : IndexedMap) (e : IndexedEntry)
    → unmapped children xs (m ++ e ∷ []) ≤ unmapped children xs m
unfolding unmapped
unmapped-le children [] m e = omega arith
unmapped-le children (x ∷ xs) m e =
    ground (arith, unmapped-le children xs m e, Laws.contains-append m e x)

unmapped-add :
    (children : ℕ → List ℕ) (xs : List ℕ) (m : IndexedMap) (e : IndexedEntry)
    → contains xs e.hash ≡ true
    → IndexedMap.contains m e.hash ≡ false
    → unmapped children xs (m ++ e ∷ []) + length (children e.hash) ≤ unmapped children xs m
unfolding unmapped contains
unmapped-add children [] m e c n = absurd (cc)
unmapped-add children (x ∷ xs) m e c n = elim (Bool-cases (x == e.hash)) [
  | inl y ↦
      let same : x ≡ e.hash = (==_iff x e.hash).0 y in
      rw same (
        rw (n, Laws.contains-append m e e.hash, (==_iff e.hash e.hash).1 refl)
          (omega (arith, unmapped-le children xs m e)))
  | inr z ↦
      let k = unmapped-add children xs m e (rw z at c) n in
      ground (arith, k, unmapped-le children xs m e, Laws.contains-append m e x)
]

module _ (malloc : ℕ → Bool) (enough : (h : ℕ) → malloc h ≡ true) (children : ℕ → List ℕ)
    (ep : ℕ) where
  children-entry :
      (h i a : ℕ)
      → contains (entry malloc enough children ep h i).approvers a ≡ contains (children h) a
  unfolding contains
  children-entry h i a =
      ground
        (arith, contains-added_all (backwards (children h)) [] a, contains-backwards (children h) a)

  find-first :
      (m : IndexedMap) (new : IndexedEntry) (h : ℕ) (rest : HashStack)
      → m ≡ []
      → h ∷ rest ≡ ep ∷ []
      → new.hash ≡ h
      → find (m ++ new ∷ []) ep ≡ some new
  unfolding find
  find-first m new h rest e s n =
      let same : h ≡ ep = cc in rw e (rw (n, same, (==_iff ep ep).1 refl) refl)

  Inv-add :
      (w : FromDb) (h : ℕ) (rest : HashStack)
      → IndexedMap.contains w.tx_to_approvers h ≡ false
      → Inv children ep w (h ∷ rest)
      → Inv children ep
          (after malloc enough children ep h w rest)
          (pushed_all (backwards (children h)) rest)
  Inv-add w h rest n i = record {
    counted = omega (arith, i.counted, length-append w.tx_to_approvers (new ∷ []));
    numbered = append-IsNumbered 0 w.tx_to_approvers new i.numbered (omega (arith, i.counted));
    told = λ x a k q.
        found_append (λ y j. contains j.approvers a ≡ contains (children y) a) w.tx_to_approvers new
          (λ y j r. i.told y a j r) (children-entry h w.subtangle_size a) x k q;
    sound = λ x k q.
        found_append (λ y j. Future children ep y) w.tx_to_approvers new i.sound i.stacked.0 x k q;
    stacked =
        pushed_all-All (Future children ep) (backwards (children h)) rest
          (λ a c. later i.stacked.0 (sym (contains-backwards (children h) a) ∙ c)) i.stacked.1;
    closed = λ x a k q c.
        found_append
          (λ y j.
            contains (children y) a ≡ true
            → Pending (w.tx_to_approvers ++ new ∷ []) (pushed_all (backwards (children h)) rest) a)
          w.tx_to_approvers new
          (λ y j r d.
            Pending-add malloc enough children ep w.tx_to_approvers h w.subtangle_size rest a
              (i.closed y a j r d))
          (λ d. Pending-child malloc enough children ep (w.tx_to_approvers ++ new ∷ []) h rest a d)
          x k q c;
    start =
        Pending-add malloc enough children ep w.tx_to_approvers h w.subtangle_size rest ep i.start;
    distinct = append-Distinct-keys w.tx_to_approvers new i.distinct n;
    root = inr (elim i.root [
      | inl (e, s) ↦ (new, find-first w.tx_to_approvers new h rest e s refl, rw (i.counted, e) refl)
      | inr (e, q, z) ↦ (e, find-append_known w.tx_to_approvers new e ep q, z)
    ]);
  }
    where
      new : IndexedEntry
      new = entry malloc enough children ep h w.subtangle_size

  complete_walk :
      (w : FromDb)
      → Inv children ep w []
      → (h : ℕ) → Future children ep h
      → (e : IndexedEntry) × (find w.tx_to_approvers h ≡ some e)
  unfolding contains
  complete_walk w i h here = elim (Bool-cases (IndexedMap.contains w.tx_to_approvers ep)) [
    | inl y ↦ contains-find-some w.tx_to_approvers ep y
    | inr n ↦ absurd (let c = i.start n in cc)
  ]
  complete_walk w i a (later {h} f c) =
      elim (Bool-cases (IndexedMap.contains w.tx_to_approvers a)) [
        | inl y ↦ contains-find-some w.tx_to_approvers a y
        | inr n ↦ let (e, q) = complete_walk w i h f in absurd (let s = i.closed h a e q c n in cc)
      ]

module _ (malloc : ℕ → Bool) (enough : (h : ℕ) → malloc h ≡ true) (children : ℕ → List ℕ) (ep : ℕ)
    (reach : List ℕ) (has_start : contains reach ep ≡ true)
    (has_children : (h a : ℕ)
      → contains reach h ≡ true
      → contains (children h) a ≡ true
      → contains reach a ≡ true) where
  within : (h : ℕ) → Future children ep h → contains reach h ≡ true
  within h here = has_start
  within a (later {h} f c) = has_children h a (within h f) c

  -- A walk that ends with the future of the entry point.
  abbrev pub IsMapped : Option (Outcome FromDb) → Type 0
  IsMapped r =
      (w : FromDb) × (r ≡ some (done w))
      × (w.subtangle_size ≡ length w.tx_to_approvers)
      × (length w.tx_to_approvers ≤ length reach)
      × IsFutureMap children ep w.tx_to_approvers

  abbrev measure : HashStack → IndexedMap → ℕ
  measure st m = length st + unmapped children reach m

  -- Each entry stands for a hash of the list.
  abbrev Fits : IndexedMap → Type 0
  Fits m = length m + unmapped (λ h. 0 ∷ []) reach m ≤ length reach

  abbrev Advances : ℕ → Round → Type 0
  Advances n (halted r) = IsMapped (some r)
  Advances n (going w) =
      (measure w.stack w.tx_to_approvers < n) × Inv children ep w w.stack × Fits w.tx_to_approvers

  Fits-empty : (xs : List ℕ) → unmapped (λ h. 0 ∷ []) xs [] ≤ length xs
  unfolding unmapped IndexedMap.contains find
  Fits-empty [] = omega arith
  Fits-empty (x ∷ xs) = omega (arith, Fits-empty xs)

  Fits-add :
      (m : IndexedMap) (h i : ℕ)
      → contains reach h ≡ true
      → IndexedMap.contains m h ≡ false
      → Fits m
      → Fits (m ++ entry malloc enough children ep h i ∷ [])
  Fits-add m h i c n f = omega (
    arith,
    f,
    unmapped-add (λ x. 0 ∷ []) reach m (entry malloc enough children ep h i) c n,
    length-append m (entry malloc enough children ep h i ∷ []),
  )

  rooted :
      (w : FromDb)
      → ((w.tx_to_approvers ≡ []) × (◌≡◌ {A = HashStack} [] (ep ∷ [])))
        ⊎ ((e : IndexedEntry) × (find w.tx_to_approvers ep ≡ some e) × (e.idx ≡ 0))
      → (e : IndexedEntry) × (find w.tx_to_approvers ep ≡ some e) × (e.idx ≡ 0)
  rooted w (inl (e, s)) = absurd (cc)
  rooted w (inr r) = r

  abbrev loading : ℕ → Retcode ⊎ List ℕ
  loading = approvers malloc enough children ep

  peeked-Advances :
      (w : FromDb) (st : HashStack)
      → Inv children ep w st
      → Fits w.tx_to_approvers
      → Advances (measure st w.tx_to_approvers) (peeked malloc loading w st)
  peeked-Advances w [] i f = (
    w,
    refl,
    i.counted,
    omega (arith, f),
    record {
      numbered = i.numbered;
      told = i.told;
      sound = i.sound;
      distinct = i.distinct;
      root = rooted w i.root;
      complete = complete_walk malloc enough children ep w i;
    },
  )
  peeked-Advances w (h ∷ rest) i f =
      chosen (Advances (measure (h ∷ rest) w.tx_to_approvers))
        (IndexedMap.contains w.tx_to_approvers h) (going (record w { stack = rest })) _
        (λ y. (omega arith, Inv-pop malloc enough children ep w h rest y i, f))
        (λ n. rw (queried_after malloc enough children ep h w rest n) (
          omega (
            arith,
            length-pushed_all (backwards (children h)) rest,
            length-backwards (children h),
            unmapped-add children reach w.tx_to_approvers
                (entry malloc enough children ep h w.subtangle_size) (within h i.stacked.0) n,
          ),
          Inv-add malloc enough children ep w h rest n i,
          Fits-add w.tx_to_approvers h w.subtangle_size (within h i.stacked.0) n f,
        ))

  continued-Mapped :
      (n fuel : ℕ) (r : Round)
      → ((w : FromDb)
          → measure w.stack w.tx_to_approvers < fuel
          → Inv children ep w w.stack
          → Fits w.tx_to_approvers
          → IsMapped (run malloc loading fuel w))
      → n ≤ fuel
      → Advances n r
      → IsMapped (continued malloc loading (run malloc loading fuel) r)
  continued-Mapped n fuel (halted r) k p a = a
  continued-Mapped n fuel (going w) k p a = k w (omega (arith, p, a.0)) a.1 a.2

  run-Mapped :
      (fuel : ℕ) (w : FromDb)
      → measure w.stack w.tx_to_approvers < fuel
      → Inv children ep w w.stack
      → Fits w.tx_to_approvers
      → IsMapped (run malloc loading fuel w)
  unfolding run round
  run-Mapped zero w p i f = absurd (omega (arith, p))
  run-Mapped (suc fuel) w p i f =
      continued-Mapped (measure w.stack w.tx_to_approvers) fuel (round malloc loading w)
        (run-Mapped fuel) (omega (arith, p)) (peeked-Advances w w.stack i f)

  -- When no allocation and no query fails, and the entry point stands in a list that has the
  -- approvers of each of its hashes, the walk ends, with fuel for those approvers, and its map has
  -- exactly the transactions in the future of the entry point, each with its approvers.
  pub dfs_from_db-maps :
      (fuel : ℕ)
      → unmapped children reach [] + 1 < fuel
      → IsMapped (dfs_from_db malloc loading fuel ep)
  unfolding dfs_from_db push find IsNumbered contains keys
  dfs_from_db-maps fuel p = rw (enough ep) (
      run-Mapped fuel (record { stack = ep ∷ []; tx_to_approvers = []; subtangle_size = 0 })
        (omega (arith, p))
        (record {
          counted = refl;
          numbered = tt;
          told = λ h a e q. absurd (cc);
          sound = λ h e q. absurd (cc);
          stacked = (here, tt);
          closed = λ h a e q c n. absurd (cc);
          start = λ n. ground arith;
          distinct = tt;
          root = inl (refl, refl);
        })
        (omega (arith, Fits-empty reach)))
