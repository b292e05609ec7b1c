-- ===== src/TipSelection/CwRating/Calculate/Ratings.antt =====
-- The ratings that the whole calculation leaves.
use entangled.Prelude.{
  ℕ, ◌+◌, ◌≡◌, ◌≢◌, ◌≤◌, ◌<◌, ◌⊎◌, refl, inl, inr, Bool, true, Option, none, some, List, [], ◌∷◌,
  ◌==◌, arith, length, All, leb, leb→le, chosen, Bool-cases, ==_iff, sym, ◌∙◌,
}
use entangled.Outcome.{Retcode, done}
use entangled.HashSet.{contains}
use entangled.HashMap.{HashMap}
use entangled.HashMap
use entangled.IndexedMap.{IndexedMap, IndexedEntry, find}
use entangled.IndexedMap.Laws.{
  idx-bounds, idx-apart, contains-find-some, find-contains, keys, contains-keys, size-keys,
  hashes-All,
}
use entangled.Bitset.{Bitset, bitset_reset, bistset_required_size}
use entangled.TipSelection.CwRating.{Light, dfs_light}
use entangled.TipSelection.CwRating.Counts.{dfs_light-counts}
use entangled.TipSelection.CwRating.FromDb.Future.{Future, IsFutureMap}
use entangled.TipSelection.CwRating.FromDb.Whole.{dfs_from_db-maps, unmapped}
use entangled.TipSelection.CwRating.Calculate.{
  Rating, total_approvers, rate_entries, entry_rated, cw_rating_calculate_dfs,
}
use entangled.TipSelection.CwRating.Calculate.Exact.{
  IsFutureSize, Extends, add-Extends, reset_blank, weight-nil, indexed, count-Future,
}

-- Every rating is the size of a future.
abbrev Sound : (ℕ → List ℕ) → HashMap → Type 0
Sound children r = (h n : ℕ) → HashMap.find h r ≡ some n → IsFutureSize children h n

-- Success, and for each transaction in the future of the entry point the size of its own future.
abbrev pub RatesFutures : (ℕ → List ℕ) → ℕ → Option Rating → Type 0
RatesFutures children ep result =
    (r : Rating) × (result ≡ some r)
    × (r.code ≡ none)
    × ((h : ℕ)
        → Future children ep h
        → (n : ℕ) × (HashMap.find h r.cw_ratings ≡ some n) × IsFutureSize children h n)

module _ (bit : ℕ → ℕ) (below : (n : ℕ) → n < 64 → bit n ≡ n) (malloc : ℕ → Bool)
    (enough : (h : ℕ) → malloc h ≡ true) (children : ℕ → List ℕ) (ep : ℕ) where
  abbrev loading : ℕ → Retcode ⊎ List ℕ
  loading h = inr (children h)

  add-Sound :
      (r r' : HashMap) (h v : ℕ)
      → Extends r h v r'
      → IsFutureSize children h v
      → Sound children r
      → Sound children r'
  add-Sound r r' h v x i s k n f = elim (x.only k n f) [
    | inl g ↦ s k n g
    | inr (y, z) ↦ rw (sym y, sym z) i
  ]

  module _ (m : IndexedMap) (mapped : IsFutureMap children ep m) (small : length m ≤ 64)
      (bits : Bitset) (sized : bits.size ≢ 0) where
    -- The entries after the first are rated, and the ratings that were there are kept.
    abbrev IsRated : IndexedMap → HashMap → Option Rating → Type 0
    IsRated es r result =
        (r' : HashMap) × (result
          ≡ some (record { code = none; cw_ratings = r'; tx_to_approvers = m }))
        × Sound children r'
        × ((k n : ℕ) → HashMap.find k r ≡ some n → HashMap.find k r' ≡ some n)
        × ((h : ℕ) (e : IndexedEntry)
            → find es h ≡ some e
            → e.idx ≢ 0
            → (n : ℕ) × (HashMap.find h r' ≡ some n))

    walk_counted :
        (h : ℕ)
        → Future children ep h
        → (w : Light) × (dfs_light bit malloc m (total_approvers m + 2) h (bitset_reset bits)
            ≡ some (done w))
          × IsFutureSize children h w.subtangle_size
    walk_counted h f =
        let (w, q, vs, c, i) =
          dfs_light-counts bit below malloc enough m
            (indexed bit below malloc enough children ep m mapped small) h (total_approvers m + 2)
            (bitset_reset bits) (reset_blank bit bits sized) (omega (arith, weight-nil m)) in
        (
          w,
          q,
          count-Future bit below malloc enough children ep m mapped small h w.subtangle_size vs f c
              i,
        )

    rate_entries-Rated :
        (es : IndexedMap) (r : HashMap)
        → All (λ (e : IndexedEntry). Future children ep e.hash) es
        → Sound children r
        → IsRated es r (rate_entries bit malloc loading m bits es r)
    unfolding rate_entries find
    rate_entries-Rated [] r a s = (r, refl, s, (λ k n f. f), λ h e q z. absurd (cc))
    rate_entries-Rated (e ∷ es) r a s = elim (Bool-cases (e.idx == 0)) [
      | inl y ↦
          let (r', q, s', k, g) = rate_entries-Rated es r a.1 s in
          (
            r',
            rw y q,
            s',
            k,
            λ h j t z. elim (Bool-cases (e.hash == h)) [
              | inl b ↦
                  let t' : some e ≡ some j = rw b at t in
                  let same : e ≡ j = cc in absurd (z (rw (sym same) ((==_iff e.idx 0).0 y)))
              | inr b ↦ g h j (rw b at t) z
            ],
          )
      | inr n ↦
          let (w, q, i) = walk_counted e.hash a.0 in
          let (r1, q1, x) = add-Extends malloc enough e.hash w.subtangle_size r in
          let (r', q', s', k, g) =
            rate_entries-Rated es r1 a.1 (add-Sound r r1 e.hash w.subtangle_size x i s) in
          (
            r',
            rw (n, q, q1) q',
            s',
            (λ v c f. k v c (x.keeps v c f)),
            λ h j t z. elim (Bool-cases (e.hash == h)) [
              | inl b ↦
                  let same : e.hash ≡ h = (==_iff e.hash h).0 b in
                  (x.has.0, rw (sym same) (k e.hash x.has.0 x.has.1))
              | inr b ↦ g h j (rw b at t) z
            ],
          )
    ]

  count_map :
      (m : IndexedMap) (n : ℕ)
      → IsFutureMap children ep m
      → n ≡ length m
      → IsFutureSize children ep n
  count_map m n f q = record {
    future = keys m;
    counted = q ∙ sym (size-keys m);
    distinct = f.distinct;
    sound =
        λ a c. let (e, s) = contains-find-some m a (sym (contains-keys m a) ∙ c) in f.sound a e s;
    complete = λ a g. let (e, s) = f.complete a g in contains-keys m a ∙ find-contains m a e s;
  }

  size-positive : (n : ℕ) → bistset_required_size n ≢ 0
  unfolding bistset_required_size
  size-positive n = λ q. absurd (omega (arith, q))

  -- A transaction at index 0 is the entry point.
  is_root :
      (m : IndexedMap) (h : ℕ) (e : IndexedEntry)
      → IsFutureMap children ep m
      → find m h ≡ some e
      → e.idx ≡ 0
      → ep ≡ h
  is_root m h e f q z = let (k, s, y) = f.root in idx-apart 0 m ep h k e f.numbered s q (y ∙ sym z)

  entry_rated-RatesFutures :
      (raw : ℕ → ℕ → Bool) (m : IndexedMap) (n : ℕ) (r : HashMap)
      → IsFutureMap children ep m
      → n ≡ length m
      → length m ≤ 64
      → Extends [] ep n r
      → Sound children r
      → RatesFutures children ep (entry_rated bit malloc loading raw m n r)
  entry_rated-RatesFutures raw m n r f c small x s =
      chosen (RatesFutures children ep) (leb n 1) _ _
        (λ y. (
          record { code = none; cw_ratings = r; tx_to_approvers = m },
          refl,
          refl,
          λ h g.
              let (e, q) = f.complete h g in
              rated r (λ k v t. t) s h
                (is_root m h e f q
                  (omega (arith, (idx-bounds 0 m h e f.numbered q).1, c, leb→le n 1 y))),
        ))
        (λ z.
          let (r', q, s', k, g) =
            rate_entries-Rated m f small (record { raw_bits = raw; size = bistset_required_size n })
              (size-positive n) m r
              (hashes-All (Future children ep) m
                (λ h t. let (e, u) = contains-find-some m h t in f.sound h e u))
              s in
          (
            record { code = none; cw_ratings = r'; tx_to_approvers = m },
            q,
            refl,
            λ h t.
                let (e, u) = f.complete h t in
                elim (Bool-cases (e.idx == 0)) [
                  | inl y ↦ rated r' k s' h (is_root m h e f u ((==_iff e.idx 0).0 y))
                  | inr v ↦
                      let (v', w) = g h e u (λ j. absurd (ground (arith, j, v))) in
                      (v', w, s' h v' w)
                ],
          ))
    where
      rated :
          (r' : HashMap)
          → ((k v : ℕ) → HashMap.find k r ≡ some v → HashMap.find k r' ≡ some v)
          → Sound children r'
          → (h : ℕ) → ep ≡ h
          → (v : ℕ) × (HashMap.find h r' ≡ some v) × IsFutureSize children h v
      rated r' k s' h same =
          let t : HashMap.find h r' ≡ some x.has.0 = rw (sym same) (k ep x.has.0 x.has.1) in
          (x.has.0, t, s' h x.has.0 t)

  no_rating : Sound children []
  unfolding HashMap.find
  no_rating h n q = absurd (cc)

  module _ (reach : List ℕ) (has_start : contains reach ep ≡ true)
      (has_children : (h a : ℕ)
        → contains reach h ≡ true
        → contains (children h) a ≡ true
        → contains reach a ≡ true) where
    -- When no allocation and no query fails, the shift of a word is the bit of its count below 64, and
    -- the entry point stands in a list of at most 64 entries that has the approvers of each of its
    -- hashes, the calculation succeeds, with fuel for those approvers, and the rating of every
    -- transaction in the future of the entry point is the number of transactions in its own future,
    -- itself included, whatever the words of the bitset hold before.
    pub cw_rating_calculate_dfs-exact :
        (raw : ℕ → ℕ → Bool) (fuel : ℕ)
        → length reach ≤ 64
        → unmapped children reach [] + 1 < fuel
        → RatesFutures children ep (cw_rating_calculate_dfs bit malloc loading raw fuel ep)
    unfolding cw_rating_calculate_dfs
    cw_rating_calculate_dfs-exact raw fuel small p =
        let (w, q, c, l, f) =
          dfs_from_db-maps malloc enough children ep reach has_start has_children fuel p in
        let (r, q', x) = add-Extends malloc enough ep w.subtangle_size [] in
        rw (q, q')
          (entry_rated-RatesFutures raw w.tx_to_approvers w.subtangle_size r f c
            (omega (arith, small, l)) x
            (add-Sound [] r ep w.subtangle_size x (count_map w.tx_to_approvers w.subtangle_size f c)
              no_rating))
