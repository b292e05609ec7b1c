-- ===== src/RecentSeenBytesCache/Laws.antt =====
-- What a lookup finds after an insertion.
use entangled.Prelude.{
  ℕ, ◌≡◌, refl, inl, inr, Bool, true, none, some, List, [], ◌∷◌, ◌++◌, ◌==◌, if◌then◌else◌, leb,
  arith, length, Bool-cases, Option-cases, sym, ◌∙◌, ap,
}
use entangled.Outcome.{done, fail, left}
use entangled.Outcome.Retcode.{rc_oom}
use entangled.RecentSeenBytesCache.{
  RecentSeenBytesCache, Entry, map_find, map_remove_head, map_add, make_room, get, put,
}

map_find-cons :
    (e : Entry) (m : List Entry) (k : ℕ) → map_find (e ∷ m) k ≡ none → map_find m k ≡ none
unfolding map_find
map_find-cons e m k q = ground arith

pub map_find-append :
    (m : List Entry) (e : Entry) → map_find m e.key ≡ none → map_find (m ++ e ∷ []) e.key ≡ some e
unfolding map_find
map_find-append [] e q = ground arith
map_find-append (x ∷ m) e q = elim (Bool-cases (x.key == e.key)) [
  | inl z ↦ absurd (let q' = rw z at q in cc)
  | inr n ↦ rw n (map_find-append m e (rw n at q))
]

pub map_find-make_room :
    (capacity : ℕ) (m : List Entry) (k : ℕ)
    → map_find m k ≡ none
    → map_find (make_room capacity m) k ≡ none
unfolding make_room map_remove_head
map_find-make_room capacity [] k q = ground arith
map_find-make_room capacity (e ∷ m) k q = elim (Bool-cases (leb capacity (length (e ∷ m)))) [
  | inl z ↦ rw z (map_find-cons e m k q)
  | inr n ↦ rw n q
]

pub put-known :
    (malloc : ℕ → Bool) (digest hash : ℕ) (c : RecentSeenBytesCache) (e : Entry)
    → map_find c.map digest ≡ some e
    → put malloc digest hash c ≡ done c
unfolding put
put-known malloc digest hash c e s = rw (s, put) refl

pub put-unknown :
    (malloc : ℕ → Bool) (digest hash : ℕ) (c : RecentSeenBytesCache)
    → map_find c.map digest ≡ none
    → put malloc digest hash c ≡ (
        if malloc digest
        then done (record c {
          map = make_room c.capacity c.map ++ record { key = digest; value = hash } ∷ [];
        })
        else fail rc_oom (record c { map = make_room c.capacity c.map }))
unfolding put map_add
put-unknown malloc digest hash c n = elim (Bool-cases (malloc digest)) [
  | inl y ↦ rw (n, y, put) refl
  | inr f ↦ rw (n, f, put) refl
]

pub get-known :
    (digest old : ℕ) (c : RecentSeenBytesCache) (e : Entry)
    → map_find c.map digest ≡ some e
    → ((get digest old c).found ≡ true) × ((get digest old c).hash ≡ e.value)
unfolding get
get-known digest old c e q = rw (q, get) (refl, refl)

get-unknown :
    (digest old : ℕ) (c : RecentSeenBytesCache)
    → map_find c.map digest ≡ none
    → (get digest old c).hash ≡ old
unfolding get
get-unknown digest old c q = rw (q, get) refl

found_equal :
    (digest old hash : ℕ) (c c' : RecentSeenBytesCache) (e : Entry)
    → map_find c'.map digest ≡ some e
    → (get digest hash c).hash ≡ e.value
    → ((get digest old c').found ≡ true) × ((get digest old c').hash ≡ (get digest hash c).hash)
found_equal digest old hash c c' e s q = let (f, h) = get-known digest old c' e s in (f, h ∙ sym q)

-- A lookup that follows a successful insertion for the same digest finds one: the hash that was
-- there before, if the digest was known, otherwise the inserted one, also when the insertion
-- evicted the oldest entry and whatever the capacity is.
pub get-put :
    (malloc : ℕ → Bool) (digest hash old : ℕ) (c c' : RecentSeenBytesCache)
    → put malloc digest hash c ≡ done c'
    → ((get digest old c').found ≡ true) × ((get digest old c').hash ≡ (get digest hash c).hash)
get-put malloc digest hash old c c' q = elim (Option-cases (map_find c.map digest)) [
  | inr (e, s) ↦
      rw (sym (ap left (sym (put-known malloc digest hash c e s) ∙ q)))
        (found_equal digest old hash c c e s (get-known digest hash c e s).1)
  | inl n ↦ elim (Bool-cases (malloc digest)) [
    | inr f ↦ absurd (let q' = rw f at (sym (put-unknown malloc digest hash c n) ∙ q) in cc)
    | inl y ↦ rw (sym (ap left (rw y at (sym (put-unknown malloc digest hash c n) ∙ q)))) (
        found_equal digest old hash c _ record { key = digest; value = hash }
          (map_find-append (make_room c.capacity c.map) record { key = digest; value = hash }
            (map_find-make_room c.capacity c.map digest n))
          (get-unknown digest hash c n))
  ]
]
