-- ===== src/StateDelta/Merge.antt =====
-- `state_delta_merge_patch` and `state_delta_apply_patch_if_present`, lookup by lookup.
use mathlib.Core.Path.{subst}
use entangled.Prelude.{
  ℕ, ◌≡◌, ◌<◌, refl, ◌∙◌, Bool, Option, none, some, [], ◌∷◌, arith, ◌==◌, if◌then◌else◌, Bool-cases,
  Option-cases, ==_iff, inl, inr,
}
use entangled.Prelude.Word.{add64, u64_mod, add64-lt, add64-zero_right}
use entangled.Outcome.{done, left, for_each, >>=-eq-done}
use entangled.HashMap.{Entry, find, add, assign}
use entangled.HashMap.Lookup.{find-append, find-assign}
use entangled.HashMap.Keys.{
  Distinct, find-delete, delete-Distinct, assign-Distinct, append-Distinct,
}
use entangled.HashMap.Values.{Values, find-Values, assign-Values}
use entangled.StateDelta.{
  StateDelta, balance, add_or_replace, merge_patch, sum_if_present, apply_patch_if_present,
}
use entangled.StateDelta.Balance.{balance-nil, balance-cons, balance-absent}

-- What a patched entry holds: the patch's value, but a zero removes an entry that was there.
abbrev pub replaced : Option ℕ → ℕ → Option ℕ
replaced none v = some v
replaced (some w) v = if v == 0 then none else some v

find-add_or_replace :
    (malloc : ℕ → Bool) (h k v : ℕ) (m n : StateDelta)
    → Distinct m
    → add_or_replace malloc h v m ≡ done n
    → find k n ≡ (if h == k then replaced (find k m) v else find k m)
unfolding add_or_replace add
find-add_or_replace malloc h k v m n d e = elim (Option-cases (find h m)) [
  | inl a ↦ ground (arith, a, find-append k h v m)
  | inr (w, p) ↦ ground (arith, p, find-assign k h v m, find-delete k h m d)
]

add_or_replace-Distinct :
    (malloc : ℕ → Bool) (h v : ℕ) (m : StateDelta)
    → Distinct m
    → Distinct (left (add_or_replace malloc h v m))
unfolding add_or_replace add
add_or_replace-Distinct malloc h v m d = elim (Option-cases (find h m)) [
  | inl a ↦
      rw (a, add_or_replace)
        (rw (a, add)
          (elim (Bool-cases (malloc h)) [
            | inl y ↦ rw y (append-Distinct h v m d a)
            | inr n ↦ rw n d
          ]))
  | inr (w, p) ↦
      rw (p, add_or_replace)
        (elim (Bool-cases (v == 0)) [
          | inl y ↦ rw y (delete-Distinct h m d)
          | inr n ↦ rw n (assign-Distinct h v m d)
        ])
]

-- After a merge that succeeds, of maps that list no address twice, an address of the patch has
-- the patch's value, except that a zero has removed an entry that was there before; any other
-- address is as before.
pub find-merge_patch :
    (malloc : ℕ → Bool) (h : ℕ) (p m n : StateDelta)
    → Distinct p
    → Distinct m
    → merge_patch malloc m p ≡ done n
    → find h n ≡ elim (find h p) [ none ↦ find h m | some v ↦ replaced (find h m) v ]
unfolding merge_patch for_each find
find-merge_patch malloc h [] m n dp d e = cc
find-merge_patch malloc h (x ∷ p) m n dp d e =
    let (t, first, rest) = >>=-eq-done (add_or_replace malloc x.0 x.1 m) _ e in
    let dt = subst (λ r. Distinct (left r)) first (add_or_replace-Distinct malloc x.0 x.1 m d) in
    let ih = find-merge_patch malloc h p t n dp.1 dt rest in
    let st = find-add_or_replace malloc x.0 h x.1 m t d first in
    elim (Bool-cases (x.0 == h)) [
      | inl y ↦
          let gone = subst (λ k. find k p ≡ none) ((==_iff x.0 h).0 y) dp.0 in
          ground (arith, ih, st, y, gone)
      | inr ne ↦ ground (arith, ih, st, ne)
    ]

-- The three ways in which `state_delta_sum_if_present` ends; it never fails.
sum_if_present_cases {ℓ} :
    (P : StateDelta → Type ℓ) (h v : ℕ) (m : StateDelta)
    → (v ≡ 0 → P m)
    → (find h m ≡ none → P m)
    → ((w : ℕ) → find h m ≡ some w → P (assign h (add64 w v) m))
    → (n : StateDelta) × (sum_if_present h v m ≡ done n) × P n
unfolding sum_if_present
sum_if_present_cases P h v m zero absent present = elim (Bool-cases (v == 0)) [
  | inl z ↦ (m, rw z, zero ((==_iff v 0).0 z))
  | inr nz ↦ elim (Option-cases (find h m)) [
    | inl a ↦ (m, rw (nz, a, sum_if_present), absent a)
    | inr (w, p) ↦ (assign h (add64 w v) m, rw (nz, p, sum_if_present), present w p)
  ]
]

-- What an address has after `sum_if_present` of `v` for `h`.
abbrev raised : Bool → ℕ → Option ℕ → Option ℕ
raised here v none = none
raised here v (some w) = some (if here then add64 w v else w)

sum_if_present_step :
    (h k v : ℕ) (m : StateDelta)
    → Values (λ v. v < u64_mod) m
    → (n : StateDelta) × (sum_if_present h v m ≡ done n)
      × (Values (λ v. v < u64_mod) n × (find k n ≡ raised (h == k) v (find k m)))
sum_if_present_step h k v m d =
    sum_if_present_cases
      (λ n. Values (λ v. v < u64_mod) n × (find k n ≡ raised (h == k) v (find k m))) h v m
      (λ z. (
        d,
        elim (Option-cases (find k m)) [
          | inl a ↦ ground arith
          | inr (w, p) ↦
              ground (arith, p, z, add64-zero_right w (find-Values (λ v. v < u64_mod) k m d p))
        ],
      ))
      (λ a. (d, ground arith))
      (λ w p. (
        assign-Values (λ v. v < u64_mod) h _ m d (add64-lt w v),
        ground (arith, p, find-assign k h (add64 w v) m),
      ))

nothing_added :
    (h : ℕ) (m : StateDelta)
    → Values (λ v. v < u64_mod) m
    → find h m ≡ elim (find h m) [ none ↦ none | some w ↦ some (add64 w (balance h [])) ]
nothing_added h m d = elim (Option-cases (find h m)) [
  | inl a ↦ ground arith
  | inr (w, p) ↦
      ground (arith, p, balance-nil h, add64-zero_right w (find-Values (λ v. v < u64_mod) h m d p))
]

then_added :
    (h : ℕ) (x : Entry) (p m t : StateDelta)
    → Distinct (x ∷ p)
    → Values (λ v. v < u64_mod) t
    → find h t ≡ raised (x.0 == h) x.1 (find h m)
    → elim (find h t) [ none ↦ none | some w ↦ some (add64 w (balance h p)) ]
      ≡ elim (find h m) [ none ↦ none | some w ↦ some (add64 w (balance h (x ∷ p))) ]
then_added h x p m t d v at = elim (Option-cases (find h m)) [
  | inl a ↦ ground (arith, a, at)
  | inr (w, q) ↦ elim (Bool-cases (x.0 == h)) [
    | inl y ↦
        let gone = balance-absent h p (subst (λ k. find k p ≡ none) ((==_iff x.0 h).0 y) d.0) in
        ground (
          arith,
          q,
          at,
          y,
          gone,
          balance-cons h x p,
          add64-zero_right (add64 w x.1) (add64-lt w x.1),
        )
    | inr ne ↦ ground (arith, q, at, ne, balance-cons h x p)
  ]
]

-- For a patch that lists no address twice and a ledger of 64-bit patterns,
-- `state_delta_apply_patch_if_present` never fails, adds no address and removes none, and adds
-- the patch's balance to the value of each address that is there.
pub find-apply_patch_if_present :
    (h : ℕ) (p m : StateDelta)
    → Distinct p
    → Values (λ v. v < u64_mod) m
    → (n : StateDelta) × (apply_patch_if_present m p ≡ done n)
      × (find h n ≡ elim (find h m) [ none ↦ none | some w ↦ some (add64 w (balance h p)) ])
unfolding apply_patch_if_present for_each
find-apply_patch_if_present h [] m d w = (m, refl, nothing_added h m w)
find-apply_patch_if_present h (x ∷ p) m d w =
    let (t, first, at) = sum_if_present_step x.0 h x.1 m w in
    let (n, rest, end) = find-apply_patch_if_present h p t d.1 at.0 in
    (n, rw first rest, end ∙ then_added h x p m t d at.0 at.1)
