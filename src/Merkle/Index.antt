-- ===== src/Merkle/Index.antt =====
-- Each node has its own index.
use entangled.Prelude.{
  ℕ, zero, suc, ◌+◌, ◌-◌, ◌/◌, ◌%◌, ◌≡◌, ◌≤◌, ◌<◌, refl, inl, inr, false, ◌==◌, if◌then◌else◌,
  arith, leb, leb→le, Bool-cases, ap, sym, ◌∙◌,
}
use entangled.Prelude.Word.{u64_mod}
use entangled.Merkle.Shift.{two_to-positive, two_to-small, int_shift-half, int_ones-two_to}
use entangled.Merkle.{
  two_to, int_shift, int_ones, index_from, merkle_node_index_traverse, merkle_node_index,
}

-- The place of a node in depth-first order, in a tree with so many levels below its root: the root,
-- the left half, the right half.
pub place : ℕ → ℕ → ℕ → ℕ
place t zero w = 0
place zero (suc k) w = 0
place (suc t) (suc k) w =
    let right = leb (two_to k) w in
    suc ((if right then two_to (suc t) - 1 else 0) + place t k (if right then w - two_to k else w))

place-bound : (t k w : ℕ) → k ≤ t → w < two_to k → place t k w + 1 < two_to (suc t)
unfolding place
place-bound t zero w p q = omega (arith, two_to-positive t)
place-bound zero (suc k) w p q = absurd (omega (arith, p))
place-bound (suc t) (suc k) w p q = elim (Bool-cases (leb (two_to k) w)) [
  | inl y ↦ rw y (
      let far : two_to k ≤ w = leb→le (two_to k) w y in
      omega (
        arith,
        place-bound t k (w - two_to k) (omega (arith, p)) (omega (arith, far, q)),
        two_to-positive (suc t),
      ))
  | inr n ↦ rw n (
      let near : w < two_to k = ground (arith, n) in
      omega (arith, place-bound t k w (omega (arith, p)) near, two_to-positive (suc t)))
]

-- Two nodes at one place are the same.
pub place-apart :
    (t k k' w w' : ℕ)
    → k ≤ t
    → k' ≤ t
    → w < two_to k
    → w' < two_to k'
    → place t k w ≡ place t k' w'
    → (k ≡ k') × (w ≡ w')
unfolding place
place-apart t zero zero w w' p p' q q' e = (refl, omega (arith, q, q'))
place-apart zero zero (suc k') w w' p p' q q' e = absurd (omega (arith, p'))
place-apart (suc t) zero (suc k') w w' p p' q q' e = absurd (omega (arith, e))
place-apart zero (suc k) k' w w' p p' q q' e = absurd (omega (arith, p))
place-apart (suc t) (suc k) zero w w' p p' q q' e = absurd (omega (arith, e))
place-apart (suc t) (suc k) (suc k') w w' p p' q q' e = elim (Bool-cases (leb (two_to k) w)) [
  | inl y ↦ elim (Bool-cases (leb (two_to k') w')) [
    | inl y' ↦
        let far = leb→le (two_to k) w y in
        let far' = leb→le (two_to k') w' y' in
        let e' = rw (y, y') at e in
        let (a, b) =
          place-apart t k k' (w - two_to k) (w' - two_to k') (omega (arith, p)) (omega (arith, p'))
            (omega (arith, far, q)) (omega (arith, far', q')) (omega (arith, e')) in
        (
          omega (arith, a),
          (let same : two_to k ≡ two_to k' = ap two_to a in omega (arith, b, far, far', same)),
        )
    | inr n' ↦
        let near' : w' < two_to k' = ground (arith, n') in
        let e' = rw (y, n') at e in
        absurd (omega (arith, e', place-bound t k' w' (omega (arith, p')) near', two_to-positive t))
  ]
  | inr n ↦ elim (Bool-cases (leb (two_to k') w')) [
    | inl y' ↦
        let near : w < two_to k = ground (arith, n) in
        let e' = rw (n, y') at e in
        absurd (omega (arith, e', place-bound t k w (omega (arith, p)) near, two_to-positive t))
    | inr n' ↦
        let e' = rw (n, n') at e in
        let (a, b) =
          place-apart t k k' w w' (omega (arith, p)) (omega (arith, p')) (ground (arith, n))
            (ground (arith, n')) (omega (arith, e')) in
        (omega (arith, a), b)
  ]
]

-- The loop of the code computes the place, in trees whose shifts are defined.
index_from-place :
    (k cursor depth td wc index t : ℕ)
    → td < 30
    → depth ≤ td
    → depth + 1 ≡ cursor + k
    → td + 1 ≡ cursor + t
    → 1 ≤ cursor
    → k ≤ t
    → index + place t k wc < u64_mod
    → index_from k cursor depth td wc index + k ≡ index + place t k wc
unfolding index_from place
index_from-place zero cursor depth td wc index t s d a b l c u = omega arith
index_from-place (suc k) cursor depth td wc index zero s d a b l c u = absurd (omega (arith, c))
index_from-place (suc k) cursor depth td wc index (suc t) s d a b l c u =
    let half : int_shift depth / two_to (cursor % 64) ≡ two_to k =
      int_shift-half depth cursor k (omega (arith, s, d)) (omega (arith, a)) in
    let levels : (td + u64_mod - cursor + 1) % u64_mod ≡ suc t = omega (arith, b, s) in
    let whole : int_ones (suc t) ≡ two_to (suc t) - 1 =
      int_ones-two_to (suc t) (omega (arith, b, s, l)) in
    elim (Bool-cases (leb (two_to k) wc)) [
      | inl y ↦
          let u' = rw y at u in
          let sum : (index + (two_to t + two_to t - 1)) % u64_mod
              ≡ index + (two_to t + two_to t - 1) =
            omega (arith, u') in
          rw (half, levels, whole, y, sum)
            (omega (
              arith,
              index_from-place k (suc cursor) depth td (wc - two_to k)
                  (index + (two_to t + two_to t - 1)) t s d (omega (arith, a)) (omega (arith, b))
                  (omega (arith, l)) (omega (arith, c)) (omega (arith, u')),
            ))
      | inr n ↦
          let u' = rw n at u in
          rw (half, n)
            (omega (
              arith,
              index_from-place k (suc cursor) depth td wc index t s d (omega (arith, a))
                  (omega (arith, b)) (omega (arith, l)) (omega (arith, c)) (omega (arith, u')),
            ))
    ]

not_zero : (n : ℕ) → (suc n == 0) ≡ false
not_zero n = ground arith

merkle_node_index-index_from :
    (depth width td : ℕ)
    → merkle_node_index depth width (suc td) ≡ index_from depth 1 depth (suc td) width (depth + 0)
unfolding merkle_node_index merkle_node_index_traverse
merkle_node_index-index_from depth width td = rw (not_zero td) refl

pub merkle_node_index-place :
    (depth width td : ℕ)
    → td < 30
    → depth ≤ td
    → width < two_to depth
    → merkle_node_index depth width td ≡ place td depth width
unfolding merkle_node_index merkle_node_index_traverse place
merkle_node_index-place zero width zero s p q = refl
merkle_node_index-place (suc depth) width zero s p q = absurd (omega (arith, p))
merkle_node_index-place depth width (suc td) s p q = omega (
  arith,
  merkle_node_index-index_from depth width td,
  index_from-place depth 1 depth (suc td) width (depth + 0) (suc td) s p (omega arith) (omega arith)
      (omega arith) p
      (omega (
        arith,
        s,
        p,
        place-bound (suc td) depth width p q,
        two_to-small (suc (suc td)) (omega (arith, s)),
      )),
)

-- Two nodes with one index are the same.
pub merkle_node_index-apart :
    (td d d' w w' : ℕ)
    → td < 30
    → d ≤ td
    → d' ≤ td
    → w < two_to d
    → w' < two_to d'
    → merkle_node_index d w td ≡ merkle_node_index d' w' td
    → (d ≡ d') × (w ≡ w')
merkle_node_index-apart td d d' w w' s p p' q q' e =
    place-apart td d d' w w' p p' q q'
      (sym (merkle_node_index-place d w td s p q) ∙ (e ∙ merkle_node_index-place d' w' td s p' q'))

pub merkle_node_index-bound :
    (td d w : ℕ) → td < 30 → d ≤ td → w < two_to d → merkle_node_index d w td + 1 < two_to (suc td)
merkle_node_index-bound td d w s p q =
    rw (merkle_node_index-place d w td s p q) (place-bound td d w p q)
