-- ===== src/Trinary/Long/Length.antt =====
-- `min_trits` counts the digits that a number needs.
use native.Mathlib.Numerals.{add-one}
use entangled.Prelude.{
  ℕ, zero, suc, ◌+◌, ◌-◌, ◌*◌, ◌%◌, ◌≡◌, ◌≤◌, ◌<◌, ◌⊎◌, inl, inr, arith, ltb, Bool-cases,
}
use entangled.Prelude.Word.{u64_mod, i64_min, llabs, neg64}
use entangled.Trinary.Long.{min_trits_loop, min_trits, abs64}

-- The greatest number of n balanced ternary digits, (3^n - 1) / 2.
abbrev pub greatest : ℕ → ℕ
greatest zero = 0
greatest (suc n) = greatest n * 3 + 1

pub greatest_mono : (m n : ℕ) → m ≤ n → greatest m ≤ greatest n
greatest_mono zero n h = omega arith
greatest_mono (suc m) zero h = elim h [ ]
greatest_mono (suc m) (suc n) h = omega (arith, greatest_mono m n (omega arith))

greatest_41 : (i64_min ≤ greatest 41) × (greatest 41 < u64_mod)
greatest_41 = (omega arith, omega arith)

-- `n` is the number of digits of `v`, and 1 for 0.
abbrev pub IsLength : ℕ → ℕ → Type 0
IsLength n v = (1 ≤ n) × (n ≤ 41) × (v ≤ greatest n) × ((v ≡ 0) ⊎ (greatest (n - 1) < v))

next_power : (k : ℕ) → k ≤ 39 → (greatest (suc k) * 3 + 1) % u64_mod ≡ greatest (suc (suc k))
next_power k h = omega (arith, greatest_mono (suc (suc k)) 41 (omega arith), greatest_41.1)

pred_suc : (k : ℕ) → suc k - 1 ≡ k
pred_suc k = omega arith

-- Every round has multiplied by three, without wrapping, and the rounds do not run out.
min_trits_loop-IsLength :
    (f v k : ℕ)
    → k + f ≡ 40
    → v ≤ i64_min
    → (v ≡ 0) ⊎ (greatest k < v)
    → IsLength (min_trits_loop f v (greatest (suc k)) (suc k)) v
unfolding min_trits_loop
min_trits_loop-IsLength zero v k e b low =
    let q : k ≡ 40 = omega arith in
    (omega arith, omega arith, rw q (omega (arith, greatest_41.0)), rw (pred_suc k) low)
min_trits_loop-IsLength (suc f) v k e b low = elim (Bool-cases (ltb (greatest (suc k)) v)) [
  | inl y ↦
      let more : greatest (suc k) < v = ground arith in
      rw (y, next_power k (omega arith), add-one (suc k))
        (min_trits_loop-IsLength f v (suc k) (omega arith) b (inr more))
  | inr n ↦ rw n (omega arith, omega arith, ground arith, rw (pred_suc k) low)
]

pub abs64-le : (v : ℕ) → v < u64_mod → abs64 v ≤ i64_min
unfolding abs64 llabs neg64
abs64-le v h = ground arith

-- `min_trits` counts the balanced ternary digits of every 64-bit integer, the least included: 41 at
-- most, and none of its powers of three wraps.
pub min_trits-IsLength : (v : ℕ) → v < u64_mod → IsLength (min_trits v) (abs64 v)
unfolding min_trits
min_trits-IsLength v h =
    min_trits_loop-IsLength 40 (abs64 v) 0 (omega arith) (abs64-le v h) (ground arith)
