-- ===== src/Mam/SizeT/Count.antt =====
-- `trits_size_t_trytes` of mam/trits/trits.c counts the trytes of a number.
use entangled.Prelude.{
  ℕ, zero, suc, ◌+◌, ◌-◌, ◌*◌, ◌/◌, ◌%◌, ◌≡◌, ◌≤◌, ◌<◌, ◌⊎◌, inl, inr, refl, arith, ltb, Bool-cases,
}
use entangled.Prelude.Word.{u64_mod}
use entangled.Trinary.Long.Length.{greatest}
use entangled.Mam.SizeT.{size_max, trytes_loop, size_t_trytes, max_size_t_trytes}

-- The greatest number of `d` trytes.
abbrev pub greatest_trytes : ℕ → ℕ
greatest_trytes zero = 0
greatest_trytes (suc d) = greatest_trytes d * 27 + 13

pub greatest_trytes_trits : (d : ℕ) → greatest_trytes d ≡ greatest (d * 3)
greatest_trytes_trits zero = refl
greatest_trytes_trits (suc d) =
    let p : suc d * 3 ≡ suc (suc (suc (d * 3))) = omega arith in
    rw p (omega (arith, greatest_trytes_trits d))

greatest_trytes_mono : (c d : ℕ) → c ≤ d → greatest_trytes c ≤ greatest_trytes d
greatest_trytes_mono zero d h = omega arith
greatest_trytes_mono (suc c) zero h = elim h [ ]
greatest_trytes_mono (suc c) (suc d) h = omega (arith, greatest_trytes_mono c d (omega arith))

-- `d` trytes are enough for `n`, and one less would not be.
abbrev pub IsCount : ℕ → ℕ → Type 0
IsCount n d = (d ≤ 13) × (n ≤ greatest_trytes d) × ((d ≡ 0) ⊎ (greatest_trytes (d - 1) < n))

under : (d : ℕ) → (d ≤ 12) ⊎ (13 ≤ d)
under d = ground arith

few : (d n : ℕ) → n ≤ size_max → greatest_trytes d < n → d ≤ 12
few d n b h = elim (under d) [
  | inl le ↦ le
  | inr gt ↦ absurd (omega (arith, greatest_trytes_mono 13 d gt))
]

trytes_loop-IsCount :
    (more d n m : ℕ)
    → d + more ≡ max_size_t_trytes
    → n ≤ size_max
    → (d ≡ 0) ⊎ (greatest_trytes (d - 1) < n)
    → m ≡ greatest_trytes d * 2 + 1
    → IsCount n (trytes_loop more d m n)
unfolding trytes_loop
trytes_loop-IsCount zero d n m h b (inl z) e = absurd (omega arith)
trytes_loop-IsCount zero d n m h b (inr low) e =
    let p : d - 1 ≡ 13 = omega arith in absurd (omega (arith, few (d - 1) n b low))
trytes_loop-IsCount (suc more) d n m h b low e = elim (Bool-cases (ltb ((m - 1) / 2) n)) [
  | inl y ↦
      let above : greatest_trytes d < n = ground arith in
      let small = few d n b above in
      let next : m * 27 % u64_mod ≡ greatest_trytes (suc d) * 2 + 1 =
        omega (arith, greatest_trytes_mono (suc d) 13 (omega arith)) in
      let q : suc d - 1 ≡ d = omega arith in
      rw y (
        trytes_loop-IsCount more (suc d) n (m * 27 % u64_mod) (omega arith) b (inr (rw q above))
          next)
  | inr ne ↦ rw ne (omega arith, ground arith, low)
]

pub size_t_trytes-IsCount : (n : ℕ) → n ≤ size_max → IsCount n (size_t_trytes n)
unfolding size_t_trytes
size_t_trytes-IsCount n b = trytes_loop-IsCount max_size_t_trytes 0 n 1 refl b (inl refl) refl
