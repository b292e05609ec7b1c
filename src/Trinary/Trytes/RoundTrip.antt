-- ===== src/Trinary/Trytes/RoundTrip.antt =====
-- Trits in trytes, and characters in trytes, and back.
use mathlib.Core.Path.{subst}
use entangled.Prelude.{
  ℕ, zero, suc, ◌+◌, ◌-◌, ◌*◌, ◌/◌, ◌%◌, ◌≡◌, ◌<◌, ◌⊎◌, ◌≢◌, ◌&&◌, ==_iff, take, refl, sym, inl,
  inr, arith, Bool, true, false, List, [], ◌∷◌, length, All, ◌==◌, get_or,
}
use entangled.Prelude.Int.{ℤ, pos, negsuc, ◌+ℤ◌, scale}
use entangled.Trinary.Trit.{IsTrit}
use entangled.Trinary.Trytes.{
  tryte_alphabet, index_of_tryte, trytes_trits_lut, tryte_of, trits_to_trytes, trytes_to_trits,
  ascii_to_trytes, trytes_to_ascii,
}

false_not_true : false ≢ true
false_not_true h = cc

last : (k n : ℕ) → k < suc n → (k ≡ n) ⊎ (k < n)
last k n h = ground arith

-- A test of every number below a bound.
abbrev all_below : ℕ → (ℕ → Bool) → Bool
all_below zero test = true
all_below (suc n) test = test n && all_below n test

left_true : (a b : Bool) → (a && b) ≡ true → (a ≡ true) × (b ≡ true)
left_true true b h = (refl, h)
left_true false b h = (h, absurd (false_not_true h))

all_below-test : (n : ℕ) (test : ℕ → Bool) (k : ℕ) → all_below n test ≡ true → k < n → test k ≡ true
all_below-test zero test k h b = absurd (omega arith)
all_below-test (suc n) test k h b =
    let (here, rest) = left_true (test n) (all_below n test) h in
    elim (last k n b) [ inl e ↦ rw e here | inr less ↦ all_below-test n test k rest less ]

-- Each tryte of the alphabet has its place as its index.
index_of_tryte-alphabet : (k : ℕ) → k < 27 → index_of_tryte (get_or tryte_alphabet k 0) ≡ k
unfolding index_of_tryte
index_of_tryte-alphabet k h =
    (==_iff (index_of_tryte (get_or tryte_alphabet k 0)) k).0
      (all_below-test 27 (λ j. index_of_tryte (get_or tryte_alphabet j 0) == j) k refl h)

-- A statement for each of the three trits is one for all of them.
each_trit : (P : ℤ → Type 0) → P (negsuc 0) → P (pos 0) → P (pos 1) → (t : ℤ) → IsTrit t → P t
each_trit P x y z t (inl e) = subst P (sym e) x
each_trit P x y z t (inr (inl e)) = subst P (sym e) y
each_trit P x y z t (inr (inr e)) = subst P (sym e) z

-- The trits of the table are those that the tryte was made of.
abbrev IsRow : ℤ → ℤ → ℤ → Type 0
IsRow a b c =
    get_or trytes_trits_lut (index_of_tryte (tryte_of (a ∷ b ∷ c ∷ []))) [] ≡ a ∷ b ∷ c ∷ []

third_trit :
    (a b : ℤ)
    → IsRow a b (negsuc 0)
    → IsRow a b (pos 0)
    → IsRow a b (pos 1)
    → (c : ℤ) → IsTrit c
    → IsRow a b c
third_trit a b = each_trit (IsRow a b)

unpacked : (a b c : ℤ) → IsTrit a → IsTrit b → IsTrit c → IsRow a b c
unfolding index_of_tryte tryte_of ◌+ℤ◌ scale
unpacked a b c ha hb hc =
    each_trit (λ x. IsRow x b c)
      (each_trit (λ y. IsRow (negsuc 0) y c) (third_trit (negsuc 0) (negsuc 0) refl refl refl c hc)
        (third_trit (negsuc 0) (pos 0) refl refl refl c hc)
        (third_trit (negsuc 0) (pos 1) refl refl refl c hc) b hb)
      (each_trit (λ y. IsRow (pos 0) y c) (third_trit (pos 0) (negsuc 0) refl refl refl c hc)
        (third_trit (pos 0) (pos 0) refl refl refl c hc)
        (third_trit (pos 0) (pos 1) refl refl refl c hc) b hb)
      (each_trit (λ y. IsRow (pos 1) y c) (third_trit (pos 1) (negsuc 0) refl refl refl c hc)
        (third_trit (pos 1) (pos 0) refl refl refl c hc)
        (third_trit (pos 1) (pos 1) refl refl refl c hc) b hb)
      a ha

-- A last tryte of fewer than three trits is as if zeros followed.
unpacked1 :
    (a : ℤ)
    → IsTrit a
    → get_or trytes_trits_lut (index_of_tryte (tryte_of (a ∷ []))) [] ≡ a ∷ pos 0 ∷ pos 0 ∷ []
unfolding tryte_of ◌+ℤ◌ scale
unpacked1 a ha = unpacked a (pos 0) (pos 0) ha (inr (inl refl)) (inr (inl refl))

unpacked2 :
    (a b : ℤ)
    → IsTrit a
    → IsTrit b
    → get_or trytes_trits_lut (index_of_tryte (tryte_of (a ∷ b ∷ []))) [] ≡ a ∷ b ∷ pos 0 ∷ []
unfolding tryte_of ◌+ℤ◌ scale
unpacked2 a b ha hb = unpacked a b (pos 0) ha hb (inr (inl refl))

-- Trits, any number of them, that `trits_to_trytes` packs come first in what `trytes_to_trits`
-- unpacks, and a tryte is used for every three of them that are begun.
trytes_to_trits-trits_to_trytes :
    (trits : List ℤ)
    → All IsTrit trits
    → (take (length trits) (trytes_to_trits (trits_to_trytes trits)) ≡ trits)
      × (length (trits_to_trytes trits) ≡ (length trits + 2) / 3)
unfolding trits_to_trytes trytes_to_trits
trytes_to_trits-trits_to_trytes [] h = (refl, refl)
trytes_to_trits-trits_to_trytes (a ∷ []) (ha, h) = (rw (unpacked1 a ha) refl, refl)
trytes_to_trits-trits_to_trytes (a ∷ b ∷ []) (ha, (hb, h)) = (rw (unpacked2 a b ha hb) refl, refl)
trytes_to_trits-trits_to_trytes (a ∷ b ∷ c ∷ ts) (ha, (hb, (hc, h))) =
    let (back, full) = trytes_to_trits-trits_to_trytes ts h in
    (rw (unpacked a b c ha hb hc, back) refl, omega (arith, full))

ascii_digits : (dec : ℕ) → dec < 128 → (dec % 27 + (dec - dec % 27) / 27 * 27) % 256 ≡ dec
ascii_digits dec h = omega arith

-- Characters of ASCII, whose codes are below 128, that `ascii_to_trytes` writes as trytes are read
-- back by `trytes_to_ascii`, and there are two trytes for each.
pub trytes_to_ascii-ascii_to_trytes :
    (input : List ℕ)
    → All (λ dec. dec < 128) input
    → (trytes_to_ascii (ascii_to_trytes input) ≡ input)
      × (length (ascii_to_trytes input) ≡ 2 * length input)
unfolding trytes_to_ascii ascii_to_trytes
trytes_to_ascii-ascii_to_trytes [] h = (refl, refl)
trytes_to_ascii-ascii_to_trytes (dec ∷ input) (hd, h) =
    let (back, full) = trytes_to_ascii-ascii_to_trytes input h in
    (
      rw
          (
            index_of_tryte-alphabet (dec % 27) (omega arith),
            index_of_tryte-alphabet ((dec - dec % 27) / 27) (omega arith),
            ascii_digits dec hd,
            back,
          )
          refl,
      omega (arith, full),
    )
