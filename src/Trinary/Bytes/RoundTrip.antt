-- ===== src/Trinary/Bytes/RoundTrip.antt =====
-- Trits that are packed into bytes and unpacked.
use entangled.Prelude.{
  ℕ, suc, ◌+◌, ◌-◌, ◌*◌, ◌/◌, ◌≡◌, ◌≤◌, ◌∙◌, ap, refl, inl, inr, arith, true, false, List, [], ◌∷◌,
  length, take, All, ◌==◌, ltb,
}
use entangled.Prelude.Int.{
  ℤ, pos, negsuc, pos_part, neg_part, ◌+ℤ◌, neg, scale, ltb_ℤ, int_laws, eq_of_parts,
}
use entangled.Trinary.Trit.{IsTrit}
use entangled.Trinary.Add.{to_int8}
use entangled.Trinary.Bytes.{
  trits_to_byte, trits_to_bytes, top_trit, byte_loop, byte_radix, byte_to_trits, bytes_to_trits,
}

-- -n ≤ t ≤ n
abbrev IsWithin : ℕ → ℤ → Type 0
IsWithin n t = (pos_part t ≤ n) × (neg_part t ≤ n)

to_int8_small : (v : ℤ) → IsWithin 127 v → to_int8 v ≡ v
unfolding to_int8
to_int8_small v h = ground arith

trit-IsWithin : (t : ℤ) → IsTrit t → IsWithin 1 t
trit-IsWithin t h = ground arith

-- `v` is `low` with `t` at the place of weight `r`.
abbrev IsAt : ℕ → ℤ → ℤ → ℤ → Type 0
IsAt r t low v =
    pos_part v + neg_part low + r * neg_part t ≡ neg_part v + pos_part low + r * pos_part t

above_test :
    (v low : ℤ) (r half : ℕ)
    → r ≡ half + half + 1
    → IsWithin half low
    → pos_part v + neg_part low ≡ neg_part v + pos_part low + r
    → ltb_ℤ (pos half) v ≡ true
above_test v low r half e b q = ground arith

below_test :
    (v low : ℤ) (r half : ℕ)
    → r ≡ half + half + 1
    → IsWithin half low
    → pos_part v + neg_part low + r ≡ neg_part v + pos_part low
    → (ltb_ℤ (pos half) v ≡ false) × (ltb_ℤ v (neg (pos half)) ≡ true)
unfolding neg
below_test v low r half e b q = (ground arith, ground arith)

within_test :
    (v : ℤ) (half : ℕ)
    → IsWithin half v
    → (ltb_ℤ (pos half) v ≡ false) × (ltb_ℤ v (neg (pos half)) ≡ false)
unfolding neg
within_test v half b = (ground arith, ground arith)

-- The place of weight `r` is found whatever is below it.
top_trit-IsAt :
    (v t low : ℤ) (r half : ℕ)
    → r ≡ half + half + 1
    → r / 2 ≡ half
    → IsTrit t
    → IsWithin half low
    → IsAt r t low v
    → top_trit r v ≡ (t, low)
unfolding top_trit
top_trit-IsAt v t low r half e h (inl p) b q =
    let q' : pos_part v + neg_part low + r ≡ neg_part v + pos_part low = omega (arith, rw p at q) in
    let (past, found) = below_test v low r half e b q' in
    rw (h, past, found, p)
      (ap (λ z. (negsuc 0, z)) (eq_of_parts (v +ℤ pos r) low (omega (int_laws, q'))))
top_trit-IsAt v t low r half e h (inr (inl p)) b q =
    let same : v ≡ low = eq_of_parts v low (omega (arith, rw p at q)) in
    let (past, past') = within_test low half b in rw (h, same, past, past', p) refl
top_trit-IsAt v t low r half e h (inr (inr p)) b q =
    let q' : pos_part v + neg_part low ≡ neg_part v + pos_part low + r = omega (arith, rw p at q) in
    let found = above_test v low r half e b q' in
    rw (h, found, p)
      (ap (λ z. (pos 1, z)) (eq_of_parts (v +ℤ neg (pos r)) low (omega (int_laws, q'))))

-- The number that five trits spell.
abbrev spelled : ℤ → ℤ → ℤ → ℤ → ℤ → ℤ
spelled a b c d e = scale 3 (scale 3 (scale 3 (scale 3 e +ℤ d) +ℤ c) +ℤ b) +ℤ a

small_step :
    (v t : ℤ) (n m : ℕ)
    → IsWithin n v
    → IsTrit t
    → n * 3 + 1 ≡ m
    → m ≤ 121
    → IsWithin m (scale 3 v +ℤ t) × (to_int8 (scale 3 v +ℤ t) ≡ scale 3 v +ℤ t)
unfolding ◌+ℤ◌ scale
small_step v t n m h it e b =
    let w = trit-IsWithin t it in
    let inside : IsWithin m (scale 3 v +ℤ t) = (ground arith, ground arith) in
    (inside, to_int8_small (scale 3 v +ℤ t) (omega arith, omega arith))

first_step : (t : ℤ) → IsTrit t → to_int8 (scale 3 (pos 0) +ℤ t) ≡ t
first_step t h =
    (small_step (pos 0) t 0 1 (omega arith, omega arith) h refl (omega arith)).1
    ∙ eq_of_parts (scale 3 (pos 0) +ℤ t) t (omega int_laws)

module _ (a b c d e : ℤ) (ha : IsTrit a) (hb : IsTrit b) (hc : IsTrit c) (hd : IsTrit d)
    (he : IsTrit e) where
  trits_to_byte-spelled : trits_to_byte (a ∷ b ∷ c ∷ d ∷ e ∷ []) ≡ spelled a b c d e
  unfolding trits_to_byte
  trits_to_byte-spelled =
      let (w2, p2) = small_step e d 1 4 (trit-IsWithin e he) hd refl (omega arith) in
      let (w3, p3) = small_step (scale 3 e +ℤ d) c 4 13 w2 hc refl (omega arith) in
      let (w4, p4) = small_step (scale 3 (scale 3 e +ℤ d) +ℤ c) b 13 40 w3 hb refl (omega arith) in
      let (_, p5) =
        small_step (scale 3 (scale 3 (scale 3 e +ℤ d) +ℤ c) +ℤ b) a 40 121 w4 ha refl
          (omega arith) in
      rw (first_step e he, p2, p3, p4, p5) refl

  -- The value of the lower places is within half the weight of the next place.
  byte_loop-spelled : byte_loop byte_radix (spelled a b c d e) [] ≡ a ∷ b ∷ c ∷ d ∷ e ∷ []
  unfolding byte_loop
  byte_loop-spelled =
      let v1 = a in
      let v2 = scale 3 b +ℤ a in
      let v3 = scale 3 (scale 3 c +ℤ b) +ℤ a in
      let v4 = scale 3 (scale 3 (scale 3 d +ℤ c) +ℤ b) +ℤ a in
      let (wdc, _) = small_step d c 1 4 (trit-IsWithin d hd) hc refl (omega arith) in
      let (wdb, _) = small_step (scale 3 d +ℤ c) b 4 13 wdc hb refl (omega arith) in
      let (w4, _) = small_step (scale 3 (scale 3 d +ℤ c) +ℤ b) a 13 40 wdb ha refl (omega arith) in
      let (wcb, _) = small_step c b 1 4 (trit-IsWithin c hc) hb refl (omega arith) in
      let (w3, _) = small_step (scale 3 c +ℤ b) a 4 13 wcb ha refl (omega arith) in
      let (w2, _) = small_step b a 1 4 (trit-IsWithin b hb) ha refl (omega arith) in
      rw
        (
          top_trit-IsAt (spelled a b c d e) e v4 81 40 refl refl he w4 (omega int_laws),
          top_trit-IsAt v4 d v3 27 13 refl refl hd w3 (omega int_laws),
          top_trit-IsAt v3 c v2 9 4 refl refl hc w2 (omega int_laws),
          top_trit-IsAt v2 b v1 3 1 refl refl hb (trit-IsWithin a ha) (omega int_laws),
          top_trit-IsAt v1 a (pos 0) 1 0 refl refl ha (omega arith, omega arith) (omega arith),
        )
        refl

  byte_back :
      (k : ℕ)
      → byte_to_trits (trits_to_byte (a ∷ b ∷ c ∷ d ∷ e ∷ [])) k ≡ take k (a ∷ b ∷ c ∷ d ∷ e ∷ [])
  unfolding byte_to_trits
  byte_back k = rw (trits_to_byte-spelled, byte_loop-spelled) refl

zero-IsTrit : IsTrit (pos 0)
zero-IsTrit = inr (inl refl)

-- A last byte of fewer than five trits is as if zeros followed.
byte_back1 : (a : ℤ) → IsTrit a → byte_to_trits (trits_to_byte (a ∷ [])) 1 ≡ a ∷ []
unfolding trits_to_byte to_int8 ◌+ℤ◌ scale
byte_back1 a ha =
    byte_back a (pos 0) (pos 0) (pos 0) (pos 0) ha zero-IsTrit zero-IsTrit zero-IsTrit zero-IsTrit 1

byte_back2 :
    (a b : ℤ) → IsTrit a → IsTrit b → byte_to_trits (trits_to_byte (a ∷ b ∷ [])) 2 ≡ a ∷ b ∷ []
unfolding trits_to_byte to_int8 ◌+ℤ◌ scale
byte_back2 a b ha hb =
    byte_back a b (pos 0) (pos 0) (pos 0) ha hb zero-IsTrit zero-IsTrit zero-IsTrit 2

byte_back3 :
    (a b c : ℤ)
    → IsTrit a
    → IsTrit b
    → IsTrit c
    → byte_to_trits (trits_to_byte (a ∷ b ∷ c ∷ [])) 3 ≡ a ∷ b ∷ c ∷ []
unfolding trits_to_byte to_int8 ◌+ℤ◌ scale
byte_back3 a b c ha hb hc = byte_back a b c (pos 0) (pos 0) ha hb hc zero-IsTrit zero-IsTrit 3

byte_back4 :
    (a b c d : ℤ)
    → IsTrit a
    → IsTrit b
    → IsTrit c
    → IsTrit d
    → byte_to_trits (trits_to_byte (a ∷ b ∷ c ∷ d ∷ [])) 4 ≡ a ∷ b ∷ c ∷ d ∷ []
unfolding trits_to_byte to_int8 ◌+ℤ◌ scale
byte_back4 a b c d ha hb hc hd = byte_back a b c d (pos 0) ha hb hc hd zero-IsTrit 4

-- Trits, any number of them, that `trits_to_bytes` packs are unpacked by `bytes_to_trits` to that
-- number, and a byte is used for every five of them that are begun.
pub bytes_to_trits-trits_to_bytes :
    (trits : List ℤ)
    → All IsTrit trits
    → (bytes_to_trits (trits_to_bytes trits) (length trits) ≡ trits)
      × (length (trits_to_bytes trits) ≡ (length trits + 4) / 5)
unfolding bytes_to_trits trits_to_bytes
bytes_to_trits-trits_to_bytes [] h = (refl, refl)
bytes_to_trits-trits_to_bytes (a ∷ []) (ha, h) = (rw (byte_back1 a ha) refl, refl)
bytes_to_trits-trits_to_bytes (a ∷ b ∷ []) (ha, (hb, h)) = (rw (byte_back2 a b ha hb) refl, refl)
bytes_to_trits-trits_to_bytes (a ∷ b ∷ c ∷ []) (ha, (hb, (hc, h))) =
    (rw (byte_back3 a b c ha hb hc) refl, refl)
bytes_to_trits-trits_to_bytes (a ∷ b ∷ c ∷ d ∷ []) (ha, (hb, (hc, (hd, h)))) =
    (rw (byte_back4 a b c d ha hb hc hd) refl, refl)
bytes_to_trits-trits_to_bytes (a ∷ b ∷ c ∷ d ∷ e ∷ ts) (ha, (hb, (hc, (hd, (he, h))))) =
    let (back, full) = bytes_to_trits-trits_to_bytes ts h in
    let n = length ts in
    let some_left : (suc (suc (suc (suc (suc n)))) == 0) ≡ false = ground arith in
    let five : ltb (suc (suc (suc (suc (suc n))))) 5 ≡ false = ground arith in
    let rest : suc (suc (suc (suc (suc n)))) - 5 ≡ n = omega arith in
    (
      rw (some_left, five, rest, byte_back a b c d e ha hb hc hd he 5, back) refl,
      omega (arith, full),
    )
