-- ===== src/Mam/Trits/Laws.antt =====
-- Subtraction of trits undoes addition, trit by trit and in place.
use entangled.Prelude.{
  replicate, ℕ, zero, suc, ◌≡◌, ap, inl, inr, refl, List, [], ◌∷◌, length, All, arith,
}
use entangled.Prelude.Int.{ℤ, ◌+ℤ◌, neg}
use entangled.Trinary.Trit.{IsTrit}
use entangled.Trinary.Add.{to_int8}
use entangled.Mam.Trits.{
  trit_add, trit_sub, trit_swap_add, trit_swap_sub, copy_add, copy_sub, swap_add, swap_sub,
}

-- One trit, and the sum that stands for it.
trit_sub-trit_add :
    (x s : ℤ) → IsTrit x → IsTrit s → (trit_sub (trit_add x s) s ≡ x) × IsTrit (trit_add x s)
unfolding trit_sub trit_add to_int8 ◌+ℤ◌ neg
trit_sub-trit_add x s (inl a) (inl b) = rw (a, b) (refl, inr (inr refl))
trit_sub-trit_add x s (inl a) (inr (inl b)) = rw (a, b) (refl, inl refl)
trit_sub-trit_add x s (inl a) (inr (inr b)) = rw (a, b) (refl, inr (inl refl))
trit_sub-trit_add x s (inr (inl a)) (inl b) = rw (a, b) (refl, inl refl)
trit_sub-trit_add x s (inr (inl a)) (inr (inl b)) = rw (a, b) (refl, inr (inl refl))
trit_sub-trit_add x s (inr (inl a)) (inr (inr b)) = rw (a, b) (refl, inr (inr refl))
trit_sub-trit_add x s (inr (inr a)) (inl b) = rw (a, b) (refl, inr (inl refl))
trit_sub-trit_add x s (inr (inr a)) (inr (inl b)) = rw (a, b) (refl, inr (inr refl))
trit_sub-trit_add x s (inr (inr a)) (inr (inr b)) = rw (a, b) (refl, inl refl)

-- The copying and the swapping versions leave the same trits.
pub swap_add-copy_add : (x s : List ℤ) → swap_add x s ≡ copy_add x s
unfolding swap_add copy_add trit_swap_add
swap_add-copy_add [] s = refl
swap_add-copy_add (a ∷ x) [] = refl
swap_add-copy_add (a ∷ x) (b ∷ s) = rw (swap_add-copy_add x s) refl

pub swap_sub-copy_sub : (y s : List ℤ) → swap_sub y s ≡ copy_sub y s
unfolding swap_sub copy_sub trit_swap_sub
swap_sub-copy_sub [] s = refl
swap_sub-copy_sub (a ∷ y) [] = refl
swap_sub-copy_sub (a ∷ y) (b ∷ s) = rw (swap_sub-copy_sub y s) refl

-- What `copy_add` leaves: the plain trits in the place of the key, and the sums.
pub copy_add-plain : (x s : List ℤ) → length x ≡ length s → (copy_add x s).0 ≡ x
unfolding copy_add
copy_add-plain [] s h = refl
copy_add-plain (a ∷ x) [] h = absurd (omega arith)
copy_add-plain (a ∷ x) (b ∷ s) h = ap (◌∷◌ a) (copy_add-plain x s (omega arith))

pub copy_sub-copy_add :
    (x s : List ℤ)
    → length x ≡ length s
    → All IsTrit x
    → All IsTrit s
    → copy_sub (copy_add x s).1 s ≡ (x, x)
unfolding copy_add copy_sub
copy_sub-copy_add [] s h hx hs = refl
copy_sub-copy_add (a ∷ x) [] h hx hs = absurd (omega arith)
copy_sub-copy_add (a ∷ x) (b ∷ s) h (ha, hx) (hb, hs) =
    rw (copy_sub-copy_add x s (omega arith) hx hs, (trit_sub-trit_add a b ha hb).0) refl

pub length-copy_add : (x s : List ℤ) → length x ≡ length s → length (copy_add x s).1 ≡ length x
unfolding copy_add
length-copy_add [] s h = refl
length-copy_add (a ∷ x) [] h = absurd (omega arith)
length-copy_add (a ∷ x) (b ∷ s) h = ap suc (length-copy_add x s (omega arith))

pub copy_add-IsTrit : (x s : List ℤ) → All IsTrit x → All IsTrit s → All IsTrit (copy_add x s).1
unfolding copy_add
copy_add-IsTrit [] s hx hs = tt
copy_add-IsTrit (a ∷ x) [] hx hs = tt
copy_add-IsTrit (a ∷ x) (b ∷ s) (ha, hx) (hb, hs) =
    ((trit_sub-trit_add a b ha hb).1, copy_add-IsTrit x s hx hs)

pub length-replicate : (n : ℕ) (t : ℤ) → length (replicate n t) ≡ n
length-replicate zero t = refl
length-replicate (suc n) t = ap suc (length-replicate n t)

pub replicate-IsTrit : (n : ℕ) (t : ℤ) → IsTrit t → All IsTrit (replicate n t)
replicate-IsTrit zero t h = tt
replicate-IsTrit (suc n) t h = (h, replicate-IsTrit n t h)
