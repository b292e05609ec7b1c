-- ===== src/Normalize/Hash.antt =====
-- The whole of a normalized hash: three fragments, each of the sum 0.
use entangled.Prelude.{
  ℕ, zero, suc, ◌*◌, ◌+◌, ◌≡◌, ◌≤◌, refl, ap, List, [], ◌∷◌, ◌++◌, arith, All, length, drop, take,
}
use mathlib.Core.Path.{subst, sym}
use entangled.Prelude.Int.{ℤ, pos}
use entangled.Trinary.Trit.{IsTrit}
use entangled.Normalize.{sum, normalize_from, normalize_hash, normalize_fragment, fragment_trytes}
use entangled.Normalize.Fragment.{AreTrytes, normalize_fragment-IsNormal, fragment_trytes-AreTrytes}

All-drop : (n : ℕ) (ts : List ℤ) → All IsTrit ts → All IsTrit (drop n ts)
All-drop zero ts h = h
All-drop (suc n) [] h = tt
All-drop (suc n) (t ∷ ts) h = All-drop n ts h.1

length-drop : (n k : ℕ) (ts : List ℤ) → n + k ≤ length ts → k ≤ length (drop n ts)
length-drop zero k ts p = omega (arith, p)
length-drop (suc n) k [] p = absurd (omega (arith, p))
length-drop (suc n) k (t ∷ ts) p = length-drop n k ts (omega (arith, p))

take-append : (n : ℕ) (a b : List ℤ) → length a ≡ n → (take n (a ++ b) ≡ a) × (drop n (a ++ b) ≡ b)
take-append zero [] b e = (refl, refl)
take-append (suc n) [] b e = absurd (omega (arith, e))
take-append zero (x ∷ a) b e = absurd (omega (arith, e))
take-append (suc n) (x ∷ a) b e =
    let (p, q) = take-append n a b (omega (arith, e)) in (ap (λ l. x ∷ l) p, q)

-- So many fragments of 27 trytes, each with the sum 0.
pub IsNormalized : ℕ → List ℤ → Type 0
IsNormalized zero out = out ≡ []
IsNormalized (suc n) out =
    AreTrytes (take 27 out)
    × (length (take 27 out) ≡ 27)
    × (sum (take 27 out) ≡ pos 0)
    × IsNormalized n (drop 27 out)

fragment-IsNormalized :
    (n : ℕ) (a b : List ℤ)
    → AreTrytes a × (length a ≡ 27) × (sum a ≡ pos 0)
    → IsNormalized n b
    → IsNormalized (suc n) (a ++ b)
unfolding IsNormalized
fragment-IsNormalized n a b h k =
    let (p, q) = take-append 27 a b h.1 in
    subst (λ l. AreTrytes l × (length l ≡ 27) × (sum l ≡ pos 0) × IsNormalized n (drop 27 (a ++ b)))
      (sym p)
      (subst (λ l. AreTrytes a × (length a ≡ 27) × (sum a ≡ pos 0) × IsNormalized n l) (sym q)
        (h.0, h.1, h.2, k))

normalize_from-IsNormalized :
    (n : ℕ) (hash : List ℤ)
    → All IsTrit hash
    → 81 * n ≤ length hash
    → IsNormalized n (normalize_from n hash)
unfolding IsNormalized normalize_from
normalize_from-IsNormalized zero hash h p = refl
normalize_from-IsNormalized (suc n) hash h p =
    let (trytes, size) = fragment_trytes-AreTrytes 27 hash h (omega (arith, p)) in
    let (a, b, c) = normalize_fragment-IsNormal (fragment_trytes 27 hash) trytes in
    fragment-IsNormalized n (normalize_fragment (fragment_trytes 27 hash))
      (normalize_from n (drop 81 hash)) (a, omega (arith, b, size), c)
      (normalize_from-IsNormalized n (drop 81 hash) (All-drop 81 hash h)
        (length-drop 81 (81 * n) hash (omega (arith, p))))

-- A hash of 243 trits or more is normalized to three fragments of 27 trytes between -13 and 13,
-- each with the sum 0.
pub normalize_hash-IsNormalized :
    (hash : List ℤ) → All IsTrit hash → 243 ≤ length hash → IsNormalized 3 (normalize_hash hash)
unfolding normalize_hash
normalize_hash-IsNormalized hash h p = normalize_from-IsNormalized 3 hash h (omega (arith, p))
