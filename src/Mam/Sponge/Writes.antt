-- ===== src/Mam/Sponge/Writes.antt =====
-- What a write to a place of the state of mam/sponge changes and keeps.
use entangled.Prelude.{
  ℕ, zero, suc, ◌+◌, ◌≡◌, ◌≤◌, ap, refl, arith, List, [], ◌∷◌, length, take, drop,
}
use entangled.Prelude.Int.{ℤ, pos}
use entangled.Mam.Trits.Laws.{length-replicate}
use entangled.Mam.Trits.{padc}
use entangled.Mam.Spongos.{put_at}

-- What is written before a place does not matter from there on.
pub put_at-after :
    (p k : ℕ) (new s : List ℤ) → p + length new ≤ k → drop k (put_at p new s) ≡ drop k s
put_at-after zero k [] s h = refl
put_at-after zero zero (n ∷ new) s h = absurd (omega arith)
put_at-after zero (suc k) (n ∷ new) [] h = refl
put_at-after zero (suc k) (n ∷ new) (t ∷ s) h = put_at-after zero k new s (omega arith)
put_at-after (suc p) zero new s h = absurd (omega arith)
put_at-after (suc p) (suc k) new [] h = refl
put_at-after (suc p) (suc k) new (t ∷ s) h = put_at-after p k new s (omega arith)

pub put_at-before : (p : ℕ) (new s : List ℤ) → take p (put_at p new s) ≡ take p s
put_at-before zero new s = refl
put_at-before (suc p) new [] = refl
put_at-before (suc p) new (t ∷ s) = ap (◌∷◌ t) (put_at-before p new s)

-- Where two states agree before a place, they agree to the end of what is written there.
pub put_at-agree :
    (p k : ℕ) (new s t : List ℤ)
    → length s ≡ length t
    → k ≤ p + length new
    → take p s ≡ take p t
    → take k (put_at p new s) ≡ take k (put_at p new t)
put_at-agree zero zero new s t l h e = refl
put_at-agree zero (suc k) [] s t l h e = absurd (omega arith)
put_at-agree zero (suc k) (n ∷ new) [] [] l h e = refl
put_at-agree zero (suc k) (n ∷ new) [] (b ∷ t) l h e = absurd (omega arith)
put_at-agree zero (suc k) (n ∷ new) (a ∷ s) [] l h e = absurd (omega arith)
put_at-agree zero (suc k) (n ∷ new) (a ∷ s) (b ∷ t) l h e =
    ap (◌∷◌ n) (put_at-agree zero k new s t (omega arith) (omega arith) refl)
put_at-agree (suc p) zero new s t l h e = refl
put_at-agree (suc p) (suc k) new [] [] l h e = refl
put_at-agree (suc p) (suc k) new [] (b ∷ t) l h e = absurd (omega arith)
put_at-agree (suc p) (suc k) new (a ∷ s) [] l h e = absurd (omega arith)
put_at-agree (suc p) (suc k) new (a ∷ s) (b ∷ t) l h e =
    let head : a ≡ b = cc in
    let tail : take p s ≡ take p t = cc in
    rw (head, put_at-agree p k new s t (omega arith) (omega arith) tail) refl

pub padc-length : (c : ℤ) (x y : List ℤ) → length x ≡ length y → padc c x ≡ padc c y
unfolding padc
padc-length c [] [] h = refl
padc-length c [] (b ∷ y) h = absurd (omega arith)
padc-length c (a ∷ x) [] h = absurd (omega arith)
padc-length c (a ∷ x) (b ∷ y) h = let p : length x ≡ length y = omega arith in rw p refl

pub length-padc : (c : ℤ) (x : List ℤ) → length (padc c x) ≡ length x
unfolding padc
length-padc c [] = refl
length-padc c (a ∷ x) = ap suc (length-replicate (length x) (pos 0))
