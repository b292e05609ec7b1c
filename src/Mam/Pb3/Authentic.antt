-- ===== src/Mam/Pb3/Authentic.antt =====
-- The answers of `pb3_unwrap_squeeze_ntrytes` of mam/pb3/pb3.c, which checks a code of authentication.
use entangled.Prelude.{
  ℕ, ◌≡◌, ◌≢◌, ◌≤◌, ◌<◌, ◌↔◌, ◌⊎◌, ◌∙◌, inl, inr, refl, sym, arith, ltb, Bool, true, false, List,
  length, length-take, take, drop, if◌then◌else◌,
}
use entangled.Prelude.Int.{ℤ}
use entangled.Outcome.{Retcode}
use entangled.Outcome.Retcode.{rc_mam_pb3_eof, rc_mam_pb3_bad_mac}
use entangled.Mam.SizeT.{Decoded, got, error}
use entangled.Mam.Spongos.{Spongos, squeeze, squeeze_eq}
use entangled.Mam.Spongos.Loop.{IsValid, IsTransform}
use entangled.Mam.Spongos.Mac.{squeeze_eq-squeeze}
use entangled.Mam.Pb3.{unwrap_squeeze_ntrytes, sizeof_ntrytes}

got_not_error : {e : Retcode} {x y : List ℤ} → got tt x ≢ error e y
got_not_error h = cc

abbrev eof : List ℤ → Decoded Unit
eof x = error rc_mam_pb3_eof x

eof_not_mac : {x y : List ℤ} → eof x ≢ error rc_mam_pb3_bad_mac y
eof_not_mac h = cc

true_not_false : true ≢ false
true_not_false h = cc

-- The answer to a buffer of `size` trits of which `n` are asked, when `same` tells that they are right.
abbrev answer : ℕ → ℕ → Bool → List ℤ → List ℤ → Decoded Unit
answer size n same buffer rest =
    if ltb size n
    then error rc_mam_pb3_eof buffer
    else if same
    then got tt rest
    else error rc_mam_pb3_bad_mac rest

-- The three answers, one for each case.
abbrev Answers : (Decoded Unit) → ℕ → ℕ → Bool → List ℤ → List ℤ → Type 0
Answers r size n same buffer rest =
    ((r ≡ got tt rest) ↔ ((n ≤ size) × (same ≡ true)))
    × ((r ≡ error rc_mam_pb3_bad_mac rest) ↔ ((n ≤ size) × (same ≡ false)))
    × ((r ≡ error rc_mam_pb3_eof buffer) ↔ (size < n))

answers :
    (size n : ℕ) (same : Bool) (buffer rest : List ℤ)
    → (size < n) ⊎ (n ≤ size)
    → Answers (answer size n same buffer rest) size n same buffer rest
answers size n same buffer rest (inl short) =
    let y : ltb size n ≡ true = ground arith in
    rw y (
      (λ h. absurd (got_not_error (sym h)), λ (le, _). absurd (omega arith)),
      (λ h. absurd (eof_not_mac h), λ (le, _). absurd (omega arith)),
      (λ _. short, λ _. refl),
    )
answers size n true buffer rest (inr long) =
    let y : ltb size n ≡ false = ground arith in
    rw y (
      (λ _. (long, refl), λ _. refl),
      (λ h. absurd (got_not_error h), λ (_, h). absurd (true_not_false h)),
      (λ h. absurd (got_not_error h), λ lt. absurd (omega arith)),
    )
answers size n false buffer rest (inr long) =
    let y : ltb size n ≡ false = ground arith in
    rw y (
      (λ h. absurd (got_not_error (sym h)), λ (_, h). absurd (true_not_false (sym h))),
      (λ _. (long, refl), λ _. refl),
      (λ h. absurd (eof_not_mac (sym h)), λ lt. absurd (omega arith)),
    )

either : (size n : ℕ) → (size < n) ⊎ (n ≤ size)
either size n = ground arith

other : (b : Bool) → b ≢ true → b ≡ false
other true h = absurd (h refl)
other false h = refl

-- The three answers in terms of a proposition that the test decides.
Answers-decided :
    (size n : ℕ) (same : Bool) (P : Type 0) (buffer rest : List ℤ)
    → (n ≤ size → (same ≡ true) ↔ P)
    → let r = answer size n same buffer rest in
      ((r ≡ got tt rest) ↔ ((n ≤ size) × P))
      × ((r ≡ error rc_mam_pb3_bad_mac rest) ↔ ((n ≤ size) × (P → ⊥)))
      × ((r ≡ error rc_mam_pb3_eof buffer) ↔ (size < n))
Answers-decided size n same P buffer rest decides =
    let (right, wrong, short) = answers size n same buffer rest (either size n) in
    (
      (
        λ h. let (le, y) = right.0 h in (le, (decides le).0 y),
        λ (le, p). right.1 (le, (decides le).1 p),
      ),
      (
        λ h. let (le, y) = wrong.0 h in (le, λ p. true_not_false (sym ((decides le).1 p) ∙ y)),
        λ (le, np). wrong.1 (le, other same (λ y. np ((decides le).0 y))),
      ),
      short,
    )

second_of :
    {A B : Type 0} (b : Bool) (x x' : A) (y y' : B)
    → let p : A × B = if b then (x, y) else (x', y') in p.1 ≡ (if b then y else y')
second_of true x x' y y' = refl
second_of false x x' y y' = refl

-- `pb3_unwrap_squeeze_ntrytes` on a well-formed state accepts the next `n` trytes of the buffer exactly
-- when they are there and are those that `mam_spongos_squeeze` gives; when they are there and are not,
-- it answers `RC_MAM_PB3_BAD_MAC`; when they are not, `RC_MAM_PB3_EOF`. The permutation is any that
-- keeps the size and the trits of the state.
pub unwrap_squeeze_ntrytes-answers :
    (transform : List ℤ → List ℤ) (s : Spongos) (buffer old : List ℤ) (n : ℕ)
    → IsTransform transform
    → IsValid s
    → length old ≡ sizeof_ntrytes n
    → let k = sizeof_ntrytes n in
      let output = (squeeze transform s old).1 in
      let r = (unwrap_squeeze_ntrytes transform s buffer n).1 in
      ((r ≡ got tt (drop k buffer)) ↔ ((k ≤ length buffer) × (output ≡ take k buffer)))
      × ((r ≡ error rc_mam_pb3_bad_mac (drop k buffer))
          ↔ ((k ≤ length buffer) × (output ≢ take k buffer)))
      × ((r ≡ error rc_mam_pb3_eof buffer) ↔ (length buffer < k))
unfolding unwrap_squeeze_ntrytes
unwrap_squeeze_ntrytes-answers transform s buffer old n laws v h =
    let k = sizeof_ntrytes n in
    let same = (squeeze_eq transform s (take k buffer)).1 in
    let output = (squeeze transform s old).1 in
    let rest = drop k buffer in
    let answered : (unwrap_squeeze_ntrytes transform s buffer n).1
        ≡ answer (length buffer) k same buffer rest =
      second_of (ltb (length buffer) k) _ _ _ _ in
    rw answered (
      Answers-decided (length buffer) k same (output ≡ take k buffer) buffer rest (λ le.
        let full = length-take k buffer le ∙ sym h in
        (squeeze_eq-squeeze transform s old (take k buffer) laws v full).2))
