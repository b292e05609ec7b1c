-- ===== src/Mam/SizeT/RoundTrip.antt =====
-- `trits_encode_size_t` and `trits_decode_size_t` of mam/trits/trits.c, one after the other.
use mathlib.Core.Path.{subst}
use entangled.Prelude.{
  ℕ, zero, suc, ◌+◌, ◌-◌, ◌*◌, ◌≡◌, ◌≤◌, ◌<◌, ◌⊎◌, ◌≢◌, ◌∙◌, inl, inr, refl, sym, ap, arith, ltb,
  Bool, true, false, Bool-cases, List, [], ◌∷◌, ◌++◌, length, length-append, length-take,
  length-drop, take, drop, replicate, All, All-append, take-++, drop-++, take-All, ◌==◌, ◌||◌,
  if◌then◌else◌,
}
use entangled.Prelude.Int.{ℤ, pos, ltb_ℤ}
use entangled.Prelude.Word.{u64_mod, i64_min, is_neg}
use entangled.Trinary.Trit.{IsTrit}
use entangled.Trinary.Long.{
  min_trits, abs64, digits, overwrite, three_zeros, long_to_trits, trits_to_long,
}
use entangled.Trinary.Long.Length.{greatest_mono, min_trits-IsLength, abs64-le}
use entangled.Trinary.Long.Digits.{digits-IsTrit, trits_to_long-digits, length-digits-le}
use entangled.Trinary.Long.RoundTrip.{signed-abs64, drop-overwrite, length-overwrite}
use entangled.Mam.Trits.Laws.{length-replicate, replicate-IsTrit}
use entangled.Mam.Trints.{put3}
use entangled.Mam.Trints.RoundTrip.{get3-put3, append_assoc, drop3}
use entangled.Mam.SizeT.{
  size_max, sizeof_size_t, size_t_trytes, encode_size_t, decode_size_t, got, decode_number,
}
use entangled.Mam.SizeT.Count.{greatest_trytes_trits, size_t_trytes-IsCount}

abbrev pub zeros : ℕ → List ℤ
zeros n = replicate n (pos 0)

pub length-zeros : (n : ℕ) → length (zeros n) ≡ n
length-zeros n = length-replicate n (pos 0)

drop-zeros : (k n : ℕ) → drop k (zeros n) ≡ zeros (n - k)
drop-zeros zero n = let p : n ≡ n - 0 = omega arith in ap zeros p
drop-zeros (suc k) zero = let p : 0 ≡ 0 - suc k = omega arith in ap zeros p
drop-zeros (suc k) (suc n) =
    let p : n - k ≡ suc n - suc k = omega arith in drop-zeros k n ∙ ap zeros p

zeros-IsTrit : (n : ℕ) → All IsTrit (zeros n)
zeros-IsTrit n = replicate-IsTrit n (pos 0) (inr (inl refl))

three_zeros-zeros : (n : ℕ) → overwrite three_zeros (zeros n) ≡ zeros n
three_zeros-zeros zero = refl
three_zeros-zeros (suc zero) = refl
three_zeros-zeros (suc (suc zero)) = refl
three_zeros-zeros (suc (suc (suc n))) = refl

trits_to_long-zeros : (k n : ℕ) → trits_to_long (take k (zeros n)) ≡ 0
unfolding trits_to_long
trits_to_long-zeros zero n = refl
trits_to_long-zeros (suc k) zero = refl
trits_to_long-zeros (suc k) (suc n) = rw (trits_to_long-zeros k n) refl

-- Zeros above the digits of a number do not change it.
trits_to_long-padded :
    (ds : List ℤ) (k n : ℕ)
    → length ds ≤ k
    → k ≤ n
    → trits_to_long (take k (overwrite ds (zeros n))) ≡ trits_to_long ds
unfolding trits_to_long
trits_to_long-padded [] k n h b = trits_to_long-zeros k n
trits_to_long-padded (d ∷ ds) zero n h b = absurd (omega arith)
trits_to_long-padded (d ∷ ds) (suc k) zero h b = absurd (omega arith)
trits_to_long-padded (d ∷ ds) (suc k) (suc n) h b =
    rw (trits_to_long-padded ds k n (omega arith) (omega arith)) refl

overwrite-IsTrit :
    (new old : List ℤ) → All IsTrit new → All IsTrit old → All IsTrit (overwrite new old)
overwrite-IsTrit [] old hn ho = ho
overwrite-IsTrit (n ∷ new) [] hn ho = tt
overwrite-IsTrit (n ∷ new) (o ∷ old) (h, hn) (k, ho) = (h, overwrite-IsTrit new old hn ho)

positive : (n : ℕ) → n ≤ size_max → abs64 n ≡ n
unfolding abs64 entangled.Prelude.Word.llabs entangled.Prelude.Word.neg64
positive n b = ground arith

either : (a b : ℕ) → (a ≤ b) ⊎ (b < a)
either a b = ground arith

-- The trytes that are counted have room for the trits of the number.
min_trits_le : (n : ℕ) → n ≤ size_max → n ≢ 0 → min_trits n ≤ size_t_trytes n * 3
min_trits_le n b nz =
    let (_, enough, _) = size_t_trytes-IsCount n b in
    let (_, _, _, which) = min_trits-IsLength n (omega arith) in
    elim (either (min_trits n) (size_t_trytes n * 3)) [
      | inl le ↦ le
      | inr gt ↦ elim which [
        | inl z ↦ absurd (nz (sym (positive n b) ∙ z))
        | inr low ↦ absurd (
            omega (
              arith,
              positive n b,
              low,
              enough,
              greatest_trytes_trits (size_t_trytes n),
              greatest_mono (size_t_trytes n * 3) (min_trits n - 1) (omega arith),
            ))
      ]
    ]

-- What stands after the count of trytes.
abbrev body : ℕ → ℕ → List ℤ
body n size = if n == 0 then zeros size else (long_to_trits n (zeros size)).1

record IsBody (n d size : ℕ) (b : List ℤ) : Type 0 where
  sized : length b ≡ size
  value : trits_to_long (take (d * 3) b) ≡ n
  trits : All IsTrit b
  after : drop (d * 3) b ≡ zeros (size - d * 3)

zero-IsBody : (d size : ℕ) → IsBody 0 d size (zeros size)
zero-IsBody d size = record {
  sized = length-zeros size;
  value = trits_to_long-zeros (d * 3) size;
  trits = zeros-IsTrit size;
  after = drop-zeros (d * 3) size;
}

-- The digits of a number before zeros.
digits-IsBody :
    (n size : ℕ)
    → n ≤ size_max
    → n ≢ 0
    → size_t_trytes n * 3 ≤ size
    → IsBody n (size_t_trytes n) size (long_to_trits n (zeros size)).1
unfolding long_to_trits
digits-IsBody n size b nz room =
    let k = min_trits n in
    let ds = digits k (is_neg n) (abs64 n) in
    let old = overwrite three_zeros (zeros size) in
    let (_, _, top, _) = min_trits-IsLength n (omega arith) in
    let fits : length ds ≤ size_t_trytes n * 3 =
      omega (arith, length-digits-le k (is_neg n) (abs64 n), min_trits_le n b nz) in
    rw (three_zeros-zeros size) (record {
      sized = length-overwrite ds (zeros size) ∙ length-zeros size;
      value =
          trits_to_long-padded ds (size_t_trytes n * 3) size fits room
          ∙ trits_to_long-digits k (is_neg n) (abs64 n) (abs64-le n (omega arith)) top
          ∙ signed-abs64 n (omega arith);
      trits =
          overwrite-IsTrit ds (zeros size) (digits-IsTrit k (is_neg n) (abs64 n))
            (zeros-IsTrit size);
      after =
          drop-overwrite (size_t_trytes n * 3) ds (zeros size) fits
          ∙ drop-zeros (size_t_trytes n * 3) size;
    })

body-IsBody :
    (n size : ℕ)
    → n ≤ size_max
    → size_t_trytes n * 3 ≤ size
    → IsBody n (size_t_trytes n) size (body n size)
body-IsBody n size b room = elim (Bool-cases (n == 0)) [
  | inl y ↦
      let z : n ≡ 0 = ground arith in
      rw y (subst (λ m. IsBody m (size_t_trytes n) size (zeros size)) (sym z) (zero-IsBody _ size))
  | inr ne ↦ rw ne (digits-IsBody n size b (ground arith) room)
]

-- A count from 0 to 13 and enough trits after it are decoded.
decode_number-got :
    (d : ℕ) (buffer : List ℤ)
    → d ≤ 13
    → d * 3 ≤ length buffer
    → decode_number (pos d) buffer ≡ got (trits_to_long (take (d * 3) buffer)) (drop (d * 3) buffer)
decode_number-got d buffer h room =
    let a : (ltb_ℤ (pos d) (pos 0) || ltb_ℤ (pos 13) (pos d)) ≡ false = ground arith in
    let b : ltb (length buffer) (3 * d) ≡ false = ground arith in rw (a, b) refl

decoded :
    (n d size : ℕ) (b after : List ℤ)
    → IsBody n d size b
    → d ≤ 13
    → d * 3 ≤ size
    → decode_size_t ((put3 (pos d) ++ take (d * 3) b) ++ after) ≡ got n after
unfolding decode_size_t
decoded n d size b after is h room =
    let t = take (d * 3) b in
    let full : length t ≡ d * 3 = length-take (d * 3) b (omega (arith, is.sized)) in
    let (count, three, _) = get3-put3 (pos d) (t ++ after) (omega arith, omega arith) in
    let long : ltb (length (put3 (pos d) ++ (t ++ after))) 3 ≡ false =
      ground (arith, length-append (put3 (pos d)) (t ++ after), three) in
    let first = subst (λ k. take k (t ++ after) ≡ t) full (take-++ t after) in
    let last = subst (λ k. drop k (t ++ after) ≡ after) full (drop-++ t after) in
    rw
      (
        append_assoc (put3 (pos d)) t after,
        long,
        count,
        drop3 (pos d) (t ++ after),
        decode_number-got d (t ++ after) h (omega (arith, length-append t after, full)),
        first,
        last,
      )
      (ap (λ m. got m after) is.value)

-- A `size_t` up to `MAM_TRITS_SIZE_MAX` that is encoded in a buffer with room for it takes
-- `trits_sizeof_size_t` trits, and from them, whatever follows, it is decoded, with what follows left.
-- The rest of the buffer is set to zero.
pub decode_size_t-encode_size_t :
    (n : ℕ) (buffer after : List ℤ)
    → n ≤ size_max
    → sizeof_size_t n ≤ length buffer
    → let (written, rest) = encode_size_t n buffer in
      (decode_size_t (written ++ after) ≡ got n after)
      × (length written ≡ sizeof_size_t n)
      × All IsTrit written
      × (rest ≡ zeros (length buffer - sizeof_size_t n))
unfolding encode_size_t decode_size_t sizeof_size_t
decode_size_t-encode_size_t n buffer after b room =
    let d = size_t_trytes n in
    let size = length buffer - 3 in
    let (h, _, _) = size_t_trytes-IsCount n b in
    let fits : d * 3 ≤ size = omega (arith, room) in
    let is = body-IsBody n size b fits in
    let (_, three, trits) = get3-put3 (pos d) after (omega arith, omega arith) in
    let t = take (d * 3) (body n size) in
    let left : size - d * 3 ≡ length buffer - 3 * (d + 1) = omega arith in
    rw (drop-zeros 3 (length buffer)) (
      decoded n d size (body n size) after is h fits,
      omega (
        arith,
        length-append (put3 (pos d)) t,
        three,
        length-take (d * 3) (body n size) (omega (arith, is.sized)),
      ),
      All-append IsTrit (put3 (pos d)) t trits (take-All IsTrit (d * 3) (body n size) is.trits),
      is.after ∙ ap zeros left,
    )
