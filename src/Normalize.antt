-- ===== src/Normalize.antt =====
-- common/crypto/iss/normalize.c: the trytes of a hash, each fragment brought to the sum 0.
pub mod Fragment
pub mod Hash
pub mod Examples
use entangled.Prelude.{
  ℕ, zero, suc, ◌+◌, ◌*◌, ◌%◌, Bool, true, false, List, [], ◌∷◌, ◌++◌, ◌==◌, if◌then◌else◌, drop,
  take, get_or, replicate,
}
use entangled.Prelude.Int.{ℤ, pos, negsuc, pos_part, neg_part, ◌+ℤ◌, scale, ltb_ℤ}
use entangled.Trinary.Trit.{word}
use entangled.Trinary.Add.{eq_ℤ}
use entangled.Trinary.Long.{long_to_trits}
use entangled.Transaction.{to_trits}

abbrev pub tryte_value_max : ℤ
tryte_value_max = pos 13

abbrev pub tryte_value_min : ℤ
tryte_value_min = negsuc 12

unfoldable pub normalized_hash_is_secure : List ℤ → Bool
normalized_hash_is_secure [] = true
normalized_hash_is_secure (t ∷ ts) =
    let rest = normalized_hash_is_secure ts in if eq_ℤ t tryte_value_max then false else rest

-- The value of the tryte at the front of the trits.
unfoldable pub tryte_value : List ℤ → ℤ
unfolding ◌+ℤ◌ scale
tryte_value ts =
    get_or ts 0 (pos 0) +ℤ scale 3 (get_or ts 1 (pos 0)) +ℤ scale 9 (get_or ts 2 (pos 0))

unfoldable pub fragment_trytes : ℕ → List ℤ → List ℤ
fragment_trytes zero ts = []
fragment_trytes (suc n) ts = tryte_value ts ∷ fragment_trytes n (drop 3 ts)

unfoldable pub sum : List ℤ → ℤ
sum [] = pos 0
sum (t ∷ ts) = t +ℤ sum ts

-- The body of `while (sum-- > 0)`: the first tryte above the least is lowered.
unfoldable pub lower : List ℤ → List ℤ
lower [] = []
lower (t ∷ ts) =
    let rest = lower ts in if ltb_ℤ tryte_value_min t then (t +ℤ negsuc 0) ∷ ts else t ∷ rest

-- The body of `while (sum++ < 0)`: the first tryte below the greatest is raised.
unfoldable pub raise : List ℤ → List ℤ
raise [] = []
raise (t ∷ ts) =
    let rest = raise ts in if ltb_ℤ t tryte_value_max then (t +ℤ pos 1) ∷ ts else t ∷ rest

unfoldable pub lower_times : ℕ → List ℤ → List ℤ
lower_times zero ts = ts
lower_times (suc n) ts = lower_times n (lower ts)

unfoldable pub raise_times : ℕ → List ℤ → List ℤ
raise_times zero ts = ts
raise_times (suc n) ts = raise_times n (raise ts)

unfoldable pub normalize_fragment : List ℤ → List ℤ
normalize_fragment ts =
    if ltb_ℤ (pos 0) (sum ts)
    then lower_times (pos_part (sum ts)) ts
    else raise_times (neg_part (sum ts)) ts

-- Fragment after fragment of 27 trytes.
unfoldable pub normalize_from : ℕ → List ℤ → List ℤ
normalize_from zero hash = []
normalize_from (suc n) hash =
    normalize_fragment (fragment_trytes 27 hash) ++ normalize_from n (drop 81 hash)

unfoldable pub normalize_hash : List ℤ → List ℤ
normalize_hash hash = normalize_from 3 hash

-- `long_to_trits` of each tryte into its three places.
unfoldable pub trytes_to_trits : List ℤ → List ℤ
trytes_to_trits [] = []
trytes_to_trits (t ∷ ts) =
    take 3 ((long_to_trits (word t) (replicate 3 (pos 0))).1) ++ trytes_to_trits ts

unfoldable pub normalize_hash_to_trits : List ℤ → List ℤ
normalize_hash_to_trits hash = trytes_to_trits (normalize_hash hash)

unfoldable pub normalize_flex_hash_to_trits : ℕ → List ℤ
normalize_flex_hash_to_trits hash = normalize_hash_to_trits (to_trits 243 hash)
