-- ===== src/Trinary/Trytes.antt =====
-- common/trinary/trit_tryte.c and tryte_ascii.c: three trits in a tryte, least first, and a character
-- in two trytes. A `tryte_t` is the ASCII code of a character of the alphabet of trytes.
pub mod RoundTrip
use entangled.Prelude.{
  ℕ, suc, ◌+◌, ◌-◌, ◌*◌, ◌/◌, ◌%◌, ◌^◌, List, [], ◌∷◌, ◌++◌, Bool, ◌==◌, if◌then◌else◌, leb, ltb,
  length, take, get_or,
}
use entangled.Prelude.Int.{ℤ, pos, negsuc, pos_part, ◌+ℤ◌, scale, ltb_ℤ}

-- "9ABCDEFGHIJKLMNOPQRSTUVWXYZ"
abbrev pub tryte_alphabet : List ℕ
tryte_alphabet =
    57 ∷ 65 ∷ 66 ∷ 67 ∷ 68 ∷ 69 ∷ 70 ∷ 71 ∷ 72 ∷ 73 ∷ 74 ∷ 75 ∷ 76 ∷ 77 ∷ 78 ∷ 79 ∷ 80 ∷ 81 ∷ 82
    ∷ 83 ∷ 84 ∷ 85 ∷ 86 ∷ 87 ∷ 88 ∷ 89 ∷ 90 ∷ []

-- The macro `INDEX_OF_TRYTE`, as a `size_t`: below 'A' it wraps.
unfoldable pub index_of_tryte : ℕ → ℕ
index_of_tryte tryte = if tryte == 57 then 0 else (tryte + 2 ^ 64 - 65 + 1) % 2 ^ 64

abbrev m : ℤ
m = negsuc 0

abbrev o : ℤ
o = pos 0

abbrev p : ℤ
p = pos 1

abbrev row : ℤ → ℤ → ℤ → List ℤ
row a b c = a ∷ b ∷ c ∷ []

abbrev pub trytes_trits_lut : List (List ℤ)
trytes_trits_lut =
    row o o o
    ∷ row p o o
    ∷ row m p o
    ∷ row o p o
    ∷ row p p o
    ∷ row m m p
    ∷ row o m p
    ∷ row p m p
    ∷ row m o p
    ∷ row o o p
    ∷ row p o p
    ∷ row m p p
    ∷ row o p p
    ∷ row p p p
    ∷ row m m m
    ∷ row o m m
    ∷ row p m m
    ∷ row m o m
    ∷ row o o m
    ∷ row p o m
    ∷ row m p m
    ∷ row o p m
    ∷ row p p m
    ∷ row m m o
    ∷ row o m o
    ∷ row p m o
    ∷ row m o o
    ∷ []

-- `k` of the loop of `trits_to_trytes`, over up to three trits.
abbrev pub tryte_number : List ℤ → ℤ
tryte_number [] = pos 0
tryte_number (t ∷ ts) = scale 3 (tryte_number ts) +ℤ t

-- The tryte of up to three trits.
unfoldable pub tryte_of : List ℤ → ℕ
tryte_of ts =
    let k = tryte_number ts in
    get_or tryte_alphabet (pos_part (if ltb_ℤ k (pos 0) then k +ℤ pos 27 else k)) 0

unfoldable pub trits_to_trytes : List ℤ → List ℕ
trits_to_trytes [] = []
trits_to_trytes (a ∷ b ∷ c ∷ ts) = tryte_of (a ∷ b ∷ c ∷ []) ∷ trits_to_trytes ts
trits_to_trytes (t ∷ ts) = tryte_of (t ∷ ts) ∷ []

unfoldable pub trytes_to_trits : List ℕ → List ℤ
trytes_to_trits [] = []
trytes_to_trits (tryte ∷ trytes) =
    get_or trytes_trits_lut (index_of_tryte tryte) [] ++ trytes_to_trits trytes

unfoldable pub get_trit_at : List ℕ → ℕ → ℤ
get_trit_at trytes index =
    let tryte = get_or trytes (index / 3) 0 in
    if leb (length trytes) (index / 3)
    then pos 0
    else get_or (get_or trytes_trits_lut (index_of_tryte tryte) []) (index % 3) (pos 0)

-- The characters before the terminating null.
unfoldable pub ascii_to_trytes : List ℕ → List ℕ
ascii_to_trytes [] = []
ascii_to_trytes (dec ∷ input) =
    let first = dec % 27 in
    let second = (dec - first) / 27 in
    get_or tryte_alphabet first 0 ∷ get_or tryte_alphabet second 0 ∷ ascii_to_trytes input

-- An odd last tryte is not modelled.
unfoldable pub trytes_to_ascii : List ℕ → List ℕ
trytes_to_ascii (a ∷ b ∷ input) =
    (index_of_tryte a + index_of_tryte b * 27) % 256 ∷ trytes_to_ascii input
trytes_to_ascii _ = []
