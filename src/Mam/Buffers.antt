-- ===== src/Mam/Buffers.antt =====
-- mam/trits/buffers.c: several buffers of trits, read one after the other. `count` is the length of
-- the tail.
pub mod Laws
use entangled.Prelude.{
  ℕ, zero, suc, ◌+◌, ◌-◌, List, [], ◌∷◌, ◌++◌, ◌==◌, if◌then◌else◌, length, take, drop,
}
use entangled.Prelude.Int.{ℤ}

pub record Buffers : Type 0 where
  pub head : List ℤ
  pub tail : List (List ℤ)

unfoldable pub buffers_init : List (List ℤ) → Buffers
buffers_init trits = record { head = []; tail = trits }

-- The loop of `buffers_size`, on the head and the tail.
unfoldable pub size_from : List ℤ → List (List ℤ) → ℕ
size_from head [] = length head
size_from head (t ∷ ts) = length head + size_from t ts

abbrev pub buffers_size : Buffers → ℕ
buffers_size b = size_from b.head b.tail

-- The loop of `buffers_copy_to`, for room for so many trits: the trits copied and what is left. When
-- the room is full no further buffer becomes the head.
unfoldable pub copy_from : ℕ → List ℤ → List (List ℤ) → List ℤ × Buffers
copy_from zero head tail = ([], record { head = head; tail = tail })
copy_from (suc room) head [] =
    (take (suc room) head, record { head = drop (suc room) head; tail = [] })
copy_from (suc room) head (t ∷ ts) =
    let (copied, left) = copy_from (suc room - length head) t ts in
    if length (drop (suc room) head) == 0
    then (take (suc room) head ++ copied, left)
    else (take (suc room) head, record { head = drop (suc room) head; tail = t ∷ ts })

abbrev pub buffers_copy_to : Buffers → ℕ → List ℤ × Buffers
buffers_copy_to b room = copy_from room b.head b.tail
