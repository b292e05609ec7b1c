-- ===== src/Mam/Buffers/Laws.antt =====
-- Several buffers are read as one.
use entangled.Prelude.{
  ℕ, zero, suc, ◌+◌, ◌-◌, ◌≡◌, ◌≤◌, refl, inl, inr, List, [], ◌∷◌, ◌++◌, ◌==◌, length, take, drop,
  concat, arith, Bool-cases, sym, ap, ◌∙◌, append_nil, length-append, length-drop, take-++-left,
  drop-++-left, take-++-right, drop-++-right,
}
use entangled.Prelude.Int.{ℤ}
use entangled.Mam.Buffers.{Buffers, size_from, copy_from}

-- The trits that are still to be read.
abbrev pub content : Buffers → List ℤ
content b = b.head ++ concat b.tail

pub size_from-content :
    (head : List ℤ) (tail : List (List ℤ)) → size_from head tail ≡ length (head ++ concat tail)
unfolding size_from
size_from-content head [] = ap length (sym (append_nil head))
size_from-content head (t ∷ ts) =
    rw (length-append head (t ++ concat ts)) (ap (λ n. length head + n) (size_from-content t ts))

pub take_all : (n : ℕ) (xs : List ℤ) → length xs ≤ n → take n xs ≡ xs
take_all zero [] h = refl
take_all zero (x ∷ xs) h = absurd (omega arith)
take_all (suc n) [] h = refl
take_all (suc n) (x ∷ xs) h = ap (λ ys. x ∷ ys) (take_all n xs (omega arith))

pub drop_all : (n : ℕ) (xs : List ℤ) → length xs ≤ n → drop n xs ≡ []
drop_all zero [] h = refl
drop_all zero (x ∷ xs) h = absurd (omega arith)
drop_all (suc n) [] h = refl
drop_all (suc n) (x ∷ xs) h = drop_all n xs (omega arith)

-- The trits copied are the first, and the others are left.
pub copy_from-content :
    (room : ℕ) (head : List ℤ) (tail : List (List ℤ))
    → ((copy_from room head tail).0 ≡ take room (head ++ concat tail))
      × (content (copy_from room head tail).1 ≡ drop room (head ++ concat tail))
unfolding copy_from
copy_from-content zero head tail = (refl, refl)
copy_from-content (suc room) head [] = (
  ap (take (suc room)) (sym (append_nil head)),
  rw (append_nil head, append_nil (drop (suc room) head)) refl,
)
copy_from-content (suc room) head (t ∷ ts) =
    elim (Bool-cases (length (drop (suc room) head) == 0)) [
      | inl y ↦
          let short : length head ≤ suc room = ground (arith, y, length-drop (suc room) head) in
          let split : suc room ≡ length head + (suc room - length head) = omega (arith, short) in
          let (copied, left) = copy_from-content (suc room - length head) t ts in
          rw y (
            rw (take_all (suc room) head short, copied)
                (sym
                  (take-++-right (suc room) (suc room - length head) head (t ++ concat ts) split)),
            left
                ∙ sym
                    (drop-++-right (suc room) (suc room - length head) head (t ++ concat ts) split),
          )
      | inr n ↦
          let long : suc room ≤ length head = ground (arith, n, length-drop (suc room) head) in
          rw n (
            sym (take-++-left (suc room) head (t ++ concat ts) long),
            sym (drop-++-left (suc room) head (t ++ concat ts) long),
          )
    ]
