-- ===== src/StateDelta.antt =====
-- ciri/consensus/snapshot/state_delta.c: changes of balances by address, and the balances of the
-- ledger themselves. A value is the 64-bit pattern of an `int64_t`, and sums wrap.
pub mod Balance
pub mod Total
pub mod Patch
pub mod Consistency
pub mod Merge
pub mod Examples
use entangled.Prelude.{ℕ, Bool, true, false, Option, none, some, List, [], ◌∷◌, ◌==◌, if◌then◌else◌}
use entangled.Prelude.Word.{add64, is_neg}
use entangled.Outcome.{Outcome, done, fail, ◌>>=◌, for_each}
use entangled.HashMap.{HashMap, Entry, find, delete, assign, add}

abbrev pub StateDelta : Type 0
StateDelta = HashMap

-- The loop of `state_delta_sum`, on its accumulator.
unfoldable pub sum_from : ℕ → StateDelta → ℕ
sum_from acc [] = acc
sum_from acc (e ∷ m) = sum_from (add64 acc e.1) m

unfoldable pub sum : StateDelta → ℕ
unfolding sum_from
sum = sum_from 0

unfoldable pub add_or_sum : (ℕ → Bool) → ℕ → ℕ → StateDelta → Outcome StateDelta
add_or_sum malloc h v m = if v == 0 then done m else elim (find h m) [
  | some w ↦
      if add64 w v == 0 then done (delete h (assign h 0 m)) else done (assign h (add64 w v) m)
  | none ↦ add malloc h v m
]

unfoldable pub sum_if_present : ℕ → ℕ → StateDelta → Outcome StateDelta
sum_if_present h v m =
    if v == 0
    then done m
    else elim (find h m) [ some w ↦ done (assign h (add64 w v) m) | none ↦ done m ]

unfoldable pub add_or_replace : (ℕ → Bool) → ℕ → ℕ → StateDelta → Outcome StateDelta
add_or_replace malloc h v m = elim (find h m) [
  | some w ↦ if v == 0 then done (delete h m) else done (assign h v m)
  | none ↦ add malloc h v m
]

-- `entry ? entry->value : 0`.
unfoldable pub balance : ℕ → StateDelta → ℕ
balance h m = elim (find h m) [ some w ↦ w | none ↦ 0 ]

unfoldable pub create_patch : (ℕ → Bool) → StateDelta → StateDelta → StateDelta → Outcome StateDelta
create_patch malloc state delta patch =
    for_each (λ e. add malloc e.0 (add64 (balance e.0 state) e.1)) delta patch

-- The body of the loop of `state_delta_apply_patch`.
unfoldable pub apply_entry : (ℕ → Bool) → Entry → StateDelta → Outcome StateDelta
apply_entry malloc e m = if e.1 == 0 then done m else add_or_sum malloc e.0 e.1 m

unfoldable pub apply_patch : (ℕ → Bool) → StateDelta → StateDelta → Outcome StateDelta
apply_patch malloc state patch = for_each (apply_entry malloc) patch state

unfoldable pub apply_patch_if_present : StateDelta → StateDelta → Outcome StateDelta
apply_patch_if_present state patch = for_each (λ e. sum_if_present e.0 e.1) patch state

unfoldable pub merge_patch : (ℕ → Bool) → StateDelta → StateDelta → Outcome StateDelta
merge_patch malloc state patch = for_each (λ e. add_or_replace malloc e.0 e.1) patch state

-- The answer, and the delta without the zero entries met so far.
unfoldable pub is_consistent : StateDelta → Bool × StateDelta
is_consistent [] = (true, [])
is_consistent (e ∷ m) =
    let (b, rest) = is_consistent m in
    if is_neg e.1 then (false, e ∷ m) else if e.1 == 0 then (b, rest) else (b, e ∷ rest)
