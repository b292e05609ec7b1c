-- ===== src/TipsCache/Bounds.antt =====
-- The capacity holds after every operation, and no set lists a tip twice.
use entangled.Prelude.{ℕ, ◌≤◌, ◌<◌, inl, inr, Bool, [], ◌∷◌, arith, Bool-cases, List}
use entangled.Outcome.{Outcome, done, fail, left}
use entangled.HashSet.{HashSet, contains}
use entangled.HashSet
use entangled.HashSet.Laws.{Distinct, remove-Distinct, size-remove}
use entangled.HashSet.Fifo.{make_room, add-make_room-Distinct, size-add-make_room}
use entangled.TipsCache.{
  TipsCache, init, fifo_add, with_tips, with_solid_tips, add, remove, set_solid,
}

pub record IsValid (c : TipsCache) : Type 0 where
  pub positive : 0 < c.capacity
  pub tips_distinct : Distinct c.tips
  pub solid_distinct : Distinct c.solid_tips
  pub tips_bounded : HashSet.size c.tips ≤ c.capacity
  pub solid_bounded : HashSet.size c.solid_tips ≤ c.capacity

tips-IsValid :
    (c : TipsCache) (s : HashSet)
    → IsValid c
    → Distinct s
    → HashSet.size s ≤ c.capacity
    → IsValid (record c { tips = s })
tips-IsValid c s v d b = record {
  positive = v.positive;
  tips_distinct = d;
  solid_distinct = v.solid_distinct;
  tips_bounded = b;
  solid_bounded = v.solid_bounded;
}

solid_tips-IsValid :
    (c : TipsCache) (s : HashSet)
    → IsValid c
    → Distinct s
    → HashSet.size s ≤ c.capacity
    → IsValid (record c { solid_tips = s })
solid_tips-IsValid c s v d b = record {
  positive = v.positive;
  tips_distinct = v.tips_distinct;
  solid_distinct = d;
  tips_bounded = v.tips_bounded;
  solid_bounded = b;
}

with_tips-IsValid :
    (c : TipsCache) (r : Outcome HashSet)
    → IsValid c
    → Distinct (left r)
    → HashSet.size (left r) ≤ c.capacity
    → IsValid (left (with_tips c r))
with_tips-IsValid c (done s) v d b = tips-IsValid c s v d b
with_tips-IsValid c (fail e s) v d b = tips-IsValid c s v d b

with_solid_tips-IsValid :
    (c : TipsCache) (r : Outcome HashSet)
    → IsValid c
    → Distinct (left r)
    → HashSet.size (left r) ≤ c.capacity
    → IsValid (left (with_solid_tips c r))
with_solid_tips-IsValid c (done s) v d b = solid_tips-IsValid c s v d b
with_solid_tips-IsValid c (fail e s) v d b = solid_tips-IsValid c s v d b

remove_tip-IsValid :
    (tip : ℕ) (c : TipsCache) → IsValid c → IsValid (record c { tips = HashSet.remove tip c.tips })
remove_tip-IsValid tip c v =
    tips-IsValid c (HashSet.remove tip c.tips) v (remove-Distinct tip c.tips v.tips_distinct)
      (omega (arith, size-remove tip c.tips, v.tips_bounded))

add-IsValid :
    (malloc : ℕ → Bool) (tip : ℕ) (c : TipsCache) → IsValid c → IsValid (left (add malloc tip c))
unfolding add fifo_add
add-IsValid malloc tip c v =
    with_tips-IsValid c (HashSet.add malloc tip (make_room c.capacity c.tips)) v
      (add-make_room-Distinct malloc c.capacity tip c.tips v.tips_distinct)
      (size-add-make_room malloc c.capacity tip c.tips v.positive v.tips_bounded)

set_solid-IsValid :
    (malloc : ℕ → Bool) (tip : ℕ) (c : TipsCache)
    → IsValid c
    → IsValid (left (set_solid malloc tip c))
unfolding set_solid fifo_add
set_solid-IsValid malloc tip c v = elim (Bool-cases (contains c.tips tip)) [
  | inl y ↦ rw y (
      with_solid_tips-IsValid _ (HashSet.add malloc tip (make_room c.capacity c.solid_tips))
        (remove_tip-IsValid tip c v)
        (add-make_room-Distinct malloc c.capacity tip c.solid_tips v.solid_distinct)
        (size-add-make_room malloc c.capacity tip c.solid_tips v.positive v.solid_bounded))
  | inr n ↦ rw n v
]

remove-IsValid : (tip : ℕ) (c : TipsCache) → IsValid c → IsValid (left (remove tip c))
unfolding remove
remove-IsValid tip c v =
    solid_tips-IsValid _ (HashSet.remove tip c.solid_tips) (remove_tip-IsValid tip c v)
      (remove-Distinct tip c.solid_tips v.solid_distinct)
      (omega (arith, size-remove tip c.solid_tips, v.solid_bounded))

-- A call of another part of the node, with the allocations that succeed while it runs.
pub data Call : Type 0 where
  adds : (ℕ → Bool) → ℕ → Call
  removes : ℕ → Call
  solidifies : (ℕ → Bool) → ℕ → Call

abbrev pub step : Call → TipsCache → TipsCache
step (adds malloc tip) c = left (add malloc tip c)
step (removes tip) c = left (remove tip c)
step (solidifies malloc tip) c = left (set_solid malloc tip c)

abbrev pub run : List Call → TipsCache → TipsCache
run [] c = c
run (x ∷ xs) c = run xs (step x c)

step-IsValid : (x : Call) (c : TipsCache) → IsValid c → IsValid (step x c)
step-IsValid (adds malloc tip) c v = add-IsValid malloc tip c v
step-IsValid (removes tip) c v = remove-IsValid tip c v
step-IsValid (solidifies malloc tip) c v = set_solid-IsValid malloc tip c v

run-IsValid : (xs : List Call) (c : TipsCache) → IsValid c → IsValid (run xs c)
run-IsValid [] c v = v
run-IsValid (x ∷ xs) c v = run-IsValid xs (step x c) (step-IsValid x c v)

-- From a new cache with room for at least one tip, after any calls in any order, failed ones
-- included, neither set has more tips than the capacity or lists a tip twice.
pub run-init-IsValid :
    (capacity : ℕ) (xs : List Call) → 0 < capacity → IsValid (run xs (init capacity))
unfolding init
run-init-IsValid capacity xs p = run-IsValid xs _ (record {
  positive = p;
  tips_distinct = tt;
  solid_distinct = tt;
  tips_bounded = omega arith;
  solid_bounded = omega arith;
})
