-- ===== src/TipsCache.antt =====
-- ciri/node/tips_cache.c: the tips of the tangle, solid or not yet, each kind in a set of bounded
-- size that drops its oldest tip. Each critical section is one step, and a handler that takes two
-- locks makes its two steps one after the other. `malloc` tells which allocations succeed.
pub mod Bounds
pub mod Solid
pub mod Examples
use entangled.Prelude.{ℕ, ◌+◌, Bool, true, false, List, [], ◌∷◌, ◌==◌, if◌then◌else◌, leb}
use entangled.Outcome.{Outcome, done, fail, ◌>>=◌, for_each}
use entangled.HashSet.{HashSet, HashStack, contains, remove_first, push, nth}
use entangled.HashSet

pub record TipsCache : Type 0 where
  pub tips : HashSet
  pub solid_tips : HashSet
  pub capacity : ℕ

unfoldable pub init : ℕ → TipsCache
init capacity = record { tips = []; solid_tips = []; capacity = capacity }

unfoldable pub destroy : TipsCache → TipsCache
destroy c = record c { tips = []; solid_tips = [] }

unfoldable pub fifo_add : (ℕ → Bool) → ℕ → ℕ → HashSet → Outcome HashSet
fifo_add malloc capacity tip set =
    HashSet.add malloc tip (if leb capacity (HashSet.size set) then remove_first set else set)

abbrev with_tips : TipsCache → Outcome HashSet → Outcome TipsCache
with_tips c (done s) = done (record c { tips = s })
with_tips c (fail e s) = fail e (record c { tips = s })

abbrev with_solid_tips : TipsCache → Outcome HashSet → Outcome TipsCache
with_solid_tips c (done s) = done (record c { solid_tips = s })
with_solid_tips c (fail e s) = fail e (record c { solid_tips = s })

unfoldable pub add : (ℕ → Bool) → ℕ → TipsCache → Outcome TipsCache
add malloc tip c = with_tips c (fifo_add malloc c.capacity tip c.tips)

unfoldable pub remove : ℕ → TipsCache → Outcome TipsCache
remove tip c =
    done
      (record c { tips = HashSet.remove tip c.tips; solid_tips = HashSet.remove tip c.solid_tips })

unfoldable pub set_solid : (ℕ → Bool) → ℕ → TipsCache → Outcome TipsCache
set_solid malloc tip c =
    if contains c.tips tip
    then with_solid_tips (record c { tips = HashSet.remove tip c.tips })
        (fifo_add malloc c.capacity tip c.solid_tips)
    else done c

-- The stack passed by reference, as the two loops leave it.
unfoldable pub get_tips : (ℕ → Bool) → TipsCache → HashStack → Outcome HashStack
get_tips malloc c stack =
    for_each (push malloc) c.tips stack >>= for_each (push malloc) c.solid_tips

abbrev pub non_solid_size : TipsCache → ℕ
non_solid_size c = HashSet.size c.tips

abbrev pub solid_size : TipsCache → ℕ
solid_size c = HashSet.size c.solid_tips

abbrev pub size : TipsCache → ℕ
size c = HashSet.size c.tips + HashSet.size c.solid_tips

-- The hash drawn at `index`; 0 is the null hash, and `old` what the caller's buffer held.
unfoldable pub random_tip_from_set : HashSet → ℕ → ℕ → ℕ
random_tip_from_set set index old = if HashSet.size set == 0 then 0 else nth set index old

unfoldable pub random_tip : TipsCache → ℕ → ℕ → ℕ
random_tip c index old = random_tip_from_set c.tips index old

unfoldable pub random_solid_tip : TipsCache → ℕ → ℕ → ℕ
random_solid_tip c index old = random_tip_from_set c.solid_tips index old
