-- ===== src/TipsCache/Solid.antt =====
-- What becomes of one tip: marked solid, removed, added again, listed.
use mathlib.Core.List.{reverse}
use entangled.Prelude.{ℕ, ◌≡◌, ◌≤◌, refl, ap, Bool, true, false, ◌∷◌, ◌++◌, arith}
use entangled.Outcome.{Outcome, done, fail, left}
use entangled.HashSet.{HashSet, HashStack, contains, push, remove_first}
use entangled.HashSet
use entangled.HashSet.Laws.{Distinct, contains-remove_self}
use entangled.HashSet.Fifo.{make_room, contains-add, push_all}
use entangled.TipsCache.{TipsCache, fifo_add, with_solid_tips, add, remove, set_solid, get_tips}

with_solid_tips-done :
    (c d : TipsCache) (r : Outcome HashSet)
    → with_solid_tips c r ≡ done d
    → (s : HashSet) × (r ≡ done s) × (d ≡ record c { solid_tips = s })
with_solid_tips-done c d (done s) e = (s, refl, cc)
with_solid_tips-done c d (fail x s) e = absurd (cc)

-- After a `tips_cache_set_solid` that succeeds, a tip that was among the tips that are not
-- solid, which list none twice, is solid and no longer among those.
pub set_solid-moves :
    (malloc : ℕ → Bool) (tip : ℕ) (c d : TipsCache)
    → Distinct c.tips
    → contains c.tips tip ≡ true
    → set_solid malloc tip c ≡ done d
    → (contains d.solid_tips tip ≡ true) × (contains d.tips tip ≡ false)
unfolding set_solid fifo_add
set_solid-moves malloc tip c d dis here e =
    let (s, ok, same) =
      with_solid_tips-done (record c { tips = HashSet.remove tip c.tips }) d
        (HashSet.add malloc tip (make_room c.capacity c.solid_tips)) (rw here at e) in
    (
      ground (arith, same, contains-add malloc tip (make_room c.capacity c.solid_tips) s ok),
      ground (arith, same, contains-remove_self tip c.tips dis),
    )

-- A removed tip is in neither set, where neither listed a tip twice.
pub remove-gone :
    (tip : ℕ) (c : TipsCache)
    → Distinct c.tips
    → Distinct c.solid_tips
    → (contains (left (remove tip c)).tips tip ≡ false)
      × (contains (left (remove tip c)).solid_tips tip ≡ false)
unfolding remove
remove-gone tip c d e = (contains-remove_self tip c.tips d, contains-remove_self tip c.solid_tips e)

-- Adding a tip that is there already, to a full set whose oldest tip is another, drops the oldest
-- tip and adds nothing: the test for the capacity comes before the test for the tip.
pub add_full_present :
    (malloc : ℕ → Bool) (tip oldest : ℕ) (rest : HashSet) (c : TipsCache)
    → c.tips ≡ oldest ∷ rest
    → c.capacity ≤ HashSet.size c.tips
    → contains rest tip ≡ true
    → add malloc tip c ≡ done (record c { tips = rest })
unfolding add fifo_add HashSet.add remove_first
add_full_present malloc tip oldest rest c e full here = ground (arith, ap HashSet.size e)

-- With memory the stack gets all solid tips, newest first, above all others, newest first.
pub get_tips_all :
    (c : TipsCache) (stack : HashStack)
    → get_tips (λ _. true) c stack ≡ done (reverse c.solid_tips ++ (reverse c.tips ++ stack))
unfolding get_tips
get_tips_all c stack = rw push_all (push_all c.solid_tips (reverse c.tips ++ stack))
