-- ===== src/TipsCache/Examples.antt =====
-- Examples of a cache of two tips.
use entangled.Prelude.{ℕ, Bool, true, [], ◌∷◌, arith}
use entangled.TipsCache.{TipsCache, init}
use entangled.TipsCache.Bounds.{IsValid, run, adds, removes, solidifies, run-init-IsValid}

abbrev all : ℕ → Bool
all _ = true

abbrev two : TipsCache
two = record { tips = 4 ∷ 5 ∷ []; solid_tips = 6 ∷ []; capacity = 2 }

abbrev moved : TipsCache
moved = record { tips = 4 ∷ []; solid_tips = 6 ∷ 5 ∷ []; capacity = 2 }

run-init-IsValid_example :
    IsValid
      (run (adds all 4 ∷ adds all 5 ∷ adds all 6 ∷ solidifies all 5 ∷ removes 6 ∷ []) (init 2))
run-init-IsValid_example =
    run-init-IsValid 2 (adds all 4 ∷ adds all 5 ∷ adds all 6 ∷ solidifies all 5 ∷ removes 6 ∷ [])
      (omega arith)
