-- ===== src/Requester/Examples.antt =====
-- Examples of a requester with a queue of two hashes.
use mathlib.Core.List.{reverse}
use entangled.Prelude.{◌||◌, ℕ, ◌≡◌, ◌⊎◌, refl, inr, Bool, true, [], ◌∷◌, ◌++◌, arith, ◌==◌}
use entangled.Outcome.{Retcode, done}
use entangled.HashSet.{contains}
use entangled.Requester.{
  was_requested, Requester, init, request_transaction, get_requested_transactions,
}
use entangled.Requester.Bounds.{IsWellFormed, run, requests, takes, clears, run-init-IsWellFormed}
use entangled.Requester.Queue.{
  request-unneeded, served, served-all, get_requested_transactions-queue,
}

abbrev all : ℕ → Bool
all _ = true

-- A tangle with the transaction 8.
abbrev exist : ℕ → Retcode ⊎ Bool
exist h = inr (h == 8)

abbrev asked : Requester
asked = record { running = true; hashes = 4 ∷ 5 ∷ []; requested_hashes = 3 ∷ []; queue_size = 3 }

run-init-IsWellFormed_example : IsWellFormed (
    run
      (requests all exist 4
        ∷ requests all exist 5
        ∷ takes all
        ∷ requests all exist 6
        ∷ clears 4
        ∷ [])
      (init 1))
run-init-IsWellFormed_example =
    run-init-IsWellFormed 1
      (requests all exist 4
        ∷ requests all exist 5
        ∷ takes all
        ∷ requests all exist 6
        ∷ clears 4
        ∷ [])
      (omega arith)

request-unneeded_example : request_transaction all exist 8 asked ≡ done asked
request-unneeded_example = request-unneeded all exist 8 asked (inr refl)

served-all_example :
    let (given, r') = served 2 asked in
    (given ≡ 4 ∷ 5 ∷ [])
    × (r'.hashes ≡ [])
    × (was_requested r' 3 ≡ (contains asked.hashes 3 || was_requested asked 3))
served-all_example = served-all asked 3

get_requested_transactions-queue_example :
    get_requested_transactions (λ _. true) all asked [] ≡ done (reverse asked.hashes ++ [])
get_requested_transactions-queue_example = get_requested_transactions-queue all asked []
