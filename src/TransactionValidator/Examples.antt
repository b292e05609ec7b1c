-- ===== src/TransactionValidator/Examples.antt =====
-- An example of a transaction that is taken in.
use entangled.Prelude.{true, [], ◌∷◌}
use entangled.Requester.{Requester}
use entangled.Snapshot.Examples.{at}
use entangled.TransactionValidator.{TransactionValidator}

abbrev requester : Requester
requester = record { running = true; hashes = 1 ∷ 5 ∷ []; requested_hashes = []; queue_size = 3 }

abbrev tv : TransactionValidator
tv = record { mwm = 14; genesis_hash = 0; initial_snapshot = at 3 []; requester = requester }
