-- ===== src/Requester.antt =====
-- ciri/node/pipeline/transaction_requester.c: the hashes that the node wants from its neighbors,
-- queued up to a size and then marked as requested. The existence of a transaction is asked of the
-- tangle, which is a parameter. A critical section is a step; `malloc` tells which allocations
-- succeed.
pub mod Bounds
pub mod Queue
pub mod Examples
use entangled.Prelude.{
  ℕ, ◌+◌, ◌⊎◌, inl, inr, Bool, true, false, List, [], ◌∷◌, ◌==◌, if◌then◌else◌, leb,
}
use entangled.Outcome.{Retcode, Outcome, done, fail, left, ◌>>=◌, for_each}
use entangled.Outcome.Retcode.{rc_still_running}
use entangled.HashSet.{HashSet, HashStack, contains, remove_first, push}
use entangled.HashSet

pub record Requester : Type 0 where
  pub running : Bool
  pub hashes : HashSet
  pub requested_hashes : HashSet
  pub queue_size : ℕ

unfoldable pub init : ℕ → Requester
init queue_size = record {
  running = false;
  hashes = [];
  requested_hashes = [];
  queue_size = queue_size;
}

-- The requested hashes are not freed.
unfoldable pub destroy : Requester → Outcome Requester
destroy r = if r.running then fail rc_still_running r else done (record r { hashes = [] })

-- The second loop runs when the first has failed; it sets the return code anew.
abbrev pub second_loop : (ℕ → Bool) → HashSet → Outcome HashStack → Outcome HashStack
second_loop malloc set (done s) = done s
second_loop malloc [] (fail e s) = fail e s
second_loop malloc (x ∷ xs) (fail e s) = for_each (push malloc) (x ∷ xs) s

unfoldable pub get_requested_transactions :
    (ℕ → Bool) → (ℕ → Bool) → Requester → HashStack → Outcome HashStack
get_requested_transactions malloc malloc' r stack =
    second_loop malloc' r.requested_hashes (for_each (push malloc) r.hashes stack)

abbrev pub size : Requester → ℕ
size r = HashSet.size r.hashes + HashSet.size r.requested_hashes

unfoldable pub is_full : Requester → Bool
is_full r = leb r.queue_size (HashSet.size r.hashes)

unfoldable pub clear_request : ℕ → Requester → Outcome Requester
clear_request hash r = done (record r {
  hashes = HashSet.remove hash r.hashes;
  requested_hashes = HashSet.remove hash r.requested_hashes;
})

unfoldable pub was_requested : Requester → ℕ → Bool
was_requested r hash = contains r.requested_hashes hash

abbrev with_hashes : Requester → Outcome HashSet → Outcome Requester
with_hashes r (done s) = done (record r { hashes = s })
with_hashes r (fail e s) = fail e (record r { hashes = s })

-- The critical section of `request_transaction`.
unfoldable pub enqueue : (ℕ → Bool) → ℕ → Requester → Outcome Requester
enqueue malloc hash r = with_hashes r (
    HashSet.add malloc hash
      (if leb r.queue_size (HashSet.size r.hashes) then remove_first r.hashes else r.hashes))

-- What follows the answer of `iota_tangle_transaction_exist`.
abbrev pub answered : (ℕ → Bool) → ℕ → Requester → Retcode ⊎ Bool → Outcome Requester
answered malloc hash r (inl e) = fail e r
answered malloc hash r (inr true) = done r
answered malloc hash r (inr false) = enqueue malloc hash r

-- `exist` is `iota_tangle_transaction_exist`; 0 is the null hash.
unfoldable pub request_transaction :
    (ℕ → Bool) → (ℕ → Retcode ⊎ Bool) → ℕ → Requester → Outcome Requester
request_transaction malloc exist hash r =
    if hash == 0 then done r else answered malloc hash r (exist hash)

-- The oldest hash is moved; the return code of its insertion is dropped.
abbrev pub taken : (ℕ → Bool) → Requester → HashSet → ℕ × Requester
taken malloc r [] = (0, r)
taken malloc r (h ∷ rest) = (
  h,
  record r { hashes = rest; requested_hashes = left (HashSet.add malloc h r.requested_hashes) },
)

-- The hash returned, 0 for none.
unfoldable pub get_transaction_to_request : (ℕ → Bool) → Requester → ℕ × Requester
get_transaction_to_request malloc r = taken malloc r r.hashes
