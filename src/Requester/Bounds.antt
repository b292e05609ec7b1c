-- ===== src/Requester/Bounds.antt =====
-- The queue of the requester is bounded, and no hash is queued or marked twice.
use entangled.Prelude.{
  ℕ, ◌≤◌, ◌<◌, ◌⊎◌, inl, inr, Bool, true, false, List, [], ◌∷◌, arith, ◌==◌, chosen,
}
use entangled.Outcome.{Retcode, Outcome, done, fail, left}
use entangled.HashSet.{HashSet}
use entangled.HashSet
use entangled.HashSet.Laws.{Distinct, remove-Distinct, size-remove, add_cases, append-Distinct}
use entangled.HashSet.Fifo.{make_room, add-make_room-Distinct, size-add-make_room}
use entangled.Requester.{
  Requester, init, clear_request, enqueue, with_hashes, request_transaction, answered, taken,
  get_transaction_to_request,
}

pub record IsWellFormed (r : Requester) : Type 0 where
  pub positive : 0 < r.queue_size
  pub hashes_distinct : Distinct r.hashes
  pub requested_distinct : Distinct r.requested_hashes
  pub hashes_bounded : HashSet.size r.hashes ≤ r.queue_size

hashes-IsWellFormed :
    (r : Requester) (s : HashSet)
    → IsWellFormed r
    → Distinct s
    → HashSet.size s ≤ r.queue_size
    → IsWellFormed (record r { hashes = s })
hashes-IsWellFormed r s v d b = record {
  positive = v.positive;
  hashes_distinct = d;
  requested_distinct = v.requested_distinct;
  hashes_bounded = b;
}

with_hashes-IsWellFormed :
    (r : Requester) (o : Outcome HashSet)
    → IsWellFormed r
    → Distinct (left o)
    → HashSet.size (left o) ≤ r.queue_size
    → IsWellFormed (left (with_hashes r o))
with_hashes-IsWellFormed r (done s) v d b = hashes-IsWellFormed r s v d b
with_hashes-IsWellFormed r (fail e s) v d b = hashes-IsWellFormed r s v d b

enqueue-IsWellFormed :
    (malloc : ℕ → Bool) (h : ℕ) (r : Requester)
    → IsWellFormed r
    → IsWellFormed (left (enqueue malloc h r))
unfolding enqueue
enqueue-IsWellFormed malloc h r v =
    with_hashes-IsWellFormed r (HashSet.add malloc h (make_room r.queue_size r.hashes)) v
      (add-make_room-Distinct malloc r.queue_size h r.hashes v.hashes_distinct)
      (size-add-make_room malloc r.queue_size h r.hashes v.positive v.hashes_bounded)

answered-IsWellFormed :
    (malloc : ℕ → Bool) (h : ℕ) (r : Requester) (e : Retcode ⊎ Bool)
    → IsWellFormed r
    → IsWellFormed (left (answered malloc h r e))
answered-IsWellFormed malloc h r (inl c) v = v
answered-IsWellFormed malloc h r (inr true) v = v
answered-IsWellFormed malloc h r (inr false) v = enqueue-IsWellFormed malloc h r v

request-IsWellFormed :
    (malloc : ℕ → Bool) (exist : ℕ → Retcode ⊎ Bool) (h : ℕ) (r : Requester)
    → IsWellFormed r
    → IsWellFormed (left (request_transaction malloc exist h r))
unfolding request_transaction
request-IsWellFormed malloc exist h r v =
    chosen (λ o. IsWellFormed (left o)) (h == 0) (done r) (answered malloc h r (exist h)) (λ y. v)
      (λ n. answered-IsWellFormed malloc h r (exist h) v)

left-add-Distinct :
    (malloc : ℕ → Bool) (h : ℕ) (s : HashSet)
    → Distinct s
    → Distinct (left (HashSet.add malloc h s))
left-add-Distinct malloc h s d =
    add_cases (λ o. Distinct (left o)) malloc h s (λ y. d) (λ n. append-Distinct h s d n) (λ n. d)

taken-IsWellFormed :
    (malloc : ℕ → Bool) (r : Requester) (s : HashSet)
    → IsWellFormed r
    → Distinct s
    → HashSet.size s ≤ r.queue_size
    → IsWellFormed (taken malloc r s).1
taken-IsWellFormed malloc r [] v d b = v
taken-IsWellFormed malloc r (h ∷ rest) v d b = record {
  positive = v.positive;
  hashes_distinct = d.1;
  requested_distinct = left-add-Distinct malloc h r.requested_hashes v.requested_distinct;
  hashes_bounded = omega (arith, b);
}

clear-IsWellFormed :
    (h : ℕ) (r : Requester) → IsWellFormed r → IsWellFormed (left (clear_request h r))
unfolding clear_request
clear-IsWellFormed h r v = record {
  positive = v.positive;
  hashes_distinct = remove-Distinct h r.hashes v.hashes_distinct;
  requested_distinct = remove-Distinct h r.requested_hashes v.requested_distinct;
  hashes_bounded = omega (arith, size-remove h r.hashes, v.hashes_bounded);
}

-- A call of another part of the node.
pub data Call : Type 0 where
  requests : (ℕ → Bool) → (ℕ → Retcode ⊎ Bool) → ℕ → Call
  takes : (ℕ → Bool) → Call
  clears : ℕ → Call

abbrev pub step : Call → Requester → Requester
step (requests malloc exist h) r = left (request_transaction malloc exist h r)
step (takes malloc) r = (get_transaction_to_request malloc r).1
step (clears h) r = left (clear_request h r)

abbrev pub run : List Call → Requester → Requester
run [] r = r
run (x ∷ xs) r = run xs (step x r)

step-IsWellFormed : (x : Call) (r : Requester) → IsWellFormed r → IsWellFormed (step x r)
unfolding get_transaction_to_request
step-IsWellFormed (requests malloc exist h) r v = request-IsWellFormed malloc exist h r v
step-IsWellFormed (takes malloc) r v =
    taken-IsWellFormed malloc r r.hashes v v.hashes_distinct v.hashes_bounded
step-IsWellFormed (clears h) r v = clear-IsWellFormed h r v

run-IsWellFormed : (xs : List Call) (r : Requester) → IsWellFormed r → IsWellFormed (run xs r)
run-IsWellFormed [] r v = v
run-IsWellFormed (x ∷ xs) r v = run-IsWellFormed xs (step x r) (step-IsWellFormed x r v)

-- From a new requester with a queue for at least one hash, after any calls in any order, failed
-- ones included, the queue is no longer than its size, and neither the queue nor the requested
-- hashes list a hash twice.
pub run-init-IsWellFormed :
    (queue_size : ℕ) (xs : List Call) → 0 < queue_size → IsWellFormed (run xs (init queue_size))
unfolding init
run-init-IsWellFormed queue_size xs p = run-IsWellFormed xs _ (record {
  positive = p;
  hashes_distinct = tt;
  requested_distinct = tt;
  hashes_bounded = omega arith;
})
