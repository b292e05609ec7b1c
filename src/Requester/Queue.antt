-- ===== src/Requester/Queue.antt =====
-- The order of the queue, and what becomes of a hash.
use mathlib.Core.List.{reverse}
use mathlib.Core.Path.{subst}
use entangled.Prelude.{
  ℕ, zero, suc, List, ◌||◌, ◌≡◌, ◌≢◌, ◌<◌, refl, sym, ap, ◌∙◌, inl, inr, Bool, true, false, [], ◌∷◌,
  ◌++◌, arith, ◌==◌, if◌then◌else◌, ◌⊎◌,
}
use entangled.Outcome.{Retcode, done, left}
use entangled.HashSet.{HashSet, HashStack, contains, push, remove_first}
use entangled.HashSet
use entangled.HashSet.Laws.{Distinct, contains-remove}
use entangled.HashSet.Fifo.{contains-left-add, push_all}
use entangled.Requester.{
  Requester, clear_request, was_requested, enqueue, request_transaction, taken,
  get_transaction_to_request, get_requested_transactions,
}

-- A new hash that the tangle does not have is queued last, behind all others, when the queue has
-- room and memory lasts; nothing else changes.
pub request-last :
    (exist : ℕ → Retcode ⊎ Bool) (h : ℕ) (r : Requester)
    → h ≢ 0
    → exist h ≡ inr false
    → contains r.hashes h ≡ false
    → HashSet.size r.hashes < r.queue_size
    → request_transaction (λ _. true) exist h r ≡ done (record r { hashes = r.hashes ++ h ∷ [] })
unfolding request_transaction enqueue HashSet.add
request-last exist h r n e c room = ground arith

-- The null hash, and a hash that the tangle has, are not queued; an error of the tangle is passed
-- on. The requester is then as it was.
pub request-unneeded :
    (malloc : ℕ → Bool) (exist : ℕ → Retcode ⊎ Bool) (h : ℕ) (r : Requester)
    → (h ≡ 0) ⊎ (exist h ≡ inr true)
    → request_transaction malloc exist h r ≡ done r
unfolding request_transaction
request-unneeded malloc exist h r (inl e) = ground arith
request-unneeded malloc exist h r (inr e) = ground arith

-- The oldest hash is given out and requested.
pub record IsTaken (h : ℕ) (rest : HashSet) (r : Requester) (out : ℕ) (r' : Requester)
    : Type 0 where
  pub given : out ≡ h
  pub left_over : r'.hashes ≡ rest
  pub not_queued : contains r'.hashes h ≡ false
  pub requested : (x : ℕ) → was_requested r' x ≡ (if h == x then true else was_requested r x)

-- A queue that lists no hash twice gives out its oldest hash, which, while memory lasts, is then
-- requested and no longer queued; the others keep their order, and exactly what was requested
-- before is also requested.
pub take-oldest :
    (h : ℕ) (rest : HashSet) (r : Requester)
    → r.hashes ≡ h ∷ rest
    → Distinct r.hashes
    → let (out, r') = get_transaction_to_request (λ _. true) r in IsTaken h rest r out r'
unfolding get_transaction_to_request was_requested
take-oldest h rest r e d =
    subst (λ s. IsTaken h rest r (taken (λ _. true) r s).0 (taken (λ _. true) r s).1) (sym e)
      (record {
        given = refl;
        left_over = refl;
        not_queued = (subst Distinct e d).0;
        requested = λ x. contains-left-add h x r.requested_hashes;
      })

-- Calls of `get_transaction_to_request`, one after the other, and the hashes that they give.
unfoldable pub served : ℕ → Requester → List ℕ × Requester
served zero r = ([], r)
served (suc n) r =
    let (h, r') = get_transaction_to_request (λ _. true) r in
    let (hs, last) = served n r' in (h ∷ hs, last)

by_test :
    (b before rest : Bool)
    → (rest || (if b then true else before)) ≡ ((if b then true else rest) || before)
by_test true before true = refl
by_test true before false = refl
by_test false before rest = refl

asked_again :
    (h x : ℕ) (before now rest : Bool)
    → now ≡ (if h == x then true else before)
    → (rest || now) ≡ ((if h == x then true else rest) || before)
asked_again h x before now rest e = rw e (by_test (h == x) before rest)

served_from :
    (queue : HashSet) (r : Requester) (x : ℕ)
    → r.hashes ≡ queue
    → let (given, r') = served (HashSet.size queue) r in
      (given ≡ queue)
      × (r'.hashes ≡ [])
      × (was_requested r' x ≡ (contains queue x || was_requested r x))
unfolding served was_requested get_transaction_to_request contains
served_from [] r x e = (refl, e, refl)
served_from (h ∷ rest) r x e =
    subst
      (λ s.
        let (first, r1) = taken (λ _. true) r s in
        let (given, r') = served (HashSet.size rest) r1 in
        (first ∷ given ≡ h ∷ rest)
        × (r'.hashes ≡ [])
        × (was_requested r' x ≡ ((if h == x then true else contains rest x) || was_requested r x)))
      (sym e)
      (let r1 = (taken (λ _. true) r (h ∷ rest)).1 in
        let (given, empty, asked) = served_from rest r1 x refl in
        (
          ap (◌∷◌ h) given,
          empty,
          asked
              ∙ asked_again h x (was_requested r x) (was_requested r1 x) (contains rest x)
                  (contains-left-add h x r.requested_hashes),
        ))

-- As many calls as there are hashes in the queue give them all out, oldest first, while memory lasts;
-- the queue is then empty, and exactly these and those requested before are requested.
pub served-all :
    (r : Requester) (x : ℕ)
    → let (given, r') = served (HashSet.size r.hashes) r in
      (given ≡ r.hashes)
      × (r'.hashes ≡ [])
      × (was_requested r' x ≡ (contains r.hashes x || was_requested r x))
served-all r x = served_from r.hashes r x refl

-- A cleared hash is neither queued nor requested, and every other hash is as it was, where
-- neither set listed a hash twice.
pub clear-gone :
    (h x : ℕ) (r : Requester)
    → Distinct r.hashes
    → Distinct r.requested_hashes
    → let r' = left (clear_request h r) in
      (contains r'.hashes x ≡ (if x == h then false else contains r.hashes x))
      × (was_requested r' x ≡ (if x == h then false else was_requested r x))
unfolding clear_request was_requested
clear-gone h x r d d' = (contains-remove h x r.hashes d, contains-remove h x r.requested_hashes d')

-- The list of wanted hashes never holds those already requested from a neighbor: while memory
-- lasts it is the queue alone, newest first.
pub get_requested_transactions-queue :
    (malloc : ℕ → Bool) (r : Requester) (stack : HashStack)
    → get_requested_transactions (λ _. true) malloc r stack ≡ done (reverse r.hashes ++ stack)
unfolding get_requested_transactions
get_requested_transactions-queue malloc r stack = rw (push_all r.hashes stack) refl
