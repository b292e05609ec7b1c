-- ===== src/Tangle/BundleLoad/Chain.antt =====
-- How far a bundle is read.
use entangled.Prelude.{
  ℕ, suc, ◌+◌, ◌-◌, ◌≡◌, ◌≢◌, ◌<◌, refl, ap, ◌∙◌, inr, none, some, [], ◌∷◌, arith,
}
use entangled.Transaction.{Transaction}
use entangled.Tangle.{Storage}
use entangled.Tangle.BundleLoad.{bundle_load, load_from, follow, from_tail}

same_bundle :
    (db : Storage) (rounds : ℕ) (tx : Transaction)
    → load_from db (suc rounds) tx ≡ follow (load_from db rounds) tx (db.load tx.trunk)
unfolding load_from
same_bundle db rounds tx = ground arith

two_rounds :
    (db : Storage) (rounds : ℕ) (tail next : Transaction)
    → db.load tail.trunk ≡ inr (some next)
    → db.load next.trunk ≡ inr none
    → load_from db (suc (suc rounds)) tail ≡ inr (tail ∷ next ∷ [])
two_rounds db rounds tail next e f =
    rw (same_bundle db (suc rounds) tail) (rw e (rw (same_bundle db rounds next) (rw f refl)))

from_first :
    (db : Storage) (tx : Transaction)
    → tx.current_index ≡ 0
    → from_tail db (inr (some tx)) ≡ load_from db (tx.last_index + 1) tx
from_first db tx z = ground arith

-- A transaction under the trunk of a tail is loaded into the tail's bundle also when it belongs to
-- another bundle, if the tail's last index is not 0 and nothing follows it.
pub bundle_load-other_bundle :
    (db : Storage) (tail_hash : ℕ) (tail next : Transaction)
    → db.load tail_hash ≡ inr (some tail)
    → db.load tail.trunk ≡ inr (some next)
    → db.load next.trunk ≡ inr none
    → tail.current_index ≡ 0
    → 0 < tail.last_index
    → next.bundle ≢ tail.bundle
    → bundle_load db tail_hash ≡ inr (tail ∷ next ∷ [])
unfolding bundle_load
bundle_load-other_bundle db h tail next e f g z p n =
    let two : tail.last_index + 1 ≡ suc (suc (tail.last_index - 1)) = omega (arith, p) in
    rw e (
      from_first db tail z
      ∙ ap (λ k. load_from db k tail) two
      ∙ two_rounds db (tail.last_index - 1) tail next f g)
