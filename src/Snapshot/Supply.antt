-- ===== src/Snapshot/Supply.antt =====
-- The supply: no patch that is let through changes the sum of all balances.
use entangled.Prelude.{ℕ, ◌≡◌, ◌≢◌, refl, Bool, arith, ◌==◌, Bool-cases, inl, inr, ==_iff}
use entangled.Prelude.Word.{add64, add64-zero_right}
use entangled.Outcome.{Outcome, done, fail}
use entangled.Outcome.Retcode.{rc_snapshot_inconsistent_patch}
use entangled.StateDelta.{StateDelta, sum, balance}
use entangled.StateDelta
use entangled.StateDelta.Total.{sum-apply_patch, sum-lt}
use entangled.StateDelta.Balance.{IsDelta}
use entangled.StateDelta.Patch.{balance-apply_patch}
use entangled.Snapshot.{Snapshot, apply_patch, apply_patch_no_lock, with_state, at_index}

with_state-done :
    (s t : Snapshot) (r : Outcome StateDelta)
    → with_state s r ≡ done t
    → (m : StateDelta) × (r ≡ done m) × (t ≡ record s { state = m })
with_state-done s t (done m) e = (m, refl, cc)
with_state-done s t (fail x m) e = absurd (cc)

-- A patch that `iota_snapshot_apply_patch` lets through, between maps that list no address twice
-- and hold 64-bit patterns, moves the snapshot to the given index, adds to every balance what
-- the patch has for it, and keeps the sum of all balances.
pub apply_patch-sum :
    (malloc : ℕ → Bool) (s t : Snapshot) (p : StateDelta) (index : ℕ)
    → IsDelta s.state
    → IsDelta p
    → apply_patch malloc s p index ≡ done t
    → (t.metadata.index ≡ index)
      × (sum t.state ≡ sum s.state)
      × ((h : ℕ) → balance h t.state ≡ add64 (balance h s.state) (balance h p))
unfolding apply_patch apply_patch_no_lock
apply_patch-sum malloc s t p index ds dp e = elim (Bool-cases (sum p == 0)) [
  | inr n ↦ absurd (cc (rw n at e))
  | inl z ↦
      let (m, ok, same) =
        with_state-done (at_index index s) t (StateDelta.apply_patch malloc s.state p)
          (rw z at e) in
      (
        ground (arith, same),
        ground (
          arith,
          same,
          sum-apply_patch malloc p s.state m ok,
          (==_iff (sum p) 0).0 z,
          add64-zero_right (sum s.state) (sum-lt s.state),
        ),
        λ h. ground (arith, same, balance-apply_patch malloc h p s.state m dp ds ok),
      )
]

-- A patch whose sum is not zero is refused, and the snapshot stays as it was.
pub apply_patch-unbalanced :
    (malloc : ℕ → Bool) (s : Snapshot) (p : StateDelta) (index : ℕ)
    → sum p ≢ 0
    → apply_patch malloc s p index ≡ fail rc_snapshot_inconsistent_patch s
unfolding apply_patch
apply_patch-unbalanced malloc s p index n = ground arith

-- The balances that a patch let through leaves are those of the patched state.
pub apply_patch-state :
    (malloc : ℕ → Bool) (s t : Snapshot) (p : StateDelta) (index : ℕ)
    → apply_patch malloc s p index ≡ done t
    → StateDelta.apply_patch malloc s.state p ≡ done t.state
unfolding apply_patch apply_patch_no_lock
apply_patch-state malloc s t p index e = elim (Bool-cases (sum p == 0)) [
  | inr n ↦ absurd (cc (rw n at e))
  | inl z ↦
      let (m, ok, same) =
        with_state-done (at_index index s) t (StateDelta.apply_patch malloc s.state p)
          (rw z at e) in
      rw same ok
]

-- A patch that is applied without the guard adds its sum to that of all balances.
pub apply_patch_no_lock-sum :
    (malloc : ℕ → Bool) (s t : Snapshot) (p : StateDelta) (index : ℕ)
    → apply_patch_no_lock malloc s p index ≡ done t
    → sum t.state ≡ add64 (sum s.state) (sum p)
unfolding apply_patch_no_lock
apply_patch_no_lock-sum malloc s t p index e =
    let (m, ok, same) =
      with_state-done (at_index index s) t (StateDelta.apply_patch malloc s.state p) e in
    ground (arith, same, sum-apply_patch malloc p s.state m ok)
