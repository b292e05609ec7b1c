-- ===== src/Snapshot/Copy.antt =====
-- `iota_snapshot_copy`: what it copies, and what it does when memory runs out.
use entangled.Prelude.{ℕ, ◌≡◌, refl, Bool, true, [], ◌∙◌, ap}
use entangled.Outcome.{Retcode, done, fail}
use entangled.HashMap
use entangled.HashMap.{HashMap}
use entangled.HashMap.Keys.{Distinct}
use entangled.HashMap.Copy.{copy-eq, add_all-total}
use entangled.Snapshot.{Snapshot, copy, metadata_init, metadata_destroy}

copy-total : (m n : HashMap) → (t : HashMap) × (HashMap.copy (λ _. true) m n ≡ done t)
unfolding HashMap.copy
copy-total m n = add_all-total (λ e. e.1) m n

copy_self : (m : HashMap) → Distinct m → HashMap.copy (λ _. true) m [] ≡ done m
copy_self m d = let (t, e) = copy-total m [] in e ∙ ap done (copy-eq (λ _. true) m t d e)

-- With memory the copy is the source, whatever the destination held, when neither map of the
-- source lists a hash twice.
pub copy-source :
    (src dst : Snapshot)
    → Distinct src.state
    → Distinct src.metadata.solid_entry_points
    → copy (λ _. true) src dst ≡ done src
unfolding copy metadata_init metadata_destroy
copy-source src dst d e =
    rw (copy_self src.state d) (rw (copy_self src.metadata.solid_entry_points e) refl)

-- When memory runs out on the way the copy reports success all the same, and leaves the destination
-- without balances and without entry points, under the hash and index that it had before.
pub copy_oom :
    (malloc : ℕ → Bool) (src dst : Snapshot) {c : Retcode} {m : HashMap}
    → HashMap.copy malloc src.state [] ≡ fail c m
    → copy malloc src dst
      ≡ done (record { state = []; metadata = record (dst.metadata) { solid_entry_points = [] } })
unfolding copy metadata_destroy
copy_oom malloc src dst e = rw e refl
