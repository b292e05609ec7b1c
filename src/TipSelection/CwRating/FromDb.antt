-- ===== src/TipSelection/CwRating/FromDb.antt =====
-- `cw_rating_dfs_do_dfs_from_db`: the map from the transactions in the future of the entry point to
-- their approvers. The query for the approvers of a hash is a parameter; `hash_pack_init` succeeds.
pub mod Future
pub mod Whole
use entangled.Prelude.{
  ℕ, zero, suc, ◌⊎◌, inl, inr, Bool, true, false, Option, none, some, List, [], ◌∷◌, ◌++◌, ◌==◌,
  if◌then◌else◌,
}
use entangled.Outcome.{Retcode, Outcome, done, fail, for_each}
use entangled.HashSet.{HashSet, HashStack, push}
use entangled.HashSet
use entangled.IndexedMap.{IndexedMap, IndexedEntry, contains, add_new_set}

-- The local variables of the walk and what it writes for its caller.
pub record FromDb : Type 0 where
  pub stack : HashStack
  pub tx_to_approvers : IndexedMap
  pub subtangle_size : ℕ

pub data Round : Type 0 where
  halted : Outcome FromDb → Round
  going : FromDb → Round

-- The stack and the approvers of the current transaction.
pub record Linked : Type 0 where
  pub stack : HashStack
  pub approvers : HashSet

-- The write to the set that `curr_tx` points to.
unfoldable pub assign_approvers : IndexedMap → ℕ → HashSet → IndexedMap
assign_approvers [] h s = []
assign_approvers (e ∷ m) h s =
    if e.hash == h then record e { approvers = s } ∷ m else e ∷ assign_approvers m h s

-- The models of the pack, from the last.
unfoldable pub backwards : List ℕ → List ℕ
backwards [] = []
backwards (x ∷ xs) = backwards xs ++ x ∷ []

module _ (malloc : ℕ → Bool) (approvers : ℕ → Retcode ⊎ List ℕ) where
  abbrev pub link_added : Linked → Outcome HashSet → Outcome Linked
  link_added l (done s) = done (record l { approvers = s })
  link_added l (fail e s) = fail e (record l { approvers = s })

  abbrev pub link_pushed : ℕ → Linked → Outcome HashStack → Outcome Linked
  link_pushed h l (fail e s) = fail e (record l { stack = s })
  link_pushed h l (done s) = link_added (record l { stack = s }) (HashSet.add malloc h l.approvers)

  -- One approver: pushed, and added to the set.
  unfoldable pub link : ℕ → Linked → Outcome Linked
  link h l = link_pushed h l (push malloc h l.stack)

  abbrev pub taken : ℕ → FromDb → Linked → FromDb
  taken h w l = record w {
    stack = l.stack;
    tx_to_approvers = assign_approvers w.tx_to_approvers h l.approvers;
  }

  abbrev pub linked : ℕ → FromDb → Outcome Linked → Round
  linked h w (done l) = going (taken h w l)
  linked h w (fail e l) = halted (fail e (taken h w l))

  abbrev pub set_added : ℕ → List ℕ → FromDb → HashStack → Outcome IndexedMap → Round
  set_added h found w rest (fail e m) = halted (fail e (record w { tx_to_approvers = m }))
  set_added h found w rest (done m) =
      linked h (record w { tx_to_approvers = m })
        (for_each link (backwards found) (record { stack = rest; approvers = [] }))

  abbrev pub queried : ℕ → FromDb → HashStack → Retcode ⊎ List ℕ → Round
  queried h w rest (inl e) = halted (fail e w)
  queried h w rest (inr found) =
      set_added h found (record w { subtangle_size = suc w.subtangle_size }) rest
        (add_new_set malloc w.tx_to_approvers h w.subtangle_size)

  abbrev pub peeked : FromDb → HashStack → Round
  peeked w [] = halted (done w)
  peeked w (h ∷ rest) =
      if contains w.tx_to_approvers h
      then going (record w { stack = rest })
      else queried h w rest (approvers h)

  unfoldable pub round : FromDb → Round
  round w = peeked w w.stack

  abbrev pub continued : (FromDb → Option (Outcome FromDb)) → Round → Option (Outcome FromDb)
  continued next (halted r) = some r
  continued next (going w) = next w

  unfoldable pub run : ℕ → FromDb → Option (Outcome FromDb)
  run zero w = none
  run (suc fuel) w = continued (run fuel) (round w)

  abbrev pub entered : ℕ → FromDb → Outcome HashStack → Option (Outcome FromDb)
  entered fuel w (fail e s) = some (fail e (record w { stack = s }))
  entered fuel w (done s) = run fuel (record w { stack = s })

  -- The whole function; the caller's map is empty.
  unfoldable pub dfs_from_db : ℕ → ℕ → Option (Outcome FromDb)
  dfs_from_db fuel entry_point =
      entered fuel (record { stack = []; tx_to_approvers = []; subtangle_size = 0 })
        (push malloc entry_point [])
