-- ===== src/Daemon/Preempt.antt =====
-- The handover between the holder of a cluster's mutation lock and the operations queued behind it,
-- of internal/daemon/preempt.go. An entry of `interrupts` is a number and the function `I` that it
-- stands for; no entry and an empty map of entries are read alike.
pub mod Steps
pub mod Counts
pub mod Offers
pub mod Handed
mod Tests
use talos_box.Base.{
  ℕ, zero, suc, ◌+◌, ◌-◌, ◌%◌, ◌^◌, Bool, true, false, List, [], ◌∷◌, Bytes, ltb, ◌==◌,
  if◌then◌else◌, map, update,
}
use talos_box.Text.{to_lower, Bytes-discrete}

pub record Entry (I : Type 0) : Type 0 where
  pub id : ℕ
  pub interrupt : I

pub record Preemptions (I : Type 0) : Type 0 where
  pub sequence : ℕ
  pub pending : Bytes → ℕ
  pub interrupts : Bytes → List (Entry I)

-- `clusterKey`
abbrev pub cluster_key : Bytes → Bytes
cluster_key name = to_lower name

module _ {I : Type 0} where
  -- `delete` of one entry.
  unfoldable pub delete_id : List (Entry I) → ℕ → List (Entry I)
  delete_id [] id = []
  delete_id (e ∷ es) id = if e.id == id then delete_id es id else e ∷ delete_id es id

  -- What `request` changes under the mutex, and the interrupts that it then calls.
  abbrev pub announce_request : Preemptions I → Bytes → Preemptions I
  announce_request p key = record {
    sequence = p.sequence;
    pending = update Bytes-discrete p.pending key (p.pending key + 1);
    interrupts = p.interrupts;
  }

  abbrev pub to_interrupt : Preemptions I → Bytes → List I
  to_interrupt p key = map (λ e. e.interrupt) (p.interrupts key)

  -- The body of what `request` returns. A count that would fall below 0 is deleted, which reads
  -- as 0.
  abbrev pub release : Preemptions I → Bytes → Preemptions I
  release p key = record {
    sequence = p.sequence;
    pending = update Bytes-discrete p.pending key (p.pending key - 1);
    interrupts = p.interrupts;
  }

  -- The next number of `sequence`, a uint64.
  abbrev pub next_id : Preemptions I → ℕ
  next_id p = (p.sequence + 1) % 2 ^ 64

  -- `p.interrupts[key][id] = interrupt`
  abbrev pub offer : Preemptions I → Bytes → I → Preemptions I
  offer p key interrupt =
      let entry : Entry I = record { id = next_id p; interrupt = interrupt } in
      record {
        sequence = next_id p;
        pending = p.pending;
        interrupts =
            update Bytes-discrete p.interrupts key
              (entry ∷ delete_id (p.interrupts key) (next_id p));
      }

  -- `queued`, and what `register` then calls.
  abbrev pub queued : Preemptions I → Bytes → I → List I
  queued p key interrupt = if ltb 0 (p.pending key) then interrupt ∷ [] else []

  -- The body of what `register` returns.
  abbrev pub withdraw_offer : Preemptions I → Bytes → ℕ → Preemptions I
  withdraw_offer p key id = record {
    sequence = p.sequence;
    pending = p.pending;
    interrupts = update Bytes-discrete p.interrupts key (delete_id (p.interrupts key) id);
  }
