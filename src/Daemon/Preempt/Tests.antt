-- ===== src/Daemon/Preempt/Tests.antt =====
-- A create that is busy on a cluster, and a destroy that queues behind it.
use mathlib.Core.List.{Memᴰ}
use talos_box.Base.{ℕ, List, [], ◌∷◌, codes, false, ◌≡◌, ◌⊎◌, refl, arith, ℕ_discrete}
use talos_box.Text.{Bytes-discrete, to_lower}
use talos_box.Daemon.Preempt.{delete_id}
use talos_box.Daemon.Preempt.Steps.{Request, Registration, Event, run, blank, remove_at}
use talos_box.Daemon.Preempt.Handed.{handed-run}

-- Two interrupts are registered, the first is removed, a destroy queues and the other one runs.
abbrev handover : List (Event ℕ)
handover =
    Event.register (codes "Demo") 7
    ∷ Event.register (codes "demo") 8
    ∷ Event.run_remove 1
    ∷ Event.request (codes "DEMO")
    ∷ Event.run_interrupt 0
    ∷ []

fired-run : (run blank handover).fired ≡ 8 ∷ []
unfolding run remove_at delete_id Bytes-discrete ℕ_discrete to_lower
fired-run = refl

pending-handover : (run blank handover).table.pending (codes "demo") ≡ 1
unfolding run Bytes-discrete ℕ_discrete to_lower delete_id
pending-handover = refl

abbrev queued_destroy : Request
queued_destroy = record { key = codes "demo"; released = false }

abbrev busy_create : Registration ℕ
busy_create = record { key = codes "demo"; id = 2; interrupt = 8; removed = false }

queued_destroy_mem : Memᴰ queued_destroy (run blank handover).requests
unfolding run to_lower Bytes-discrete ℕ_discrete delete_id
queued_destroy_mem = Memᴰ.head refl

busy_create_mem : Memᴰ busy_create (run blank handover).registrations
unfolding run to_lower Bytes-discrete ℕ_discrete delete_id
busy_create_mem = Memᴰ.head refl

handed-run_example : Memᴰ 8 (run blank handover).owed ⊎ Memᴰ 8 (run blank handover).fired
handed-run_example =
    handed-run handover (omega arith) queued_destroy busy_create queued_destroy_mem busy_create_mem
      refl refl refl
