-- ===== src/Daemon/Reboot/Tests.antt =====
-- A node that reboots, and one that is forgotten while it is probed.
use talos_box.Base.{ℕ, none, some, [], ◌∷◌, Bytes, codes, true, ◌≡◌, refl, arith, ℕ_discrete}
use talos_box.Text.{Bytes-discrete, cut_prefix}
use talos_box.Daemon.Reboot.{
  RebootLog, RebootProbe, ignored, begin_observe, complete_observe, Event, step, run, current,
  has_prefix,
}
use talos_box.Daemon.Reboot.Stale.{Forgets, forgotten-run}

abbrev empty : RebootLog
empty = λ key. none

abbrev node : Bytes
node = codes "demo/cp-1"

abbrev probe : ℕ → RebootProbe
probe n = record { key = node; generation = 0; seq = n }

abbrev rebooted : RebootLog
rebooted = run empty (
    Event.begin node
    ∷ Event.complete (probe 1) 1000 5
    ∷ Event.begin node
    ∷ Event.complete (probe 2) 2000 9
    ∷ [])

current-rebooted : current rebooted node 10 ≡ some (record { boot_time = 2000; rebooted_at = 9 })
unfolding run complete_observe Bytes-discrete ℕ_discrete
current-rebooted = refl

has_prefix-node : has_prefix node (codes "demo/") ≡ true
unfolding cut_prefix
has_prefix-node = refl

forgotten-run_example :
    complete_observe
      (run
        (step
          (run (begin_observe empty node).0 (Event.begin node ∷ []))
          (Event.forget_cluster (codes "demo/")))
        [])
      (begin_observe empty node).1
      1000
      7
    ≡ (
      run
          (step
            (run (begin_observe empty node).0 (Event.begin node ∷ []))
            (Event.forget_cluster (codes "demo/")))
          [],
      ignored,
    )
forgotten-run_example =
    forgotten-run empty node (Event.begin node ∷ []) [] (Event.forget_cluster (codes "demo/")) 1000
      7 (Forgets.by_prefix (codes "demo/") has_prefix-node) (omega arith)
