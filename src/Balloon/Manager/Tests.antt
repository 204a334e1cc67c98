-- ===== src/Balloon/Manager/Tests.antt =====
-- A poll of two guests under pressure, and one during a teardown.
use mathlib.Core.List.{Memᴰ}
use talos_box.Base.{
  ℕ, ◌≤◌, true, false, none, some, List, [], ◌∷◌, Bytes, codes, All, ◌≡◌, refl, ℕ_discrete, update,
  ap, arith,
}
use talos_box.Text.{same, to_lower, Bytes-discrete}
use talos_box.Balloon.{VmNode, plan_targets}
use talos_box.Balloon.Manager.{
  Sample, Level, Answer, Guests, Manager, new_manager, latch_after, apply_target,
}
use talos_box.Balloon.Agree.{Fits}
use talos_box.Balloon.Manager.Poll.{
  request_for, running, active_nodes, clamp_all, plan_active, classify, apply_pass, passes,
  poll_rounds, probe_pending_devices, none_left, drop_departed, reconcile_snapshot,
}
use talos_box.Balloon.Manager.Loop.{
  TickInput, disabled, trim_left, trim_right, tick, run_ticks, set_all, reconcile_once,
}
use talos_box.Balloon.Manager.Latch.{reconcile_snapshot-latched}
use talos_box.Balloon.Manager.Requests.{Allowed, reconcile_snapshot-allowed}
use talos_box.Balloon.Manager.Quiet.{SameLedger, reconcile_snapshot-quiesced}

abbrev two : List VmNode
two =
    record { name = codes "a"; configured_mib = 4096 }
    ∷ record { name = codes "b"; configured_mib = 2048 }
    ∷ []

-- Guests that take every target and keep a list of what they were asked.
abbrev obedient : Guests (List (Bytes × ℕ))
obedient = record {
  current_target = λ w name. none;
  set_target = λ w name target. ((name, target) ∷ w, Answer.accepted);
}

abbrev in_teardown : Guests Unit
in_teardown = record {
  current_target = λ w name. none;
  set_target = λ w name target. (w, Answer.quiesced);
}

abbrev short : Sample
short = record {
  total_mib = 32768;
  available_mib = 4096;
  compressor_mib = 0;
  swap_total_bytes = 0;
  swap_available_bytes = 0;
  level = Level.normal;
}

abbrev relaxed_but_warned : Sample
relaxed_but_warned = record {
  total_mib = 32768;
  available_mib = 20000;
  compressor_mib = 0;
  swap_total_bytes = 0;
  swap_available_bytes = 0;
  level = Level.warning;
}

-- A shortage of 2048 MiB is shared out by size.
abbrev after_one : Manager × List (Bytes × ℕ)
after_one = reconcile_snapshot obedient two short 6144 1024 0 100 new_manager []

reconcile_snapshot-short : after_one.1 ≡ (codes "b", 1366) ∷ (codes "a", 2731) ∷ []
unfolding reconcile_snapshot poll_rounds plan_active plan_targets clamp_all classify apply_pass
    passes active_nodes probe_pending_devices drop_departed none_left running apply_target
    latch_after Bytes-discrete ℕ_discrete same
reconcile_snapshot-short = refl

latched_test : latch_after false relaxed_but_warned ≡ true
unfolding latch_after
latched_test = refl

running_test : running two (codes "a") ≡ true
unfolding running same Bytes-discrete ℕ_discrete
running_test = refl

abbrev recorded : Manager
recorded = record new_manager {
  last = update Bytes-discrete (λ name. none) (codes "a") (some 2731);
}

recorded_last : recorded.last (codes "a") ≡ some 2731
unfolding Bytes-discrete ℕ_discrete
recorded_last = refl

reconcile_snapshot-latched_example :
    (q : ℕ) × ((reconcile_snapshot obedient two relaxed_but_warned 6144 1024 0 200 recorded
          []).0.last
        (codes "a")
      ≡ some q)
    × (q ≤ 2731)
reconcile_snapshot-latched_example =
    reconcile_snapshot-latched obedient two relaxed_but_warned 6144 1024 0 200 recorded []
      (codes "a") 2731 latched_test running_test refl recorded_last

-- Every target that was asked is at most 4096.
abbrev AllSmall : List (Bytes × ℕ) → Type 0
AllSmall w = All (λ r. r.1 ≤ 4096) w

two_small : (v : VmNode) → Memᴰ v two → v.configured_mib ≤ 4096
two_small v (Memᴰ.head e) = omega (arith, ap (λ n. n.configured_mib) e)
two_small v (Memᴰ.tail (Memᴰ.head e)) = omega (arith, ap (λ n. n.configured_mib) e)
two_small v (Memᴰ.tail (Memᴰ.tail m)) = elim m [ ]

small_kept :
    (u : List (Bytes × ℕ)) (name : Bytes) (target : ℕ)
    → Allowed two 1024 (latch_after false short) name target
    → AllSmall u
    → AllSmall ((name, target) ∷ u)
small_kept u name target (v, there, e, le, low) all = (omega (arith, le, two_small v there), all)

two-Fits : Fits (request_for 256 two short 6144 1024 0 100).deficit 1024 two
two-Fits = record {
  deficit_fits = omega arith;
  floor_fits = omega arith;
  sizes_fit = omega arith;
  product_fits = omega arith;
}

reconcile_snapshot-allowed_example :
    AllSmall (reconcile_snapshot obedient two short 6144 1024 0 100 new_manager []).1
reconcile_snapshot-allowed_example =
    reconcile_snapshot-allowed obedient two short 6144 1024 0 100 new_manager [] AllSmall small_kept
      two-Fits tt

refuses :
    (w : Unit) (n : Bytes) (target : ℕ) → (in_teardown.set_target w n target).1 ≡ Answer.quiesced
refuses w n target = refl

reconcile_snapshot-quiesced_example :
    SameLedger
      (codes "a")
      recorded
      (reconcile_snapshot in_teardown two short 6144 1024 0 100 recorded tt).0
reconcile_snapshot-quiesced_example =
    reconcile_snapshot-quiesced in_teardown (codes "a") refuses two short 6144 1024 0 100 recorded
      tt running_test

disabled_yes : disabled (codes " Yes ") ≡ true
unfolding disabled trim_left trim_right to_lower same Bytes-discrete ℕ_discrete
disabled_yes = refl

-- A paused tick is skipped.
abbrev paused_tick : TickInput
paused_tick = record { paused = true; vms = two; sample = some short; hold_mib = 0; now = 100 }

run_ticks-paused_tick :
    (run_ticks obedient 6144 1024
      (paused_tick ∷ record paused_tick { paused = false } ∷ [])
      (new_manager, [])).1
    ≡ after_one.1
unfolding run_ticks tick
run_ticks-paused_tick = refl

reconcile_once-two :
    (reconcile_once obedient two 4096 6144 1024 new_manager []).1
    ≡ (codes "b", 1366) ∷ (codes "a", 2731) ∷ []
unfolding reconcile_once set_all running plan_targets same Bytes-discrete ℕ_discrete
reconcile_once-two = refl
