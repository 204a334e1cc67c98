-- ===== src/Balloon/Manager.antt =====
-- The manager of internal/balloon/manager.go: its state, the pressure latch, and the share of one
-- guest in a poll. The guests are a parameter: what they report, and what they answer to a target
-- they are asked to take. Times are nanoseconds. Telemetry is left out.
pub mod Poll
pub mod Induct
pub mod Latch
pub mod Nodes
pub mod Requests
pub mod Quiet
pub mod Loop
mod Tests
use talos_box.Base.{
  ℕ, zero, suc, ◌+◌, ◌-◌, ◌*◌, ◌/◌, ◌%◌, ◌^◌, Bool, true, false, not, ◌&&◌, ◌||◌, Option, none,
  some, List, [], ◌∷◌, Bytes, leb, ltb, ◌==◌, if◌then◌else◌, update,
}
use talos_box.Text.{Bytes-discrete}
use talos_box.Balloon.{VmNode, Share}

pub data Level : Type 0 where
  unknown normal warning critical : Level

-- hostmem.Snapshot
pub record Sample : Type 0 where
  pub total_mib : ℕ
  pub available_mib : ℕ
  pub compressor_mib : ℕ
  pub swap_total_bytes : ℕ
  pub swap_available_bytes : ℕ
  pub level : Level

-- What SetMemoryTargetMiB returns: no error, ErrQuiesced, ErrTargetPending or another error.
pub data Answer : Type 0 where
  accepted quiesced pending failed : Answer

pub record Guests (W : Type 0) : Type 0 where
  pub current_target : W → Bytes → Option ℕ
  pub set_target : W → Bytes → ℕ → W × Answer

pub record Manager : Type 0 where
  pub last : Bytes → Option ℕ
  pub last_applied_deficit : ℕ
  pub last_applied_known : Bool
  pub last_applied_hold : Bool
  pub last_retarget : Bytes → Option ℕ
  pub retry_pending : Bytes → Bool
  pub pending_logged : Bytes → Bool
  pub device_pending : Bytes → Bool
  pub pressure_latched : Bool
  pub deadband_mib : ℕ
  pub min_retarget_interval : ℕ

-- `NewManager`
abbrev pub new_manager : Manager
new_manager = record {
  last = λ name. none;
  last_applied_deficit = 0;
  last_applied_known = false;
  last_applied_hold = false;
  last_retarget = λ name. none;
  retry_pending = λ name. false;
  pending_logged = λ name. false;
  device_pending = λ name. false;
  pressure_latched = false;
  deadband_mib = 256;
  min_retarget_interval = 60000000000;
}

abbrev pub under_pressure : Level → Bool
under_pressure Level.unknown = false
under_pressure Level.normal = false
under_pressure Level.warning = true
under_pressure Level.critical = true

-- `snapshotSwapPercent`
abbrev pub snapshot_swap_percent : Sample → ℕ
snapshot_swap_percent s =
    if s.swap_total_bytes == 0 || leb s.swap_total_bytes s.swap_available_bytes
    then 0
    else (s.swap_total_bytes - s.swap_available_bytes) * 100 % 2 ^ 64 / s.swap_total_bytes

abbrev pub compressor_armed : Sample → Bool
compressor_armed s =
    if ltb 0 s.total_mib
    then leb (s.total_mib * 20) (s.compressor_mib * 100)
    else leb (4 * 1024) s.compressor_mib

abbrev pub compressor_clear : Sample → Bool
compressor_clear s =
    if ltb 0 s.total_mib
    then ltb (s.compressor_mib * 100) (s.total_mib * 15)
    else ltb s.compressor_mib (3 * 1024)

-- What `updatePressureLatch` leaves in `pressureLatched`.
unfoldable pub latch_after : Bool → Sample → Bool
latch_after latched s =
    if leb 80 (snapshot_swap_percent s) || (compressor_armed s || under_pressure s.level)
    then true
    else if ltb (snapshot_swap_percent s) 70 && (compressor_clear s && not (under_pressure s.level))
    then false
    else latched

-- `externallyMovedTarget`
abbrev pub externally_moved : Option ℕ → Option ℕ → Bool
externally_moved current none = false
externally_moved none (some previous) = false
externally_moved (some target) (some previous) = not (target == previous)

abbrev pub is_target : Option ℕ → ℕ → Bool
is_target none target = false
is_target (some previous) target = previous == target

-- `last, ok := m.lastRetarget[name]; ok && now.Sub(last) < m.minRetargetInterval`
abbrev pub in_window : Option ℕ → ℕ → ℕ → Bool
in_window none now interval = false
in_window (some last) now interval = ltb now (last + interval)

abbrev pub mark : (Bytes → Bool) → Bytes → Bool → Bytes → Bool
mark m name b = update Bytes-discrete m name b

-- The manager after the guest's answer to a target.
abbrev pub answered : Manager → Bytes → ℕ → ℕ → Answer → Manager
answered m name target now Answer.quiesced = m
answered m name target now Answer.pending = record m {
  last_retarget = update Bytes-discrete m.last_retarget name (some now);
  retry_pending = mark m.retry_pending name true;
  pending_logged = mark m.pending_logged name true;
  device_pending = mark m.device_pending name true;
}
answered m name target now Answer.failed = record m {
  retry_pending = mark m.retry_pending name true;
}
answered m name target now Answer.accepted = record m {
  last = update Bytes-discrete m.last name (some target);
  last_retarget = update Bytes-discrete m.last_retarget name (some now);
  retry_pending = mark m.retry_pending name false;
  pending_logged = mark m.pending_logged name false;
}

pub data ApplyOutcome : Type 0 where
  skipped applied target_pending target_failed : ApplyOutcome

abbrev pub outcome_of : Answer → ApplyOutcome
outcome_of Answer.quiesced = ApplyOutcome.skipped
outcome_of Answer.pending = ApplyOutcome.target_pending
outcome_of Answer.failed = ApplyOutcome.target_failed
outcome_of Answer.accepted = ApplyOutcome.applied

pub record Applied (W : Type 0) : Type 0 where
  pub manager : Manager
  pub world : W
  pub outcome : ApplyOutcome

module _ {W : Type 0} (g : Guests W) where
  -- `applyTarget`
  unfoldable pub apply_target : Bool → ℕ → Bytes → ℕ → Manager → W → Applied W
  apply_target hold_sets now name target m w =
      let moved = externally_moved (g.current_target w name) (m.last name) in
      let again = record m { retry_pending = mark m.retry_pending name true } in
      let reply = g.set_target w name target in
      if not moved && is_target (m.last name) target
      then record { manager = m; world = w; outcome = ApplyOutcome.skipped }
      else if not hold_sets
          && ((not moved || m.retry_pending name)
              && in_window (m.last_retarget name) now m.min_retarget_interval)
      then record { manager = again; world = w; outcome = ApplyOutcome.skipped }
      else record {
        manager = answered m name target now reply.1;
        world = reply.0;
        outcome = outcome_of reply.1;
      }

  -- `currentMiB`
  abbrev pub recorded_mib : Option ℕ → ℕ → ℕ
  recorded_mib none configured = configured
  recorded_mib (some previous) configured = previous

  abbrev pub reported_mib : Option ℕ → ℕ → ℕ
  reported_mib none otherwise = otherwise
  reported_mib (some target) otherwise = if ltb 0 target then target else otherwise

  abbrev pub current_mib : Manager → W → VmNode → ℕ
  current_mib m w n =
      reported_mib (g.current_target w n.name) (recorded_mib (m.last n.name) n.configured_mib)

  -- The ceiling that a latch puts on a target.
  abbrev pub ceiling : Option ℕ → ℕ → ℕ
  ceiling none previous = previous
  ceiling (some current) previous =
      if ltb 0 current && ltb current previous then current else previous

  abbrev pub clamped_target : Option ℕ → Option ℕ → ℕ → ℕ
  clamped_target current none target = target
  clamped_target current (some previous) target =
      if ltb (ceiling current previous) target then ceiling current previous else target
