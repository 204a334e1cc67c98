-- ===== src/Balloon/Manager/Poll.antt =====
-- `ReconcileSnapshot` of internal/balloon/manager.go: one poll over the running guests. A Go map of
-- targets is the list of shares in name order, which is the order they are applied in.
use talos_box.Base.{
  ℕ, zero, suc, ◌+◌, ◌-◌, Bool, true, false, not, ◌&&◌, ◌||◌, Option, none, some, List, [], ◌∷◌,
  Bytes, leb, ltb, if◌then◌else◌, length, update,
}
use talos_box.Text.{same, Bytes-discrete}
use talos_box.Balloon.{VmNode, Share, plan_targets}
use talos_box.Balloon.Manager.{
  Sample, Answer, Guests, Manager, ApplyOutcome, Applied, latch_after, externally_moved, is_target,
  in_window, mark, apply_target, current_mib, clamped_target,
}

-- The arguments that stay the same over a poll.
pub record PollArgs : Type 0 where
  pub vms : List VmNode
  pub deficit : ℕ
  pub floor_mib : ℕ
  pub hold_sets : Bool
  pub now : ℕ

-- The state inside a poll: `appliedThisTick`, `anySucceeded` and `newlyPending`.
pub record Tick (W : Type 0) : Type 0 where
  pub manager : Manager
  pub world : W
  pub applied_this_tick : Bytes → Option ℕ
  pub any_succeeded : Bool
  pub newly_pending : Bool

-- `vms[name]`
unfoldable pub running : List VmNode → Bytes → Bool
running [] name = false
running (v ∷ vs) name = same v.name name || running vs name

-- The guests whose balloon device answers.
unfoldable pub active_nodes : Manager → List VmNode → List VmNode
active_nodes m [] = []
active_nodes m (v ∷ vs) =
    if m.device_pending v.name then active_nodes m vs else v ∷ active_nodes m vs

abbrev pub from_plan : Option (List Share) → List Share
from_plan none = []
from_plan (some ss) = ss

pub record Class : Type 0 where
  pub manager : Manager
  pub changed : Bool
  pub unapplied : Bool

abbrev pub unknown_target : Option ℕ → Bool
unknown_target none = true
unknown_target (some n) = false

-- One target of `classify`.
abbrev pub classify_one : Option ℕ → Share → Class → Class
classify_one current s c =
    let previous = c.manager.last s.node.name in
    let moved = externally_moved current previous in
    if not moved && is_target previous s.target
    then record {
      manager = record c.manager { retry_pending = mark c.manager.retry_pending s.node.name false };
      changed = c.changed;
      unapplied = c.unapplied;
    }
    else record {
      manager = c.manager;
      changed = true;
      unapplied =
          c.unapplied
          || (moved || (unknown_target previous || c.manager.retry_pending s.node.name));
    }

abbrev pub not_lower : Option ℕ → ℕ → Bool
not_lower none target = false
not_lower (some prior) target = leb prior target

abbrev pub distance : ℕ → ℕ → ℕ
distance a b = (a - b) + (b - a)

-- The reason to leave the plan of the first round unapplied.
abbrev pub settled : PollArgs → Class → Bool
settled q c =
    not q.hold_sets
    && (not c.manager.last_applied_hold
        && (c.manager.last_applied_known
            && (ltb (distance q.deficit c.manager.last_applied_deficit) c.manager.deadband_mib
                && not c.unapplied)))

module _ {W : Type 0} (g : Guests W) where
  -- The ceiling of a pressure latch on the planned targets.
  unfoldable pub clamp_all : Manager → W → List Share → List Share
  clamp_all m w [] = []
  clamp_all m w (s ∷ ss) =
      record s {
        target = clamped_target g (g.current_target w s.node.name) (m.last s.node.name) s.target;
      }
      ∷ clamp_all m w ss

  -- `planActive`
  unfoldable pub plan_active : Manager → W → PollArgs → List Share
  unfolding active_nodes clamp_all
  plan_active m w q =
      let nodes = active_nodes m q.vms in
      let targets = from_plan (plan_targets (length nodes) nodes q.deficit q.floor_mib) in
      if m.pressure_latched then clamp_all m w targets else targets

  -- `classify`
  unfoldable pub classify : Manager → W → List Share → Class
  classify m w [] = record { manager = m; changed = false; unapplied = false }
  classify m w (s ∷ ss) = classify_one (g.current_target w s.node.name) s (classify m w ss)

  abbrev pub absorb : Tick W → Bytes → ℕ → Applied W → Tick W
  absorb t name target a = record {
    manager = a.manager;
    world = a.world;
    applied_this_tick = elim a.outcome [
      | ApplyOutcome.applied ↦ update Bytes-discrete t.applied_this_tick name (some target)
      | _ ↦ t.applied_this_tick
    ];
    any_succeeded = elim a.outcome [ ApplyOutcome.applied ↦ true | _ ↦ t.any_succeeded ];
    newly_pending = elim a.outcome [ ApplyOutcome.target_pending ↦ true | _ ↦ t.newly_pending ];
  }

  -- The body of the loop over the names, in the pass over reductions or the one over releases.
  abbrev pub visit : PollArgs → Bool → Tick W → Share → Tick W
  visit q reductions t s =
      let name = s.node.name in
      let lowers = ltb s.target (current_mib g t.manager t.world s.node) in
      if (lowers && not reductions) || (not lowers && reductions)
      then t
      else if not_lower (t.applied_this_tick name) s.target
      then t
      else absorb t name s.target (apply_target g q.hold_sets q.now name s.target t.manager t.world)

  unfoldable pub apply_pass : PollArgs → Bool → Tick W → List Share → Tick W
  apply_pass q reductions t [] = t
  apply_pass q reductions t (s ∷ ss) = apply_pass q reductions (visit q reductions t s) ss

  -- Reductions, then releases unless a device turned out to be pending.
  unfoldable pub passes : PollArgs → Tick W → List Share → Tick W
  unfolding apply_pass
  passes q t ss =
      let lowered = apply_pass q true (record t { newly_pending = false }) ss in
      if lowered.newly_pending then lowered else apply_pass q false lowered ss

  -- The rounds, of which there are at most one more than there are guests.
  unfoldable pub poll_rounds : PollArgs → ℕ → Bool → Tick W → Tick W
  unfolding plan_active classify passes
  poll_rounds q zero first t = t
  poll_rounds q (suc fuel) first t =
      let targets = plan_active t.manager t.world q in
      let c = classify t.manager t.world targets in
      let here = record t { manager = c.manager } in
      elim (not c.changed || (first && settled q c)) [
        | true ↦ here
        | false ↦
            let next = passes q here targets in
            elim next.newly_pending [ true ↦ poll_rounds q fuel false next | false ↦ next ]
      ]

  abbrev pub probed : Manager → VmNode → ℕ → Answer → Manager
  probed m v now Answer.quiesced = m
  probed m v now Answer.pending = record m {
    last_retarget = update Bytes-discrete m.last_retarget v.name (some now);
  }
  probed m v now Answer.failed = record m {
    last_retarget = update Bytes-discrete m.last_retarget v.name (some now);
  }
  probed m v now Answer.accepted = record m {
    last = update Bytes-discrete m.last v.name (some v.configured_mib);
    retry_pending = mark m.retry_pending v.name false;
    pending_logged = mark m.pending_logged v.name false;
    device_pending = mark m.device_pending v.name false;
  }

  -- `probePendingDevices`, over the guests in any order.
  unfoldable pub probe_pending_devices : ℕ → Manager → W → List VmNode → Manager × W
  probe_pending_devices now m w [] = (m, w)
  probe_pending_devices now m w (v ∷ vs) =
      let reply = g.set_target w v.name v.configured_mib in
      if not (m.device_pending v.name)
        || in_window (m.last_retarget v.name) now m.min_retarget_interval
      then probe_pending_devices now m w vs
      else probe_pending_devices now (probed m v now reply.1) reply.0 vs

unfoldable pub none_left : Manager → List VmNode → Bool
none_left m [] = true
none_left m (v ∷ vs) = elim (m.last v.name) [ none ↦ none_left m vs | some n ↦ false ]

-- `dropDeparted`
unfoldable pub drop_departed : Manager → List VmNode → Manager
unfolding running none_left
drop_departed m vms =
    let empty = none_left m vms in
    record m {
      last = λ name. if running vms name then m.last name else none;
      last_retarget = λ name. if running vms name then m.last_retarget name else none;
      retry_pending = λ name. running vms name && m.retry_pending name;
      pending_logged = λ name. running vms name && m.pending_logged name;
      device_pending = λ name. running vms name && m.device_pending name;
      last_applied_deficit = if empty then 0 else m.last_applied_deficit;
      last_applied_known = not empty && m.last_applied_known;
      last_applied_hold = not empty && m.last_applied_hold;
    }

-- The deficit that a reading shows, and the one that a poll acts on.
abbrev pub natural_deficit : ℕ → ℕ → Sample → ℕ
natural_deficit deadband reserve s =
    let deficit = reserve - s.available_mib in
    if ltb 0 deficit && ltb deficit deadband then 0 else deficit

abbrev pub request_for : ℕ → List VmNode → Sample → ℕ → ℕ → ℕ → ℕ → PollArgs
request_for deadband vms s reserve floor_mib hold now =
    let natural = natural_deficit deadband reserve s in
    record {
      vms = vms;
      deficit = if ltb natural hold then hold else natural;
      floor_mib = floor_mib;
      hold_sets = ltb 0 hold && leb natural hold;
      now = now;
    }

-- What a poll in which a target was applied remembers.
abbrev pub remember : PollArgs → Manager → Bool → Manager
remember q m any_succeeded =
    if any_succeeded
    then record m {
      last_applied_deficit = q.deficit;
      last_applied_known = true;
      last_applied_hold = q.hold_sets;
    }
    else m

module _ {W : Type 0} (g : Guests W) where
  abbrev pub started : Manager × W → Tick W
  started p = record {
    manager = p.0;
    world = p.1;
    applied_this_tick = λ name. none;
    any_succeeded = false;
    newly_pending = false;
  }

  abbrev pub poll : PollArgs → Manager → W → Tick W
  poll q m w =
      poll_rounds g q (suc (length q.vms)) true (started (probe_pending_devices g q.now m w q.vms))

  -- `ReconcileSnapshot`
  unfoldable pub reconcile_snapshot :
      List VmNode → Sample → ℕ → ℕ → ℕ → ℕ → Manager → W → Manager × W
  unfolding poll_rounds probe_pending_devices drop_departed
  reconcile_snapshot vms s reserve floor_mib hold now m w =
      let latched = record m { pressure_latched = latch_after m.pressure_latched s } in
      let q = request_for m.deadband_mib vms s reserve floor_mib hold now in
      let t = poll q latched w in
      (drop_departed (remember q t.manager t.any_succeeded) vms, t.world)
