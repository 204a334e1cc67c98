-- ===== src/Balloon/Manager/Requests.antt =====
-- What a poll asks of the guests.
use mathlib.Core.List.{Memᴰ}
use talos_box.Base.{
  ℕ, suc, ◌≤◌, Bool, true, not, ◌||◌, Option, none, some, List, [], ◌∷◌, Bytes, All, length, ◌≡◌,
  ◌⊎◌, refl, sym, ◌∙◌, subst, arith, Bool-cases, inl, inr,
}
use talos_box.Balloon.{VmNode, Share}
use talos_box.Balloon.Bounds.{nodes}
use talos_box.Balloon.Ends.{Bounded}
use talos_box.Balloon.Agree.{Fits, plan_targets-bounds}
use talos_box.Balloon.Manager.Nodes.{All-by_name, All-active_nodes, All-mem, active_nodes-Fits}
use talos_box.Balloon.Manager.{
  Sample, Answer, Guests, Manager, latch_after, in_window, answered, clamped_target,
}
use talos_box.Balloon.Manager.Induct.{poll_rounds-kept}
use talos_box.Balloon.Manager.Poll.{
  PollArgs, Tick, active_nodes, clamp_all, plan_active, poll_rounds, probed, probe_pending_devices,
  started, reconcile_snapshot, request_for,
}

-- A target that a poll may ask of a guest: the guest is running, the target is at most its size,
-- and it is below the floor only if it is the size or if the pressure latch is set.
abbrev pub Allowed : List VmNode → ℕ → Bool → Bytes → ℕ → Type 0
Allowed vms floor_mib latched name target =
    (v : VmNode) × Memᴰ v vms
    × (v.name ≡ name)
    × (target ≤ v.configured_mib)
    × ((floor_mib ≤ target) ⊎ ((target ≡ v.configured_mib) ⊎ (latched ≡ true)))

AllAllowed : List VmNode → ℕ → Bool → List Share → Type 0
AllAllowed vms floor_mib latched ss =
    All (λ s. Allowed vms floor_mib latched s.node.name s.target) ss

allowed-Bounded :
    (vms : List VmNode) (floor_mib : ℕ) (latched : Bool) (ss : List Share)
    → All (λ v. Memᴰ v vms) (nodes ss)
    → All (Bounded floor_mib) ss
    → AllAllowed vms floor_mib latched ss
unfolding AllAllowed
allowed-Bounded vms floor_mib latched [] there bounds = tt
allowed-Bounded vms floor_mib latched (s ∷ ss) there bounds = (
  (s.node, there.0, refl, bounds.0.0, weaken bounds.0.1),
  allowed-Bounded vms floor_mib latched ss there.1 bounds.1,
)
  where
    weaken :
        (floor_mib ≤ s.target) ⊎ (s.target ≡ s.node.configured_mib)
        → (floor_mib ≤ s.target) ⊎ ((s.target ≡ s.node.configured_mib) ⊎ (latched ≡ true))
    weaken (inl h) = inl h
    weaken (inr h) = inr (inl h)

clamped_target-le :
    {W : Type 0} (g : Guests W) (current previous : Option ℕ) (target : ℕ)
    → clamped_target g current previous target ≤ target
clamped_target-le g current none target = omega arith
clamped_target-le g none (some p) target = ground arith
clamped_target-le g (some n) (some p) target = ground arith

module _ {W : Type 0} (g : Guests W) (vms : List VmNode) (floor_mib : ℕ) (latched : Bool)
    (J : W → Type 0)
    (kept : (w : W) (name : Bytes) (target : ℕ)
      → Allowed vms floor_mib latched name target
      → J w
      → J (g.set_target w name target).0) where
  clamp_all-allowed :
      (m : Manager) (w : W) (ss : List Share)
      → latched ≡ true
      → AllAllowed vms floor_mib latched ss
      → AllAllowed vms floor_mib latched (clamp_all g m w ss)
  unfolding AllAllowed clamp_all
  clamp_all-allowed m w [] h all = tt
  clamp_all-allowed m w (s ∷ ss) h ((v, there, same, le, low), all) = (
    (
      v,
      there,
      same,
      omega (
        arith,
        le,
        clamped_target-le g (g.current_target w s.node.name) (m.last s.node.name) s.target,
      ),
      inr (inr h),
    ),
    clamp_all-allowed m w ss h all,
  )

  plan_active-allowed :
      (m : Manager) (w : W) (q : PollArgs)
      → q.vms ≡ vms
      → q.floor_mib ≡ floor_mib
      → m.pressure_latched ≡ latched
      → Fits q.deficit q.floor_mib q.vms
      → AllAllowed vms floor_mib latched (plan_active g m w q)
  unfolding plan_active
  plan_active-allowed m w q same_vms same_floor h v =
      let ns = active_nodes m q.vms in
      let (ts, e, of_nodes, bounds, le) =
        plan_targets-bounds ns q.deficit q.floor_mib
          (active_nodes-Fits m q.deficit q.floor_mib q.vms v) in
      let mems =
        subst (λ k. All (λ v. Memᴰ v k) (nodes ts)) same_vms
          (subst (All (λ v. Memᴰ v q.vms)) (sym of_nodes) (
            All-by_name (λ v. Memᴰ v q.vms) ns
              (All-active_nodes (λ v. Memᴰ v q.vms) m q.vms (All-mem q.vms q.vms (λ v k. k))))) in
      let planned =
        allowed-Bounded vms floor_mib latched ts mems
          (subst (λ k. All (Bounded k) ts) same_floor bounds) in
      rw (e) (elim (Bool-cases m.pressure_latched) [
        | inl f ↦ simp (f) (clamp_all-allowed m w ts (sym h ∙ f) planned)
        | inr f ↦ simp (f) planned
      ])

  -- What the guests keep, with the latch as it was.
  record Kept (m : Manager) (w : W) : Type 0 where
    guests : J w
    same_latch : m.pressure_latched ≡ latched

  answered_latch :
      (m : Manager) (name : Bytes) (target now : ℕ) (a : Answer)
      → (answered m name target now a).pressure_latched ≡ m.pressure_latched
  answered_latch m name target now Answer.quiesced = refl
  answered_latch m name target now Answer.pending = refl
  answered_latch m name target now Answer.failed = refl
  answered_latch m name target now Answer.accepted = refl

  poll-Kept :
      (q : PollArgs) (fuel : ℕ) (t : Tick W)
      → q.vms ≡ vms
      → q.floor_mib ≡ floor_mib
      → Fits q.deficit q.floor_mib q.vms
      → Kept t.manager t.world
      → Kept (poll_rounds g q fuel true t).manager (poll_rounds g q fuel true t).world
  unfolding AllAllowed
  poll-Kept q fuel t same_vms same_floor v =
      poll_rounds-kept g Kept (Allowed vms floor_mib latched)
        (λ m w marks k. record { guests = k.guests; same_latch = k.same_latch }) q
        (λ m w name target a k. record {
          guests = kept w name target a k.guests;
          same_latch = answered_latch m name target q.now _ ∙ k.same_latch;
        })
        (λ m w k. plan_active-allowed m w q same_vms same_floor k.same_latch v) fuel true t

  probed_latch :
      (m : Manager) (v : VmNode) (now : ℕ) (a : Answer)
      → (probed g m v now a).pressure_latched ≡ m.pressure_latched
  probed_latch m v now Answer.quiesced = refl
  probed_latch m v now Answer.pending = refl
  probed_latch m v now Answer.failed = refl
  probed_latch m v now Answer.accepted = refl

  probe-Kept :
      (now : ℕ) (m : Manager) (w : W) (vs : List VmNode)
      → All (λ v. Memᴰ v vms) vs
      → Kept m w
      → Kept (probe_pending_devices g now m w vs).0 (probe_pending_devices g now m w vs).1
  unfolding probe_pending_devices
  probe-Kept now m w [] all k = k
  probe-Kept now m w (v ∷ vs) all k =
      let reply = g.set_target w v.name v.configured_mib in
      let skip = in_window (m.last_retarget v.name) now m.min_retarget_interval in
      let size : Allowed vms floor_mib latched v.name v.configured_mib =
        (v, all.0, refl, omega arith, inr (inl refl)) in
      elim (Bool-cases (not (m.device_pending v.name) || skip)) [
        | inl e ↦ rw (e) (probe-Kept now m w vs all.1 k)
        | inr e ↦ rw (e) (
            probe-Kept now (probed g m v now reply.1) reply.0 vs all.1 record {
              guests = kept w v.name v.configured_mib size k.guests;
              same_latch = probed_latch m v now reply.1 ∙ k.same_latch;
            })
      ]

-- Where the deficit that the poll acts on, the floor, the guests' sizes together and the deficit
-- times those sizes are below 2 ^ 63: whatever the guests keep under every target that is for a running guest, at most its size, and
-- below the floor only if it is the size or the latch is set, they keep over a whole poll: the
-- manager asks for no other targets.
pub reconcile_snapshot-allowed :
    {W : Type 0} (g : Guests W) (vms : List VmNode) (s : Sample) (reserve floor_mib hold now : ℕ)
    (m : Manager) (w : W) (J : W → Type 0)
    → ((u : W) (name : Bytes) (target : ℕ)
        → Allowed vms floor_mib (latch_after m.pressure_latched s) name target
        → J u
        → J (g.set_target u name target).0)
    → Fits (request_for m.deadband_mib vms s reserve floor_mib hold now).deficit floor_mib vms
    → J w
    → J (reconcile_snapshot g vms s reserve floor_mib hold now m w).1
unfolding reconcile_snapshot
reconcile_snapshot-allowed g vms s reserve floor_mib hold now m w J kept v j =
    let on = latch_after m.pressure_latched s in
    let latched : Manager = record m { pressure_latched = on } in
    let q = request_for m.deadband_mib vms s reserve floor_mib hold now in
    let probe = probe_pending_devices g now latched w vms in
    let before =
      probe-Kept g vms floor_mib on J kept now latched w vms (All-mem vms vms (λ v k. k))
        record { guests = j; same_latch = refl } in
    let after =
      poll-Kept g vms floor_mib on J kept q (suc (length vms)) (started g probe) refl refl v
        before in
    after.guests
