-- ===== src/Balloon/Manager/Latch.antt =====
-- Under a pressure latch a poll hands no guest memory back.
use talos_box.Base.{
  ℕ, suc, ◌≤◌, Bool, true, false, not, ◌||◌, Option, none, some, List, [], ◌∷◌, Bytes, All, length,
  update, update_self, update_ne, ◌≡◌, ◌≢◌, refl, sym, ◌∙◌, ap, subst, arith, Bool-cases, inl, inr,
}
use mathlib.Core.Bool.{true≢false}
use talos_box.Text.{Bytes-discrete}
use talos_box.Balloon.{VmNode, Share}
use talos_box.Balloon.Manager.{
  Sample, Answer, Guests, Manager, latch_after, in_window, answered, clamped_target,
}
use talos_box.Balloon.Manager.Induct.{poll_rounds-kept}
use talos_box.Balloon.Manager.Poll.{
  PollArgs, Tick, running, clamp_all, plan_active, poll_rounds, probed, probe_pending_devices,
  drop_departed, remember, started, poll, reconcile_snapshot, request_for,
}

-- A later state of the manager has no target above one that it had, nor a latch less.
record Low (b m : Manager) : Type 0 where
  latched : b.pressure_latched ≡ true → m.pressure_latched ≡ true
  lowered :
      (name : Bytes) (p : ℕ) → b.last name ≡ some p → (q : ℕ) × (m.last name ≡ some q) × (q ≤ p)

Low-refl : (m : Manager) → Low m m
Low-refl m = record { latched = λ h. h; lowered = λ name p e. (p, e, omega arith) }

-- A change that leaves the targets and the latch alone.
Low-same :
    (b m n : Manager)
    → n.last ≡ m.last
    → n.pressure_latched ≡ m.pressure_latched
    → Low b m
    → Low b n
Low-same b m n e f w = record {
  latched = λ h. f ∙ w.latched h;
  lowered = λ name p h. let (q, g, le) = w.lowered name p h in (q, ap (λ k. k name) e ∙ g, le);
}

-- A target is at most what the manager has on record.
abbrev Ceiled : Manager → Bytes → ℕ → Type 0
Ceiled b name target = (p : ℕ) → b.last name ≡ some p → target ≤ p

abbrev AllCeiled : Manager → List Share → Type 0
AllCeiled b ss = All (λ s. Ceiled b s.node.name s.target) ss

ceiled_trans : (b m : Manager) → Low b m → (ss : List Share) → AllCeiled m ss → AllCeiled b ss
ceiled_trans b m low [] all = tt
ceiled_trans b m low (s ∷ ss) (c, all) = (
  λ p e. let (q, f, le) = low.lowered s.node.name p e in omega (arith, le, c q f),
  ceiled_trans b m low ss all,
)

answered-Low :
    (b m : Manager) (name : Bytes) (target now : ℕ) (a : Answer)
    → Ceiled b name target
    → Low b m
    → Low b (answered m name target now a)
answered-Low b m name target now Answer.quiesced c w = w
answered-Low b m name target now Answer.pending c w = Low-same b m _ refl refl w
answered-Low b m name target now Answer.failed c w = Low-same b m _ refl refl w
answered-Low b m name target now Answer.accepted c w = record {
  latched = w.latched;
  lowered = λ other p h. elim (Bytes-discrete name other) [
    | yes e ↦ (
      target,
      subst (λ j. update Bytes-discrete m.last name (some target) j ≡ some target) e
          (update_self Bytes-discrete m.last name (some target)),
      c p (ap b.last e ∙ h),
    )
    | no n ↦
        let (q, f, le) = w.lowered other p h in
        (q, update_ne Bytes-discrete m.last name other (some target) n ∙ f, le)
  ];
}

clamped_le :
    {W : Type 0} (g : Guests W) (current : Option ℕ) (p target : ℕ)
    → clamped_target g current (some p) target ≤ p
clamped_le g none p target = ground arith
clamped_le g (some n) p target = ground arith

pending_of : (b c : Bool) → (not b || c) ≡ false → b ≡ true
pending_of b c e = ground arith

remember_same :
    {W : Type 0} (q : PollArgs) (t : Tick W) (name : Bytes)
    → (remember q t.manager t.any_succeeded).last name ≡ t.manager.last name
remember_same q t name = elim (Bool-cases t.any_succeeded) [
  | inl e ↦ rw (e) refl
  | inr e ↦ rw (e) refl
]

module _ {W : Type 0} (g : Guests W) where
  clamp_all-AllCeiled : (m : Manager) (w : W) (ss : List Share) → AllCeiled m (clamp_all g m w ss)
  unfolding clamp_all
  clamp_all-AllCeiled m w [] = tt
  clamp_all-AllCeiled m w (s ∷ ss) = (
    λ p e. rw (e) (clamped_le g (g.current_target w s.node.name) p s.target),
    clamp_all-AllCeiled m w ss,
  )

  plan_active-AllCeiled :
      (m : Manager) (w : W) (q : PollArgs)
      → m.pressure_latched ≡ true
      → AllCeiled m (plan_active g m w q)
  unfolding plan_active
  plan_active-AllCeiled m w q h = rw (h) (clamp_all-AllCeiled m w _)

  -- Every round plans at most what stood on record when the poll began.
  poll-Low :
      (b : Manager) (q : PollArgs) (fuel : ℕ) (t : Tick W)
      → b.pressure_latched ≡ true
      → Low b t.manager
      → Low b (poll_rounds g q fuel true t).manager
  poll-Low b q fuel t h =
      poll_rounds-kept g (λ m w. Low b m) (Ceiled b) (λ m w marks low. Low-same b m _ refl refl low)
        q (λ m w name target c low. answered-Low b m name target q.now _ c low)
        (λ m w low. ceiled_trans b m low _ (plan_active-AllCeiled m w q (low.latched h))) fuel true
        t

  probed-kept :
      (m : Manager) (v : VmNode) (now : ℕ) (a : Answer) (name : Bytes)
      → v.name ≢ name
      → ((probed g m v now a).last name ≡ m.last name)
        × ((probed g m v now a).device_pending name ≡ m.device_pending name)
        × ((probed g m v now a).pressure_latched ≡ m.pressure_latched)
  probed-kept m v now Answer.quiesced name n = (refl, refl, refl)
  probed-kept m v now Answer.pending name n = (refl, refl, refl)
  probed-kept m v now Answer.failed name n = (refl, refl, refl)
  probed-kept m v now Answer.accepted name n = (
    update_ne Bytes-discrete m.last v.name name (some v.configured_mib) n,
    update_ne Bytes-discrete m.device_pending v.name name false n,
    refl,
  )

  -- The probe leaves the targets of the guests that are not pending.
  probe_kept :
      (now : ℕ) (m : Manager) (w : W) (vs : List VmNode) (name : Bytes)
      → m.device_pending name ≡ false
      → ((probe_pending_devices g now m w vs).0.last name ≡ m.last name)
        × ((probe_pending_devices g now m w vs).0.pressure_latched ≡ m.pressure_latched)
  unfolding probe_pending_devices
  probe_kept now m w [] name h = (refl, refl)
  probe_kept now m w (v ∷ vs) name h =
      let reply = g.set_target w v.name v.configured_mib in
      let skip = in_window (m.last_retarget v.name) now m.min_retarget_interval in
      elim (Bool-cases (not (m.device_pending v.name) || skip)) [
        | inl e ↦ rw (e) (probe_kept now m w vs name h)
        | inr e ↦
            let other : v.name ≢ name = λ j.
              true≢false
                (sym (pending_of (m.device_pending v.name) skip e) ∙ ap m.device_pending j ∙ h) in
            let (k, d, l) = probed-kept m v now reply.1 name other in
            let rest = probe_kept now (probed g m v now reply.1) reply.0 vs name (d ∙ h) in
            rw (e) (rest.0 ∙ k, rest.1 ∙ l)
      ]

  -- While a poll finds the pressure latch set, a running guest that has a target on record and whose
  -- balloon device is not pending still has one after the poll, and it is not a larger one.
  pub reconcile_snapshot-latched :
      (vms : List VmNode) (s : Sample) (reserve floor_mib hold now : ℕ) (m : Manager) (w : W)
      (name : Bytes) (p : ℕ)
      → latch_after m.pressure_latched s ≡ true
      → running vms name ≡ true
      → m.device_pending name ≡ false
      → m.last name ≡ some p
      → (q : ℕ) × ((reconcile_snapshot g vms s reserve floor_mib hold now m w).0.last name ≡ some q)
        × (q ≤ p)
  unfolding reconcile_snapshot drop_departed
  reconcile_snapshot-latched vms s reserve floor_mib hold now m w name p h r d e =
      let latched : Manager = record m { pressure_latched = latch_after m.pressure_latched s } in
      let q = request_for m.deadband_mib vms s reserve floor_mib hold now in
      let probe = probe_pending_devices g now latched w vms in
      let kept = probe_kept now latched w vms name d in
      let before = probe.0 in
      let low =
        poll-Low before q (suc (length vms)) (started g probe) (kept.1 ∙ h) (Low-refl before) in
      let (k, f, le) = low.lowered name p (kept.0 ∙ e) in
      (k, rw (r) (remember_same q (poll g q latched w) name ∙ f), le)
