-- ===== src/Balloon/Manager/Quiet.antt =====
-- A poll while virtual machines are torn down.
use talos_box.Base.{
  ℕ, suc, true, not, ◌||◌, List, [], ◌∷◌, Bytes, All, length, ◌≡◌, refl, ◌∙◌, ap, Bool-cases, inl,
  inr,
}
use talos_box.Balloon.{VmNode, Share}
use talos_box.Balloon.Manager.{Sample, Answer, Guests, Manager, latch_after, in_window}
use talos_box.Balloon.Manager.Induct.{poll_rounds-kept}
use talos_box.Balloon.Manager.Poll.{
  PollArgs, Tick, running, plan_active, poll_rounds, probe_pending_devices, drop_departed, remember,
  started, poll, reconcile_snapshot, request_for,
}

-- The ledger of one guest: its target, the time it was set, and what is known of its device.
pub record SameLedger (name : Bytes) (b m : Manager) : Type 0 where
  pub target : m.last name ≡ b.last name
  pub time : m.last_retarget name ≡ b.last_retarget name
  pub device : m.device_pending name ≡ b.device_pending name
  pub logged : m.pending_logged name ≡ b.pending_logged name

module _ {W : Type 0} (g : Guests W) (name : Bytes) where
  module _
      (quiet : (w : W) (n : Bytes) (target : ℕ)
        → (g.set_target w n target).1 ≡ Answer.quiesced) where
    All-any : (ss : List Share) → All {0, 0} (λ s. Unit) ss
    All-any [] = tt
    All-any (s ∷ ss) = (tt, All-any ss)

    poll_quiet :
        (b : Manager) (q : PollArgs) (fuel : ℕ) (t : Tick W)
        → SameLedger name b t.manager
        → SameLedger name b (poll_rounds g q fuel true t).manager
    poll_quiet b q fuel t =
        poll_rounds-kept g (λ m w. SameLedger name b m) (λ n target. Unit)
          (λ m w marks k. record {
            target = k.target;
            time = k.time;
            device = k.device;
            logged = k.logged;
          })
          q (λ m w n target u k. rw (quiet w n target) k) (λ m w k. All-any (plan_active g m w q))
          fuel true t

    probe_quiet :
        (now : ℕ) (m : Manager) (w : W) (vs : List VmNode)
        → (probe_pending_devices g now m w vs).0 ≡ m
    unfolding probe_pending_devices
    probe_quiet now m w [] = refl
    probe_quiet now m w (v ∷ vs) =
        let reply = g.set_target w v.name v.configured_mib in
        elim (Bool-cases (
          not (m.device_pending v.name)
          || in_window (m.last_retarget v.name) now m.min_retarget_interval)) [
            | inl e ↦ rw (e) (probe_quiet now m w vs)
            | inr e ↦ rw (e) (rw (quiet w v.name v.configured_mib) (probe_quiet now m reply.0 vs))
          ]

    remember_same :
        (q : PollArgs) (t : Tick W)
        → SameLedger name t.manager (remember q t.manager t.any_succeeded)
    remember_same q t = elim (Bool-cases t.any_succeeded) [
      | inl e ↦ rw (e) record { target = refl; time = refl; device = refl; logged = refl }
      | inr e ↦ rw (e) record { target = refl; time = refl; device = refl; logged = refl }
    ]

    -- If every guest refuses its target because of a teardown, a poll leaves the ledger of each
    -- running guest as it was: target, time, device and what is logged.
    pub reconcile_snapshot-quiesced :
        (vms : List VmNode) (s : Sample) (reserve floor_mib hold now : ℕ) (m : Manager) (w : W)
        → running vms name ≡ true
        → SameLedger name m (reconcile_snapshot g vms s reserve floor_mib hold now m w).0
    unfolding reconcile_snapshot drop_departed
    reconcile_snapshot-quiesced vms s reserve floor_mib hold now m w r =
        let latched : Manager = record m { pressure_latched = latch_after m.pressure_latched s } in
        let q = request_for m.deadband_mib vms s reserve floor_mib hold now in
        let probe = probe_pending_devices g now latched w vms in
        let same = probe_quiet now latched w vms in
        let start : SameLedger name m probe.0 = record {
          target = ap (λ k. k.last name) same;
          time = ap (λ k. k.last_retarget name) same;
          device = ap (λ k. k.device_pending name) same;
          logged = ap (λ k. k.pending_logged name) same;
        } in
        let k = poll_quiet m q (suc (length vms)) (started g probe) start in
        let t = poll g q latched w in
        let kept = remember_same q t in
        record {
          target = rw (r) (kept.target ∙ k.target);
          time = rw (r) (kept.time ∙ k.time);
          device = rw (r) (kept.device ∙ k.device);
          logged = rw (r) (kept.logged ∙ k.logged);
        }
