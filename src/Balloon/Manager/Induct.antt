-- ===== src/Balloon/Manager/Induct.antt =====
-- Induction over a poll: what every change of the manager and every target keeps, the rounds keep.
use talos_box.Base.{
  ℕ, zero, suc, Bool, true, false, not, ◌&&◌, ◌||◌, List, [], ◌∷◌, Bytes, ltb, All, Bool-cases, inl,
  inr,
}
use talos_box.Balloon.{Share}
use talos_box.Balloon.Manager.{
  Guests, Manager, externally_moved, is_target, in_window, apply_target, answered, current_mib,
}
use talos_box.Balloon.Manager.Poll.{
  PollArgs, Tick, classify, plan_active, visit, apply_pass, passes, poll_rounds, settled, not_lower,
}

module _ {W : Type 0} (g : Guests W) (P : Manager → W → Type 0) (R : Bytes → ℕ → Type 0)
    (again : (m : Manager) (w : W) (marks : Bytes → Bool)
      → P m w
      → P (record m { retry_pending = marks }) w)
    (q : PollArgs)
    (reply : (m : Manager) (w : W) (name : Bytes) (target : ℕ)
      → R name target
      → P m w
      → P
          (answered m name target q.now (g.set_target w name target).1)
          (g.set_target w name target).0) where
  abbrev pub AllR : List Share → Type 0
  AllR ss = All (λ s. R s.node.name s.target) ss

  abbrev pub Holds : Tick W → Type 0
  Holds t = P t.manager t.world

  apply_target-kept :
      (name : Bytes) (target : ℕ) (m : Manager) (w : W)
      → R name target
      → P m w
      → P
          (apply_target g q.hold_sets q.now name target m w).manager
          (apply_target g q.hold_sets q.now name target m w).world
  unfolding apply_target
  apply_target-kept name target m w r p =
      let moved = externally_moved (g.current_target w name) (m.last name) in
      elim (Bool-cases (not moved && is_target (m.last name) target)) [
        | inl e ↦ rw (e) p
        | inr e ↦
            elim (Bool-cases (
              not q.hold_sets
              && ((not moved || m.retry_pending name)
                  && in_window (m.last_retarget name) q.now m.min_retarget_interval))) [
                    | inl f ↦ rw (e) (rw (f) (again m w _ p))
                    | inr f ↦ rw (e) (rw (f) (reply m w name target r p))
                  ]
      ]

  visit-kept :
      (reductions : Bool) (t : Tick W) (s : Share)
      → R s.node.name s.target
      → Holds t
      → Holds (visit g q reductions t s)
  visit-kept reductions t s r p =
      let lowers = ltb s.target (current_mib g t.manager t.world s.node) in
      elim (Bool-cases ((lowers && not reductions) || (not lowers && reductions))) [
        | inl e ↦ rw (e) p
        | inr e ↦ elim (Bool-cases (not_lower (t.applied_this_tick s.node.name) s.target)) [
          | inl f ↦ rw (e) (rw (f) p)
          | inr f ↦ rw (e) (rw (f) (apply_target-kept s.node.name s.target t.manager t.world r p))
        ]
      ]

  apply_pass-kept :
      (reductions : Bool) (t : Tick W) (ss : List Share)
      → AllR ss
      → Holds t
      → Holds (apply_pass g q reductions t ss)
  unfolding apply_pass
  apply_pass-kept reductions t [] all p = p
  apply_pass-kept reductions t (s ∷ ss) all p =
      apply_pass-kept reductions (visit g q reductions t s) ss all.1
        (visit-kept reductions t s all.0 p)

  passes-kept : (t : Tick W) (ss : List Share) → AllR ss → Holds t → Holds (passes g q t ss)
  unfolding passes
  passes-kept t ss all p =
      let start = record t { newly_pending = false } in
      let first = apply_pass-kept true start ss all p in
      elim (Bool-cases (apply_pass g q true start ss).newly_pending) [
        | inl e ↦ rw (e) first
        | inr e ↦ rw (e) (apply_pass-kept false (apply_pass g q true start ss) ss all first)
      ]

  classify-kept : (m : Manager) (w : W) (ss : List Share) → P m w → P (classify g m w ss).manager w
  unfolding classify
  classify-kept m w [] p = p
  classify-kept m w (s ∷ ss) p =
      let c = classify g m w ss in
      let previous = c.manager.last s.node.name in
      let moved = externally_moved (g.current_target w s.node.name) previous in
      elim (Bool-cases (not moved && is_target previous s.target)) [
        | inl e ↦ rw (e) (again c.manager w _ (classify-kept m w ss p))
        | inr e ↦ rw (e) (classify-kept m w ss p)
      ]

  pub poll_rounds-kept :
      ((m : Manager) (w : W) → P m w → AllR (plan_active g m w q))
      → (fuel : ℕ) (first : Bool) (t : Tick W) → Holds t
      → Holds (poll_rounds g q fuel first t)
  unfolding poll_rounds
  poll_rounds-kept plan zero first t p = p
  poll_rounds-kept plan (suc fuel) first t p =
      let targets = plan_active g t.manager t.world q in
      let c = classify g t.manager t.world targets in
      let here : Tick W = record t { manager = c.manager } in
      let still = classify-kept t.manager t.world targets p in
      let next = passes g q here targets in
      let after = passes-kept here targets (plan t.manager t.world p) still in
      elim (Bool-cases (not c.changed || (first && settled q c))) [
        | inl e ↦ rw (e, poll_rounds) still
        | inr e ↦ elim (Bool-cases next.newly_pending) [
          | inl f ↦ rw (e, poll_rounds) (rw (f) (poll_rounds-kept plan fuel false next after))
          | inr f ↦ rw (e, poll_rounds) (rw (f) after)
        ]
      ]
