-- ===== src/Router/Run/Traces.antt =====
-- What holds of the router over every sequence of operations.
use mathlib.Core.Bool.{false≢true}
use talos_box.Base.{
  ℕ, Bool, true, Option, none, some, refl, ◌⊎◌, List, [], ◌∷◌, Bytes, All, subst, sym, ◌≡◌, ◌≢◌,
  ◌∙◌, arith, inl, inr, Option-cases,
}
use talos_box.Net.{Ip}
use talos_box.Router.Addr.{is_node_ip}
use talos_box.Router.State.{Router, new_frame_router, add_port, remove_port}
use talos_box.Router.State.Invariant.{Inv, new_frame_router-Inv, add_port-Inv, remove_port-Inv}
use talos_box.Router.Routed.{routed_vip_pair, learn_routed_vip, forget_routed_vip}
use talos_box.Router.Forward.{Decision, pass, expired, forward, decide, owner, deliver, route}
use talos_box.Router.Forward.Keeps.{decide-Inv, decide-Holds, Detached, decide-Detached}
use talos_box.Router.Forward.Safety.{decide-Forwards}
use talos_box.Router.Run.{Event, attach, detach, frame, announce, withdraw, step, run}

-- The operation is not the detachment of port `n`, nor a frame from it.
abbrev pub Elsewhere : ℕ → Event → Type 0
Elsewhere n (attach subnet) = Unit
Elsewhere n (detach m) = n ≢ m
Elsewhere n (frame m bytes) = n ≢ m
Elsewhere n (announce pre hop) = Unit
Elsewhere n (withdraw pre) = Unit

module _ (parse_ip6 : Bytes → Option Ip) where
  set_routed-Inv : (r : Router) (f : Ip → Option Ip) → Inv r → Inv (record r { routed_vips = f })
  set_routed-Inv r f v = record {
    owner_live = v.owner_live;
    owner_lists = v.owner_lists;
    owner_in_subnet = v.owner_in_subnet;
    node_owned = v.node_owned;
    node_in_subnet = v.node_in_subnet;
    one_node = v.one_node;
    numbered = v.numbered;
    live_open = v.live_open;
    mac_unicast = v.mac_unicast;
  }

  step-Inv : (e : Event) (r : Router) → Inv r → Inv (step parse_ip6 e r)
  unfolding step learn_routed_vip forget_routed_vip
  step-Inv (attach subnet) r v = add_port-Inv subnet r v
  step-Inv (detach n) r v = remove_port-Inv n r v
  step-Inv (frame n bytes) r v = decide-Inv n bytes r v
  step-Inv (announce pre hop) r v = elim (Option-cases (routed_vip_pair parse_ip6 pre hop)) [
    | inl e ↦ rw (e, learn_routed_vip) v
    | inr ((x, y), e) ↦ rw (e, learn_routed_vip) (set_routed-Inv r _ v)
  ]
  step-Inv (withdraw pre) r v = elim (Option-cases (routed_vip_pair parse_ip6 pre [])) [
    | inl e ↦ rw (e, forget_routed_vip) v
    | inr ((x, y), e) ↦ rw (e, forget_routed_vip) (set_routed-Inv r _ v)
  ]

  run-Inv_from : (es : List Event) (r : Router) → Inv r → Inv (run parse_ip6 es r)
  unfolding run
  run-Inv_from [] r v = v
  run-Inv_from (e ∷ es) r v = run-Inv_from es (step parse_ip6 e r) (step-Inv e r v)

  -- After any sequence of attachments, detachments, frames, announcements and withdrawals, the
  -- router's tables are consistent: every owned address is listed by an attached port of its own
  -- subnet, and an attached port owns exactly the node address that it has.
  pub run-Inv : (es : List Event) → Inv (run parse_ip6 es new_frame_router)
  run-Inv es = run-Inv_from es new_frame_router new_frame_router-Inv

  step_node_kept :
      (e : Event) (r : Router) (x : Ip) (n : ℕ)
      → Elsewhere n e
      → Inv r
      → r.ip_to_port x ≡ some n
      → (t : ℕ) → is_node_ip (some x) t ≡ true
      → (step parse_ip6 e r).ip_to_port x ≡ some n
  unfolding step add_port remove_port learn_routed_vip forget_routed_vip
  step_node_kept (attach subnet) r x n o v h t i = h
  step_node_kept (detach m) r x n o v h t i = ground arith
  step_node_kept (frame m bytes) r x n o v h t i = (decide-Holds m bytes r x n t o i (v, h)).1
  step_node_kept (announce pre hop) r x n o v h t i = ground arith
  step_node_kept (withdraw pre) r x n o v h t i = ground arith

  -- Over operations among which is no frame from the port that owns a node address and no
  -- detachment of that port, the address stays with the port: whatever the other ports send, and
  -- whatever is attached, detached, announced or withdrawn elsewhere, none of them can take it over.
  pub run_node_kept :
      (es : List Event) (r : Router) (x : Ip) (n t : ℕ)
      → Inv r
      → r.ip_to_port x ≡ some n
      → is_node_ip (some x) t ≡ true
      → All (Elsewhere n) es
      → (run parse_ip6 es r).ip_to_port x ≡ some n
  unfolding run
  run_node_kept [] r x n t v h i o = h
  run_node_kept (e ∷ es) r x n t v h i o =
      run_node_kept es (step parse_ip6 e r) x n t (step-Inv e r v)
        (step_node_kept e r x n o.0 v h t i) i o.1

  step-Detached : (e : Event) (r : Router) (n : ℕ) → Detached n r → Detached n (step parse_ip6 e r)
  unfolding step add_port remove_port learn_routed_vip forget_routed_vip
  step-Detached (attach subnet) r n h = ground arith
  step-Detached (detach m) r n h = ground arith
  step-Detached (frame m bytes) r n h = decide-Detached m bytes r n h
  step-Detached (announce pre hop) r n h = ground arith
  step-Detached (withdraw pre) r n h = ground arith

  run-Detached :
      (es : List Event) (r : Router) (n : ℕ) → Detached n r → Detached n (run parse_ip6 es r)
  unfolding run
  run-Detached [] r n h = h
  run-Detached (e ∷ es) r n h = run-Detached es (step parse_ip6 e r) n (step-Detached e r n h)

  remove_port-Detached :
      (n : ℕ) (r : Router) → Inv r → r.ports n ≡ true → Detached n (remove_port n r)
  unfolding remove_port
  remove_port-Detached n r v h = (ground arith, ground (arith, v.numbered n), ground arith)

  owner-attached :
      (r : Router) (x : Ip) (subnet n : ℕ) → Inv r → owner r x subnet ≡ some n → r.ports n ≡ true
  unfolding owner
  owner-attached r x subnet n v h = elim (Option-cases (r.routed_vips x)) [
    | inl e ↦ ground (arith, v.owner_live x n)
    | inr (y, e) ↦ ground (arith, v.owner_live x n, v.owner_live y n)
  ]

  detached_forward :
      (es : List Event) (r : Router) (n k t : ℕ) (bytes out : Bytes)
      → Inv r
      → r.ports n ≡ true
      → (decide k bytes (run parse_ip6 es (remove_port n r))).1 ≡ forward t out
      → (k ≢ n) × (t ≢ n)
  detached_forward es r n k t bytes out v live h =
      let s = run parse_ip6 es (remove_port n r) in
      let (eth, pkt, f) = decide-Forwards k bytes t out s h in
      let gone =
        decide-Detached k bytes s n (run-Detached es _ n (remove_port-Detached n r v live)) in
      let v' = decide-Inv k bytes s (run-Inv_from es _ (remove_port-Inv n r v)) in
      let sent = owner-attached _ _ _ t v' f.to_owner in
      (
        λ e.
            false≢true (sym gone.0 ∙ subst (λ m. (decide k bytes s).0.ports m ≡ true) e f.attached),
        λ e. false≢true (sym gone.0 ∙ subst (λ m. (decide k bytes s).0.ports m ≡ true) e sent),
      )

  Decision-cases :
      (d : Decision)
      → (d ≡ pass) ⊎ ((d ≡ expired) ⊎ ((t : ℕ) × (out : Bytes) × (d ≡ forward t out)))
  Decision-cases pass = inl refl
  Decision-cases expired = inr (inl refl)
  Decision-cases (forward t out) = inr (inr (t, out, refl))

  -- After an attached port is detached, and whatever happens from then on: no frame of any port is
  -- decided to go to it; a frame whose sending to it was decided at any time, before the detachment
  -- too, is not sent; and of the frames that come from it none is sent on.
  pub detached_silent :
      (es : List Event) (r : Router) (n k : ℕ) (bytes out : Bytes) (send : ℕ → Bytes → Bool)
      → Inv r
      → r.ports n ≡ true
      → ((decide k bytes (run parse_ip6 es (remove_port n r))).1 ≢ forward n out)
        × ((deliver send (run parse_ip6 es (remove_port n r)) (forward n out)).sent ≡ none)
        × ((route send n bytes (run parse_ip6 es (remove_port n r))).1.sent ≡ none)
  unfolding deliver route
  detached_silent es r n k bytes out send v live =
      let s = run parse_ip6 es (remove_port n r) in
      let gone = run-Detached es (remove_port n r) n (remove_port-Detached n r v live) in
      (
        λ h. (detached_forward es r n k n bytes out v live h).1 refl,
        rw (gone.2) refl,
        elim (Decision-cases (decide n bytes s).1) [
          | inl e ↦ rw (e) refl
          | inr (inl e) ↦ rw (e) refl
          | inr (inr (t, sent, e)) ↦
              absurd ((detached_forward es r n n t bytes sent v live e).0 refl)
        ],
      )
