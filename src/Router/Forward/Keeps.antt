-- ===== src/Router/Forward/Keeps.antt =====
-- What the parts of routing a frame keep, routing keeps; so it keeps the router's invariant.
use talos_box.Base.{
  ℕ, ◌≤◌, true, false, some, Bytes, ◌==◌, ◌≡◌, ◌≢◌, ◌∙◌, refl, arith, inl, inr, Bool-cases,
  Option-cases,
}
use talos_box.Net.{Ip}
use talos_box.Router.Addr.{is_unicast_mac, is_node_ip}
use talos_box.Router.Frame.{Ethernet, Ipv4, parse_ethernet, parse_ipv4}
use talos_box.Router.State.{Router, accept_source_mac}
use talos_box.Router.State.Learns.{
  Learns, Learns-Inv, Learns-SamePorts, Learns-closed, Learns-node_kept, when,
  learn_arp_sender-Learns, learn_dhcp_requested_ip-Learns,
}
use talos_box.Router.State.Invariant.{Inv, set_port-Inv, accept_source_mac-Inv}
use talos_box.Router.Forward.{
  accept, admits, learn_gateway, learn_from_packet, route_packet, route_accepted, decide_parsed,
  route_ipv4, route_arp, decide,
}

module _ (k : ℕ) where
  pub ports-accept : (mac : Bytes) (r : Router) (n : ℕ) → (accept k mac r).0.ports n ≡ r.ports n
  unfolding accept_source_mac
  ports-accept mac r n = ground arith

  pub accept_live : (mac : Bytes) (r : Router) → (accept k mac r).1 ≡ true → r.ports k ≡ true
  accept_live mac r h = ground arith

  pub learn_from_packet-Learns :
      (src : Bytes) (pkt : Ipv4) (r : Router) → Learns k r (learn_from_packet k src pkt r)
  unfolding learn_from_packet
  learn_from_packet-Learns src pkt r =
      when k r _ _ (learn_dhcp_requested_ip-Learns k r src pkt.l4_payload)

-- A property that accepting a source, learning and noting the gateway keep is kept by routing.
module _ {ℓ} (k : ℕ) (P : Router → Type ℓ)
    (on_accept : (mac : Bytes) (r : Router) → P r → P (accept k mac r).0)
    (on_learn : (r s : Router) → Learns k r s → r.ports k ≡ true → P r → P s)
    (on_gateway : (mac : Bytes) (r : Router) → P r → P (learn_gateway k mac r)) where
  live : (mac : Bytes) (r : Router) → (accept k mac r).1 ≡ true → (accept k mac r).0.ports k ≡ true
  live mac r e = ports-accept k mac r k ∙ accept_live k mac r e

  route_arp-keeps : (eth : Ethernet) (r : Router) → P r → P (route_arp k eth r).0
  unfolding route_arp
  route_arp-keeps eth r v = elim (Bool-cases (accept k eth.src r).1) [
    | inr e ↦ rw e (on_accept eth.src r v)
    | inl e ↦ rw e (
        on_learn _ _ (learn_arp_sender-Learns k _ eth.src eth.payload) (live eth.src r e)
          (on_accept eth.src r v))
  ]

  route_packet-keeps :
      (frame : Bytes) (eth : Ethernet) (pkt : Ipv4) (r : Router)
      → r.ports k ≡ true
      → P r
      → P (route_packet k frame eth pkt r).0
  unfolding route_packet
  route_packet-keeps frame eth pkt r l v =
      let v₁ = on_learn r _ (learn_from_packet-Learns k eth.src pkt r) l v in
      elim (Option-cases (admits k pkt (learn_from_packet k eth.src pkt r))) [
        | inl e ↦ rw (e, route_packet) v₁
        | inr (subnet, e) ↦ rw (e, route_packet) (on_gateway eth.dst _ v₁)
      ]

  route_accepted-keeps :
      (frame : Bytes) (eth : Ethernet) (pkt : Ipv4) (r : Router)
      → P r
      → P (route_accepted k frame eth pkt r).0
  unfolding route_accepted
  route_accepted-keeps frame eth pkt r v = elim (Bool-cases (accept k eth.src r).1) [
    | inr e ↦ rw e (on_accept eth.src r v)
    | inl e ↦ rw e (route_packet-keeps frame eth pkt _ (live eth.src r e) (on_accept eth.src r v))
  ]

  route_ipv4-keeps :
      (frame : Bytes) (eth : Ethernet) (r : Router) → P r → P (route_ipv4 k frame eth r).0
  unfolding route_ipv4
  route_ipv4-keeps frame eth r v = elim (Option-cases (parse_ipv4 eth.payload)) [
    | inl e ↦ rw (e, route_ipv4) v
    | inr (pkt, e) ↦ rw (e, route_ipv4) (route_accepted-keeps frame eth pkt r v)
  ]

  decide_parsed-keeps :
      (frame : Bytes) (eth : Ethernet) (r : Router) → P r → P (decide_parsed k frame eth r).0
  unfolding decide_parsed
  decide_parsed-keeps frame eth r v = elim (Bool-cases (eth.ether_type == 0x0806)) [
    | inl e ↦ rw e (route_arp-keeps eth r v)
    | inr e ↦ elim (Bool-cases (eth.ether_type == 0x0800)) [
      | inl f ↦ rw (e, f) (route_ipv4-keeps frame eth r v)
      | inr f ↦ rw (e, f) v
    ]
  ]

  pub decide-keeps : (frame : Bytes) (r : Router) → P r → P (decide k frame r).0
  unfolding decide
  decide-keeps frame r v = elim (Option-cases (parse_ethernet frame)) [
    | inl e ↦ rw (e, decide) v
    | inr (eth, e) ↦ rw (e, decide) (decide_parsed-keeps frame eth r v)
  ]

learn_gateway-Inv : (k : ℕ) (mac : Bytes) (r : Router) → Inv r → Inv (learn_gateway k mac r)
unfolding learn_gateway
learn_gateway-Inv k mac r v = elim (Bool-cases (is_unicast_mac mac)) [
  | inl e ↦ rw e (set_port-Inv k _ r refl refl refl refl (λ m. v.mac_unicast k m) v)
  | inr e ↦ rw e v
]

accept-Inv : (k : ℕ) (mac : Bytes) (r : Router) → Inv r → Inv (accept k mac r).0
accept-Inv k mac r v = elim (Bool-cases (r.ports k)) [
  | inl e ↦ rw e (accept_source_mac-Inv k mac r v)
  | inr e ↦ rw e v
]

-- Every frame, from every port, keeps the invariant.
pub decide-Inv : (k : ℕ) (frame : Bytes) (r : Router) → Inv r → Inv (decide k frame r).0
decide-Inv k =
    decide-keeps k Inv (accept-Inv k) (λ r s h l v. Learns-Inv h l v) (learn_gateway-Inv k)

-- A port that is not the frame's keeps its node address.
abbrev pub Holds : ℕ → Ip → Router → Type 0
Holds n x r = Inv r × (r.ip_to_port x ≡ some n)

pub decide-Holds :
    (k : ℕ) (frame : Bytes) (r : Router) (x : Ip) (n t : ℕ)
    → n ≢ k
    → is_node_ip (some x) t ≡ true
    → Holds n x r
    → Holds n x (decide k frame r).0
unfolding accept_source_mac learn_gateway
decide-Holds k frame r x n t ne i =
    decide-keeps k (Holds n x) (λ mac r h. (accept-Inv k mac r h.0, ground arith))
      (λ r s l a h. (Learns-Inv l a h.0, Learns-node_kept x n t l h.0 ne h.1 i))
      (λ mac r h. (learn_gateway-Inv k mac r h.0, ground arith)) frame r

-- A port that is not attached, whose number is behind the counter, and that is closed for sending.
abbrev pub Detached : ℕ → Router → Type 0
Detached n r = (r.ports n ≡ false) × (n ≤ r.next_port) × ((r.port n).closed ≡ true)

pub decide-Detached :
    (k : ℕ) (frame : Bytes) (r : Router) (n : ℕ) → Detached n r → Detached n (decide k frame r).0
unfolding accept_source_mac learn_gateway
decide-Detached k frame r n =
    decide-keeps k (Detached n) (λ mac r h. (ground arith, ground arith, ground arith))
      (λ r s l a h. (
        ground (arith, Learns-SamePorts l, (Learns-SamePorts l).ports n),
        ground (arith, Learns-SamePorts l),
        Learns-closed n l h.2,
      ))
      (λ mac r h. (ground arith, ground arith, ground arith)) frame r
