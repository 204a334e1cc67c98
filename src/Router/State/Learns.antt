-- ===== src/Router/State/Learns.antt =====
-- Every way to learn from a frame is one of two steps, or nothing; what holds of the two steps
-- holds of learning.
use talos_box.Base.{
  ℕ, Bool, true, false, some, Bytes, if◌then◌else◌, ◌≡◌, ◌≢◌, refl, arith, inl, inr, Option-cases,
}
use talos_box.Net.{Ip}
use talos_box.Router.Addr.{is_node_ip}
use talos_box.Router.Frame.{parse_arp, parse_udp, parse_dhcp_request, DhcpRequest}
use talos_box.Router.State.{
  Router, learn_arp_sender, learn_dhcp_requested_ip, learn_requested, learn_dhcp_body,
  learn_node_ip, learn_vip_ip,
}
use talos_box.Router.State.Invariant.{Inv, learn_vip_ip-Inv, learn_node_ip-Inv, node_not_vip}

pub data Learns (k : ℕ) (r : Router) : Router → Type 0 where
  nothing : Learns k r r
  vip : (y : Ip) → Learns k r (learn_vip_ip k y r)
  node : (y : Ip) → Learns k r (learn_node_ip k y r)

module _ (k : ℕ) (r : Router) where
  unless : (b : Bool) (s : Router) → Learns k r s → Learns k r (if b then r else s)
  unless true s h = nothing
  unless false s h = h

  pub when : (b : Bool) (s : Router) → Learns k r s → Learns k r (if b then s else r)
  when true s h = h
  when false s h = nothing

  pub learn_arp_sender-Learns :
      (src payload : Bytes) → Learns k r (learn_arp_sender k src payload r)
  unfolding learn_arp_sender
  learn_arp_sender-Learns src payload = elim (Option-cases (parse_arp payload)) [
    | inl e ↦ rw (e, learn_arp_sender) nothing
    | inr (a, e) ↦ rw (e, learn_arp_sender) (unless _ _ (when _ _ (vip a.sender_ip)))
  ]

  pub learn_requested-Learns :
      (src mac : Bytes) (q : DhcpRequest) → Learns k r (learn_requested k src q mac r)
  unfolding learn_requested
  learn_requested-Learns src mac q = elim (Option-cases q.requested_ip) [
    | inl e ↦ rw (e, learn_requested) nothing
    | inr (y, e) ↦ rw (e, learn_requested) (unless _ _ (node y))
  ]

  learn_dhcp_body-Learns : (src body : Bytes) → Learns k r (learn_dhcp_body k src body r)
  unfolding learn_dhcp_body
  learn_dhcp_body-Learns src body = elim (Option-cases (parse_dhcp_request body)) [
    | inl e ↦ rw (e, learn_dhcp_body) nothing
    | inr ((q, mac), e) ↦ rw (e, learn_dhcp_body) (learn_requested-Learns src mac q)
  ]

  pub learn_dhcp_requested_ip-Learns :
      (src payload : Bytes) → Learns k r (learn_dhcp_requested_ip k src payload r)
  unfolding learn_dhcp_requested_ip
  learn_dhcp_requested_ip-Learns src payload = elim (Option-cases (parse_udp payload)) [
    | inl e ↦ rw (e, learn_dhcp_requested_ip) nothing
    | inr (u, e) ↦ rw (e, learn_dhcp_requested_ip) (unless _ _ (learn_dhcp_body-Learns src u.body))
  ]

-- Learning keeps the invariant.
pub Learns-Inv : {k : ℕ} {r s : Router} → Learns k r s → r.ports k ≡ true → Inv r → Inv s
Learns-Inv nothing l v = v
Learns-Inv {k} {r} (vip y) l v = learn_vip_ip-Inv k y r l v
Learns-Inv {k} {r} (node y) l v = learn_node_ip-Inv k y r l v

-- Learning attaches and detaches no port, and leaves the subnets and MAC addresses of ports.
pub record SamePorts (r s : Router) : Type 0 where
  pub ports : (n : ℕ) → s.ports n ≡ r.ports n
  pub next_port : s.next_port ≡ r.next_port
  pub subnet : (n : ℕ) → (s.port n).subnet ≡ (r.port n).subnet
  pub mac : (n : ℕ) → (s.port n).mac ≡ (r.port n).mac
  pub routed : (x : Ip) → s.routed_vips x ≡ r.routed_vips x

pub Learns-SamePorts : {k : ℕ} {r s : Router} → Learns k r s → SamePorts r s
unfolding learn_vip_ip learn_node_ip
Learns-SamePorts nothing = record {
  ports = λ n. refl;
  next_port = refl;
  subnet = λ n. refl;
  mac = λ n. refl;
  routed = λ x. refl;
}
Learns-SamePorts {k} {r} (vip y) = record {
  ports = λ n. ground arith;
  next_port = ground arith;
  subnet = λ n. ground arith;
  mac = λ n. ground arith;
  routed = λ x. ground arith;
}
Learns-SamePorts {k} {r} (node y) = record {
  ports = λ n. ground arith;
  next_port = ground arith;
  subnet = λ n. ground arith;
  mac = λ n. ground arith;
  routed = λ x. ground arith;
}

-- An address of a node that another port owns is left with that port.
pub Learns-node_kept :
    {k : ℕ} {r s : Router} (x : Ip) (n t : ℕ)
    → Learns k r s
    → Inv r
    → n ≢ k
    → r.ip_to_port x ≡ some n
    → is_node_ip (some x) t ≡ true
    → s.ip_to_port x ≡ some n
unfolding learn_vip_ip learn_node_ip
Learns-node_kept x n t nothing v ne h i = h
Learns-node_kept {k} {r} x n t (vip y) v ne h i = ground (arith, node_not_vip x t (r.port k).subnet)
Learns-node_kept {k} {r} x n t (node y) v ne h i = ground arith

-- A closed port stays closed.
pub Learns-closed :
    {k : ℕ} {r s : Router} (n : ℕ)
    → Learns k r s
    → (r.port n).closed ≡ true
    → (s.port n).closed ≡ true
unfolding learn_vip_ip learn_node_ip
Learns-closed n nothing h = h
Learns-closed n (vip y) h = ground arith
Learns-closed n (node y) h = ground arith
