-- ===== src/Router/Forward/Safety.antt =====
-- Which frames the router forwards, from whom and to whom.
use talos_box.Base.{
  ℕ, ◌<◌, true, Option, some, Bytes, sym, ◌==◌, ◌≡◌, ◌≢◌, ◌∙◌, arith, inl, inr, Bool-cases,
  Option-cases,
}
use talos_box.Net.{Ip}
use talos_box.Router.Frame.{Ethernet, Ipv4, parse_ethernet, parse_ipv4}
use talos_box.Router.State.{Router, accept_source_mac}
use talos_box.Router.State.Learns.{Learns-SamePorts}
use talos_box.Router.Forward.{
  pass, forward, accept, admits, learn_gateway, learn_from_packet, route_packet, route_accepted,
  route_ipv4, route_arp, decide_parsed, decide, owner, target_for, decide_target, rewrite_frame,
  source_mac, mac_or_empty,
}
use talos_box.Router.Forward.Keeps.{learn_from_packet-Learns, ports-accept, accept_live}

-- What the router knows when it sends the frame `out` to port `t` for a frame of port `k`.
pub record Forwards (k : ℕ) (frame : Bytes) (eth : Ethernet) (pkt : Ipv4) (s : Router) (t : ℕ)
    (out : Bytes) : Type 0 where
  -- the frame holds a valid IPv4 packet that may live on
  pub ethernet : parse_ethernet frame ≡ some eth
  pub packet : parse_ipv4 eth.payload ≡ some pkt
  pub lives : 1 < pkt.ttl
  -- it comes from an attached port, from its own MAC address and from an address that it owns
  pub attached : s.ports k ≡ true
  pub own_mac : (s.port k).mac ≡ some eth.src
  pub own_address : owner s pkt.src (s.port k).subnet ≡ some k
  -- it goes to the port that owns the destination, on another subnet
  pub to_owner : owner s pkt.dst (s.port t).subnet ≡ some t
  pub other_subnet : (s.port t).subnet ≢ (s.port k).subnet
  -- as the rewritten frame
  pub rewritten :
      out
      ≡ rewrite_frame frame pkt.header_len pkt.ttl
          (mac_or_empty (s.port t).mac)
          (source_mac (s.port t))

pass-ne-forward : {t : ℕ} {out : Bytes} → pass ≢ forward t out
pass-ne-forward e = cc

owner-at :
    (r : Router) (x : Ip) (subnet n : ℕ) → owner r x subnet ≡ some n → (r.port n).subnet ≡ subnet
unfolding owner
owner-at r x subnet n h = ground arith

target_for-owner :
    (r : Router) (x : Ip) (subnet t : ℕ)
    → target_for r x subnet ≡ some t
    → owner r x subnet ≡ some t
unfolding target_for
target_for-owner r x subnet t h = ground arith

owner-learn_gateway :
    (k : ℕ) (mac : Bytes) (r : Router) (x : Ip) (subnet : ℕ)
    → owner (learn_gateway k mac r) x subnet ≡ owner r x subnet
unfolding owner learn_gateway
owner-learn_gateway k mac r x subnet = ground arith

port-learn_gateway :
    (k : ℕ) (mac : Bytes) (r : Router) (n : ℕ)
    → let s = learn_gateway k mac r in
      ((s.port n).subnet ≡ (r.port n).subnet)
      × ((s.port n).mac ≡ (r.port n).mac)
      × (s.ports n ≡ r.ports n)
unfolding learn_gateway
port-learn_gateway k mac r n = ground arith

admits_lem :
    (k : ℕ) (pkt : Ipv4) (r : Router) (subnet : ℕ)
    → admits k pkt r ≡ some subnet
    → (owner r pkt.src (r.port k).subnet ≡ some k) × (subnet ≢ (r.port k).subnet)
unfolding admits
admits_lem k pkt r subnet h = ground arith

decide_target_lem :
    (frame : Bytes) (pkt : Ipv4) (o : Option ℕ) (r : Router) (t : ℕ) (out : Bytes)
    → decide_target frame pkt o r ≡ forward t out
    → (o ≡ some t)
      × (1 < pkt.ttl)
      × (out
          ≡ rewrite_frame frame pkt.header_len pkt.ttl
              (mac_or_empty (r.port t).mac)
              (source_mac (r.port t)))
unfolding decide_target
decide_target_lem frame pkt o r t out h = ground arith

accept_mac :
    (k : ℕ) (mac : Bytes) (r : Router)
    → (accept k mac r).1 ≡ true
    → ((accept k mac r).0.port k).mac ≡ some mac
unfolding accept_source_mac
accept_mac k mac r h = ground arith

module _ (k : ℕ) (frame : Bytes) (eth : Ethernet) (pkt : Ipv4) (t : ℕ) (out : Bytes) where
  -- A packet that is admitted, and whose target takes it.
  admitted-Forwards :
      (r : Router) (subnet : ℕ)
      → let s = learn_gateway k eth.dst r in
        parse_ethernet frame ≡ some eth
        → parse_ipv4 eth.payload ≡ some pkt
        → r.ports k ≡ true
        → (r.port k).mac ≡ some eth.src
        → admits k pkt r ≡ some subnet
        → decide_target frame pkt (target_for s pkt.dst subnet) s ≡ forward t out
        → Forwards k frame eth pkt s t out
  admitted-Forwards r subnet he hp l m a h =
      let s = learn_gateway k eth.dst r in
      let same = port-learn_gateway k eth.dst r k in
      let (own, other) = admits_lem k pkt r subnet a in
      let (target, lives, rewritten) = decide_target_lem frame pkt _ s t out h in
      let to_owner = target_for-owner s pkt.dst subnet t target in
      let in_subnet = owner-at s pkt.dst subnet t to_owner in
      record {
        ethernet = he;
        packet = hp;
        lives = lives;
        attached = same.2 ∙ l;
        own_mac = same.1 ∙ m;
        own_address = rw (same.0) (owner-learn_gateway k eth.dst r pkt.src _ ∙ own);
        to_owner = rw in_subnet to_owner;
        other_subnet = λ e. other (sym in_subnet ∙ e ∙ same.0);
        rewritten = rewritten;
      }

  -- The packet's part: the port is attached and its MAC address is that of the frame.
  route_packet-Forwards :
      (r : Router)
      → parse_ethernet frame ≡ some eth
      → parse_ipv4 eth.payload ≡ some pkt
      → r.ports k ≡ true
      → (r.port k).mac ≡ some eth.src
      → (route_packet k frame eth pkt r).1 ≡ forward t out
      → Forwards k frame eth pkt (route_packet k frame eth pkt r).0 t out
  unfolding route_packet
  route_packet-Forwards r he hp l m h =
      let r₁ = learn_from_packet k eth.src pkt r in
      let same = Learns-SamePorts (learn_from_packet-Learns k eth.src pkt r) in
      elim (Option-cases (admits k pkt r₁)) [
        | inl e ↦ absurd (pass-ne-forward (rw (e, route_packet) at h))
        | inr (subnet, e) ↦
            rw (e, route_packet)
              (admitted-Forwards r₁ subnet he hp (same.ports k ∙ l) (same.mac k ∙ m) e
                (rw (e, route_packet) at h))
      ]

  route_accepted-Forwards :
      (r : Router)
      → parse_ethernet frame ≡ some eth
      → parse_ipv4 eth.payload ≡ some pkt
      → (route_accepted k frame eth pkt r).1 ≡ forward t out
      → Forwards k frame eth pkt (route_accepted k frame eth pkt r).0 t out
  unfolding route_accepted
  route_accepted-Forwards r he hp h = elim (Bool-cases (accept k eth.src r).1) [
    | inr e ↦ absurd (pass-ne-forward (rw e at h))
    | inl e ↦ rw e (
        route_packet-Forwards _ he hp (ports-accept k eth.src r k ∙ accept_live k eth.src r e)
          (accept_mac k eth.src r e) (rw e at h))
  ]

module _ (k : ℕ) (frame : Bytes) (t : ℕ) (out : Bytes) where
  route_ipv4-Forwards :
      (eth : Ethernet) (r : Router)
      → parse_ethernet frame ≡ some eth
      → (route_ipv4 k frame eth r).1 ≡ forward t out
      → (pkt : Ipv4) × Forwards k frame eth pkt (route_ipv4 k frame eth r).0 t out
  unfolding route_ipv4
  route_ipv4-Forwards eth r he h = elim (Option-cases (parse_ipv4 eth.payload)) [
    | inl e ↦ absurd (pass-ne-forward (rw (e, route_ipv4) at h))
    | inr (pkt, e) ↦ (
      pkt,
      rw (e, route_ipv4)
          (route_accepted-Forwards k frame eth pkt t out r he e (rw (e, route_ipv4) at h)),
    )
  ]

  decide_parsed-Forwards :
      (eth : Ethernet) (r : Router)
      → parse_ethernet frame ≡ some eth
      → (decide_parsed k frame eth r).1 ≡ forward t out
      → (pkt : Ipv4) × Forwards k frame eth pkt (decide_parsed k frame eth r).0 t out
  unfolding decide_parsed route_arp
  decide_parsed-Forwards eth r he h = elim (Bool-cases (eth.ether_type == 0x0806)) [
    | inl e ↦ absurd (pass-ne-forward (rw e at h))
    | inr e ↦ elim (Bool-cases (eth.ether_type == 0x0800)) [
      | inl f ↦ rw (e, f) (route_ipv4-Forwards eth r he (rw (e, f) at h))
      | inr f ↦ absurd (pass-ne-forward (rw (e, f) at h))
    ]
  ]

  -- Whenever the router decides to forward a frame, the frame came from an attached port, from the
  -- MAC address that is pinned to that port and from an IP address that the port owns; it goes, as
  -- the rewritten frame, to the port that owns the destination, which is on another subnet; and its
  -- TTL was above 1.
  pub decide-Forwards :
      (r : Router)
      → (decide k frame r).1 ≡ forward t out
      → (eth : Ethernet) × (pkt : Ipv4) × Forwards k frame eth pkt (decide k frame r).0 t out
  unfolding decide
  decide-Forwards r h = elim (Option-cases (parse_ethernet frame)) [
    | inl e ↦ absurd (pass-ne-forward (rw (e, decide) at h))
    | inr (eth, e) ↦
        let (pkt, f) = decide_parsed-Forwards eth r e (rw (e, decide) at h) in
        (eth, pkt, rw (e, decide) f)
  ]
