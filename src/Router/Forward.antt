-- ===== src/Router/Forward.antt =====
-- Routing a frame between cluster subnets, internal/helper/router.go. `route` is the critical
-- section of `route` followed by the send; the frame is rewritten on the way.
pub mod Rewrite
pub mod Keeps
pub mod Safety
use talos_box.Base.{
  ℕ, zero, suc, ◌+◌, ◌-◌, ◌*◌, Bool, true, false, not, ◌&&◌, ◌||◌, Option, none, some, List, [],
  ◌∷◌, ◌++◌, Bytes, byte_at, ltb, leb, ◌==◌, if◌then◌else◌, update, take, drop, slice, length,
  put16, ◌%◌, ◌/◌,
}
use talos_box.Net.{Ip, ip, Ip-discrete, parse_ip4}
use talos_box.Router.Addr.{
  talosbox_subnet, is_node_ip, is_vip, is_owned_talosbox_ip, is_unicast_mac,
}
use talos_box.Router.Frame.{Ethernet, Ipv4, parse_ethernet, parse_ipv4}
use talos_box.Router.Checksum.{internet_checksum}
use talos_box.Router.State.{
  Port, Router, set_port, is_port, accept_source_mac, learn_arp_sender, learn_dhcp_requested_ip,
}

-- The port, if its subnet is the one asked for.
abbrev pub at_subnet : Router → ℕ → Option ℕ → Option ℕ
at_subnet r subnet none = none
at_subnet r subnet (some n) = if (r.port n).subnet == subnet then some n else none

-- The port of the next hop of a routed virtual address.
abbrev pub routed_owner : Router → ℕ → Option Ip → Option ℕ
routed_owner r subnet none = none
routed_owner r subnet (some hop) = at_subnet r subnet (r.ip_to_port hop)

abbrev pub or_else : Option ℕ → Option ℕ → Option ℕ
or_else (some n) other = some n
or_else none other = other

-- `owner`
unfoldable pub owner : Router → Ip → ℕ → Option ℕ
owner r x subnet =
    or_else (at_subnet r subnet (r.ip_to_port x)) (routed_owner r subnet (r.routed_vips x))

abbrev has_mac : Router → Option ℕ → Option ℕ
has_mac r none = none
has_mac r (some n) = elim (r.port n).mac [ none ↦ none | some m ↦ some n ]

-- `targetFor`
unfoldable pub target_for : Router → Ip → ℕ → Option ℕ
unfolding owner
target_for r x subnet = has_mac r (owner r x subnet)

-- `routerGatewayMACKey`
unfoldable pub gateway_mac : ℕ → Bytes
gateway_mac subnet = 0x02 ∷ (0x54 ∷ (0x30 ∷ (0x00 ∷ ((subnet % 256) ∷ (0x01 ∷ [])))))

-- `sourceMAC`
unfoldable pub source_mac : Port → Bytes
unfolding gateway_mac
source_mac p = elim p.gateway [ none ↦ gateway_mac p.subnet | some m ↦ m ]

-- The bytes with some of them written over, from an index on.
abbrev pub splice : Bytes → ℕ → Bytes → Bytes
splice s i new = take i s ++ (new ++ drop (i + length new) s)

-- The rewrite of the IPv4 packet: the TTL falls by one and the header checksum is made anew.
unfoldable pub rewrite_packet : Bytes → ℕ → ℕ → Bytes
rewrite_packet payload header_len ttl =
    let hopped = splice payload 8 ((ttl - 1) ∷ []) in
    let cleared = splice hopped 10 (0 ∷ (0 ∷ [])) in
    splice cleared 10 (put16 (internet_checksum (take header_len cleared)))

-- `forwarded`: both MAC addresses are replaced, and the packet is rewritten.
unfoldable pub rewrite_frame : Bytes → ℕ → ℕ → Bytes → Bytes → Bytes
unfolding rewrite_packet
rewrite_frame frame header_len ttl target_mac src_mac =
    target_mac ++ (src_mac ++ (slice frame 12 14 ++ rewrite_packet (drop 14 frame) header_len ttl))

-- What the critical section decides: leave the frame to vmnet, drop it, or send it to a port.
pub data Decision : Type 0 where
  pass : Decision
  expired : Decision
  forward : ℕ → Bytes → Decision

-- `port.gateway = dstMAC`, for a unicast destination.
unfoldable pub learn_gateway : ℕ → Bytes → Router → Router
learn_gateway n dst_mac r =
    if is_unicast_mac dst_mac
    then set_port r n (record (r.port n) { gateway = some dst_mac })
    else r

abbrev mac_or_empty : Option Bytes → Bytes
mac_or_empty none = []
mac_or_empty (some m) = m

-- The decision for a packet whose addresses were accepted.
unfoldable pub decide_target : Bytes → Ipv4 → Option ℕ → Router → Decision
unfolding rewrite_frame source_mac
decide_target frame pkt none r = pass
decide_target frame pkt (some t) r =
    if leb pkt.ttl 1
    then expired
    else forward t (
        rewrite_frame frame pkt.header_len pkt.ttl (mac_or_empty (r.port t).mac)
          (source_mac (r.port t)))

-- The source is an address that the port owns; the destination is an owned address of another
-- subnet.
unfoldable pub admits : ℕ → Ipv4 → Router → Option ℕ
unfolding owner
admits n pkt r =
    if is_port (owner r pkt.src (r.port n).subnet) n
    then elim (talosbox_subnet (some pkt.dst)) [
      | none ↦ none
      | some subnet ↦
          if subnet == (r.port n).subnet || not (is_owned_talosbox_ip (some pkt.dst) subnet)
          then none
          else some subnet
    ]
    else none

-- A UDP packet that is whole may be a DHCPREQUEST.
unfoldable pub learn_from_packet : ℕ → Bytes → Ipv4 → Router → Router
learn_from_packet n src_mac pkt r =
    if pkt.protocol == 17 && not pkt.fragmented
    then learn_dhcp_requested_ip n src_mac pkt.l4_payload r
    else r

unfoldable pub route_packet : ℕ → Bytes → Ethernet → Ipv4 → Router → Router × Decision
unfolding learn_from_packet admits learn_gateway target_for decide_target
route_packet n frame eth pkt r =
    let r₁ = learn_from_packet n eth.src pkt r in
    elim (admits n pkt r₁) [
      | none ↦ (r₁, pass)
      | some subnet ↦
          let r₂ = learn_gateway n eth.dst r₁ in
          (r₂, decide_target frame pkt (target_for r₂ pkt.dst subnet) r₂)
    ]

-- The frame is accepted from the port, which is attached and has this source address.
abbrev pub accept : ℕ → Bytes → Router → Router × Bool
accept n src_mac r = if r.ports n then accept_source_mac n src_mac r else (r, false)

unfoldable pub route_accepted : ℕ → Bytes → Ethernet → Ipv4 → Router → Router × Decision
unfolding route_packet
route_accepted n frame eth pkt r =
    let (r₁, accepted) = accept n eth.src r in
    if accepted then route_packet n frame eth pkt r₁ else (r₁, pass)

unfoldable pub route_ipv4 : ℕ → Bytes → Ethernet → Router → Router × Decision
unfolding route_accepted
route_ipv4 n frame eth r = elim (parse_ipv4 eth.payload) [
  | none ↦ (r, pass)
  | some pkt ↦ route_accepted n frame eth pkt r
]

unfoldable pub route_arp : ℕ → Ethernet → Router → Router × Decision
route_arp n eth r =
    let (r₁, accepted) = accept n eth.src r in
    (if accepted then learn_arp_sender n eth.src eth.payload r₁ else r₁, pass)

unfoldable pub decide_parsed : ℕ → Bytes → Ethernet → Router → Router × Decision
unfolding route_ipv4 route_arp
decide_parsed n frame eth r =
    if eth.ether_type == 0x0806
    then route_arp n eth r
    else if eth.ether_type == 0x0800
    then route_ipv4 n frame eth r
    else (r, pass)

-- The critical section of `route`, with the rewrite of the frame.
unfoldable pub decide : ℕ → Bytes → Router → Router × Decision
unfolding decide_parsed
decide n frame r = elim (parse_ethernet frame) [
  | none ↦ (r, pass)
  | some eth ↦ decide_parsed n frame eth r
]

-- What `route` returns, `handled` and whether there is an error, and the frame that was sent.
pub record Outcome : Type 0 where
  pub handled : Bool
  pub failed : Bool
  pub sent : Option (ℕ × Bytes)

-- `sendFrame` and the return: a closed port sends nothing. `send` is the port's function, true
-- for an error.
unfoldable pub deliver : (ℕ → Bytes → Bool) → Router → Decision → Outcome
deliver send r pass = record { handled = false; failed = false; sent = none }
deliver send r expired = record { handled = true; failed = false; sent = none }
deliver send r (forward t frame) =
    if (r.port t).closed
    then record { handled = true; failed = true; sent = none }
    else record { handled = true; failed = send t frame; sent = some (t, frame) }

-- `route`
unfoldable pub route : (ℕ → Bytes → Bool) → ℕ → Bytes → Router → Router × Outcome
unfolding decide deliver
route send n frame r = let (r₁, d) = decide n frame r in (r₁, deliver send r₁ d)
