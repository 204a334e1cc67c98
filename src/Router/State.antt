-- ===== src/Router/State.antt =====
-- The router's state and what it learns from frames, internal/helper/router.go and
-- router_darwin.go. `mac` with `macSet` is an `Option`, and so are `gateway` and `nodeIP`.
pub mod Invariant
pub mod Learns
use mathlib.Core.Logic.{ite}
use talos_box.Base.{
  ℕ, zero, suc, ◌+◌, Bool, true, false, not, ◌&&◌, ◌||◌, Option, none, some, List, [], ◌∷◌, Bytes,
  byte_at, ltb, leb, ◌==◌, if◌then◌else◌, update, ℕ_discrete, dec_lt,
}
use talos_box.Text.{Bytes-discrete}
use talos_box.Net.{Ip, ip, Ip-discrete, parse_ip4}
use talos_box.Router.Addr.{
  talosbox_subnet, is_node_ip, is_vip, is_unicast_mac, server_id_matches_subnet,
}
use talos_box.Router.Frame.{parse_arp, parse_udp, parse_dhcp_request, Arp, Udp, DhcpRequest}

-- `routerPort`. Its `send` function is the environment's, and takes no part here.
pub record Port : Type 0 where
  pub subnet : ℕ
  pub closed : Bool
  pub mac : Option Bytes
  pub gateway : Option Bytes
  pub node_ip : Option Ip
  pub ips : Ip → Bool

-- `frameRouter`. `port` is the store of the port structures, and `ports` says which numbers the
-- map `ports` holds.
pub record Router : Type 0 where
  pub next_port : ℕ
  pub ports : ℕ → Bool
  pub port : ℕ → Port
  pub ip_to_port : Ip → Option ℕ
  pub routed_vips : Ip → Option Ip

abbrev pub fresh_port : ℕ → Port
fresh_port subnet = record {
  subnet = subnet;
  closed = false;
  mac = none;
  gateway = none;
  node_ip = none;
  ips = λ _. false;
}

-- `newFrameRouter`. What the store holds at numbers that no port has is never read.
unfoldable pub new_frame_router : Router
new_frame_router = record {
  next_port = 0;
  ports = λ _. false;
  port = λ _. fresh_port 0;
  ip_to_port = λ _. none;
  routed_vips = λ _. none;
}

abbrev pub set_port : Router → ℕ → Port → Router
set_port r n p = record r { port = update ℕ_discrete r.port n p }

-- `addPort`, with the number of the new port.
unfoldable pub add_port : ℕ → Router → Router × ℕ
add_port subnet r =
    let n = r.next_port + 1 in
    (
      record r {
        next_port = n;
        ports = update ℕ_discrete r.ports n true;
        port = update ℕ_discrete r.port n (fresh_port subnet);
      },
      n,
    )

-- Whether a map lookup gave this very port.
abbrev pub is_port : Option ℕ → ℕ → Bool
is_port none n = false
is_port (some m) n = m == n

-- `removePort`, with the `closeSend` behind it.
unfoldable pub remove_port : ℕ → Router → Router
remove_port n r =
    let p = r.port n in
    if r.ports n
    then record r {
      ports = update ℕ_discrete r.ports n false;
      port = update ℕ_discrete r.port n (record p { closed = true });
      ip_to_port = λ x. if p.ips x && is_port (r.ip_to_port x) n then none else r.ip_to_port x;
    }
    else r

abbrev same_mac : Option Bytes → Bytes → Bool
same_mac none mac = false
same_mac (some m) mac = ite (Bytes-discrete m mac) true false

-- `acceptPortSourceMAC`: the first unicast source address is the port's for good.
unfoldable pub accept_source_mac : ℕ → Bytes → Router → Router × Bool
accept_source_mac n mac r =
    if is_unicast_mac mac
    then elim (r.port n).mac [
      | none ↦ (set_port r n (record (r.port n) { mac = some mac }), true)
      | some m ↦ (r, same_mac (some m) mac)
    ]
    else (r, false)

abbrev same_ip : Option Ip → Ip → Bool
same_ip none x = false
same_ip (some y) x = ite (Ip-discrete y x) true false

-- Another port than this one is the owner.
abbrev pub owned_by_other : Option ℕ → ℕ → Bool
owned_by_other none n = false
owned_by_other (some m) n = not (m == n)

-- Dropping the node address that a port had, where it still owns it.
unfoldable pub forget_node_ip : ℕ → Option Ip → Router → Router
forget_node_ip n none r = r
forget_node_ip n (some old) r =
    let p = r.port n in
    record r {
      ip_to_port =
          if is_port (r.ip_to_port old) n
          then update Ip-discrete r.ip_to_port old none
          else r.ip_to_port;
      port = update ℕ_discrete r.port n (record p { ips = update Ip-discrete p.ips old false });
    }

-- Making a port the owner of an address that it learned.
unfoldable pub bind_ip : ℕ → Ip → Router → Router
bind_ip n x r =
    let p = r.port n in
    record r {
      ip_to_port = update Ip-discrete r.ip_to_port x (some n);
      port = update ℕ_discrete r.port n (record p { ips = update Ip-discrete p.ips x true });
    }

-- `learnNodeIP`
unfoldable pub learn_node_ip : ℕ → Ip → Router → Router
unfolding forget_node_ip bind_ip
learn_node_ip n x r =
    let r₁ = forget_node_ip n (r.port n).node_ip r in
    let r₂ = set_port r₁ n (record (r₁.port n) { node_ip = some x }) in
    if not (is_node_ip (some x) (r.port n).subnet)
    then r
    else if same_ip (r.port n).node_ip x
    then r
    else if owned_by_other (r.ip_to_port x) n
    then r
    else bind_ip n x r₂

-- The port that loses an address to `n`: `delete(owner.ips, key)`.
unfoldable pub release_ip : ℕ → Option ℕ → Ip → Router → Router
release_ip n none x r = r
release_ip n (some m) x r =
    let p = r.port m in
    if m == n then r else set_port r m (record p { ips = update Ip-discrete p.ips x false })

-- `learnVIPIP`
unfoldable pub learn_vip_ip : ℕ → Ip → Router → Router
unfolding release_ip bind_ip
learn_vip_ip n x r =
    if is_vip (some x) (r.port n).subnet then bind_ip n x (release_ip n (r.ip_to_port x) x r) else r

-- `learnARPSender`: the sender of an ARP request or reply takes a virtual address of the subnet.
unfoldable pub learn_arp_sender : ℕ → Bytes → Bytes → Router → Router
unfolding learn_vip_ip
learn_arp_sender n src_mac payload r = elim (parse_arp payload) [
  | none ↦ r
  | some a ↦
      if not (same_mac (some a.sender_mac) src_mac)
        || not (is_vip (some a.sender_ip) (r.port n).subnet)
      then r
      else if a.op == 1 || a.op == 2
      then learn_vip_ip n a.sender_ip r
      else r
]

-- A validated DHCPREQUEST names the node's address.
unfoldable pub learn_requested : ℕ → Bytes → DhcpRequest → Bytes → Router → Router
unfolding learn_node_ip
learn_requested n src_mac q client_mac r = elim q.requested_ip [
  | none ↦ r
  | some x ↦
      if not (q.message_type == 3)
        || not (same_mac (some client_mac) src_mac)
        || not (same_mac (r.port n).mac client_mac)
        || not (is_node_ip (some x) (r.port n).subnet)
        || not (server_id_matches_subnet q.server_ip (r.port n).subnet)
      then r
      else learn_node_ip n x r
]

unfoldable pub learn_dhcp_body : ℕ → Bytes → Bytes → Router → Router
unfolding learn_requested
learn_dhcp_body n src_mac body r = elim (parse_dhcp_request body) [
  | none ↦ r
  | some (q, client_mac) ↦ learn_requested n src_mac q client_mac r
]

-- `learnDHCPRequestedIP`
unfoldable pub learn_dhcp_requested_ip : ℕ → Bytes → Bytes → Router → Router
unfolding learn_dhcp_body
learn_dhcp_requested_ip n src_mac payload r = elim (parse_udp payload) [
  | none ↦ r
  | some u ↦
      if not (u.src_port == 68) || not (u.dst_port == 67)
      then r
      else learn_dhcp_body n src_mac u.body r
]
