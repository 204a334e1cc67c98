-- ===== src/Router/Tests.antt =====
-- The router on a small network: two clusters, each with a port that announced a virtual address.
use talos_box.Base.{
  ℕ, true, false, Option, none, some, List, [], ◌∷◌, ◌++◌, Bytes, codes, ◌≡◌, ◌≢◌, refl, arith,
  take, put16, replicate, length, slice, ◌-◌, ℕ_discrete,
}
use talos_box.Text.{Bytes-discrete}
use talos_box.Net.{Ip, ip, Ip-discrete}
use talos_box.Router.Addr.{
  is_node_ip, is_vip, is_owned_talosbox_ip, is_unicast_mac, talosbox_subnet,
}
use talos_box.Router.Checksum.{internet_checksum}
use talos_box.Router.Checksum.Valid.{checksum-put16}
use talos_box.Router.Frame.{
  DhcpRequest, Ethernet, Ipv4, parse_ethernet, parse_ipv4, parse_arp, dhcp_options, no_options,
}
use talos_box.Router.State.{
  Router, new_frame_router, add_port, remove_port, accept_source_mac, learn_arp_sender,
}
use talos_box.Router.Forward.{forward, decide, owner, rewrite_packet, deliver, route}
use talos_box.Router.Run.{Event, attach, detach, frame, announce, step, run}
use talos_box.Router.Run.Traces.{run-Inv, run_node_kept, detached_silent}
use talos_box.Router.Forward.Safety.{Forwards, decide-Forwards}
use talos_box.Router.Frame.Options.{dhcp_options_total}
use talos_box.Router.Forward.Rewrite.{Untouched, parse_ipv4-rewrite_packet}
use talos_box.Router.State.Invariant.{Inv, learn_node_ip-Inv, add_port-Inv}
use talos_box.Router.State.{learn_node_ip}

no_ip6 : Bytes → Option Ip
no_ip6 s = none

abbrev mac_1 : Bytes
mac_1 = 0x52 ∷ 0x54 ∷ 0 ∷ 0 ∷ 0 ∷ 1 ∷ []

abbrev mac_2 : Bytes
mac_2 = 0x52 ∷ 0x54 ∷ 0 ∷ 0 ∷ 0 ∷ 2 ∷ []

abbrev gateway_1 : Bytes
gateway_1 = 0x02 ∷ 0x54 ∷ 0x30 ∷ 0 ∷ 1 ∷ 1 ∷ []

-- An ARP request of a port for its own virtual address.
abbrev arp : Bytes → ℕ → Bytes
arp mac subnet =
    (0xff ∷ 0xff ∷ 0xff ∷ 0xff ∷ 0xff ∷ 0xff ∷ [])
    ++ (mac
        ++ ((8 ∷ 6 ∷ 0 ∷ 1 ∷ 8 ∷ 0 ∷ 6 ∷ 4 ∷ 0 ∷ 1 ∷ [])
            ++ (mac
                ++ ((172 ∷ 30 ∷ subnet ∷ 200 ∷ [])
                    ++ ((0 ∷ 0 ∷ 0 ∷ 0 ∷ 0 ∷ 0 ∷ []) ++ (172 ∷ 30 ∷ subnet ∷ 200 ∷ []))))))

abbrev opening : List Event
opening = attach 1 ∷ attach 2 ∷ frame 1 (arp mac_1 1) ∷ frame 2 (arp mac_2 2) ∷ []

network : Router
unfolding no_ip6 run step new_frame_router add_port decide learn_arp_sender accept_source_mac is_vip
    parse_ethernet parse_arp Bytes-discrete Ip-discrete ℕ_discrete is_unicast_mac
network = run no_ip6 opening new_frame_router

-- A packet from the first virtual address to the second.
abbrev packet : Bytes
packet =
    0x45 ∷ 0 ∷ 0 ∷ 21 ∷ 0 ∷ 0 ∷ 0 ∷ 0 ∷ 64 ∷ 1 ∷ 0x1e ∷ 0x1c ∷ 172 ∷ 30 ∷ 1 ∷ 200 ∷ 172 ∷ 30 ∷ 2
    ∷ 200 ∷ 7 ∷ []

sum_test : internet_checksum (take 20 packet) ≡ 0
unfolding internet_checksum
sum_test = refl

owner_test : owner network (ip 172 30 1 200) 1 ≡ some 1
unfolding network owner
owner_test = refl

abbrev cross : Bytes
cross = gateway_1 ++ (mac_1 ++ (8 ∷ 0 ∷ packet))

abbrev crossed : Bytes
crossed =
    mac_2
    ++ ((0x02 ∷ 0x54 ∷ 0x30 ∷ 0 ∷ 2 ∷ 1 ∷ [])
        ++ (8 ∷ 0 ∷ 0x45 ∷ 0 ∷ 0 ∷ 21 ∷ 0 ∷ 0 ∷ 0 ∷ 0 ∷ 63 ∷ 1 ∷ 0x1f ∷ 0x1c ∷ 172 ∷ 30 ∷ 1 ∷ 200
            ∷ 172 ∷ 30 ∷ 2 ∷ 200 ∷ 7 ∷ []))

cross_forwarded : (decide 1 cross network).1 ≡ forward 2 crossed
unfolding network decide accept_source_mac parse_ethernet parse_ipv4 internet_checksum
    talosbox_subnet is_owned_talosbox_ip Bytes-discrete Ip-discrete ℕ_discrete is_unicast_mac
cross_forwarded = refl

decide-Forwards_example :
    (eth : Ethernet) × (pkt : Ipv4) × Forwards 1 cross eth pkt (decide 1 cross network).0 2 crossed
decide-Forwards_example = decide-Forwards 1 cross 2 crossed network cross_forwarded

network-Inv : Inv network
unfolding network
network-Inv = run-Inv no_ip6 opening

run-Inv_example : Inv (run no_ip6 opening new_frame_router)
run-Inv_example = run-Inv no_ip6 opening

-- A DHCPREQUEST of port 1 for 172.30.1.7 with the server 172.30.1.1.
abbrev dhcp_body : Bytes
dhcp_body =
    (1 ∷ 1 ∷ 6 ∷ 0 ∷ [])
    ++ (replicate 24 0
        ++ (mac_1
            ++ (replicate 202 0
                ++ (0x63 ∷ 0x82 ∷ 0x53 ∷ 0x63 ∷ 53 ∷ 1 ∷ 3 ∷ 0 ∷ 50 ∷ 4 ∷ 172 ∷ 30 ∷ 1 ∷ 7 ∷ 54 ∷ 4
                    ∷ 172 ∷ 30 ∷ 1 ∷ 1 ∷ 255 ∷ []))))

dhcp_options_total_example :
    (o : Option DhcpRequest) × (dhcp_options 240 (53 ∷ 1 ∷ 3 ∷ 0 ∷ 255 ∷ []) no_options ≡ some o)
    × (dhcp_options 5 (53 ∷ 1 ∷ 3 ∷ 0 ∷ 255 ∷ []) no_options ≡ some o)
dhcp_options_total_example =
    dhcp_options_total 240 5 (53 ∷ 1 ∷ 3 ∷ 0 ∷ 255 ∷ []) no_options (omega arith) (omega arith)

-- Port 1 with its node address, as it is after the DHCPREQUEST.
abbrev leased : Router
leased = learn_node_ip 1 (ip 172 30 1 7) network

leased-Inv : Inv leased
unfolding network
leased-Inv = learn_node_ip-Inv 1 (ip 172 30 1 7) network (unfold network in refl) network-Inv

leased_owner : leased.ip_to_port (ip 172 30 1 7) ≡ some 1
unfolding network learn_node_ip is_node_ip Ip-discrete ℕ_discrete
leased_owner = refl

abbrev elsewhere : List Event
elsewhere =
    attach 3
    ∷ frame 2 cross
    ∷ detach 2
    ∷ announce (codes "172.30.1.201/32") (codes "172.30.1.7")
    ∷ []

run_node_kept_example : (run no_ip6 elsewhere leased).ip_to_port (ip 172 30 1 7) ≡ some 1
run_node_kept_example =
    run_node_kept no_ip6 elsewhere leased (ip 172 30 1 7) 1 1 leased-Inv leased_owner
      (unfold is_node_ip in refl) (tt, (omega arith, (omega arith, (tt, tt))))

-- A third port, which is then detached.
abbrev third : Router
third = (add_port 3 network).0

third_attached : third.ports 3 ≡ true
unfolding network add_port ℕ_discrete
third_attached = refl

-- A frame to the third port, decided before it was detached.
detached_silent_example :
    ((decide 1 cross (run no_ip6 (attach 4 ∷ []) (remove_port 3 third))).1 ≢ forward 3 crossed)
    × ((deliver
          (λ t f. false)
          (run no_ip6 (attach 4 ∷ []) (remove_port 3 third))
          (forward 3 crossed)).sent
        ≡ none)
    × ((route (λ t f. false) 3 cross (run no_ip6 (attach 4 ∷ []) (remove_port 3 third))).1.sent
        ≡ none)
detached_silent_example =
    detached_silent no_ip6 (attach 4 ∷ []) third 3 1 cross crossed (λ t f. false)
      (add_port-Inv 3 network network-Inv) third_attached

abbrev parsed : Ipv4
parsed = record {
  header_len = 20;
  ttl = 64;
  protocol = 1;
  fragmented = false;
  src = ip 172 30 1 200;
  dst = ip 172 30 2 200;
  l4_payload = 7 ∷ [];
}

packet_parses : parse_ipv4 packet ≡ some parsed
unfolding parse_ipv4 internet_checksum
packet_parses = refl

parse_ipv4-rewrite_packet_example :
    (parse_ipv4 (rewrite_packet packet 20 64) ≡ some (record parsed { ttl = 64 - 1 }))
    × (length (rewrite_packet packet 20 64) ≡ 21)
    × Untouched packet (rewrite_packet packet 20 64)
parse_ipv4-rewrite_packet_example =
    parse_ipv4-rewrite_packet packet parsed (omega arith) packet_parses

checksum-put16_example :
    internet_checksum (
      take 10 packet
      ++ (put16 (internet_checksum (take 10 packet ++ (0 ∷ (0 ∷ slice packet 12 20))))
          ++ slice packet 12 20))
    ≡ 0
checksum-put16_example =
    checksum-put16 (take 10 packet) (slice packet 12 20) 5 (omega arith) (omega arith) (omega arith)
      (omega arith)
