-- ===== src/Router/Frame.antt =====
-- The parsers of frames and packets, internal/helper/router.go. A tuple whose last component is
-- `ok` is an `Option`. A byte read is behind a length test, as in the source.
pub mod Options
use talos_box.Base.{
  ℕ, zero, suc, ◌+◌, ◌-◌, ◌*◌, ◌/◌, ◌%◌, Bool, true, false, not, ◌&&◌, ◌||◌, Option, none, some,
  List, [], ◌∷◌, Bytes, length, drop, take, slice, byte_at, uint16_at, ltb, leb, ◌==◌,
  if◌then◌else◌,
}
use talos_box.Net.{Ip, ip}
use talos_box.Router.Checksum.{internet_checksum}

pub record Ethernet : Type 0 where
  pub dst : Bytes
  pub src : Bytes
  pub ether_type : ℕ
  pub payload : Bytes

-- `parseRouterEthernetFrame`
unfoldable pub parse_ethernet : Bytes → Option Ethernet
parse_ethernet frame =
    if ltb (length frame) 14
    then none
    else some (record {
      dst = slice frame 0 6;
      src = slice frame 6 12;
      ether_type = uint16_at frame 12;
      payload = drop 14 frame;
    })

-- The four bytes at an index, as an address.
abbrev pub ip_at : Bytes → ℕ → Ip
ip_at s i = ip (byte_at s i) (byte_at s (i + 1)) (byte_at s (i + 2)) (byte_at s (i + 3))

pub record Ipv4 : Type 0 where
  pub header_len : ℕ
  pub ttl : ℕ
  pub protocol : ℕ
  pub fragmented : Bool
  pub src : Ip
  pub dst : Ip
  pub l4_payload : Bytes

-- `flagsOffset&0x2000 != 0 || flagsOffset&0x1fff != 0`
abbrev pub is_fragment : ℕ → Bool
is_fragment flags = flags / 8192 % 2 == 1 || not (flags % 8192 == 0)

-- `parseRouterIPv4Packet`
unfoldable pub parse_ipv4 : Bytes → Option Ipv4
parse_ipv4 p =
    let header_len = byte_at p 0 % 16 * 4 in
    let total_len = uint16_at p 2 in
    if ltb (length p) 20 || not (byte_at p 0 / 16 == 4)
    then none
    else if ltb header_len 20 || ltb (length p) header_len
    then none
    else if ltb total_len header_len || ltb (length p) total_len
    then none
    else if not (internet_checksum (take header_len p) == 0)
    then none
    else some (record {
      header_len = header_len;
      ttl = byte_at p 8;
      protocol = byte_at p 9;
      fragmented = is_fragment (uint16_at p 6);
      src = ip_at p 12;
      dst = ip_at p 16;
      l4_payload = slice p header_len total_len;
    })

pub record Arp : Type 0 where
  pub op : ℕ
  pub sender_mac : Bytes
  pub sender_ip : Ip
  pub target_ip : Ip

-- `parseRouterARP`
unfoldable pub parse_arp : Bytes → Option Arp
parse_arp p =
    if ltb (length p) 28
    then none
    else if not (uint16_at p 0 == 1)
        || not (uint16_at p 2 == 0x0800)
        || not (byte_at p 4 == 6)
        || not (byte_at p 5 == 4)
    then none
    else some (record {
      op = uint16_at p 6;
      sender_mac = slice p 8 14;
      sender_ip = ip_at p 14;
      target_ip = ip_at p 24;
    })

pub record Udp : Type 0 where
  pub src_port : ℕ
  pub dst_port : ℕ
  pub body : Bytes

-- `parseRouterUDP`
unfoldable pub parse_udp : Bytes → Option Udp
parse_udp p =
    let len = uint16_at p 4 in
    if ltb (length p) 8
    then none
    else if ltb len 8 || ltb (length p) len
    then none
    else some (record { src_port = uint16_at p 0; dst_port = uint16_at p 2; body = slice p 8 len })

pub record DhcpRequest : Type 0 where
  pub requested_ip : Option Ip
  pub server_ip : Option Ip
  pub message_type : ℕ

abbrev pub no_options : DhcpRequest
no_options = record { requested_ip = none; server_ip = none; message_type = 0 }

-- One option's value, put in its field if it has the field's length.
unfoldable pub dhcp_option : ℕ → Bytes → DhcpRequest → DhcpRequest
dhcp_option option value r =
    if option == 53
    then (if length value == 1 then record r { message_type = byte_at value 0 } else r)
    else if option == 50
    then (if length value == 4 then record r { requested_ip = some (ip_at value 0) } else r)
    else if option == 54
    then (if length value == 4 then record r { server_ip = some (ip_at value 0) } else r)
    else r

-- `requestedIP != nil`, the `ok` of the whole parse.
abbrev pub with_request : DhcpRequest → Option DhcpRequest
with_request r = elim r.requested_ip [ none ↦ none | some x ↦ some r ]

-- The loop over the options: the list is the payload from `i` on. Without a byte left, or at the
-- end option, it returns; none stands for fuel that ran out, and some none for `ok` false.
unfoldable pub dhcp_options : ℕ → Bytes → DhcpRequest → Option (Option DhcpRequest)
unfolding dhcp_option
dhcp_options fuel [] r = some (with_request r)
dhcp_options zero (option ∷ s) r = none
dhcp_options (suc fuel) (option ∷ s) r =
    let pad = dhcp_options fuel s r in
    let len = byte_at s 0 in
    let rest = drop 1 s in
    let next = dhcp_options fuel (drop len rest) (dhcp_option option (take len rest) r) in
    if option == 0
    then pad
    else if option == 255
    then some (with_request r)
    else if length s == 0
    then some none
    else if ltb (length rest) len
    then some none
    else next

-- `parseRouterDHCPRequest`, the client's MAC beside the options.
unfoldable pub parse_dhcp_request : Bytes → Option (DhcpRequest × Bytes)
unfolding dhcp_options
parse_dhcp_request p =
    if ltb (length p) 240
      || not (byte_at p 0 == 1)
      || not (byte_at p 1 == 1)
      || not (byte_at p 2 == 6)
    then none
    else if not (uint16_at p 236 == 0x6382) || not (uint16_at p 238 == 0x5363)
    then none
    else elim (dhcp_options (length p) (drop 240 p) no_options) [
      | none ↦ none
      | some none ↦ none
      | some (some r) ↦ some (r, slice p 28 34)
    ]
