-- ===== src/Router/Addr.antt =====
-- The address classes of a cluster subnet 172.30.n.0/24, internal/helper/router.go. A `net.IP`
-- that may be nil is an `Option Ip`.
use talos_box.Base.{
  ℕ, Bool, true, false, ◌&&◌, ◌||◌, Option, none, some, Bytes, leb, ◌==◌, ◌%◌, byte_at,
}
use talos_box.Net.{Ip}

-- `talosboxSubnet`
unfoldable pub talosbox_subnet : Option Ip → Option ℕ
talosbox_subnet none = none
talosbox_subnet (some x) = elim (x.a == 172 && x.b == 30) [ true ↦ some x.c | false ↦ none ]

-- `belongsToSubnet`
unfoldable pub belongs_to_subnet : Option Ip → ℕ → Bool
belongs_to_subnet none subnet = false
belongs_to_subnet (some x) subnet = x.a == 172 && x.b == 30 && x.c == subnet

-- The last byte of an address lies in a range.
abbrev last_in : ℕ → ℕ → Option Ip → Bool
last_in lo hi none = false
last_in lo hi (some x) = leb lo x.d && leb x.d hi

-- `isNodeIP`
unfoldable pub is_node_ip : Option Ip → ℕ → Bool
unfolding belongs_to_subnet
is_node_ip x subnet = belongs_to_subnet x subnet && last_in 2 179 x

-- `isVIP`
unfoldable pub is_vip : Option Ip → ℕ → Bool
unfolding belongs_to_subnet
is_vip x subnet = belongs_to_subnet x subnet && last_in 200 239 x

-- `isOwnedTalosboxIP`
unfoldable pub is_owned_talosbox_ip : Option Ip → ℕ → Bool
unfolding is_node_ip is_vip
is_owned_talosbox_ip x subnet = is_node_ip x subnet || is_vip x subnet

-- `isUnicastMAC`: bit 0 of the first byte is clear. A `routerMAC` is a list of six bytes.
unfoldable pub is_unicast_mac : Bytes → Bool
is_unicast_mac mac = byte_at mac 0 % 2 == 0

-- `routerDHCPServerIDMatchesSubnet`
unfoldable pub server_id_matches_subnet : Option Ip → ℕ → Bool
server_id_matches_subnet none subnet = false
server_id_matches_subnet (some x) subnet = x.a == 172 && x.b == 30 && x.c == subnet && x.d == 1
