-- ===== src/Router/Routed.antt =====
-- The routes of BGP-announced virtual addresses, internal/helper/router.go, and the FIB mirror
-- around them, internal/helper/fib_routed_vip.go.
use mathlib.Core.Logic.{ite}
use talos_box.Base.{
  ℕ, Bool, true, false, Option, none, some, [], ◌∷◌, Bytes, codes, ◌==◌, if◌then◌else◌, update, ◌≡◌,
  refl, ℕ_discrete,
}
use talos_box.Text.{Bytes-discrete}
use talos_box.Net.{Ip, ip, Ip-discrete, parse_ip4}
use talos_box.Router.Addr.{talosbox_subnet, is_node_ip, is_vip}
use talos_box.Router.State.{Router}

-- `strings.Cut(s, "/")`
unfoldable pub cut_slash : Bytes → Option (Bytes × Bytes)
cut_slash [] = none
cut_slash (c ∷ s) =
    let rest = cut_slash s in
    if c == b'/'
    then some ([], s)
    else elim rest [ none ↦ none | some (before, after) ↦ some (c ∷ before, after) ]

-- A prefix of length 32.
abbrev host_prefix : Option (Bytes × Bytes) → Option Bytes
host_prefix none = none
host_prefix (some (address, suffix)) =
    ite (Bytes-discrete suffix (b'3' ∷ (b'2' ∷ []))) (some address) none

-- The address, if it is a virtual address of its own subnet, with the subnet.
abbrev vip_of : Option Ip → Option (Ip × ℕ)
vip_of none = none
vip_of (some x) = elim (talosbox_subnet (some x)) [
  | none ↦ none
  | some subnet ↦ if is_vip (some x) subnet then some (x, subnet) else none
]

-- The first half of `routedVIPPair`, all that a withdrawal needs.
unfoldable pub routed_vip : (Bytes → Option Ip) → Bytes → Option (Ip × ℕ)
unfolding cut_slash
routed_vip parse_ip6 pre = elim (host_prefix (cut_slash pre)) [
  | none ↦ none
  | some address ↦ vip_of (parse_ip4 parse_ip6 address)
]

abbrev node_of : Option Ip → ℕ → Option Ip
node_of none subnet = none
node_of (some y) subnet = if is_node_ip (some y) subnet then some y else none

-- `routedVIPPair`: the virtual address and the node, of one subnet. An empty next hop is a
-- withdrawal and gives the zero `routerIP`.
unfoldable pub routed_vip_pair : (Bytes → Option Ip) → Bytes → Bytes → Option (Ip × Ip)
unfolding routed_vip
routed_vip_pair parse_ip6 pre nexthop = elim (routed_vip parse_ip6 pre) [
  | none ↦ none
  | some (x, subnet) ↦ elim nexthop [
    | [] ↦ some (x, ip 0 0 0 0)
    | ◌∷◌ c s ↦ elim (node_of (parse_ip4 parse_ip6 (c ∷ s)) subnet) [
      | none ↦ none
      | some y ↦ some (x, y)
    ]
  ]
]

-- `learnRoutedVIP`
unfoldable pub learn_routed_vip : (Bytes → Option Ip) → Bytes → Bytes → Router → Router
unfolding routed_vip_pair
learn_routed_vip parse_ip6 pre nexthop r = elim (routed_vip_pair parse_ip6 pre nexthop) [
  | none ↦ r
  | some (x, hop) ↦ record r { routed_vips = update Ip-discrete r.routed_vips x (some hop) }
]

-- `forgetRoutedVIP`
unfoldable pub forget_routed_vip : (Bytes → Option Ip) → Bytes → Router → Router
unfolding routed_vip_pair
forget_routed_vip parse_ip6 pre r = elim (routed_vip_pair parse_ip6 pre []) [
  | none ↦ r
  | some (x, hop) ↦ record r { routed_vips = update Ip-discrete r.routed_vips x none }
]

-- `routedVIPFIB.AddHostRoute`: the kernel's answer, true for an error, comes first, and the virtual
-- address is bound only if there was none.
unfoldable pub add_host_route :
    (Bytes → Option Ip) → (Bytes → Bytes → Bool) → Bytes → Bytes → Router → Router × Bool
unfolding learn_routed_vip
add_host_route parse_ip6 fib_add pre nexthop r =
    if fib_add pre nexthop then (r, true) else (learn_routed_vip parse_ip6 pre nexthop r, false)

-- `routedVIPFIB.DeleteHostRoute`: unbound first, whatever the kernel answers.
unfoldable pub delete_host_route :
    (Bytes → Option Ip) → (Bytes → Bool) → Bytes → Router → Router × Bool
unfolding forget_routed_vip
delete_host_route parse_ip6 fib_delete pre r = (forget_routed_vip parse_ip6 pre r, fib_delete pre)

routed_test :
    routed_vip_pair (λ _. none) (codes "172.30.3.200/32") (codes "172.30.3.7")
    ≡ some (ip 172 30 3 200, ip 172 30 3 7)
unfolding routed_vip_pair parse_ip4 talosbox_subnet is_vip is_node_ip Bytes-discrete ℕ_discrete
routed_test = refl
