-- ===== src/Cluster/Subnet.antt =====
-- The choice and the inspection of a cluster's subnet, of internal/cluster/subnet.go. An address is
-- its number of 32 bits and a network has a prefix length, so masks are contiguous. The interfaces
-- and the routes of the host are parameters; an error is an outcome without its text.
pub mod Apart
pub mod Usable
mod Tests
use talos_box.Base.{
  ℕ, zero, suc, ◌+◌, ◌-◌, ◌*◌, ◌/◌, ◌^◌, Bool, true, false, not, ◌&&◌, ◌||◌, Option, none, some,
  List, [], ◌∷◌, ◌++◌, Bytes, codes, leb, ltb, ◌==◌, if◌then◌else◌,
}
use talos_box.Text.{ℤ, pos, negsuc, atoi, itoa, same, contains, cut_prefix}
use talos_box.Cluster.Node.{Cluster, max_subnet_index}
use talos_box.Cluster.Create.{allocated_subnet_indexes}

pub record Network : Type 0 where
  pub base : ℕ
  pub prefix : ℕ

pub record HostAddress : Type 0 where
  pub address : ℕ
  pub prefix : ℕ

pub record HostInterface : Type 0 where
  pub name : Bytes
  pub addrs : List HostAddress

pub record HostRoute : Type 0 where
  pub interface : Bytes
  pub network : Option Network
  pub metric : ℕ
  pub looks_like_tunnel : Bool

-- The host, where reading it may fail.
pub record SubnetSources : Type 0 where
  pub interfaces : Option (List HostInterface)
  pub route : ℕ → Option HostRoute

pub data Inspection : Type 0 where
  unreadable clear warned conflicting : Inspection

-- `ipv4Network`: the network of an address is the address under its mask.
abbrev pub host_network : HostAddress → Network
host_network a = record {
  base = a.address / 2 ^ (32 - a.prefix) * 2 ^ (32 - a.prefix);
  prefix = a.prefix;
}

abbrev pub in_network : Network → ℕ → Bool
in_network n a = a / 2 ^ (32 - n.prefix) == n.base / 2 ^ (32 - n.prefix)

-- `networksOverlap`
unfoldable pub networks_overlap : Network → Network → Bool
networks_overlap left right = in_network left right.base || in_network right left.base

-- The address with a last byte in the subnet of an index, and the subnet.
abbrev pub subnet_address : ℕ → ℕ → ℕ
subnet_address index host = 172 * 2 ^ 24 + 30 * 2 ^ 16 + index * 2 ^ 8 + host

abbrev pub subnet_network : ℕ → Network
subnet_network index = record { base = subnet_address index 0; prefix = 24 }

-- `LinuxBridgeName`
abbrev pub linux_bridge_name : ℕ → Bytes
linux_bridge_name index = codes "br-tbx" ++ itoa index

abbrev pub bridge_number : Option Bytes → Option ℤ
bridge_number none = none
bridge_number (some rest) = atoi rest

abbrev pub is_number : Option ℤ → ℕ → Bool
is_number (some (pos n)) k = n == k
is_number _ k = false

-- `isTalosBoxBridgeName`
unfoldable pub is_talos_box_bridge_name : Bytes → ℕ → Bool
unfolding itoa atoi cut_prefix same
is_talos_box_bridge_name name index =
    same name (linux_bridge_name index)
    || is_number (bridge_number (cut_prefix (codes "bridge") name)) (100 + index)

-- `isOwnBridgeAddress`
abbrev pub is_own_bridge_address : HostAddress → ℕ → Bool
is_own_bridge_address a index = a.prefix == 24 && a.address == subnet_address index 1

-- `isTalosBoxBridge`
abbrev pub is_talos_box_bridge : Bytes → HostAddress → ℕ → Bool
is_talos_box_bridge name a index =
    is_own_bridge_address a index && is_talos_box_bridge_name name index

unfoldable pub all_digits : Bytes → Bool
all_digits [] = true
all_digits (c ∷ s) = (leb b'0' c && leb c b'9') && all_digits s

abbrev pub at_least : ℕ → Option ℤ → Bool
at_least n (some (pos k)) = leb n k
at_least n _ = false

abbrev pub vmnet_digits : Option Bytes → Bool
vmnet_digits none = false
vmnet_digits (some []) = false
vmnet_digits (some (c ∷ s)) = all_digits (c ∷ s) && at_least 100 (atoi (c ∷ s))

-- `isVMNetBridgeName`
unfoldable pub is_vmnet_bridge_name : Bytes → Bool
unfolding all_digits atoi cut_prefix
is_vmnet_bridge_name name = vmnet_digits (cut_prefix (codes "bridge") name)

-- `isHostBridgeName`
unfoldable pub is_host_bridge_name : Bytes → ℕ → Bool
unfolding itoa same is_vmnet_bridge_name
is_host_bridge_name name index = same name (linux_bridge_name index) || is_vmnet_bridge_name name

-- The addresses of one interface: none on a conflict, else the bridges that are the cluster's own.
unfoldable pub scan_addresses :
    ℕ → Bool → Bool → Bytes → List HostAddress → List Bytes → Option (List Bytes)
unfolding networks_overlap is_talos_box_bridge_name is_host_bridge_name
scan_addresses index allow attached name [] own = some own
scan_addresses index allow attached name (a ∷ addrs) own =
    if not (networks_overlap (subnet_network index) (host_network a))
    then scan_addresses index allow attached name addrs own
    else if allow && is_talos_box_bridge name a index
    then scan_addresses index allow attached name addrs own
    else if attached && (is_own_bridge_address a index && is_host_bridge_name name index)
    then scan_addresses index allow attached name addrs (name ∷ own)
    else none

unfoldable pub scan_interfaces :
    ℕ → Bool → Bool → List HostInterface → List Bytes → Option (List Bytes)
unfolding scan_addresses
scan_interfaces index allow attached [] own = some own
scan_interfaces index allow attached (i ∷ is) own =
    elim (scan_addresses index allow attached i.name i.addrs own) [
      | none ↦ none
      | some more ↦ scan_interfaces index allow attached is more
    ]

abbrev pub no_name : Bytes → Bool
no_name [] = true
no_name (c ∷ s) = false

-- What the route to the first node says.
abbrev pub inspect_network : ℕ → Bool → Bool → List Bytes → HostRoute → Network → Inspection
inspect_network index allow attached own r n =
    if no_name r.interface
    then Inspection.unreadable
    else if not (networks_overlap (subnet_network index) n)
    then Inspection.clear
    else if allow && is_talos_box_bridge_name r.interface index
    then Inspection.clear
    else if attached && contains own r.interface
    then Inspection.clear
    else if n.prefix == 0
    then (if r.looks_like_tunnel then Inspection.warned else Inspection.clear)
    else if leb 24 n.prefix
    then Inspection.conflicting
    else Inspection.warned

abbrev pub inspect_route : ℕ → Bool → Bool → List Bytes → Option HostRoute → Inspection
inspect_route index allow attached own none = Inspection.unreadable
inspect_route index allow attached own (some r) = elim r.network [
  | none ↦ if no_name r.interface then Inspection.clear else Inspection.unreadable
  | some n ↦ inspect_network index allow attached own r n
]

-- `inspectSubnet`
unfoldable pub inspect_subnet :
    ℕ → List HostInterface → (ℕ → Option HostRoute) → Bool → Bool → Inspection
unfolding scan_interfaces networks_overlap is_talos_box_bridge_name contains
inspect_subnet index interfaces route allow attached =
    elim (scan_interfaces index allow attached interfaces []) [
      | none ↦ Inspection.conflicting
      | some own ↦ inspect_route index allow attached own (route (subnet_address index 2))
    ]

-- The loop over the indexes: no index, or one and whether there is a warning.
unfoldable pub lowest_usable_from :
    List HostInterface → (ℕ → Option HostRoute) → List Bool → ℕ → Option (ℕ × Bool)
unfolding inspect_subnet
lowest_usable_from interfaces route [] index = none
lowest_usable_from interfaces route (true ∷ used) index =
    lowest_usable_from interfaces route used (suc index)
lowest_usable_from interfaces route (false ∷ used) index =
    elim (inspect_subnet index interfaces route false false) [
      | Inspection.unreadable ↦ none
      | Inspection.clear ↦ some (index, false)
      | Inspection.warned ↦ some (index, true)
      | Inspection.conflicting ↦ lowest_usable_from interfaces route used (suc index)
    ]

-- `LowestUsableSubnetIndex`; where all indexes are allocated there is none in either loop.
unfoldable pub lowest_usable_subnet_index : List Cluster → SubnetSources → Option (ℕ × Bool)
unfolding lowest_usable_from allocated_subnet_indexes
lowest_usable_subnet_index clusters sources = elim sources.interfaces [
  | none ↦ none
  | some interfaces ↦
      lowest_usable_from interfaces sources.route (allocated_subnet_indexes clusters) 0
]

abbrev pub inspect_index : ℕ → SubnetSources → Bool → Inspection
inspect_index index sources attached = elim sources.interfaces [
  | none ↦ Inspection.unreadable
  | some interfaces ↦ inspect_subnet index interfaces sources.route true attached
]

abbrev pub no_conflict : Inspection → Option Bool
no_conflict Inspection.unreadable = none
no_conflict Inspection.clear = some false
no_conflict Inspection.warned = some true
no_conflict Inspection.conflicting = none

abbrev pub any_warning : Inspection → Option Bool
any_warning Inspection.unreadable = none
any_warning Inspection.clear = some false
any_warning Inspection.warned = some true
any_warning Inspection.conflicting = some true

-- `CheckSubnetIndex`: an error, or whether there is a warning.
unfoldable pub check_subnet_index : ℕ → SubnetSources → Option Bool
unfolding inspect_subnet
check_subnet_index index sources =
    if leb index max_subnet_index then no_conflict (inspect_index index sources false) else none

-- `AttachedSubnetWarning`, which turns a conflict into a warning.
unfoldable pub attached_subnet_warning : ℕ → SubnetSources → Option Bool
unfolding inspect_subnet
attached_subnet_warning index sources =
    if leb index max_subnet_index then any_warning (inspect_index index sources true) else none

abbrev pub no_route : HostRoute
no_route = record { interface = []; network = none; metric = 0; looks_like_tunnel = false }

-- The selected route so far, and one more than its prefix length, or 0 for no route.
abbrev pub better : HostRoute → HostRoute → ℕ → ℕ → HostRoute × ℕ
better route selected prefix best =
    if ltb (prefix + 1) best
    then (selected, best)
    else if ltb best (prefix + 1) || ltb route.metric selected.metric
    then (route, prefix + 1)
    else if route.metric == selected.metric
    then (
      record selected { looks_like_tunnel = selected.looks_like_tunnel || route.looks_like_tunnel },
      best,
    )
    else (selected, best)

abbrev pub consider_route : ℕ → (Bytes → Bool) → HostRoute → HostRoute × ℕ → HostRoute × ℕ
consider_route destination ignored route s = elim route.network [
  | none ↦ s
  | some n ↦
      if ignored route.interface || not (in_network n destination)
      then s
      else better route (s.0) n.prefix (s.1)
]

unfoldable pub select_from : ℕ → (Bytes → Bool) → List HostRoute → HostRoute × ℕ → HostRoute × ℕ
select_from destination ignored [] s = s
select_from destination ignored (r ∷ rs) s =
    select_from destination ignored rs (consider_route destination ignored r s)

-- `selectMostSpecificRoute`
unfoldable pub select_most_specific_route : ℕ → List HostRoute → (Bytes → Bool) → HostRoute
unfolding select_from
select_most_specific_route destination routes ignored =
    (select_from destination ignored routes (no_route, 0)).0
