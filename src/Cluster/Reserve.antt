-- ===== src/Cluster/Reserve.antt =====
-- Address reservations of internal/cluster/reservation.go. A Go set of strings is a list of them.
-- `parse_ip6` is the IPv6 reader behind `net.ParseIP`, a parameter.
pub mod Lowest
pub mod Assigned
use talos_box.Base.{
  ℕ, zero, suc, ◌+◌, Bool, true, false, not, ◌&&◌, ◌||◌, Option, none, some, List, [], ◌∷◌, Bytes,
  leb, ◌==◌, if◌then◌else◌,
}
use talos_box.Text.{contains, itoa}
use talos_box.Net.{Ip, parse_ip4, format_ip}
use talos_box.Cluster.Node.{Node, reservation_ip, max_subnet_index, first_node_host, last_node_host}

-- `validReservationIP`
unfoldable pub valid_reservation_ip : Ip → ℕ → Bool
valid_reservation_ip x subnet =
    leb subnet max_subnet_index
    && (x.a == 172
        && (x.b == 30 && (x.c == subnet && (leb first_node_host x.d && leb x.d last_node_host))))

-- The loop of `lowestFreeReservation`, with the rounds that are left and the host.
unfoldable pub lowest_from : ℕ → List Bytes → ℕ → ℕ → Option Bytes
lowest_from subnet used zero host = none
lowest_from subnet used (suc rounds) host =
    let rest = lowest_from subnet used rounds (host + 1) in
    let candidate = reservation_ip subnet host in
    if contains used candidate then rest else some candidate

-- `lowestFreeReservation`: hosts 2 to 179.
unfoldable pub lowest_free_reservation : ℕ → List Bytes → Option Bytes
unfolding lowest_from
lowest_free_reservation subnet used = lowest_from subnet used 178 first_node_host

abbrev valid_in : ℕ → Option Ip → Option Ip
valid_in subnet none = none
valid_in subnet (some x) = if valid_reservation_ip x subnet then some x else none

abbrev pub is_nil : Bytes → Bool
is_nil [] = true
is_nil (c ∷ s) = false

-- The first loop of `ensureNodeReservations`: the canonical addresses in use, or an error.
unfoldable pub used_reservations :
    (Bytes → Option Ip) → ℕ → List Node → List Bytes → Option (List Bytes)
used_reservations parse_ip6 subnet [] used = some used
used_reservations parse_ip6 subnet (n ∷ ns) used = elim (is_nil n.ip) [
  | true ↦ used_reservations parse_ip6 subnet ns used
  | false ↦ elim (valid_in subnet (parse_ip4 parse_ip6 n.ip)) [
    | none ↦ none
    | some x ↦ elim (contains used (format_ip x)) [
      | true ↦ none
      | false ↦ used_reservations parse_ip6 subnet ns (format_ip x ∷ used)
    ]
  ]
]

abbrev mark_migrated : Option Bool → Option Bool
mark_migrated none = none
mark_migrated (some migrated) = some true

-- The second loop: every node without an address takes the lowest free one. The nodes are changed
-- in place, so those that were given one before an error keep it.
unfoldable pub fill_reservations : ℕ → List Node → List Bytes → List Node × Option Bool
unfolding lowest_free_reservation
fill_reservations subnet [] used = ([], some false)
fill_reservations subnet (n ∷ ns) used = elim (is_nil n.ip) [
  | true ↦ elim (lowest_free_reservation subnet used) [
    | none ↦ (n ∷ ns, none)
    | some address ↦
        let (rest, migrated) = fill_reservations subnet ns (address ∷ used) in
        (record n { ip = address } ∷ rest, mark_migrated migrated)
  ]
  | false ↦ let (rest, migrated) = fill_reservations subnet ns used in (n ∷ rest, migrated)
]

-- `ensureNodeReservations`: the nodes behind the slice, and whether any was given an address.
unfoldable pub ensure_node_reservations :
    (Bytes → Option Ip) → ℕ → List Node → List Node × Option Bool
unfolding used_reservations fill_reservations
ensure_node_reservations parse_ip6 subnet ns = elim (used_reservations parse_ip6 subnet ns []) [
  | none ↦ (ns, none)
  | some used ↦ fill_reservations subnet ns used
]

abbrev pub addresses : List Node → List Bytes
addresses [] = []
addresses (n ∷ ns) = n.ip ∷ addresses ns

-- The lowest address that no node has, once every node has one.
abbrev pub next_after : ℕ → List Node × Option Bool → List Node × Option Bytes
next_after subnet (ns, none) = (ns, none)
next_after subnet (ns, some migrated) = (ns, lowest_free_reservation subnet (addresses ns))

-- `nextReservationIP`. Its cluster is a copy, and the copy's nodes are the caller's: the addresses
-- that `ensureNodeReservations` gives out are seen by the caller.
unfoldable pub next_reservation_ip : (Bytes → Option Ip) → ℕ → List Node → List Node × Option Bytes
unfolding ensure_node_reservations
next_reservation_ip parse_ip6 subnet ns =
    next_after subnet (ensure_node_reservations parse_ip6 subnet ns)
