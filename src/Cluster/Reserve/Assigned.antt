-- ===== src/Cluster/Reserve/Assigned.antt =====
-- `ensureNodeReservations` on nodes that all have a reservation.
use talos_box.Base.{
  ℕ, ◌≤◌, true, false, Option, some, List, [], ◌∷◌, ◌≡◌, ◌≢◌, refl, sym, ◌∙◌, ap, subst, arith,
  Bytes, All,
}
use talos_box.Text.{contains, itoa}
use talos_box.Text.Sets.{same-ne, Distinct}
use talos_box.Net.{Ip, ip, format_ip, parse_ip4}
use talos_box.Net.RoundTrip.{parse_ip4-format_ip}
use talos_box.Cluster.Node.{Node, reservation_ip, first_node_host, last_node_host, max_subnet_index}
use talos_box.Cluster.Reserve.{
  valid_reservation_ip, is_nil, used_reservations, fill_reservations, ensure_node_reservations,
  addresses,
}

-- The address is the reservation of a host from 2 to 179.
abbrev pub IsReservation : ℕ → Bytes → Type 0
IsReservation subnet a =
    (h : ℕ) × ((first_node_host ≤ h) × (h ≤ last_node_host)) × (a ≡ reservation_ip subnet h)

is_nil-reservation_ip : (subnet h : ℕ) → is_nil (reservation_ip subnet h) ≡ false
unfolding reservation_ip format_ip itoa
is_nil-reservation_ip subnet h = refl

valid-reservation_ip :
    (subnet h : ℕ)
    → subnet ≤ max_subnet_index
    → first_node_host ≤ h
    → h ≤ last_node_host
    → valid_reservation_ip (ip 172 30 subnet h) subnet ≡ true
unfolding valid_reservation_ip
valid-reservation_ip subnet h p q r = ground arith

read-reservation :
    (parse_ip6 : Bytes → Option Ip) (subnet h : ℕ)
    → subnet ≤ max_subnet_index
    → h ≤ last_node_host
    → parse_ip4 parse_ip6 (reservation_ip subnet h) ≡ some (ip 172 30 subnet h)
unfolding reservation_ip
read-reservation parse_ip6 subnet h p q =
    parse_ip4-format_ip parse_ip6 (ip 172 30 subnet h)
      record { a = omega arith; b = omega arith; c = omega arith; d = omega arith }

-- What is free stays free when a string is added that does not occur among it.
extend :
    (ss used : List Bytes) (a : Bytes)
    → All (λ s. s ≢ a) ss
    → All (λ s. contains used s ≡ false) ss
    → All (λ s. contains (a ∷ used) s ≡ false) ss
unfolding contains
extend [] used a ne free = tt
extend (s ∷ ss) used a ne free =
    (rw (same-ne a s (λ e. ne.0 (sym e))) free.0, extend ss used a ne.1 free.1)

none-used : (ss : List Bytes) → All (λ s. contains [] s ≡ false) ss
unfolding contains
none-used [] = tt
none-used (s ∷ ss) = (refl, none-used ss)

read-print :
    (subnet h : ℕ) (a : Bytes) → a ≡ reservation_ip subnet h → format_ip (ip 172 30 subnet h) ≡ a
unfolding reservation_ip
read-print subnet h a e = sym e

module _ (parse_ip6 : Bytes → Option Ip) (subnet : ℕ) (small : subnet ≤ max_subnet_index) where
  -- One round of the first loop, on a node that has a reservation which is not yet in use.
  used-step :
      (n : Node) (ns : List Node) (used : List Bytes)
      → IsReservation subnet n.ip
      → contains used n.ip ≡ false
      → used_reservations parse_ip6 subnet (n ∷ ns) used
        ≡ used_reservations parse_ip6 subnet ns (n.ip ∷ used)
  unfolding used_reservations
  used-step n ns used (h, (p, q), e) free =
      let printed = read-print subnet h n.ip e in
      let nil = subst (λ a. is_nil a ≡ false) (sym e) (is_nil-reservation_ip subnet h) in
      let read = ap (parse_ip4 parse_ip6) e ∙ read-reservation parse_ip6 subnet h small q in
      let taken = subst (λ a. contains used a ≡ false) (sym printed) free in
      rw (nil, used_reservations, read, valid-reservation_ip subnet h small p q, taken)
        (ap (λ a. used_reservations parse_ip6 subnet ns (a ∷ used)) printed)

  fill-assigned :
      (ns : List Node) (used : List Bytes)
      → All (IsReservation subnet) (addresses ns)
      → fill_reservations subnet ns used ≡ (ns, some false)
  unfolding fill_reservations
  fill-assigned [] used all = refl
  fill-assigned (n ∷ ns) used ((h, r, e), all) =
      let nil = subst (λ a. is_nil a ≡ false) (sym e) (is_nil-reservation_ip subnet h) in
      rw (nil, fill_reservations, fill-assigned ns used all) refl

  used-assigned :
      (ns : List Node) (used : List Bytes)
      → All (IsReservation subnet) (addresses ns)
      → Distinct (addresses ns)
      → All (λ a. contains used a ≡ false) (addresses ns)
      → (u : List Bytes) × (used_reservations parse_ip6 subnet ns used ≡ some u)
  unfolding used_reservations
  used-assigned [] used all distinct free = (used, refl)
  used-assigned (n ∷ ns) used (r, all) (fresh, distinct) (f, free) =
      let (u, e) =
        used-assigned ns (n.ip ∷ used) all distinct (extend (addresses ns) used n.ip fresh free) in
      (u, used-step n ns used r f ∙ e)

  -- Nodes that all have a reservation, no two the same, are left as they are.
  pub ensure-assigned :
      (ns : List Node)
      → All (IsReservation subnet) (addresses ns)
      → Distinct (addresses ns)
      → ensure_node_reservations parse_ip6 subnet ns ≡ (ns, some false)
  unfolding ensure_node_reservations
  ensure-assigned ns all distinct =
      let (u, e) = used-assigned ns [] all distinct (none-used (addresses ns)) in
      rw (e, ensure_node_reservations) (fill-assigned ns u all)
