-- ===== src/Cluster/Members/Kept.antt =====
-- Well-formed clusters, and that adding and removing nodes keeps them so.
use talos_box.Base.{
  ℕ, ◌≤◌, false, Option, List, [], ◌∷◌, ◌++◌, ◌≡◌, ◌≢◌, refl, sym, ap, subst, Bytes, All,
  All-append, Bool-cases, Option-cases, inl, inr,
}
use talos_box.Text.{contains}
use talos_box.Text.Sets.{not-contains, Distinct, Distinct-snoc}
use talos_box.Net.{Ip}
use talos_box.Cluster.Name.{valid_name}
use talos_box.Cluster.Node.{
  Role, control_plane, worker, other, Node, Cluster, max_subnet_index, new_node,
}
use talos_box.Cluster.Reserve.{addresses, lowest_free_reservation, next_after, next_reservation_ip}
use talos_box.Cluster.Reserve.Lowest.{lowest_free_reservation-some}
use talos_box.Cluster.Reserve.Assigned.{IsReservation, ensure-assigned}
use talos_box.Cluster.Members.{
  names, add_node, place_node, placed, chosen_name, is_known, count_added,
}

-- No two nodes share a name or an address, and every address is a reservation of the subnet.
pub record WellFormed (c : Cluster) : Type 0 where
  pub subnet : c.subnet_index ≤ max_subnet_index
  pub names_distinct : Distinct (names c.nodes)
  pub addresses_distinct : Distinct (addresses c.nodes)
  pub assigned : All (IsReservation c.subnet_index) (addresses c.nodes)

names-append : (ms ns : List Node) → names (ms ++ ns) ≡ names ms ++ names ns
names-append [] ns = refl
names-append (m ∷ ms) ns = ap (λ ss. m.name ∷ ss) (names-append ms ns)

addresses-append : (ms ns : List Node) → addresses (ms ++ ns) ≡ addresses ms ++ addresses ns
addresses-append [] ns = refl
addresses-append (m ∷ ms) ns = ap (λ ss. m.ip ∷ ss) (addresses-append ms ns)

-- The next address, for nodes that all have one.
pub next-assigned :
    (parse_ip6 : Bytes → Option Ip) (subnet : ℕ) (ns : List Node)
    → subnet ≤ max_subnet_index
    → All (IsReservation subnet) (addresses ns)
    → Distinct (addresses ns)
    → next_reservation_ip parse_ip6 subnet ns ≡ (ns, lowest_free_reservation subnet (addresses ns))
unfolding next_reservation_ip
next-assigned parse_ip6 subnet ns small all distinct =
    ap (next_after subnet) (ensure-assigned parse_ip6 subnet small ns all distinct)

module _ (parse_ip6 : Bytes → Option Ip) (sha256 : Bytes → Bytes) where
  with-node :
      (c : Cluster) (n : Node) (role : Role)
      → WellFormed c
      → All (λ t. t ≢ n.name) (names c.nodes)
      → All (λ t. t ≢ n.ip) (addresses c.nodes)
      → IsReservation c.subnet_index n.ip
      → WellFormed (count_added role (record c { nodes = c.nodes ++ (n ∷ []) }))
  with-node c n role w new_name new_ip r =
      let ns =
        subst Distinct (sym (names-append c.nodes (n ∷ [])))
          (Distinct-snoc (names c.nodes) n.name w.names_distinct new_name) in
      let ips =
        subst Distinct (sym (addresses-append c.nodes (n ∷ [])))
          (Distinct-snoc (addresses c.nodes) n.ip w.addresses_distinct new_ip) in
      let all =
        subst (All (IsReservation c.subnet_index)) (sym (addresses-append c.nodes (n ∷ []))) (
          All-append (IsReservation c.subnet_index) (addresses c.nodes) (n.ip ∷ []) w.assigned
            (r, tt)) in
      elim role as (λ r. WellFormed (count_added r (record c { nodes = c.nodes ++ (n ∷ []) }))) [
        | control_plane ↦ record {
          subnet = w.subnet;
          names_distinct = ns;
          addresses_distinct = ips;
          assigned = all;
        }
        | worker ↦ record {
          subnet = w.subnet;
          names_distinct = ns;
          addresses_distinct = ips;
          assigned = all;
        }
        | other r ↦ record {
          subnet = w.subnet;
          names_distinct = ns;
          addresses_distinct = ips;
          assigned = all;
        }
      ]

  place_node-WellFormed :
      (c : Cluster) (role : Role) (name : Bytes)
      → WellFormed c
      → contains (names c.nodes) name ≡ false
      → WellFormed (place_node parse_ip6 sha256 c role name).0
  unfolding place_node placed new_node
  place_node-WellFormed c role name w free =
      let next =
        next-assigned parse_ip6 c.subnet_index c.nodes w.subnet w.assigned w.addresses_distinct in
      subst (λ p. WellFormed (placed parse_ip6 sha256 c role name p).0) (sym next)
        (elim (Option-cases (lowest_free_reservation c.subnet_index (addresses c.nodes))) [
          | inl e ↦ rw e w
          | inr (a, e) ↦
              let (h, r, given, unused, least) =
                lowest_free_reservation-some c.subnet_index (addresses c.nodes) a e in
              rw e (
                with-node c (new_node sha256 c.name name role a) role w
                  ((not-contains (names c.nodes) name).0 free)
                  ((not-contains (addresses c.nodes) a).0 unused) (h, r, given))
        ])

  -- Adding a node to a well-formed cluster leaves it well-formed: no name and no address is given
  -- out twice, and every address is a reservation of the subnet. It does so where `AddNode`
  -- returns an error, too.
  pub add_node-WellFormed :
      (c : Cluster) (role : Role) (name : Bytes)
      → WellFormed c
      → WellFormed (add_node parse_ip6 sha256 c role name).0
  unfolding add_node
  add_node-WellFormed c role name w = elim (Bool-cases (is_known role)) [
    | inr e ↦ rw e w
    | inl e ↦ elim (Bool-cases (valid_name (chosen_name c role name))) [
      | inr f ↦ rw (e, f) w
      | inl f ↦ elim (Bool-cases (contains (names c.nodes) (chosen_name c role name))) [
        | inl g ↦ rw (e, f, g) w
        | inr g ↦ rw (e, f, g) (place_node-WellFormed c role (chosen_name c role name) w g)
      ]
    ]
  ]
