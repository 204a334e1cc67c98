-- ===== src/Cluster/Members/Removed.antt =====
-- Removing nodes, on its own and after adding one.
use talos_box.Base.{
  zero, suc, ◌+◌, true, false, Option, none, some, List, [], ◌∷◌, ◌++◌, ◌≡◌, ◌≢◌, refl, ◌∙◌, ap,
  arith, Bytes, All,
}
use talos_box.Text.{ℤ, pos, negsuc, contains}
use talos_box.Text.Sets.{not-contains, same_refl, same-ne}
use talos_box.Net.{Ip}
use talos_box.Cluster.Node.{Role, control_plane, worker, other, Node, Cluster, new_node}
use talos_box.Cluster.Name.{valid_name}
use talos_box.Cluster.Reserve.{addresses, lowest_free_reservation, next_reservation_ip}
use talos_box.Cluster.Members.{
  names, increment, decrement, remove_node, take_out, count_added, count_removed, dropped, add_node,
  place_node, placed, chosen_name, is_known,
}
use talos_box.Cluster.Members.Kept.{WellFormed, next-assigned}

take_out_absent :
    (ns : List Node) (name : Bytes) → All (λ t. t ≢ name) (names ns) → take_out ns name ≡ none
unfolding take_out
take_out_absent [] name h = refl
take_out_absent (n ∷ ns) name h = rw (same-ne n.name name h.0, take_out_absent ns name h.1) refl

-- A node that is added behind nodes of other names is the one that is taken out.
take_out_last :
    (ns : List Node) (n : Node)
    → All (λ t. t ≢ n.name) (names ns)
    → take_out (ns ++ (n ∷ [])) n.name ≡ some (n, ns)
unfolding take_out
take_out_last [] n h = rw (same_refl n.name) refl
take_out_last (m ∷ ms) n h = rw (same-ne m.name n.name h.0, take_out_last ms n h.1) refl

decrement-increment : (z : ℤ) → decrement (increment z) ≡ z
decrement-increment (pos n) = ap decrement (ap pos {x = n + 1} {y = suc n} (omega arith))
decrement-increment (negsuc zero) = refl
decrement-increment (negsuc (suc n)) = ap negsuc (omega arith)

-- The counts after a node of a role has come and gone.
counts_back :
    (r : Role) (c : Cluster) (ms : List Node)
    → count_removed r (record (count_added r (record c { nodes = ms })) { nodes = c.nodes }) ≡ c
counts_back control_plane c ms =
    ap (λ z. record c { control_planes = z }) (decrement-increment c.control_planes)
counts_back worker c ms = ap (λ z. record c { workers = z }) (decrement-increment c.workers)
counts_back (other r) c ms = ap (λ z. record c { workers = z }) (decrement-increment c.workers)

nodes-count_added :
    (r : Role) (c : Cluster) (ms : List Node) → (count_added r (record c { nodes = ms })).nodes ≡ ms
nodes-count_added control_plane c ms = refl
nodes-count_added worker c ms = refl
nodes-count_added (other r) c ms = refl

module _ (parse_ip6 : Bytes → Option Ip) (sha256 : Bytes → Bytes) where
  remove_node-placed :
      (c : Cluster) (role : Role) (name address : Bytes)
      → All (λ t. t ≢ name) (names c.nodes)
      → remove_node (placed parse_ip6 sha256 c role name (c.nodes, some address)).0 name
        ≡ (c, some (new_node sha256 c.name name role address))
  unfolding remove_node placed new_node
  remove_node-placed c role name address fresh =
      let n = new_node sha256 c.name name role address in
      let c' = count_added role (record c { nodes = c.nodes ++ (n ∷ []) }) in
      ap (λ ms. dropped c' (take_out ms name)) (nodes-count_added role c (c.nodes ++ (n ∷ [])))
      ∙ ap (dropped c') (take_out_last c.nodes n fresh)
      ∙ ap (λ d. (d, some n)) (counts_back role c (c.nodes ++ (n ∷ [])))

  place_node-next :
      (c : Cluster) (role : Role) (m : Bytes) {p : List Node × Option Bytes}
      → next_reservation_ip parse_ip6 c.subnet_index c.nodes ≡ p
      → place_node parse_ip6 sha256 c role m ≡ placed parse_ip6 sha256 c role m p
  unfolding place_node
  place_node-next c role m q = ap (placed parse_ip6 sha256 c role m) q

  -- On a well-formed cluster, a known role, a valid name that no node has and a free reservation
  -- are enough for `AddNode` to succeed: it returns a node of that name and role with the lowest
  -- free reservation, and `RemoveNode` of that name then returns the node and the cluster as it
  -- was.
  pub remove_node-add_node :
      (c : Cluster) (role : Role) (name address : Bytes)
      → WellFormed c
      → is_known role ≡ true
      → valid_name (chosen_name c role name) ≡ true
      → contains (names c.nodes) (chosen_name c role name) ≡ false
      → lowest_free_reservation c.subnet_index (addresses c.nodes) ≡ some address
      → let n = new_node sha256 c.name (chosen_name c role name) role address in
        ((add_node parse_ip6 sha256 c role name).1 ≡ some n)
        × (remove_node (add_node parse_ip6 sha256 c role name).0 n.name ≡ (c, some n))
  unfolding add_node place_node new_node
  remove_node-add_node c role name address w known valid free e =
      let m = chosen_name c role name in
      let added = place_node-next c role m (
        next-assigned parse_ip6 c.subnet_index c.nodes w.subnet w.assigned w.addresses_distinct
        ∙ ap (λ o. (c.nodes, o)) e) in
      let fresh = (not-contains (names c.nodes) m).0 free in
      rw (known, valid, free, added) (refl, remove_node-placed c role m address fresh)

-- Removing a name that no node has changes nothing and is an error.
pub remove_node-absent :
    (c : Cluster) (name : Bytes)
    → contains (names c.nodes) name ≡ false
    → remove_node c name ≡ (c, none)
unfolding remove_node
remove_node-absent c name free =
    ap (dropped c) (take_out_absent c.nodes name ((not-contains (names c.nodes) name).0 free))
