-- ===== src/Cluster/Members.antt =====
-- Creating a cluster and adding and removing nodes: internal/cluster/cluster.go and node.go. An
-- `int` that counts nodes is a ℤ; the loops of `New` stop after at most 178 nodes.

pub mod Kept
pub mod Fresh
pub mod Removed
use talos_box.Base.{
  ℕ, zero, suc, ◌+◌, ◌-◌, ◌^◌, Bool, true, false, not, ◌&&◌, ◌||◌, Option, none, some, List, [],
  ◌∷◌, ◌++◌, Bytes, codes, leb, ltb, ◌==◌, if◌then◌else◌,
}
use talos_box.Text.{ℤ, pos, negsuc, itoa, itoa_int, atoi, cut_prefix, same, contains}
use talos_box.Net.{Ip}
use talos_box.Cluster.Name.{valid_name}
use talos_box.Cluster.Node.{
  Role, control_plane, worker, other, NodeDefaults, Node, Cluster, new_node, reservation_ip,
  max_subnet_index, first_node_host,
}
use talos_box.Cluster.Reserve.{is_nil, next_reservation_ip}

abbrev pub increment : ℤ → ℤ
increment (pos n) = pos (n + 1)
increment (negsuc zero) = pos 0
increment (negsuc (suc n)) = negsuc n

abbrev pub decrement : ℤ → ℤ
decrement (pos zero) = negsuc 0
decrement (pos (suc n)) = pos n
decrement (negsuc n) = negsuc (n + 1)

abbrev pub role_prefix : Bytes → Role → Bytes
role_prefix cluster_name control_plane = cluster_name ++ codes "-cp-"
role_prefix cluster_name worker = cluster_name ++ codes "-worker-"
role_prefix cluster_name (other r) = cluster_name ++ codes "-worker-"

abbrev pub atoi_rest : Option Bytes → Option ℤ
atoi_rest none = none
atoi_rest (some s) = atoi s

-- The number behind the prefix, where the name has one.
unfoldable pub index_of : Bytes → Bytes → Option ℤ
index_of prefix name = atoi_rest (cut_prefix prefix name)

abbrev pub larger : Option ℤ → ℕ → ℕ
larger none best = best
larger (some (negsuc i)) best = best
larger (some (pos i)) best = if ltb best i then i else best

-- The loop of `nextNodeName`.
unfoldable pub max_index : Bytes → List Node → ℕ → ℕ
max_index prefix [] best = best
max_index prefix (n ∷ ns) best = max_index prefix ns (larger (index_of prefix n.name) best)

-- `maxIndex + 1` in 64 bits.
abbrev pub succ_int64 : ℕ → ℤ
succ_int64 n = if n == 2 ^ 63 - 1 then negsuc (2 ^ 63 - 1) else pos (n + 1)

-- `nextNodeName`
unfoldable pub next_node_name : Bytes → List Node → Role → Bytes
next_node_name cluster_name ns role =
    let prefix = role_prefix cluster_name role in
    prefix ++ itoa_int (succ_int64 (max_index prefix ns 0))

abbrev pub names : List Node → List Bytes
names [] = []
names (n ∷ ns) = n.name ∷ names ns

-- The count of the role, after `++`.
abbrev pub count_added : Role → Cluster → Cluster
count_added control_plane c = record c { control_planes = increment c.control_planes }
count_added worker c = record c { workers = increment c.workers }
count_added (other r) c = record c { workers = increment c.workers }

abbrev pub count_removed : Role → Cluster → Cluster
count_removed control_plane c = record c { control_planes = decrement c.control_planes }
count_removed worker c = record c { workers = decrement c.workers }
count_removed (other r) c = record c { workers = decrement c.workers }

abbrev pub is_known : Role → Bool
is_known control_plane = true
is_known worker = true
is_known (other r) = false

abbrev pub chosen_name : Cluster → Role → Bytes → Bytes
chosen_name c role name = if is_nil name then next_node_name c.name c.nodes role else name

module _ (parse_ip6 : Bytes → Option Ip) (sha256 : Bytes → Bytes) where
  -- What `AddNode` does with the nodes and the address that `nextReservationIP` returns.
  unfoldable pub placed : Cluster → Role → Bytes → List Node × Option Bytes → Cluster × Option Node
  unfolding new_node
  placed c role name (ns, none) = (record c { nodes = ns }, none)
  placed c role name (ns, some address) =
      let n = new_node sha256 c.name name role address in
      (count_added role (record c { nodes = ns ++ (n ∷ []) }), some n)

  -- What `AddNode` does once the name is accepted.
  unfoldable pub place_node : Cluster → Role → Bytes → Cluster × Option Node
  unfolding placed
  place_node c role name = placed c role name (next_reservation_ip parse_ip6 c.subnet_index c.nodes)

  -- `AddNode`: the cluster behind the pointer, and the node unless there is an error.
  unfoldable pub add_node : Cluster → Role → Bytes → Cluster × Option Node
  unfolding place_node next_node_name
  add_node c role name =
      if not (is_known role)
      then (c, none)
      else if not (valid_name (chosen_name c role name))
      then (c, none)
      else if contains (names c.nodes) (chosen_name c role name)
      then (c, none)
      else place_node c role (chosen_name c role name)

abbrev after : Node → Option (Node × List Node) → Option (Node × List Node)
after n none = none
after n (some (m, ms)) = some (m, n ∷ ms)

-- The first node of the name, and the nodes without it.
unfoldable pub take_out : List Node → Bytes → Option (Node × List Node)
take_out [] name = none
take_out (n ∷ ns) name = if same n.name name then some (n, ns) else after n (take_out ns name)

abbrev pub dropped : Cluster → Option (Node × List Node) → Cluster × Option Node
dropped c none = (c, none)
dropped c (some (n, ns)) = (count_removed n.role (record c { nodes = ns }), some n)

-- `RemoveNode`
unfoldable pub remove_node : Cluster → Bytes → Cluster × Option Node
unfolding take_out
remove_node c name = dropped c (take_out c.nodes name)
