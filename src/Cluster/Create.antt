-- ===== src/Cluster/Create.antt =====
-- Creating a cluster, of internal/cluster/cluster.go: `New`, sizes and their defaults, domains and
-- subnet indexes.
use talos_box.Base.{
  ℕ, zero, suc, ◌+◌, Bool, true, false, not, ◌||◌, Option, none, some, List, [], ◌∷◌, ◌++◌, Bytes,
  codes, leb, ltb, if◌then◌else◌, length, set, replicate,
}
use talos_box.Text.{ℤ, pos, itoa, same}
use talos_box.Cluster.Name.{valid_name}
use talos_box.Cluster.Node.{
  Role, control_plane, worker, other, NodeDefaults, Node, Cluster, new_node, reservation_ip,
  max_subnet_index, first_node_host,
}
use talos_box.Cluster.Members.{role_prefix}

abbrev pub or_default : ℕ → ℕ → ℕ
or_default zero d = d
or_default (suc n) d = suc n

-- `applyDefaults`
unfoldable pub apply_defaults : NodeDefaults → NodeDefaults
apply_defaults d = record {
  memory_mib = or_default d.memory_mib 2048;
  cpus = or_default d.cpus 2;
  disk_gib = or_default d.disk_gib 20;
}

module _ (sha256 : Bytes → Bytes) where
  -- One of the two loops of `New`: `left` more nodes, the next one with number `i`.
  unfoldable pub append_nodes : Bytes → ℕ → Role → ℕ → ℕ → List Node → List Node
  unfolding new_node
  append_nodes name subnet role zero i ns = ns
  append_nodes name subnet role (suc left) i ns = append_nodes name subnet role left (i + 1) (
      ns
      ++ (new_node sha256 name (role_prefix name role ++ itoa i) role
            (reservation_ip subnet (first_node_host + length ns))
          ∷ []))

  abbrev create : Bytes → ℕ → ℕ → ℕ → NodeDefaults → Cluster
  create name subnet control_planes workers defaults = record {
    name = name;
    subnet_index = subnet;
    control_planes = pos control_planes;
    workers = pos workers;
    node_defaults = apply_defaults defaults;
    control_plane_defaults = none;
    worker_defaults = none;
    nodes =
        append_nodes name subnet worker workers 1
          (append_nodes name subnet control_plane control_planes 1 []);
    domain = [];
  }

  -- `New`, with the sizes of its `defaults` one by one. A sum of counts that leaves the range of an
  -- `int` gets past the limit in Go, and then `make` panics: no cluster comes of it either.
  unfoldable pub new_cluster : Bytes → ℤ → ℤ → ℤ → ℤ → ℤ → ℤ → Option Cluster
  unfolding append_nodes apply_defaults
  new_cluster name (pos subnet) (pos control_planes) (pos workers) (pos m) (pos c) (pos d) =
      if not (valid_name name)
      then none
      else if not (leb subnet max_subnet_index)
      then none
      else if ltb 178 (control_planes + workers)
      then none
      else some (
          create name subnet control_planes workers
            record { memory_mib = m; cpus = c; disk_gib = d })
  new_cluster name subnet control_planes workers m c d = none

abbrev or_else : Option NodeDefaults → NodeDefaults → NodeDefaults
or_else none d = d
or_else (some e) d = e

-- `DefaultsFor`
unfoldable pub defaults_for : Cluster → Role → NodeDefaults
defaults_for c control_plane = or_else c.control_plane_defaults c.node_defaults
defaults_for c worker = or_else c.worker_defaults c.node_defaults
defaults_for c (other r) = c.node_defaults

-- `allocatedSubnetIndexes`: a flag for every index. Indexes of clusters are not negative here.
unfoldable pub mark_allocated : List Cluster → List Bool → List Bool
mark_allocated [] used = used
mark_allocated (c ∷ cs) used =
    mark_allocated cs
      (if leb c.subnet_index max_subnet_index then set used c.subnet_index true else used)

unfoldable pub allocated_subnet_indexes : List Cluster → List Bool
unfolding mark_allocated
allocated_subnet_indexes cs = mark_allocated cs (replicate (max_subnet_index + 1) false)

-- The first flag that is not set.
unfoldable pub first_free : List Bool → ℕ → Option ℕ
first_free [] i = none
first_free (true ∷ used) i = first_free used (i + 1)
first_free (false ∷ used) i = some i

-- `LowestFreeSubnetIndex`
unfoldable pub lowest_free_subnet_index : List Cluster → Option ℕ
unfolding first_free allocated_subnet_indexes
lowest_free_subnet_index cs = first_free (allocated_subnet_indexes cs) 0

abbrev is_default : Bytes → Bool
is_default [] = true
is_default (c ∷ s) = false

-- `EffectiveDomain`
unfoldable pub effective_domain : Cluster → Bytes
effective_domain c = if is_default c.domain then c.name ++ codes ".k8s.test" else c.domain

-- `DomainInUse`
unfoldable pub domain_in_use : Bytes → List Cluster → Bool
unfolding effective_domain
domain_in_use domain [] = false
domain_in_use domain (c ∷ cs) = same (effective_domain c) domain || domain_in_use domain cs
