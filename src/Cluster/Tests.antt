-- ===== src/Cluster/Tests.antt =====
-- A cluster of one control plane and a worker.
use talos_box.Base.{
  ℕ, true, false, Option, none, some, [], ◌∷◌, ◌++◌, Bytes, codes, ◌≡◌, ◌≢◌, ◌⊎◌, ◌↔◌, inl, inr,
  ◌+◌, ◌-◌, ◌≤◌, refl, arith, All, ℕ_discrete,
}
use talos_box.Text.{pos, contains, cut_prefix, atoi, same, itoa, Bytes-discrete}
use talos_box.Net.{Ip, format_ip}
use talos_box.Cluster.Name.{valid_name, has_slash}
use talos_box.Cluster.Name.Accepts.{valid_name_iff}
use talos_box.Cluster.Node.{control_plane, worker, Node, Cluster, reservation_ip, new_node}
use talos_box.Cluster.Reserve.{lowest_free_reservation}
use talos_box.Cluster.Reserve.Lowest.{lowest_free_reservation-some, below}
use talos_box.Cluster.Members.{
  names, add_node, remove_node, next_node_name, role_prefix, max_index, index_of,
}
use talos_box.Cluster.Members.Kept.{WellFormed, add_node-WellFormed}
use talos_box.Cluster.Members.Removed.{remove_node-add_node}
use talos_box.Cluster.Members.Fresh.{next_node_name-fresh}
use talos_box.Cluster.Intent.{Intent, parse_intent, input, known_cni, known_csi, is_cilium}
use talos_box.Cluster.Intent.Valid.{IsValid, parse_intent-IsValid, parse_intent-input}

no_ip6 : Bytes → Option Ip
no_ip6 s = none

abbrev digest : Bytes → Bytes
digest s = 1 ∷ 2 ∷ 3 ∷ []

abbrev cp_1 : Node
cp_1 = record { name = codes "a-cp-1"; role = control_plane; mac = []; ip = reservation_ip 7 2 }

abbrev small : Cluster
small = record {
  name = codes "a";
  subnet_index = 7;
  control_planes = pos 1;
  workers = pos 0;
  node_defaults = record { memory_mib = 2048; cpus = 2; disk_gib = 20 };
  control_plane_defaults = none;
  worker_defaults = none;
  nodes = cp_1 ∷ [];
  domain = [];
}

small-WellFormed : WellFormed small
small-WellFormed = record {
  subnet = omega arith;
  names_distinct = (tt, tt);
  addresses_distinct = (tt, tt);
  assigned = ((2, (omega arith, omega arith), refl), tt);
}

add_node-WellFormed_example : WellFormed (add_node no_ip6 digest small worker []).0
add_node-WellFormed_example = add_node-WellFormed no_ip6 digest small worker [] small-WellFormed

named_test : valid_name (codes "a-worker-1") ≡ true
unfolding valid_name same Bytes-discrete ℕ_discrete
named_test = refl

free_name_test : contains (codes "a-cp-1" ∷ []) (codes "a-worker-1") ≡ false
unfolding contains same Bytes-discrete ℕ_discrete
free_name_test = refl

free_test : lowest_free_reservation 7 (reservation_ip 7 2 ∷ []) ≡ some (reservation_ip 7 3)
unfolding lowest_free_reservation contains same Bytes-discrete ℕ_discrete reservation_ip format_ip
    itoa
free_test = refl

remove_node-add_node_example :
    let n = new_node digest (codes "a") (codes "a-worker-1") worker (reservation_ip 7 3) in
    ((add_node no_ip6 digest small worker (codes "a-worker-1")).1 ≡ some n)
    × (remove_node (add_node no_ip6 digest small worker (codes "a-worker-1")).0 n.name
        ≡ (small, some n))
remove_node-add_node_example =
    remove_node-add_node no_ip6 digest small worker (codes "a-worker-1") (reservation_ip 7 3)
      small-WellFormed refl named_test free_name_test free_test

index_test : max_index (role_prefix (codes "a") control_plane) (cp_1 ∷ []) 0 ≡ 1
unfolding max_index index_of cut_prefix atoi
index_test = refl

next_node_name-fresh_example :
    (next_node_name (codes "a") (cp_1 ∷ []) control_plane
      ≡ role_prefix (codes "a") control_plane
        ++ itoa (max_index (role_prefix (codes "a") control_plane) (cp_1 ∷ []) 0 + 1))
    × (contains (names (cp_1 ∷ [])) (next_node_name (codes "a") (cp_1 ∷ []) control_plane) ≡ false)
next_node_name-fresh_example =
    next_node_name-fresh (codes "a") (cp_1 ∷ []) control_plane (omega (arith, index_test))

lowest_free_reservation-some_example :
    (h : ℕ) × ((2 ≤ h) × (h ≤ 179))
    × (reservation_ip 7 3 ≡ reservation_ip 7 h)
    × (contains (reservation_ip 7 2 ∷ []) (reservation_ip 7 3) ≡ false)
    × All
        (λ k. contains (reservation_ip 7 2 ∷ []) (reservation_ip 7 (2 + k)) ≡ true)
        (below (h - 2))
lowest_free_reservation-some_example =
    lowest_free_reservation-some 7 (reservation_ip 7 2 ∷ []) (reservation_ip 7 3) free_test

abbrev cilium : Intent
cilium = record {
  cni = codes "cilium";
  csi = codes "longhorn";
  lb = true;
  bgp = true;
  hubble = false;
  disable_kubelet_memory_protection = true;
}

cilium-IsValid : IsValid cilium
unfolding known_cni known_csi is_cilium same Bytes-discrete ℕ_discrete
cilium-IsValid = inr (refl, refl, refl, inr (refl, refl), inl refl)

parse_intent-input_example : parse_intent (input cilium) ≡ some cilium
parse_intent-input_example = parse_intent-input cilium cilium-IsValid

parse_intent-IsValid_example : IsValid cilium
parse_intent-IsValid_example = parse_intent-IsValid (input cilium) cilium parse_intent-input_example

valid_name_iff_example : (valid_name (codes "a/b") ≡ true) ↔ (
    (codes "a/b" ≢ [])
    × (codes "a/b" ≢ b'.' ∷ [])
    × (codes "a/b" ≢ b'.' ∷ b'.' ∷ [])
    × ((has_slash (codes "a/b") ≡ false) ⊎ (codes "a/b" ≡ b'/' ∷ [])))
valid_name_iff_example = valid_name_iff (codes "a/b")
