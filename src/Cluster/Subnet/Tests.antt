-- ===== src/Cluster/Subnet/Tests.antt =====
-- A host with a foreign network on the second subnet and a tunnel as its default route.
use talos_box.Base.{ℕ, true, false, Option, none, some, [], ◌∷◌, codes, ◌≡◌, refl, ℕ_discrete}
use talos_box.Text.{pos, atoi, itoa, same, contains, cut_prefix, Bytes-discrete}
use talos_box.Cluster.Node.{Cluster}
use talos_box.Cluster.Create.{allocated_subnet_indexes, mark_allocated}
use talos_box.Cluster.Subnet.{
  HostInterface, HostRoute, SubnetSources, networks_overlap, scan_addresses, scan_interfaces,
  inspect_subnet, is_talos_box_bridge_name, is_host_bridge_name, is_vmnet_bridge_name, all_digits,
  subnet_address, lowest_usable_from, lowest_usable_subnet_index, select_from,
  select_most_specific_route,
}
use talos_box.Cluster.Subnet.Usable.{Usable, lowest_usable_subnet_index-Usable}

abbrev first : Cluster
first = record {
  name = codes "a";
  subnet_index = 0;
  control_planes = pos 1;
  workers = pos 0;
  node_defaults = record { memory_mib = 2048; cpus = 2; disk_gib = 20 };
  control_plane_defaults = none;
  worker_defaults = none;
  nodes = [];
  domain = [];
}

abbrev docker : HostInterface
docker = record {
  name = codes "docker0";
  addrs = record { address = subnet_address 1 1; prefix = 24 } ∷ [];
}

abbrev default_route : HostRoute
default_route = record {
  interface = codes "utun4";
  network = some (record { base = 0; prefix = 0 });
  metric = 0;
  looks_like_tunnel = true;
}

abbrev route : ℕ → Option HostRoute
route destination = some default_route

abbrev sources : SubnetSources
sources = record { interfaces = some (docker ∷ []); route = route }

lowest_usable_subnet_index-sources :
    lowest_usable_subnet_index (first ∷ []) sources ≡ some (2, true)
unfolding lowest_usable_subnet_index lowest_usable_from inspect_subnet scan_interfaces
    scan_addresses networks_overlap is_talos_box_bridge_name is_host_bridge_name
    is_vmnet_bridge_name all_digits contains allocated_subnet_indexes mark_allocated same atoi itoa
    cut_prefix Bytes-discrete ℕ_discrete
lowest_usable_subnet_index-sources = refl

lowest_usable_subnet_index-Usable_example : Usable (first ∷ []) (docker ∷ []) route 2
lowest_usable_subnet_index-Usable_example =
    lowest_usable_subnet_index-Usable (first ∷ []) (docker ∷ []) route (2, true)
      lowest_usable_subnet_index-sources

-- Of two default routes the tunnel signal is kept.
select_most_specific_route-two :
    select_most_specific_route
      (subnet_address 0 2)
      (record default_route { looks_like_tunnel = false } ∷ default_route ∷ [])
      (λ name. false)
    ≡ default_route
unfolding select_most_specific_route select_from
select_most_specific_route-two = refl
