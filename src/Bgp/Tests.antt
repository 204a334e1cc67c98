-- ===== src/Bgp/Tests.antt =====
-- A reconcile against a FIB that refuses one of its two routes.
use talos_box.Base.{Bool, List, [], ◌∷◌, Bytes, codes, if◌then◌else◌, not}
use talos_box.Text.{same}
use talos_box.Bgp.{Route, Fib, State, remove, assign}

abbrev refuses : Bytes → Bool
refuses nexthop = same nexthop (codes "172.30.0.9")

-- A FIB that keeps a list of its routes, and refuses one next hop.
abbrev picky : Fib (List Route)
picky = record {
  add_host_route = λ table prefix nexthop. (
    if refuses nexthop then table else assign table (record { prefix = prefix; nexthop = nexthop }),
    not (refuses nexthop),
  );
  delete_host_route = λ table prefix. remove table prefix;
}

abbrev old : List Route
old = record { prefix = codes "172.30.0.240/32"; nexthop = codes "172.30.0.2" } ∷ []

abbrev start : State picky
start = record { table = old; injected = old; failed = [] }

abbrev wanted : List Route
wanted =
    record { prefix = codes "172.30.0.241/32"; nexthop = codes "172.30.0.3" }
    ∷ record { prefix = codes "172.30.0.242/32"; nexthop = codes "172.30.0.9" }
    ∷ []
