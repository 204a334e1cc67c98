-- ===== src/Dns/Resolve.antt =====
-- `Resolve` of internal/dns/resolver.go, for ASCII names. `lease` is the table of DHCP leases, and
-- `parse_ip6` the reader of IPv6 texts: parameters.
pub mod Longest
use talos_box.Base.{
  ℕ, ◌+◌, ◌-◌, Bool, true, false, not, ◌&&◌, ◌||◌, Option, none, some, List, [], ◌∷◌, ◌++◌, Bytes,
  leb, ltb, if◌then◌else◌, length, drop,
}
use talos_box.Text.{to_lower, same}
use talos_box.Net.{Ip, ip, parse_ip4}
use talos_box.Cluster.Node.{Node, Cluster, max_subnet_index}
use talos_box.Cluster.Create.{effective_domain}
use talos_box.Dns.Message.{trim_dot}

-- `strings.HasSuffix`
unfoldable pub has_suffix : Bytes → Bytes → Bool
has_suffix s suffix =
    leb (length suffix) (length s) && same (drop (length s - length suffix) s) suffix

-- The name is the domain or lies under it.
unfoldable pub matches : Bytes → Bytes → Bool
unfolding has_suffix
matches name domain = same name domain || has_suffix name (b'.' ∷ domain)

unfoldable pub domain_of : Cluster → Bytes
domain_of c = to_lower (effective_domain c)

pub record Owner : Type 0 where
  pub cluster : Option Cluster
  pub domain : Bytes

-- One round of the loop.
unfoldable pub consider : Bytes → Cluster → Owner → Owner
unfolding matches domain_of
consider name c o =
    if leb (length (domain_of c)) (length o.domain)
    then o
    else if matches name (domain_of c)
    then record { cluster = some c; domain = domain_of c }
    else o

unfoldable pub owner_from : Bytes → List Cluster → Owner → Owner
unfolding consider
owner_from name [] o = o
owner_from name (c ∷ cs) o = owner_from name cs (consider name c o)

abbrev pub no_owner : Owner
no_owner = record { cluster = none; domain = [] }

module _ (parse_ip6 : Bytes → Option Ip) (lease : Bytes → ℕ → Bytes) where
  -- A node's leased address, or the ingress wildcard.
  unfoldable pub record_of : Bytes → Bytes → ℕ → List Node → Option Ip
  unfolding to_lower
  record_of name domain subnet [] = some (ip 172 30 subnet 200)
  record_of name domain subnet (n ∷ ns) =
      let rest = record_of name domain subnet ns in
      if same name (to_lower n.name ++ (b'.' ∷ domain))
      then parse_ip4 parse_ip6 (lease n.mac subnet)
      else rest

  abbrev pub at_owner : Bytes → Bytes → Option Cluster → Option Ip
  at_owner name domain none = none
  at_owner name domain (some c) =
      if same name domain || ltb max_subnet_index c.subnet_index
      then none
      else record_of name domain c.subnet_index c.nodes

  -- `Resolve`
  unfoldable pub resolve : Bytes → List Cluster → Option Ip
  unfolding owner_from record_of to_lower trim_dot
  resolve name cs =
      let canonical = to_lower (trim_dot name) in
      let owner = owner_from canonical cs no_owner in at_owner canonical owner.domain owner.cluster
