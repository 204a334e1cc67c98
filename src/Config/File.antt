-- ===== src/Config/File.antt =====
-- `Parse` of internal/config/config.go, behind the YAML decoder: defaults, overrides and checks.
pub mod Valid
use talos_box.Base.{
  ℕ, zero, suc, ◌+◌, Bool, true, false, not, ◌&&◌, ◌||◌, Option, none, some, List, [], ◌∷◌, ◌++◌,
  Bytes, codes, ltb, ◌==◌, if◌then◌else◌, ◌>>=◌, guard,
}
use talos_box.Text.{ℤ, pos, negsuc, same, contains}
use talos_box.Cluster.Reserve.{is_nil}
use talos_box.Cluster.Intent.{Intent, IntentInput, parse_intent}
use talos_box.Domain.{valid_label, validate_domain}
use talos_box.Config.Size.{NodeSizes, RawNode, default_node, resolve_node}

-- Extensions that are not requested are none, an empty list opts out of the inherited ones.
pub record TalosSpec : Type 0 where
  pub version : Bytes
  pub schematic : Bytes
  pub extensions : Option (List Bytes)

pub record ClusterSpec : Type 0 where
  pub name : Bytes
  pub hypervisor : Bytes
  pub control_planes : ℤ
  pub workers : ℤ
  pub intent : Intent
  pub domain : Bytes
  pub allow_unsafe_domain : Bool
  pub node : NodeSizes
  pub control_plane : Option NodeSizes
  pub worker : Option NodeSizes
  pub talos : TalosSpec

pub record Config : Type 0 where
  pub talos : TalosSpec
  pub clusters : List ClusterSpec

pub record RawCluster : Type 0 where
  pub name : Bytes
  pub hypervisor : Bytes
  pub control_planes : Option ℤ
  pub workers : Option ℤ
  pub intent : IntentInput
  pub domain : Bytes
  pub allow_unsafe_domain : Bool
  pub node : RawNode
  pub control_plane : Option RawNode
  pub worker : Option RawNode
  pub talos : Option TalosSpec

pub record RawConfig : Type 0 where
  pub version : Option ℤ
  pub talos : TalosSpec
  pub clusters : List RawCluster

abbrev pub no_talos : TalosSpec
no_talos = record { version = []; schematic = []; extensions = none }

abbrev pub text_or : Bytes → Bytes → Bytes
text_or base s = if is_nil s then base else s

abbrev pub list_or : Option (List Bytes) → Option (List Bytes) → Option (List Bytes)
list_or base none = base
list_or base (some xs) = some xs

-- `resolveTalos`
abbrev pub resolve_talos : TalosSpec → Option TalosSpec → TalosSpec
resolve_talos base none = base
resolve_talos base (some raw) = record {
  version = text_or base.version raw.version;
  schematic = text_or base.schematic raw.schematic;
  extensions = list_or base.extensions raw.extensions;
}

-- An empty name is the default; else `ParseName` of internal/hypervisor/registry.go.
abbrev pub known_hypervisor : Bytes → Bool
known_hypervisor s = is_nil s || (same s (codes "vz") || same s (codes "qemu"))

abbrev pub default_domain : Bytes → Bytes
default_domain name = name ++ codes ".k8s.test"

abbrev pub effective : Bytes → Bytes → Bytes
effective name domain = if is_nil domain then default_domain name else domain

-- A default domain has to be its own canonical form.
abbrev pub is_canonical : Bytes → Option Bytes → Bool
is_canonical name none = false
is_canonical name (some canonical) = same canonical name

-- The domain that the specification keeps: empty for the default one.
abbrev pub kept_domain : Bytes → Bytes → Bytes
kept_domain name canonical = if same canonical (default_domain name) then [] else canonical

unfoldable pub own_domain : RawCluster → Option Bytes
unfolding validate_domain
own_domain rc =
    (if is_nil rc.domain
      then some []
      else (validate_domain rc.domain rc.allow_unsafe_domain >>= λ c. some (kept_domain rc.name c)))
    >>= λ domain.
        guard
          (not (is_nil domain)
            || is_canonical (default_domain rc.name)
                (validate_domain (default_domain rc.name) true))
          (some domain)

abbrev pub count_or : ℕ → Option ℤ → ℤ
count_or n none = pos n
count_or n (some z) = z

abbrev pub at_least_one : ℤ → Bool
at_least_one (pos zero) = false
at_least_one (pos (suc n)) = true
at_least_one (negsuc n) = false

abbrev pub not_negative : ℤ → Bool
not_negative (pos n) = true
not_negative (negsuc n) = false

-- The sizes of a role that the file overrides.
abbrev pub resolve_role : NodeSizes → Option RawNode → Option (Option NodeSizes)
resolve_role node none = some none
resolve_role node (some raw) = resolve_node node raw >>= λ sizes. some (some sizes)

-- The body of the loop over clusters, with the names and the domains of those before.
unfoldable pub parse_cluster : TalosSpec → List Bytes → List Bytes → RawCluster → Option ClusterSpec
unfolding valid_label contains parse_intent own_domain resolve_node
parse_cluster talos seen seen_domains rc =
    guard (valid_label rc.name && (not (contains seen rc.name) && known_hypervisor rc.hypervisor)) (
      parse_intent rc.intent >>= λ intent. own_domain rc >>= λ domain.
      guard
        (not (contains seen_domains (effective rc.name domain))
          && (at_least_one (count_or 1 rc.control_planes) && not_negative (count_or 2 rc.workers)))
        (resolve_node default_node rc.node >>= λ node.
          resolve_role node rc.control_plane >>= λ control_plane.
          resolve_role node rc.worker >>= λ worker. some record {
            name = rc.name;
            hypervisor = rc.hypervisor;
            control_planes = count_or 1 rc.control_planes;
            workers = count_or 2 rc.workers;
            intent = intent;
            domain = domain;
            allow_unsafe_domain = rc.allow_unsafe_domain;
            node = node;
            control_plane = control_plane;
            worker = worker;
            talos = resolve_talos talos rc.talos;
          }))

unfoldable pub parse_clusters :
    TalosSpec → List Bytes → List Bytes → List RawCluster → Option (List ClusterSpec)
unfolding parse_cluster
parse_clusters talos seen seen_domains [] = some []
parse_clusters talos seen seen_domains (rc ∷ rcs) =
    parse_cluster talos seen seen_domains rc >>= λ c.
    parse_clusters talos (c.name ∷ seen) (effective c.name c.domain ∷ seen_domains) rcs >>= λ cs.
    some (c ∷ cs)

abbrev pub is_version_1 : Option ℤ → Bool
is_version_1 none = false
is_version_1 (some (pos n)) = n == 1
is_version_1 (some (negsuc n)) = false

abbrev pub any_cluster : List RawCluster → Bool
any_cluster [] = false
any_cluster (rc ∷ rcs) = true

-- `Parse`
unfoldable pub parse_file : RawConfig → Option Config
unfolding parse_clusters
parse_file raw =
    let talos = resolve_talos no_talos (some raw.talos) in
    guard (is_version_1 raw.version && any_cluster raw.clusters) (
      parse_clusters talos [] [] raw.clusters >>= λ clusters.
      some record { talos = talos; clusters = clusters })
