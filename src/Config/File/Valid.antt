-- ===== src/Config/File/Valid.antt =====
-- What a cluster file that is accepted satisfies.
use mathlib.Core.Option.{some_inj}
use talos_box.Base.{
  not-true, and-both, ◌<◌, Bool, true, ◌&&◌, some, List, [], ◌∷◌, Bytes, map, All, length,
  bind-some, guard-some, ◌≡◌, ◌≢◌, sym, subst, arith,
}
use talos_box.Text.Sets.{Distinct, not-contains}
use talos_box.Cluster.Intent.{parse_intent}
use talos_box.Cluster.Intent.Valid.{IsValid, parse_intent-IsValid}
use talos_box.Domain.{valid_label}
use talos_box.Config.Size.{resolve_node, default_node}
use talos_box.Config.File.{
  TalosSpec, ClusterSpec, Config, RawCluster, RawConfig, resolve_talos, no_talos, effective,
  own_domain, at_least_one, not_negative, resolve_role, parse_cluster, parse_clusters, is_version_1,
  any_cluster, parse_file,
}

-- A cluster with a name that is a DNS label, at least one control plane, no negative count of
-- workers and a valid intent.
pub record ValidCluster (c : ClusterSpec) : Type 0 where
  pub label : valid_label c.name ≡ true
  pub control_planes : at_least_one c.control_planes ≡ true
  pub workers : not_negative c.workers ≡ true
  pub intent : IsValid c.intent

abbrev pub Apart : List Bytes → Bytes → Type 0
Apart seen s = All (λ t. t ≢ s) seen

record Parsed (seen seen_domains : List Bytes) (c : ClusterSpec) : Type 0 where
  valid : ValidCluster c
  name : Apart seen c.name
  domain : Apart seen_domains (effective c.name c.domain)

and3 : (a b c : Bool) → (a && (b && c)) ≡ true → (a ≡ true) × (b ≡ true) × (c ≡ true)
and3 a b c e = ground arith

parse_cluster-Parsed :
    (talos : TalosSpec) (seen seen_domains : List Bytes) (rc : RawCluster) (c : ClusterSpec)
    → parse_cluster talos seen seen_domains rc ≡ some c
    → Parsed seen seen_domains c
unfolding parse_cluster
parse_cluster-Parsed talos seen seen_domains rc c e =
    let (tests, e1) = guard-some _ _ c e in
    let (intent, parsed, e2) = bind-some (parse_intent rc.intent) _ c e1 in
    let (domain, of, e3) = bind-some (own_domain rc) _ c e2 in
    let (more, e4) = guard-some _ _ c e3 in
    let (node, n, e5) = bind-some (resolve_node default_node rc.node) _ c e4 in
    let (cp, p, e6) = bind-some (resolve_role node rc.control_plane) _ c e5 in
    let (w, q, e7) = bind-some (resolve_role node rc.worker) _ c e6 in
    let same = some_inj.0 e7 in
    let (label, new, known) = and3 _ _ _ tests in
    let (new_domain, one, nonneg) = and3 _ _ _ more in
    subst (Parsed seen seen_domains) same record {
      valid = record {
        label = label;
        control_planes = one;
        workers = nonneg;
        intent = parse_intent-IsValid rc.intent intent parsed;
      };
      name = (not-contains seen rc.name).0 (not-true _ new);
      domain = (not-contains seen_domains (effective rc.name domain)).0 (not-true _ new_domain);
    }

abbrev names_of : List ClusterSpec → List Bytes
names_of cs = map (λ c. c.name) cs

abbrev domains_of : List ClusterSpec → List Bytes
domains_of cs = map (λ c. effective c.name c.domain) cs

-- Strings that stay clear of one more are not equal to it.
Apart-split :
    (seen : List Bytes) (s : Bytes) (ns : List Bytes)
    → All (Apart (s ∷ seen)) ns
    → All (λ t. t ≢ s) ns × All (Apart seen) ns
Apart-split seen s [] all = (tt, tt)
Apart-split seen s (n ∷ ns) all =
    let rest = Apart-split seen s ns all.1 in ((λ e. all.0.0 (sym e), rest.0), (all.0.1, rest.1))

record AllParsed (seen seen_domains : List Bytes) (cs : List ClusterSpec) : Type 0 where
  each : All ValidCluster cs
  distinct_names : Distinct (names_of cs)
  distinct_domains : Distinct (domains_of cs)
  new_names : All (Apart seen) (names_of cs)
  new_domains : All (Apart seen_domains) (domains_of cs)

parse_clusters-AllParsed :
    (talos : TalosSpec) (seen seen_domains : List Bytes) (rcs : List RawCluster)
    (cs : List ClusterSpec)
    → parse_clusters talos seen seen_domains rcs ≡ some cs
    → AllParsed seen seen_domains cs
unfolding parse_clusters
parse_clusters-AllParsed talos seen seen_domains [] cs e =
    subst (AllParsed seen seen_domains) (some_inj.0 e) record {
      each = tt;
      distinct_names = tt;
      distinct_domains = tt;
      new_names = tt;
      new_domains = tt;
    }
parse_clusters-AllParsed talos seen seen_domains (rc ∷ rcs) cs e =
    let (c, one, e1) = bind-some (parse_cluster talos seen seen_domains rc) _ cs e in
    let domain = effective c.name c.domain in
    let (rest, more, e2) =
      bind-some (parse_clusters talos (c.name ∷ seen) (domain ∷ seen_domains) rcs) _ cs e1 in
    let p = parse_cluster-Parsed talos seen seen_domains rc c one in
    let q = parse_clusters-AllParsed talos (c.name ∷ seen) (domain ∷ seen_domains) rcs rest more in
    let names = Apart-split seen c.name (names_of rest) q.new_names in
    let domains = Apart-split seen_domains domain (domains_of rest) q.new_domains in
    subst (AllParsed seen seen_domains) (some_inj.0 e2) record {
      each = (p.valid, q.each);
      distinct_names = (names.0, q.distinct_names);
      distinct_domains = (domains.0, q.distinct_domains);
      new_names = (p.name, names.1);
      new_domains = (p.domain, domains.1);
    }

-- A configuration of at least one cluster, all of them valid, in which no name and no effective
-- domain occurs twice.
pub record ValidConfig (cfg : Config) : Type 0 where
  pub each : All ValidCluster cfg.clusters
  pub distinct_names : Distinct (map (λ c. c.name) cfg.clusters)
  pub distinct_domains : Distinct (map (λ c. effective c.name c.domain) cfg.clusters)
  pub not_empty : 0 < length cfg.clusters

parse_clusters-some :
    (talos : TalosSpec) (rcs : List RawCluster) (cs : List ClusterSpec)
    → any_cluster rcs ≡ true
    → parse_clusters talos [] [] rcs ≡ some cs
    → 0 < length cs
unfolding parse_clusters
parse_clusters-some talos [] cs a e = absurd cc
parse_clusters-some talos (rc ∷ rcs) cs a e =
    let (c, one, e1) = bind-some (parse_cluster talos [] [] rc) _ cs e in
    let (rest, more, e2) =
      bind-some (parse_clusters talos (c.name ∷ []) (effective c.name c.domain ∷ []) rcs) _ cs e1 in
    subst (λ k. 0 < length k) (some_inj.0 e2) (omega arith)

-- A configuration that Parse returns has at least one cluster; no two clusters share a name or an
-- effective domain, and each one has a label as its name, at least one control plane, no negative
-- count of workers and a valid intent.
pub parse_file-ValidConfig :
    (raw : RawConfig) (cfg : Config) → parse_file raw ≡ some cfg → ValidConfig cfg
unfolding parse_file
parse_file-ValidConfig raw cfg e =
    let talos = resolve_talos no_talos (some raw.talos) in
    let (tests, e1) = guard-some _ _ cfg e in
    let (cs, parsed, e2) = bind-some (parse_clusters talos [] [] raw.clusters) _ cfg e1 in
    let all = parse_clusters-AllParsed talos [] [] raw.clusters cs parsed in
    let any = (and-both (is_version_1 raw.version) (any_cluster raw.clusters) tests).1 in
    subst ValidConfig (some_inj.0 e2) record {
      each = all.each;
      distinct_names = all.distinct_names;
      distinct_domains = all.distinct_domains;
      not_empty = parse_clusters-some talos raw.clusters cs any parsed;
    }
