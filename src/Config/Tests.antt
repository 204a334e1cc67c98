-- ===== src/Config/Tests.antt =====
-- Sizes and a small cluster file.
use talos_box.Base.{
  ◌<◌, ◌-◌, ◌*◌, ◌^◌, false, none, some, [], ◌∷◌, ◌++◌, codes, ◌≡◌, ◌↔◌, refl, arith, ℕ_discrete,
}
use talos_box.Text.{ℤ, pos, negsuc, itoa, atoi, same, contains, to_lower, Bytes-discrete}
use talos_box.Dns.Message.{trim_dot, split}
use talos_box.Dns.Resolve.{has_suffix}
use talos_box.Cluster.Intent.{no_intent, no_input, parse_intent}
use talos_box.Domain.{valid_label, valid_labels, safe, acceptable, validate_domain}
use talos_box.Domain.Canonical.{validate_domain_twice}
use talos_box.Config.Size.{parse_size_mib, size_string, RawNode, resolve_node}
use talos_box.Config.Size.Exact.{parse_size_mib-size_string, parse_size_mib-exact}
use talos_box.Config.File.{
  Config, RawConfig, no_talos, own_domain, parse_cluster, parse_clusters, parse_file,
}
use talos_box.Config.File.Valid.{ValidConfig, parse_file-ValidConfig}

parse_size_mib-gib : parse_size_mib (codes "2GiB") ≡ some (pos 2048)
unfolding parse_size_mib has_suffix atoi same Bytes-discrete ℕ_discrete
parse_size_mib-gib = refl

-- 2^53 GiB are read without an error, as the smallest int.
parse_size_mib-wrap : parse_size_mib (codes "9007199254740992GiB") ≡ some (negsuc (2 ^ 63 - 1))
unfolding parse_size_mib has_suffix atoi same Bytes-discrete ℕ_discrete
parse_size_mib-wrap = refl

parse_size_mib-size_string_example : parse_size_mib (size_string 3072) ≡ some (pos 3072)
parse_size_mib-size_string_example = parse_size_mib-size_string 3072 (omega arith) (omega arith)

parse_size_mib-exact_example :
    (v : ℤ) × (parse_size_mib (itoa 9007199254740992 ++ codes "GiB") ≡ some v)
    × ((v ≡ pos (9007199254740992 * 1024)) ↔ (9007199254740992 < 2 ^ 53))
parse_size_mib-exact_example = parse_size_mib-exact 9007199254740992 (omega arith) (omega arith)

validate_domain-lab : validate_domain (codes "Lab.Test.") false ≡ some (codes "lab.test")
unfolding validate_domain acceptable valid_labels valid_label safe to_lower trim_dot split
    has_suffix same Bytes-discrete ℕ_discrete
validate_domain-lab = refl

validate_domain_twice_example : validate_domain (codes "lab.test") false ≡ some (codes "lab.test")
validate_domain_twice_example =
    validate_domain_twice (codes "Lab.Test.") (codes "lab.test") false validate_domain-lab

abbrev no_node : RawNode
no_node = record { memory = []; cpus = pos 0; disk_size = [] }

abbrev raw_file : RawConfig
raw_file = record {
  version = some (pos 1);
  talos = no_talos;
  clusters =
      record {
        name = codes "dev";
        hypervisor = codes "qemu";
        control_planes = none;
        workers = some (pos 1);
        intent = no_input;
        domain = codes "Dev.k8s.test";
        allow_unsafe_domain = false;
        node = record no_node { memory = codes "4GiB" };
        control_plane = none;
        worker = some (record no_node { cpus = pos 4 });
        talos = none;
      }
      ∷ [];
}

abbrev file : Config
file = record {
  talos = no_talos;
  clusters =
      record {
        name = codes "dev";
        hypervisor = codes "qemu";
        control_planes = pos 1;
        workers = pos 1;
        intent = no_intent;
        domain = [];
        allow_unsafe_domain = false;
        node = record { memory_mib = pos 4096; cpus = pos 2; disk_gib = pos 20 };
        control_plane = none;
        worker = some (record { memory_mib = pos 4096; cpus = pos 4; disk_gib = pos 20 });
        talos = no_talos;
      }
      ∷ [];
}

parse_file-file : parse_file raw_file ≡ some file
unfolding parse_file parse_clusters parse_cluster parse_intent own_domain resolve_node
    parse_size_mib contains validate_domain acceptable valid_labels valid_label safe to_lower
    trim_dot split has_suffix same atoi Bytes-discrete ℕ_discrete
parse_file-file = refl

parse_file-ValidConfig_example : ValidConfig file
parse_file-ValidConfig_example = parse_file-ValidConfig raw_file file parse_file-file
