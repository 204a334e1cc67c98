-- ===== src/Dns/Tests.antt =====
-- A query for one node, and two clusters of which one has a domain under the other's.
use talos_box.Base.{
  ℕ, Option, none, some, List, [], ◌∷◌, Bytes, codes, ◌≡◌, refl, length, All, ℕ_discrete,
}
use talos_box.Net.{Ip, ip}
use talos_box.Dns.Message.{encode_query, encode_name, parse_question, trim_dot}
use talos_box.Dns.Message.Query.{parse_question-encode_query}
use talos_box.Text.{pos, same, Bytes-discrete}
use talos_box.Cluster.Node.{Cluster}
use talos_box.Cluster.Create.{effective_domain}
use talos_box.Dns.Resolve.{resolve, owner_from, no_owner}
use talos_box.Dns.Resolve.Longest.{Chosen, NoLonger, owner_from-Longest}
use talos_box.Dns.Answer.{answer, parse_answer_ip, error_answer}

abbrev query : Bytes
query =
    18 ∷ 52 ∷ 1 ∷ 0 ∷ 0 ∷ 1 ∷ 0 ∷ 0 ∷ 0 ∷ 0 ∷ 0 ∷ 0 ∷ 2 ∷ b'c' ∷ b'p' ∷ 4 ∷ b't' ∷ b'e' ∷ b's'
    ∷ b't' ∷ 0 ∷ 0 ∷ 1 ∷ 0 ∷ 1 ∷ []

query_test : encode_query (codes "cp.test.") 4660 ≡ some query
unfolding encode_query
query_test = refl

parse_question-encode_query_example :
    parse_question query
    ≡ some record {
      name = trim_dot (codes "cp.test.");
      record_type = 1;
      class = 1;
      end = length query;
    }
parse_question-encode_query_example =
    parse_question-encode_query (codes "cp.test.") 4660 query query_test

abbrev parsed : Option Bytes → Option (Option Ip × ℕ)
parsed none = none
parsed (some message) = parse_answer_ip message 4660

hit_test : parsed (answer query (λ name. some (ip 172 30 0 2)) []) ≡ some (some (ip 172 30 0 2), 0)
unfolding answer parse_answer_ip
hit_test = refl

miss_test : parsed (answer query (λ name. none) (codes "test")) ≡ some (none, 3)
unfolding answer parse_answer_ip encode_name
miss_test = refl

error_test : parsed (error_answer query 2) ≡ some (none, 2)
unfolding error_answer parse_answer_ip
error_test = refl

abbrev zone : Bytes → ℕ → Cluster
zone domain subnet = record {
  name = codes "a";
  subnet_index = subnet;
  control_planes = pos 0;
  workers = pos 0;
  node_defaults = record { memory_mib = 2048; cpus = 2; disk_gib = 20 };
  control_plane_defaults = none;
  worker_defaults = none;
  nodes = [];
  domain = domain;
}

abbrev nested : List Cluster
nested = zone (codes "lab.test") 1 ∷ zone (codes "b.lab.test") 2 ∷ zone (codes "test") 3 ∷ []

resolve_test :
    resolve (λ s. none) (λ mac subnet. []) (codes "x.B.lab.test.") nested ≡ some (ip 172 30 2 200)
unfolding resolve effective_domain same Bytes-discrete ℕ_discrete owner_from
resolve_test = refl

owner_from-Longest_example :
    Chosen
      (codes "x.b.lab.test")
      nested
      no_owner
      (owner_from (codes "x.b.lab.test") nested no_owner)
    × All
        (NoLonger (codes "x.b.lab.test") (owner_from (codes "x.b.lab.test") nested no_owner).domain)
        nested
owner_from-Longest_example = owner_from-Longest (codes "x.b.lab.test") nested
