-- ===== src/Cluster/Node.antt =====
-- Nodes and clusters of internal/cluster/cluster.go. A cluster keeps the fields that its node
-- operations read or write; the image pins and the provisioning intent are data that they
-- pass on. `sha256` is Go's crypto/sha256, a parameter.
use talos_box.Base.{
  ℕ, ◌+◌, ◌-◌, ◌/◌, ◌%◌, Option, List, [], ◌∷◌, ◌++◌, Bytes, codes, byte_at, ltb, if◌then◌else◌,
}
use talos_box.Text.{ℤ}
use talos_box.Net.{ip, format_ip}

-- `Role` is a string with two known values.
pub data Role : Type 0 where
  control_plane : Role
  worker : Role
  other : Bytes → Role

pub record NodeDefaults : Type 0 where
  pub memory_mib : ℕ
  pub cpus : ℕ
  pub disk_gib : ℕ

pub record Node : Type 0 where
  pub name : Bytes
  pub role : Role
  pub mac : Bytes
  pub ip : Bytes

pub record Cluster : Type 0 where
  pub name : Bytes
  pub subnet_index : ℕ
  pub control_planes : ℤ
  pub workers : ℤ
  pub node_defaults : NodeDefaults
  pub control_plane_defaults : Option NodeDefaults
  pub worker_defaults : Option NodeDefaults
  pub nodes : List Node
  pub domain : Bytes

abbrev pub max_subnet_index : ℕ
max_subnet_index = 255

abbrev pub first_node_host : ℕ
first_node_host = 2

abbrev pub last_node_host : ℕ
last_node_host = 179

-- `reservationIP`
unfoldable pub reservation_ip : ℕ → ℕ → Bytes
reservation_ip subnet host = format_ip (ip 172 30 subnet host)

-- A hexadecimal digit, in lower case, and a byte of `HardwareAddr.String`.
abbrev hex_digit : ℕ → ℕ
hex_digit n = if ltb n 10 then b'0' + n else b'a' + (n - 10)

abbrev hex_byte : ℕ → Bytes
hex_byte n = hex_digit (n / 16) ∷ hex_digit (n % 16) ∷ []

-- `DeterministicMAC`: 52:54:00 and the first three bytes of the digest.
unfoldable pub deterministic_mac : (Bytes → Bytes) → Bytes → Bytes → Bytes
deterministic_mac sha256 cluster_name node_name =
    let digest = sha256 (cluster_name ++ (b'/' ∷ node_name)) in
    codes "52:54:00:"
    ++ (hex_byte (byte_at digest 0)
        ++ (b':' ∷ (hex_byte (byte_at digest 1) ++ (b':' ∷ hex_byte (byte_at digest 2)))))

-- `newNode`
unfoldable pub new_node : (Bytes → Bytes) → Bytes → Bytes → Role → Bytes → Node
unfolding deterministic_mac
new_node sha256 cluster_name node_name role address = record {
  name = node_name;
  role = role;
  mac = deterministic_mac sha256 cluster_name node_name;
  ip = address;
}
