-- ===== src/Cluster.antt =====
-- The cluster model of internal/cluster: names, nodes, address reservations and membership.
pub mod Name
pub mod Node
pub mod Reserve
pub mod Members
pub mod Create
pub mod Intent
pub mod Subnet
mod Tests
