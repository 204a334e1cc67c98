-- ===== src/Router.antt =====
-- The frame router of the privileged helper, internal/helper/router.go and router_darwin.go, with
-- the FIB mirror of fib_routed_vip.go. Go pointers to ports are port numbers: `addPort` gives each
-- port a fresh one, so two pointers are equal exactly if the numbers are. The router's mutex makes
-- each operation here one step.
pub mod Addr
pub mod Frame
pub mod Checksum
pub mod State
pub mod Routed
pub mod Forward
pub mod Run
mod Tests
