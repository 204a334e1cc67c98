-- ===== src/Daemon.antt =====
-- The daemon tbxd, internal/daemon: the handover between operations on one cluster, and the log of
-- node reboots.
pub mod Preempt
pub mod Reboot
