-- ===== src/Dns.antt =====
-- The authoritative resolver of internal/dns: its wire format and the choice of an answer.
pub mod Message
pub mod Answer
pub mod Resolve
mod Tests
