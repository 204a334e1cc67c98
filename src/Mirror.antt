-- ===== src/Mirror.antt =====
-- The registry mirror, internal/mirror: digests, the structure of manifests, and the test whether an
-- image is completely cached.
pub mod Digest
pub mod Manifest
pub mod Cached
mod Tests
