-- ===== src/Pressure.antt =====
-- The host-pressure gates of internal/hostpressure. Sizes in MiB and bytes are natural numbers: the
-- code treats a negative reading as an unmeasured one, which is 0 here. The printed text of a
-- finding is left out; its severity and what it is about are kept.
pub mod Usage
pub mod Assess
pub mod Provision
mod Tests
