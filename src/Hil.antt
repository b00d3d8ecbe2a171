-- ===== src/Hil.antt =====
-- The backend-neutral contract of host/hil: capabilities, the backend class, its transports and
-- adapters.
pub mod Capability
pub mod Core
pub mod RegisterMap
pub mod Uio
pub mod Zynq
pub mod Scenario
pub mod Pru
mod Tests
