-- ===== src/Canopen.antt =====
-- The CANopen controller helpers of fieldbus/canopen.
pub mod Frame
pub mod Nmt
pub mod Emcy
pub mod Sdo
pub mod Pdo
pub mod Cia402
mod Tests
