-- ===== src/Bbb.antt =====
-- boards/beaglebone_black: the messages of the PRU firmware and the client that exchanges them, the readers
-- of shared memory, the command lines and the scripts.
pub mod Protocol
pub mod Rpc
pub mod Abz
pub mod Floats
pub mod Raw
pub mod Devmem
pub mod Conversions
pub mod Loopback
pub mod Console
pub mod Stim
pub mod RawConsole
pub mod Remoteproc
pub mod Snapshot
pub mod Sensor
pub mod SensorConsole
mod Tests
