-- ===== src/Lib.antt =====
-- The verification library of hil_lab, the controller side of a signal-level hardware-in-the-loop
-- bench for servo drives.
--
-- The program's parts, and how they interact. A test session (lab/session.py) takes the lock of a bench
-- and a labgrid place, and drives a backend of the contract in host/hil/core.py. There are two kinds of
-- backend: host/hil/backends/zynq.py, over a transport such as the memory-mapped register window of
-- host/hil/transports/uio.py, and host/hil/backends/beaglebone_pru.py, over the request/response client
-- of the PRU firmwares (boards/beaglebone_black/host) and a snapshot in shared memory. Beside them,
-- fieldbus/canopen talks to the drive under test over CAN: frames, network management, emergencies,
-- object transfers, PDO mappings and the CiA 402 state machine.
--
-- Which file models which part:
--   Prelude, Errors        numbers, lists, bit operations, bytes, integers; exceptions as values, and the
--                          monads `Result` and `Exec`, which keeps the state beside an exception
--   Canopen/Frame          fieldbus/canopen/socketcan.py: CanFrame, pack_can_frame, unpack_can_frame, the bus
--   Canopen/Nmt, Emcy      fieldbus/canopen/nmt.py and emcy.py
--   Canopen/Sdo            fieldbus/canopen/sdo.py: the client and its typed calls, over any bus
--   Canopen/Pdo            fieldbus/canopen/pdo.py: mappings, encode, decode, configure_pdo_mapping
--   Canopen/Cia402         fieldbus/canopen/cia402.py: decode_state, next_controlword, enable_operation
--   Hil/Capability, Core   host/hil/core.py
--   Hil/RegisterMap        host/hil/transports/register_map.py
--   Hil/Uio                host/hil/transports/uio.py: UioMmio in Uio/Mapped, ZynqUioTransport in Uio
--   Hil/Scenario           host/hil/scenario.py: scenario_from_dict, validate_against
--   Hil/Zynq               host/hil/backends/zynq.py, with both boards opened over Hil/Uio in Zynq/Opening
--   Hil/Pru                host/hil/backends/beaglebone_pru.py
--   Bbb/Protocol, Rpc      boards/beaglebone_black/host/hil_pru_protocol.py and HilPru of hil_pru_cli.py
--   Bbb/Floats             the float arithmetic that these files call, as a parameter
--   Bbb/Abz, Conversions   boards/beaglebone_black/host/hil_abz.py, with the conversions of hil_pru_protocol.py
--   Bbb/Loopback           boards/beaglebone_black/host/hil_pru_cli.py: hello and the loopback benchmark
--   Bbb/Raw                boards/beaglebone_black/host/hil_raw_shared.py: records and analysis of a capture
--   Bbb/Devmem             the readers of hil_raw_shared.py and hil_pwm_shared.py over /dev/mem
--   Bbb/Console            what the command lines share: the client around a command, the exit code
--   Bbb/Stim, RawConsole   boards/beaglebone_black/host/hil_stim_cli.py and hil_raw_cli.py
--   Bbb/SensorConsole      boards/beaglebone_black/host/hil_sensor_cli.py
--   Bbb/Remoteproc         boards/beaglebone_black/scripts/pru0_ctl.py and pru1_ctl.py
--   Bbb/Sensor             boards/beaglebone_black/host/hil_sensor.py: the BiSS frame and its CRC
--   Bbb/Snapshot           boards/beaglebone_black/host/hil_pwm_shared.py: the reader of the snapshot
--   Lab                    lab/session.py, lab/resources/model.py, lab/labgrid/client.py, fieldbus/core.py
--
-- State and operations. A Python object becomes a record, and a method that changes something a function
-- in `Exec`, from the state to a result and the state. The outside world is a record of operations that
-- the definitions take: the CAN bus, the SDO server, the register window, the transport, the two PRU
-- clients, the device behind them, the command runner. Its theorems hold for each of these, or for the
-- concrete ones that are given: a bus that replays frames, a register file that keeps its writes, a counter
-- that runs on between reads, memory that changes between accesses, a firmware behind a queue.
--
-- Bounds. The loops have the bounds of the code: max_frames, max_steps, the eight attempts of
-- read_timestamp, the retries of the snapshot reader. No fuel is added to them. Only wait_for_rpmsg waits on
-- the clock, and takes a number of its turns; one more than the sleeps that are left is enough. Registers and
-- wire fields are numbers below 2^32, 2^16 or 2^8, with the masks that the code writes.
--
-- Floats. Where the code computes with floats, the definitions take Python's operations as a parameter, with
-- no law assumed of them; the theorems hold for any. Float results of which nothing is stated, such as the
-- statistics, are modelled as the same calls in the same order.
--
-- Not modelled: the texts of exceptions and of the firmware revision, negative numbers where a guard refuses
-- them, the operating system behind files, devices and sockets, the parsing of command lines and the printing
-- of their results, the checks of the repository's text, the firmware, the RTL and the board projects.
pub mod Prelude
pub mod Errors
pub mod Hil
pub mod Canopen
pub mod Bbb
pub mod Lab
