-- ===== src/Hil/Tests/Prus.antt =====
-- The PRU backend on a board whose clients count their calls, at concrete inputs.
use hil_lab.Prelude.{ℕ, ◌+◌, ◌≡◌, refl, Bool, true, false, none, some, if◌then◌else◌}
use hil_lab.Prelude.Int.{pos}
use hil_lab.Errors.{ok, err, timeout_error, os_error}
use hil_lab.Bbb.Protocol.{Message, magic_word, msg_force_safe}
use hil_lab.Hil.Core.{BackendIdentity, pru}
use hil_lab.Hil.Pru.{Board, AbzConfig, construct, map_capabilities, force_safe}
use hil_lab.Hil.Pru.Safe.{Acknowledges, StimulusSafe, force_safe-acknowledged}

-- The answer of both firmwares: time base, force-safe and ABZ emulation at 200 MHz.
abbrev answer : Message
answer = record {
  type = 0x8001;
  seq = 0;
  flags = 0;
  arg0 = 0x409;
  arg1 = 200_000_000;
  arg2 = 32;
  arg3 = 1;
  magic = magic_word;
  version = 1;
}

abbrev board : Bool → Board
board silent = record {
  State = ℕ;
  capture = λ msg_type args n. (if silent then err timeout_error else ok answer, n + 1);
  stimulus = some (λ msg_type args n. (ok answer, n + 100));
  read_limited = λ n. (err os_error, n);
  read_plain = λ n. (err os_error, n);
}

abbrev bench : BackendIdentity
bench = record {
  backend_type = "bbb_pru";
  hardware_revision = "beaglebone-black";
  firmware_revision = pru 1 (some 1);
  api_version = "0.1";
  capabilities = map_capabilities 0x409 0x409;
  tick_hz = 200_000_000;
  counter_bits = 32;
}

constructed_bench : construct (board false) "beaglebone-black" 0 ≡ (ok bench, 101)
unfolding construct map_capabilities
constructed_bench = refl

forced_bench : force_safe (board false) bench true 0 ≡ (ok tt, 101)
unfolding force_safe map_capabilities
forced_bench = refl

force_safe-acknowledged_example :
    (true ≡ true)
    × (u : ℕ) × Acknowledges (board false).capture msg_force_safe 0 u
    × StimulusSafe (board false) (board false).stimulus u 101
force_safe-acknowledged_example =
    force_safe-acknowledged (board false) bench true 0 101 forced_bench

abbrev slow_reverse : AbzConfig
slow_reverse = record {
  transition_ticks = some (pos 5000);
  initial_phase = some (pos 3);
  index_interval = some (pos 400);
  index_width = none;
  direction_forward = some false;
}
