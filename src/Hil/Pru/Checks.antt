-- ===== src/Hil/Pru/Checks.antt =====
-- host/hil/backends/beaglebone_pru.py: the data of the backend, the objects that it is given, and its
-- checks and tables.
use hil_lab.Prelude.{
  ℕ, ◌*◌, ◌^◌, Bool, true, false, Option, none, some, not, ◌&&◌, ◌||◌, ◌==◌, ltb, if◌then◌else◌,
  bit_or,
}
use hil_lab.Prelude.Int.{ℤ, pos, is_pos}
use hil_lab.Prelude.Bits.{any_bits}
use hil_lab.Errors.{Result, ok, err, Exec, infrastructure, invalid_configuration}
use hil_lab.Bbb.Protocol.{
  Message, err_invalid_argument, cap_timebase, cap_force_safe, cap_pwm_capture,
  cap_pwm_complementary_monitor, cap_abz_emulator, cap_hall_emulator, cap_ssi_emulator,
  cap_biss_emulator, cap_spi_sensor_emulator,
}
use hil_lab.Bbb.Rpc.{Args}
use hil_lab.Hil.Capability.{
  Capability, Capabilities, timebase, pwm_capture, pwm_complementary_monitor, abz_generator,
  ssi_sensor_emulator, biss_sensor_emulator, spi_sensor_emulator,
  force_safe as force_safe_capability,
}
use hil_lab.Hil.Uio.{get}

-- The fields of a PWM snapshot that the backend reads.
pub record Sample : Type 0 where
  pub period_ticks : ℕ
  pub high_ticks : ℕ
  pub low_ticks : ℕ
  pub flags : ℕ

pub record Snapshot : Type 0 where
  pub tick_hz : ℕ
  pub running : Bool
  pub event_seq : ℕ
  pub fault_flags : ℕ
  pub channel : ℕ → Sample

-- The objects that the constructor is given, over their shared state: `request` of the two clients,
-- and the snapshot reader with `ring_limit=0` and without arguments.
pub record Board : Type 1 where
  pub State : Type 0
  pub capture : ℕ → Args → Exec State Message
  pub stimulus : Option (ℕ → Args → Exec State Message)
  pub read_limited : Exec State Snapshot
  pub read_plain : Exec State Snapshot

-- What `_hello` keeps of a response.
pub record Hello : Type 0 where
  pub capabilities_raw : ℕ
  pub tick_hz : ℕ
  pub counter_bits : ℕ
  pub firmware_version : ℕ

unfoldable pub check_response : Message → Result (Unit {0})
check_response response =
    if response.flags == 0
    then ok tt
    else if any_bits response.flags err_invalid_argument
    then err invalid_configuration
    else err infrastructure

abbrev pub pwm_valid_mask : ℕ
pwm_valid_mask = bit_or (2 ^ 2) (bit_or (2 ^ 3) (2 ^ 4))

-- The table of `_map_capabilities`.
abbrev pub pru_bit : Capability → Option ℕ
pru_bit timebase = some cap_timebase
pru_bit force_safe_capability = some cap_force_safe
pru_bit pwm_capture = some cap_pwm_capture
pru_bit pwm_complementary_monitor = some cap_pwm_complementary_monitor
pru_bit abz_generator = some cap_abz_emulator
pru_bit ssi_sensor_emulator = some cap_ssi_emulator
pru_bit biss_sensor_emulator = some cap_biss_emulator
pru_bit spi_sensor_emulator = some cap_spi_sensor_emulator
pru_bit c = none

unfoldable pub map_capabilities : ℕ → ℕ → Capabilities
map_capabilities pru0_caps pru1_caps capability = elim (pru_bit capability) [
  | none ↦ false
  | some mask ↦ any_bits (bit_or pru0_caps pru1_caps) mask
]

-- `stimulus_active`.
abbrev pub drives_stimulus : ℕ → Bool
drives_stimulus caps =
    any_bits caps cap_abz_emulator
    || (any_bits caps cap_hall_emulator
        || (any_bits caps cap_ssi_emulator
            || (any_bits caps cap_biss_emulator || any_bits caps cap_spi_sensor_emulator)))

-- The checks of the constructor on the second client's answer.
abbrev pub check_stimulus : Hello → Option Hello → Result (Unit {0})
check_stimulus capture none = ok tt
check_stimulus capture (some stimulus) =
    if not (stimulus.tick_hz == capture.tick_hz)
      || not (stimulus.counter_bits == capture.counter_bits)
    then err infrastructure
    else if drives_stimulus stimulus.capabilities_raw
        && not (any_bits stimulus.capabilities_raw cap_force_safe)
    then err infrastructure
    else ok tt

abbrev pub caps_of : Option Hello → ℕ
caps_of none = 0
caps_of (some h) = h.capabilities_raw

abbrev pub version_of : Option Hello → Option ℕ
version_of none = none
version_of (some h) = some h.firmware_version

-- The keyword arguments of `configure_abz`.
pub record AbzConfig : Type 0 where
  pub transition_ticks : Option ℤ
  pub initial_phase : Option ℤ
  pub index_interval : Option ℤ
  pub index_width : Option ℤ
  pub direction_forward : Option Bool

abbrev pub interval_of : AbzConfig → ℤ
interval_of config = get config.index_interval (pos 0)

abbrev pub width_of : AbzConfig → ℤ
width_of config = get config.index_width (if is_pos (interval_of config) 0 then pos 0 else pos 1)

-- The arguments of the request, or nothing for a configuration that is refused: the guards keep
-- the four numbers non-negative.
abbrev pub abz_numbers : ℤ → ℤ → ℤ → ℤ → Bool → Option Args
abz_numbers (pos ticks) (pos phase) (pos interval) (pos width) forward =
    if ticks == 0
    then none
    else if not (ltb phase 4)
    then none
    else if not (interval == 0) && ltb interval width
    then none
    else some (record {
      arg0 = ticks;
      arg1 = interval;
      arg2 = width;
      arg3 = bit_or (if forward then 0 else 1) (phase * 2 ^ 8);
    })
abz_numbers a b c d forward = none

abbrev pub abz_args : AbzConfig → Option Args
abz_args config =
    abz_numbers (get config.transition_ticks (pos 0)) (get config.initial_phase (pos 0))
      (interval_of config) (width_of config) (get config.direction_forward true)

-- What `health` returns; the entries that are there only with a second client or with PWM capture
-- are optional.
pub record Health : Type 0 where
  pub capture_ticks : ℕ
  pub tick_hz : ℕ
  pub counter_bits : ℕ
  pub stimulus_ticks : Option ℕ
  pub pwm : Option (Bool × ℕ × ℕ)
