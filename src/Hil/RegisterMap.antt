-- ===== src/Hil/RegisterMap.antt =====
-- host/hil/transports/register_map.py: the AXI register window, its bits, and the capability word.
use hil_lab.Prelude.{ℕ, ◌^◌, ◌≡◌, ◌↔◌, String, true, Option, none, some, ◌==◌, arith, if◌then◌else◌}
use hil_lab.Prelude.Bits.{bit, any_bits, any_bits-pow}
use hil_lab.Hil.Capability.{
  Capability, Capabilities, timebase, force_safe, pwm_capture, pwm_generator,
  pwm_complementary_monitor, abz_generator, abz_capture, ssi_sensor_emulator, ssi_sensor_capture,
  biss_sensor_emulator, spi_sensor_emulator, dio_scheduler, fault_injection, dac_feedback,
  pmsm_plant_lite, pmsm_plant, dual_inertia_plant,
}

abbrev pub magic_word : ℕ
magic_word = 0x4849_4c32

abbrev pub abi_version : ℕ
abi_version = 0x0001_0000

abbrev pub map_size : ℕ
map_size = 0x1000

abbrev pub reg_magic : ℕ
reg_magic = 0x000

abbrev pub reg_abi_version : ℕ
reg_abi_version = 0x004

abbrev pub reg_backend_id : ℕ
reg_backend_id = 0x008

abbrev pub reg_capabilities : ℕ
reg_capabilities = 0x00c

abbrev pub reg_tick_hz : ℕ
reg_tick_hz = 0x010

abbrev pub reg_counter_bits : ℕ
reg_counter_bits = 0x014

abbrev pub reg_timestamp_lo : ℕ
reg_timestamp_lo = 0x018

abbrev pub reg_timestamp_hi : ℕ
reg_timestamp_hi = 0x01c

abbrev pub reg_control : ℕ
reg_control = 0x020

abbrev pub reg_abz_step : ℕ
reg_abz_step = 0x028

abbrev pub reg_build_id : ℕ
reg_build_id = 0x02c

abbrev pub reg_status : ℕ
reg_status = 0x030

abbrev pub reg_pwm_seq : ℕ
reg_pwm_seq = 0x034

abbrev pub reg_pwm_base : ℕ
reg_pwm_base = 0x040

abbrev pub pwm_stride : ℕ
pwm_stride = 0x10

abbrev pub reg_pwm_valid : ℕ
reg_pwm_valid = 0x06c

abbrev pub reg_pwm_faults : ℕ
reg_pwm_faults = 0x070

abbrev pub reg_evt_ts_lo : ℕ
reg_evt_ts_lo = 0x100

abbrev pub reg_evt_ts_hi : ℕ
reg_evt_ts_hi = 0x104

abbrev pub reg_evt_mask : ℕ
reg_evt_mask = 0x108

abbrev pub reg_evt_value : ℕ
reg_evt_value = 0x10c

abbrev pub reg_evt_id : ℕ
reg_evt_id = 0x110

abbrev pub reg_evt_push : ℕ
reg_evt_push = 0x114

abbrev pub reg_evt_status : ℕ
reg_evt_status = 0x118

abbrev pub ctrl_hil_enable : ℕ
ctrl_hil_enable = 2 ^ 0

abbrev pub ctrl_force_safe : ℕ
ctrl_force_safe = 2 ^ 1

abbrev pub ctrl_clear_faults : ℕ
ctrl_clear_faults = 2 ^ 2

abbrev pub ctrl_abz_enable : ℕ
ctrl_abz_enable = 2 ^ 3

abbrev pub ctrl_abz_direction_forward : ℕ
ctrl_abz_direction_forward = 2 ^ 4

abbrev pub evt_status_full : ℕ
evt_status_full = 2 ^ 1

abbrev pub evt_status_overflow : ℕ
evt_status_overflow = 2 ^ 2

abbrev pub evt_status_order_error : ℕ
evt_status_order_error = 2 ^ 3

-- `BACKEND_TYPES`; `none` is the KeyError.
abbrev pub backend_type : ℕ → Option String
backend_type id =
    if id == 0x0000_7010
    then some "zynq7010_ax7010"
    else if id == 0x0002_c600
    then some "zu2cg_axu2cgb"
    else none

-- `CAPABILITY_BITS`.
abbrev pub capability_bit : Capability → ℕ
capability_bit timebase = 0
capability_bit force_safe = 1
capability_bit pwm_capture = 2
capability_bit pwm_generator = 3
capability_bit pwm_complementary_monitor = 4
capability_bit abz_generator = 5
capability_bit abz_capture = 6
capability_bit ssi_sensor_emulator = 7
capability_bit ssi_sensor_capture = 8
capability_bit biss_sensor_emulator = 9
capability_bit spi_sensor_emulator = 10
capability_bit dio_scheduler = 11
capability_bit fault_injection = 12
capability_bit dac_feedback = 13
capability_bit pmsm_plant_lite = 14
capability_bit pmsm_plant = 15
capability_bit dual_inertia_plant = 16

unfoldable pub decode_capabilities : ℕ → Capabilities
decode_capabilities bits capability = any_bits bits (2 ^ capability_bit capability)

-- A capability is in the decoded set exactly when its bit of the capability word is set.
pub decode_capabilities_iff :
    (bits : ℕ) (c : Capability)
    → (decode_capabilities bits c ≡ true) ↔ (bit bits (capability_bit c) ≡ 1)
unfolding decode_capabilities
decode_capabilities_iff bits c = ground (arith, any_bits-pow bits (capability_bit c))
