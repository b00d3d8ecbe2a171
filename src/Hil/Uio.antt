-- ===== src/Hil/Uio.antt =====
-- host/hil/transports/uio.py: the memory-mapped register window, and the transport that drives a
-- Zynq backend through 32-bit register accesses.
pub mod Mapped
pub mod Registers
pub mod Control
pub mod Handshake
pub mod Clock
pub mod Requests
use text.Mathlib.Text.{◌==◌ as str_eq}
use hil_lab.Prelude.{
  ℕ, zero, suc, ◌+◌, ◌-◌, ◌*◌, ◌/◌, ◌%◌, ◌^◌, String, Bool, true, false, Option, none, some, ◌&&◌,
  ◌||◌, List, [], ◌∷◌, ltb, leb, ◌==◌, not, if◌then◌else◌, bit_and, bit_or,
}
use hil_lab.Prelude.Int.{ℤ, pos, negsuc, is_pos}
use hil_lab.Prelude.Bits.{any_bits, and_not}
use hil_lab.Errors.{
  Result, ok, err, or_err, bind, Exec, pure, raise, lift, raise_if, ◌>>=◌, ◌>>◌, value_error,
  infrastructure, invalid_configuration,
}
use hil_lab.Hil.Core.{
  Timestamp, make_timestamp, BackendIdentity, make_identity, axi_build, host_api_version,
  PwmMeasurement, DioEvent,
}
use hil_lab.Hil.RegisterMap.{
  magic_word, abi_version, reg_magic, reg_abi_version, reg_backend_id, reg_capabilities,
  reg_tick_hz, reg_counter_bits, reg_timestamp_lo, reg_timestamp_hi, reg_control, reg_abz_step,
  reg_build_id, reg_status, reg_pwm_seq, reg_pwm_base, pwm_stride, reg_pwm_valid, reg_pwm_faults,
  reg_evt_ts_lo, reg_evt_ts_hi, reg_evt_mask, reg_evt_value, reg_evt_id, reg_evt_push,
  reg_evt_status, ctrl_hil_enable, ctrl_force_safe, ctrl_clear_faults, ctrl_abz_enable,
  ctrl_abz_direction_forward, evt_status_full, evt_status_overflow, evt_status_order_error,
  backend_type, decode_capabilities,
}

pub record Mmio32 : Type 1 where
  pub State : Type 0
  pub read32 : ℕ → Exec State ℕ
  pub write32 : ℕ → ℕ → Exec State Unit

-- `value & 0xFFFFFFFF`.
abbrev pub low_word : ℕ → ℕ
low_word value = bit_and value 0xffff_ffff

-- The mapping that `health` returns.
pub record Health : Type 0 where
  pub control : ℕ
  pub status : ℕ
  pub event_status : ℕ
  pub event_queue_level : ℕ
  pub event_queue_full : Bool
  pub event_queue_overflow : Bool
  pub event_queue_order_error : Bool
  pub pwm_fault_flags : ℕ

-- The keyword arguments of `configure_abz`, each absent or given.
pub record AbzConfig : Type 0 where
  pub transition_ticks : Option ℤ
  pub step_period_ticks : Option ℤ
  pub initial_phase : Option ℤ
  pub index_interval : Option ℤ
  pub index_interval_edges : Option ℤ
  pub direction_forward : Option Bool
  pub direction : Option String

-- `config.get(key, default)`.
abbrev pub get {ℓ} : {A : Type ℓ} → Option A → A → A
get none d = d
get (some a) d = a

-- `x <= 0`, and the number that a positive `x` is.
abbrev pub is_positive : ℤ → Bool
is_positive (pos n) = not (n == 0)
is_positive (negsuc n) = false

abbrev pub magnitude : ℤ → ℕ
magnitude (pos n) = n
magnitude (negsuc n) = 0

abbrev pub ticks_of : AbzConfig → ℤ
ticks_of config = get config.transition_ticks (get config.step_period_ticks (pos 0))

abbrev pub goes_forward : AbzConfig → Bool
goes_forward config =
    get config.direction_forward (not (str_eq (get config.direction "forward") "reverse"))

-- `expected_backend_type is not None and backend_type != expected_backend_type`.
abbrev pub is_unexpected : Option String → String → Bool
is_unexpected none t = false
is_unexpected (some e) t = not (str_eq t e)

-- The methods of `ZynqUioTransport`; the identity that the constructor keeps is an argument.
module _ (mmio : Mmio32) where
  -- `ZynqUioTransport.__init__`, up to the identity.
  unfoldable pub handshake : Option String → String → Exec mmio.State BackendIdentity
  unfolding make_identity
  handshake expected_backend_type hardware_revision = do
    magic ← mmio.read32 reg_magic
    abi ← mmio.read32 reg_abi_version
    raise_if (not (magic == magic_word)) infrastructure
    raise_if (not (abi / 2 ^ 16 == abi_version / 2 ^ 16)) infrastructure
    backend_id ← mmio.read32 reg_backend_id
    board ← lift (or_err (backend_type backend_id) infrastructure)
    raise_if (is_unexpected expected_backend_type board) invalid_configuration
    tick_hz ← mmio.read32 reg_tick_hz
    counter_bits ← mmio.read32 reg_counter_bits
    raise_if (tick_hz == 0 || not (counter_bits == 64)) infrastructure
    caps ← mmio.read32 reg_capabilities
    build ← mmio.read32 reg_build_id
    lift (
        make_identity (record {
          backend_type = board;
          hardware_revision = hardware_revision;
          firmware_revision = axi_build build;
          api_version = host_api_version;
          capabilities = decode_capabilities caps;
          tick_hz = tick_hz;
          counter_bits = counter_bits;
        }))

  -- The loop of `read_timestamp` with `n` attempts left.
  unfoldable pub timestamp_loop : ℕ → ℕ → Exec mmio.State Timestamp
  unfolding make_timestamp
  timestamp_loop tick_hz zero = raise infrastructure
  timestamp_loop tick_hz (suc n) = do
    hi0 ← mmio.read32 reg_timestamp_hi
    lo ← mmio.read32 reg_timestamp_lo
    hi1 ← mmio.read32 reg_timestamp_hi
    let rest = timestamp_loop tick_hz n
    if hi0 == hi1 then lift (make_timestamp (bit_or (hi0 * 2 ^ 32) lo) tick_hz 64) else rest

  unfoldable pub read_timestamp : BackendIdentity → Exec mmio.State Timestamp
  unfolding timestamp_loop
  read_timestamp identity = timestamp_loop identity.tick_hz 8

  unfoldable pub force_safe : Bool → Exec mmio.State Unit
  force_safe asserted = do
    value ← mmio.read32 reg_control
    mmio.write32 reg_control
        (if asserted then bit_or value ctrl_force_safe else and_not value ctrl_force_safe)

  unfoldable pub health : Exec mmio.State Health
  health = do
    status ← mmio.read32 reg_status
    event_status ← mmio.read32 reg_evt_status
    control ← mmio.read32 reg_control
    faults ← mmio.read32 reg_pwm_faults
    pure (record {
      control = control;
      status = status;
      event_status = event_status;
      event_queue_level = bit_and (event_status / 2 ^ 8) 0xffff;
      event_queue_full = any_bits event_status evt_status_full;
      event_queue_overflow = any_bits event_status evt_status_overflow;
      event_queue_order_error = any_bits event_status evt_status_order_error;
      pwm_fault_flags = bit_and faults 0x3f;
    })

  unfoldable pub read_pwm : ℕ → Exec mmio.State PwmMeasurement
  read_pwm channel = do
    raise_if (not (ltb channel 3)) invalid_configuration
    let base = reg_pwm_base + channel * pwm_stride
    valid_bits ← mmio.read32 reg_pwm_valid
    sequence ← mmio.read32 reg_pwm_seq
    period_ticks ← mmio.read32 (base + 0x0)
    high_ticks ← mmio.read32 (base + 0x4)
    low_ticks ← mmio.read32 (base + 0x8)
    pure (record {
      channel = channel;
      sequence = sequence;
      period_ticks = period_ticks;
      high_ticks = high_ticks;
      low_ticks = low_ticks;
      valid = any_bits valid_bits (2 ^ channel);
      overflow = false;
    })

  unfoldable pub configure_abz : AbzConfig → Exec mmio.State Unit
  configure_abz config = do
    raise_if (not (is_positive (ticks_of config))) invalid_configuration
    raise_if (not (is_pos (get config.initial_phase (pos 0)) 0)) invalid_configuration
    raise_if (not (is_pos (get config.index_interval (get config.index_interval_edges (pos 0))) 0))
        invalid_configuration
    mmio.write32 reg_abz_step (magnitude (ticks_of config))
    value ← mmio.read32 reg_control
    mmio.write32 reg_control (
        if goes_forward config
        then bit_or value ctrl_abz_direction_forward
        else and_not value ctrl_abz_direction_forward)

  unfoldable pub start_abz : Exec mmio.State Unit
  start_abz = do
    control ← mmio.read32 reg_control
    let value = bit_or (bit_or control ctrl_hil_enable) ctrl_abz_enable
    mmio.write32 reg_control (and_not value ctrl_force_safe)

  unfoldable pub stop_abz : Exec mmio.State Unit
  stop_abz = mmio.read32 reg_control >>= λ control.
      mmio.write32 reg_control (and_not control ctrl_abz_enable)

  unfoldable pub schedule_dio : DioEvent → Exec mmio.State Unit
  schedule_dio event = do
    status ← mmio.read32 reg_evt_status
    raise_if (any_bits status evt_status_full) infrastructure
    mmio.write32 reg_evt_ts_lo (low_word event.target_ticks)
    mmio.write32 reg_evt_ts_hi (low_word (event.target_ticks / 2 ^ 32))
    mmio.write32 reg_evt_mask event.mask
    mmio.write32 reg_evt_value event.value
    mmio.write32 reg_evt_id event.event_id
    mmio.write32 reg_evt_push 1

  unfoldable pub clear_faults : Exec mmio.State Unit
  clear_faults = mmio.read32 reg_control >>= λ control.
      mmio.write32 reg_control (bit_or control ctrl_clear_faults)
