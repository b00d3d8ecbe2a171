-- ===== src/Hil/Core.antt =====
-- host/hil/core.py: the values of the backend contract, with the checks of their constructors, and
-- the checks that the backend class itself makes.
use text.Mathlib.Text.{◌==◌ as str_eq}
use hil_lab.Prelude.{ℕ, String, Bool, Option, ◌==◌, not, if◌then◌else◌}
use hil_lab.Errors.{
  Result, ok, err, refuse_if, unsupported_capability, invalid_configuration, value_error,
}
use hil_lab.Hil.Capability.{Capability, Capabilities, has_required}

pub record Timestamp : Type 0 where
  pub ticks : ℕ
  pub tick_hz : ℕ
  pub counter_bits : ℕ

-- `Timestamp.__post_init__`. Negative numbers, refused too, are not representable.
unfoldable pub make_timestamp : ℕ → ℕ → ℕ → Result Timestamp
make_timestamp ticks tick_hz counter_bits =
    if tick_hz == 0
    then err value_error
    else if counter_bits == 0
    then err value_error
    else ok (record { ticks = ticks; tick_hz = tick_hz; counter_bits = counter_bits })

-- The text of `firmware_revision`, by the numbers that are printed into it.
pub data FirmwareRevision : Type 0 where
  axi_build : ℕ → FirmwareRevision
  pru : ℕ → Option ℕ → FirmwareRevision

pub record BackendIdentity : Type 0 where
  pub backend_type : String
  pub hardware_revision : String
  pub firmware_revision : FirmwareRevision
  pub api_version : String
  pub capabilities : Capabilities
  pub tick_hz : ℕ
  pub counter_bits : ℕ

abbrev pub host_api_version : String
host_api_version = "0.1"

-- `BackendIdentity.__post_init__`.
unfoldable pub make_identity : BackendIdentity → Result BackendIdentity
make_identity identity =
    if str_eq identity.backend_type ""
    then err value_error
    else if identity.tick_hz == 0
    then err value_error
    else if identity.counter_bits == 0
    then err value_error
    else ok identity

pub record PwmMeasurement : Type 0 where
  pub channel : ℕ
  pub sequence : ℕ
  pub period_ticks : ℕ
  pub high_ticks : ℕ
  pub low_ticks : ℕ
  pub valid : Bool
  pub overflow : Bool

-- All its numbers are non-negative, which `DioEvent.__post_init__` checks.
pub record DioEvent : Type 0 where
  pub event_id : ℕ
  pub target_ticks : ℕ
  pub mask : ℕ
  pub value : ℕ

-- `HilBackend.supports`, `require` and `validate_contract`, which read only the identity.
abbrev pub supports : BackendIdentity → Capability → Bool
supports identity capability = identity.capabilities capability

abbrev pub require : BackendIdentity → Capability → Result (Unit {0})
require identity capability =
    refuse_if (not (supports identity capability)) (unsupported_capability capability)

abbrev pub validate_contract : BackendIdentity → Result (Unit {0})
validate_contract identity =
    refuse_if (not (has_required identity.capabilities)) invalid_configuration
