-- ===== src/Hil/Capability.antt =====
-- The capability names of host/hil/core.py, and frozen sets of them by their membership tests.
use hil_lab.Prelude.{Bool, ◌&&◌}

pub data Capability : Type 0 where
  timebase force_safe pwm_capture pwm_generator pwm_complementary_monitor abz_generator : Capability
  abz_capture ssi_sensor_emulator ssi_sensor_capture biss_sensor_emulator : Capability
  spi_sensor_emulator dio_scheduler fault_injection dac_feedback pmsm_plant_lite : Capability
  pmsm_plant dual_inertia_plant : Capability

-- `frozenset[Capability]`, and `capability in capabilities`.
abbrev pub Capabilities : Type 0
Capabilities = Capability → Bool

-- `not (REQUIRED_BACKEND_CAPABILITIES - capabilities)`.
abbrev pub has_required : Capabilities → Bool
has_required caps = caps timebase && caps force_safe
