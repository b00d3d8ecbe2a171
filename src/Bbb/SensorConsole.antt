-- ===== src/Bbb/SensorConsole.antt =====
-- boards/beaglebone_black/host/hil_sensor_cli.py: the commands of the serial sensor, from the parsed options to
-- the exit code. Options that may be negative are given by their residue modulo 2^32, which is all that the
-- code looks at; numbers that are printed in hexadecimal are given as numbers.
pub mod Preview
use hil_lab.Prelude.{
  ℕ, ◌*◌, ◌/◌, ◌^◌, Bool, true, false, not, ◌&&◌, ◌==◌, leb, if◌then◌else◌, Option, none, some, [],
  ◌∷◌, bit_and, bit_or, String,
}
use hil_lab.Errors.{Result, ok, bind, Exec, pure, lift, raise_if, ◌>>=◌, ◌>>◌, value_error}
use hil_lab.Bbb.Floats.{Floats}
use hil_lab.Bbb.Conversions.{us_to_ticks}
use hil_lab.Bbb.Protocol.{Message, msg_force_safe}
use hil_lab.Bbb.Protocol.Codes.{
  msg_serial_config, msg_serial_data, msg_serial_start, msg_serial_stop, msg_serial_status,
}
use hil_lab.Bbb.Sensor.{build_biss_frame}
use hil_lab.Bbb.Rpc.{Rpmsg, Client, Args, no_args, request}
use hil_lab.Bbb.Loopback.{hello}
use hil_lab.Bbb.Console.{
  Value, num, real, flag, label, unknown, null, Printed, exit_code, Port, with_client,
}
use hil_lab.Bbb.Stim.Commands.{hello_result}

abbrev pub serial_mode_ssi : ℕ
serial_mode_ssi = 1

abbrev pub serial_mode_biss : ℕ
serial_mode_biss = 2

abbrev pub serial_mode_spi : ℕ
serial_mode_spi = 3

abbrev pub serial_flag_fault_enable : ℕ
serial_flag_fault_enable = 2 ^ 0

abbrev pub serial_flag_biss_error_ok : ℕ
serial_flag_biss_error_ok = 2 ^ 1

abbrev pub serial_flag_biss_warning_ok : ℕ
serial_flag_biss_warning_ok = 2 ^ 2

-- The choices of `--mode`.
pub data Mode : Type 0 where
  ssi biss spi : Mode

abbrev pub mode_by_name : Mode → ℕ
mode_by_name ssi = serial_mode_ssi
mode_by_name biss = serial_mode_biss
mode_by_name spi = serial_mode_spi

abbrev pub mode_name : {F : Type 0} → ℕ → Value F
mode_name mode =
    if mode == serial_mode_ssi
    then label "ssi"
    else if mode == serial_mode_biss
    then label "biss"
    else if mode == serial_mode_spi
    then label "spi"
    else unknown mode

pub record DataOptions : Type 0 where
  pub value : ℕ
  pub fault_mask : ℕ
  pub fault_enable : Bool
  pub error_active : Bool
  pub warning_active : Bool
  pub preview_biss_bits : Option ℕ

unfoldable pub data_flags : DataOptions → ℕ
data_flags o =
    let faults = if o.fault_enable then bit_or 0 serial_flag_fault_enable else 0 in
    let errors = if not o.error_active then bit_or faults serial_flag_biss_error_ok else faults in
    if not o.warning_active then bit_or errors serial_flag_biss_warning_ok else errors

abbrev pub data_args : DataOptions → Args
data_args o = record {
  arg0 = bit_and o.value 0xffff_ffff;
  arg1 = bit_and o.fault_mask 0xffff_ffff;
  arg2 = data_flags o;
  arg3 = 0;
}

-- The frame that is printed beside the answer, with its number of bits.
unfoldable pub preview : DataOptions → Option ℕ → Result (Option (ℕ × ℕ))
unfolding build_biss_frame
preview o none = ok none
preview o (some bits) =
    bind
      (build_biss_frame o.value bits (if o.error_active then 0 else 1)
        (if o.warning_active then 0 else 1))
      λ frame. ok (some frame)

module _ (floats : Floats) where
  open floats use {Float, of_nat, literal, mul, div, lt}

  pub data SensorCommand : Type 0 where
    say_hello start stop status safe : SensorCommand
    config : Mode → ℕ → Float → SensorCommand
    write : DataOptions → SensorCommand

  -- The dictionary that is printed, and its entry `biss_preview`.
  abbrev pub Outcome : Type 0
  Outcome = Printed Float × Option (ℕ × ℕ)

  -- `x if n else None`
  abbrev pub unless_zero : ℕ → Result Float → Result (Value Float)
  unless_zero n x = if n == 0 then ok null else bind x λ value. ok (real value)

  module _ (rpmsg : Rpmsg) (perf_counter_ns : Exec (Client rpmsg.State) ℕ) where
    abbrev pub ask : ℕ → (Message → Printed Float) → Exec (Client rpmsg.State) Outcome
    ask msg_type result =
        request rpmsg msg_type no_args >>= λ response. pure (result response, none)

    unfoldable pub write_data : DataOptions → Exec (Client rpmsg.State) Outcome
    unfolding request preview data_flags
    write_data o = do
      response ← request rpmsg msg_serial_data (data_args o)
      shown ← lift (preview o o.preview_biss_bits)
      pure (
        (("status", num response.flags)
            ∷ ("value", num response.arg0)
            ∷ ("fault_mask", num response.arg1)
            ∷ ("flags", num response.arg2)
            ∷ []),
        shown,
      )

    unfoldable pub run_sensor_command : SensorCommand → Exec (Client rpmsg.State) Outcome
    unfolding request hello us_to_ticks write_data
    run_sensor_command say_hello =
        hello floats rpmsg perf_counter_ns >>= λ info. pure (hello_result floats info, none)
    run_sensor_command (config mode bits gap_us) = do
      info ← hello floats rpmsg perf_counter_ns
      raise_if (not (leb 1 bits && leb bits 32)) value_error
      raise_if (lt gap_us (of_nat 0)) value_error
      gap_ticks ← lift (us_to_ticks floats gap_us info.tick_hz)
      response ←
          request rpmsg msg_serial_config
            (record { arg0 = mode_by_name mode; arg1 = bits; arg2 = gap_ticks; arg3 = 0 })
      gap ← lift (
          unless_zero info.tick_hz
            (div (mul (of_nat response.arg2) (literal 1000000 1)) (of_nat info.tick_hz)))
      pure (
        (("status", num response.flags)
            ∷ ("mode", mode_name response.arg0)
            ∷ ("bits", num response.arg1)
            ∷ ("frame_gap_ticks", num response.arg2)
            ∷ ("frame_gap_us", gap)
            ∷ []),
        none,
      )
    run_sensor_command (write o) = write_data o
    run_sensor_command start = ask msg_serial_start λ response.
        ("status", num response.flags)
        ∷ ("arm_request_ticks", num response.arg0)
        ∷ ("mode", mode_name response.arg1)
        ∷ ("bits", num response.arg2)
        ∷ ("semantics", label "ACK sent before serial edge baselines are armed")
        ∷ []
    run_sensor_command stop = ask msg_serial_stop λ response.
        ("status", num response.flags)
        ∷ ("actual_stop_ticks", num response.arg0)
        ∷ ("frame_count", num response.arg1)
        ∷ ("min_half_period_ticks", num response.arg2)
        ∷ ("protocol_error_count", num response.arg3)
        ∷ []
    run_sensor_command status = do
      info ← hello floats rpmsg perf_counter_ns
      response ← request rpmsg msg_serial_status no_args
      ceiling ← lift (
          unless_zero response.arg2
            (div (of_nat info.tick_hz) (mul (literal 2 1) (of_nat response.arg2))))
      pure (
        (("status", num response.flags)
            ∷ ("enabled", flag (not (bit_and response.arg0 1 == 0)))
            ∷ ("mode", mode_name (bit_and (response.arg0 / 2 ^ 8) 0xff))
            ∷ ("frame_count", num response.arg1)
            ∷ ("min_half_period_ticks", num response.arg2)
            ∷ ("measured_clock_ceiling_hz", ceiling)
            ∷ ("protocol_error_count", num response.arg3)
            ∷ []),
        none,
      )
    run_sensor_command safe = ask msg_force_safe λ response.
        ("status", num response.flags)
        ∷ ("actual_safe_ticks", num response.arg0)
        ∷ ("frame_count", num response.arg1)
        ∷ []

  -- `main`, from the parsed options on.
  unfoldable pub sensor_main :
      (port : Port)
      → Exec (Client port.rpmsg.State) ℕ
      → String
      → SensorCommand
      → Exec port.rpmsg.State ℕ
  unfolding run_sensor_command with_client exit_code
  sensor_main port perf_counter_ns device command =
      with_client port device do
        outcome ← run_sensor_command port.rpmsg perf_counter_ns command
        pure (exit_code outcome.0)
