-- ===== src/Bbb/Stim/Commands.antt =====
-- boards/beaglebone_black/host/hil_stim_cli.py: the commands, from the parsed options to the exit code.
use hil_lab.Prelude.{ℕ, Option, none, some, [], ◌∷◌, ◌==◌, not, if◌then◌else◌, String}
use hil_lab.Errors.{Result, ok, bind, Exec, pure, lift, ◌>>=◌}
use hil_lab.Bbb.Floats.{Floats}
use hil_lab.Bbb.Protocol.{Message, msg_abz_config, msg_abz_start, msg_abz_stop, msg_force_safe}
use hil_lab.Bbb.Protocol.Codes.{
  msg_abz_status, msg_abz_direction, msg_abz_arm, msg_abz_schedule, msg_hall_config, msg_hall_start,
  msg_hall_stop, msg_hall_status, msg_stim_status,
}
use hil_lab.Bbb.Rpc.{Rpmsg, Client, Args, no_args, request}
use hil_lab.Bbb.Loopback.{HelloInfo, hello}
use hil_lab.Bbb.Console.{
  Value, num, real, flag, label, labels, unknown, null, Printed, optional_real, exit_code, Port,
  with_client,
}
use hil_lab.Bbb.Stim.{
  Rate, AbzOptions, direction_value, abz_config, schedule_args, hall_config, resolve_future_ticks,
}

-- `"reverse" if x else "forward"`
abbrev pub direction_name : {F : Type 0} → ℕ → Value F
direction_name n = if n == 0 then label "forward" else label "reverse"

abbrev pub optional_num : {F : Type 0} → Option ℕ → Value F
optional_num none = null
optional_num (some n) = num n

abbrev pub stim_state_name : {F : Type 0} → ℕ → Value F
stim_state_name n =
    if n == 0
    then label "idle"
    else if n == 1
    then label "running"
    else if n == 2
    then label "armed"
    else unknown n

abbrev pub stim_mode_name : {F : Type 0} → ℕ → Value F
stim_mode_name n =
    if n == 0
    then label "none"
    else if n == 1
    then label "abz"
    else if n == 2
    then label "hall"
    else unknown n

abbrev pub ack_semantics : String
ack_semantics = "ACK sent before the PRU establishes the fresh run timestamp"

module _ (floats : Floats) where
  open floats use {Float, of_nat, div}

  -- The commands with their options.
  pub data StimCommand : Type 0 where
    say_hello start stop status scheduler_status hall_start hall_stop hall_status safe : StimCommand
    config : AbzOptions floats → StimCommand
    direction : String → StimCommand
    arm : Option ℕ → Option Float → StimCommand
    schedule : Option ℕ → Option Float → Rate floats → Option String → StimCommand
    hall : Rate floats → String → ℕ → StimCommand

  abbrev pub hello_result : HelloInfo → Printed Float
  hello_result info =
      ("status", num info.status)
      ∷ ("capabilities_raw", num info.capabilities_raw)
      ∷ ("capabilities", labels info.capabilities)
      ∷ ("tick_hz", num info.tick_hz)
      ∷ ("counter_bits", num info.counter_bits)
      ∷ ("firmware_version", num info.firmware_version)
      ∷ []

  abbrev pub config_result : AbzOptions floats → ℕ → Option Float → Float → Message → Printed Float
  config_result o tick_hz rpm transition_hz response =
      ("status", num response.flags)
      ∷ ("tick_hz", num tick_hz)
      ∷ ("transition_ticks", num response.arg0)
      ∷ ("transition_hz", real transition_hz)
      ∷ ("ppr", optional_num o.rate.ppr)
      ∷ ("equivalent_rpm", optional_real rpm)
      ∷ ("direction", label o.direction)
      ∷ ("initial_phase", num o.initial_phase)
      ∷ ("index_period_transitions", num response.arg1)
      ∷ ("index_width_transitions", num response.arg2)
      ∷ []

  -- `tick_hz / response.arg0 if response.arg0 else None`
  abbrev pub optional_rate : ℕ → ℕ → Result (Value Float)
  optional_rate tick_hz ticks =
      if ticks == 0
      then ok null
      else (bind (div (of_nat tick_hz) (of_nat ticks)) λ hz. ok (real hz))

  abbrev pub hall_result : String → Option Float → Value Float → Message → Printed Float
  hall_result turn rpm transition_hz response =
      ("status", num response.flags)
      ∷ ("transition_ticks", num response.arg0)
      ∷ ("transition_hz", transition_hz)
      ∷ ("equivalent_rpm", optional_real rpm)
      ∷ ("direction", label turn)
      ∷ ("initial_step", num response.arg2)
      ∷ ("initial_hall_bits", num response.arg3)
      ∷ []

  module _ (rpmsg : Rpmsg) (perf_counter_ns : Exec (Client rpmsg.State) ℕ) where
    -- A request with no options, and the dictionary made of its response.
    abbrev pub ask :
        ℕ → Args → (Message → Printed Float) → Exec (Client rpmsg.State) (Printed Float)
    ask msg_type args result = request rpmsg msg_type args >>= λ response. pure (result response)

    unfoldable pub run_command : StimCommand → Exec (Client rpmsg.State) (Printed Float)
    unfolding request hello abz_config schedule_args hall_config resolve_future_ticks
    run_command say_hello = hello floats rpmsg perf_counter_ns >>= λ info. pure (hello_result info)
    run_command start = ask msg_abz_start no_args λ response.
        ("status", num response.flags)
        ∷ ("arm_request_ticks", num response.arg0)
        ∷ ("initial_abz_bits", num response.arg1)
        ∷ ("transition_ticks", num response.arg2)
        ∷ ("direction", direction_name response.arg3)
        ∷ ("semantics", label ack_semantics)
        ∷ []
    run_command stop = ask msg_abz_stop no_args λ response.
        ("status", num response.flags)
        ∷ ("actual_stop_ticks", num response.arg0)
        ∷ ("transition_count", num response.arg1)
        ∷ ("late_transition_count", num response.arg2)
        ∷ ("schedule_late_count", num response.arg3)
        ∷ []
    run_command status = ask msg_abz_status no_args λ response.
        ("status", num response.flags)
        ∷ ("state", stim_state_name response.arg0)
        ∷ ("running", flag (response.arg0 == 1))
        ∷ ("transition_ticks", num response.arg1)
        ∷ ("transition_count", num response.arg2)
        ∷ ("late_transition_count", num response.arg3)
        ∷ []
    run_command scheduler_status = ask msg_stim_status no_args λ response.
        ("status", num response.flags)
        ∷ ("state", stim_state_name response.arg0)
        ∷ ("mode", stim_mode_name response.arg1)
        ∷ ("last_apply_ticks", num response.arg2)
        ∷ ("schedule_late_count", num response.arg3)
        ∷ []
    run_command hall_start = ask msg_hall_start no_args λ response.
        ("status", num response.flags)
        ∷ ("arm_request_ticks", num response.arg0)
        ∷ ("initial_hall_bits", num response.arg1)
        ∷ ("transition_ticks", num response.arg2)
        ∷ ("direction", direction_name response.arg3)
        ∷ ("semantics", label ack_semantics)
        ∷ []
    run_command hall_stop = ask msg_hall_stop no_args λ response.
        ("status", num response.flags)
        ∷ ("actual_stop_ticks", num response.arg0)
        ∷ ("transition_count", num response.arg1)
        ∷ ("late_transition_count", num response.arg2)
        ∷ []
    run_command hall_status = ask msg_hall_status no_args λ response.
        ("status", num response.flags)
        ∷ ("running", flag (not (response.arg0 == 0)))
        ∷ ("transition_ticks", num response.arg1)
        ∷ ("transition_count", num response.arg2)
        ∷ ("late_transition_count", num response.arg3)
        ∷ []
    run_command safe = ask msg_force_safe no_args λ response.
        ("status", num response.flags)
        ∷ ("actual_safe_ticks", num response.arg0)
        ∷ ("transition_count", num response.arg1)
        ∷ []
    run_command (config o) = do
      info ← hello floats rpmsg perf_counter_ns
      plan ← lift (abz_config floats o info.tick_hz)
      response ← request rpmsg msg_abz_config plan.0
      hz ← lift (div (of_nat info.tick_hz) (of_nat plan.0.arg0))
      pure (config_result o info.tick_hz plan.1 hz response)
    run_command (direction turn) =
        ask msg_abz_direction (record { arg0 = direction_value turn; arg1 = 0; arg2 = 0; arg3 = 0 })
          λ response.
            ("status", num response.flags)
            ∷ ("actual_apply_ticks", num response.arg0)
            ∷ ("direction", direction_name response.arg1)
            ∷ ("transition_count", num response.arg2)
            ∷ []
    run_command (arm apply_ticks after_us) = do
      info ← hello floats rpmsg perf_counter_ns
      ticks ← resolve_future_ticks floats rpmsg info.tick_hz apply_ticks after_us
      ask msg_abz_arm (record { arg0 = ticks; arg1 = 0; arg2 = 0; arg3 = 0 })
          λ response.
            ("status", num response.flags)
            ∷ ("arm_request_ticks", num response.arg0)
            ∷ ("requested_apply_ticks", num response.arg1)
            ∷ ("transition_ticks", num response.arg2)
            ∷ ("direction", direction_name response.arg3)
            ∷ []
    run_command (schedule apply_ticks after_us rate turn) = do
      info ← hello floats rpmsg perf_counter_ns
      ticks ← resolve_future_ticks floats rpmsg info.tick_hz apply_ticks after_us
      args ← lift (schedule_args floats rate turn info.tick_hz ticks)
      ask msg_abz_schedule args λ response.
          ("status", num response.flags)
          ∷ ("queue_request_ticks", num response.arg0)
          ∷ ("requested_apply_ticks", num response.arg1)
          ∷ ("transition_ticks", num response.arg2)
          ∷ ("flags", num response.arg3)
          ∷ []
    run_command (hall rate turn initial_step) = do
      info ← hello floats rpmsg perf_counter_ns
      plan ← lift (hall_config floats rate turn initial_step info.tick_hz)
      response ← request rpmsg msg_hall_config plan.0
      hz ← lift (optional_rate info.tick_hz response.arg0)
      pure (hall_result turn plan.1 hz response)

  -- `main`, from the parsed options on: the exit code of a run whose dictionary is printed.
  unfoldable pub main :
      (port : Port)
      → Exec (Client port.rpmsg.State) ℕ
      → String
      → StimCommand
      → Exec port.rpmsg.State ℕ
  unfolding run_command with_client exit_code
  main port perf_counter_ns device command =
      with_client port device
        do result ← run_command port.rpmsg perf_counter_ns command; pure (exit_code result)
