-- ===== src/Hil/Pru.antt =====
-- host/hil/backends/beaglebone_pru.py: the backend over the two PRU clients and the reader of the shared
-- snapshot. Discovering, opening and closing the devices is left out.
mod Checks
pub mod Safe
pub mod Stimulus
use hil_lab.Prelude.{
  ℕ, String, ◌+◌, ◌*◌, ◌^◌, Bool, true, false, Option, none, some, List, [], ◌∷◌, not, ◌&&◌, ◌||◌,
  ◌==◌, ltb, if◌then◌else◌, bit_or, bit_and,
}
use hil_lab.Prelude.Int.{ℤ, pos, negsuc, is_pos}
use hil_lab.Prelude.Bits.{any_bits}
use hil_lab.Errors.{
  Error, Result, ok, err, Exec, pure, raise, lift, raise_if, ◌>>=◌, ◌>>◌, infrastructure,
  invalid_configuration, type_error,
}
use hil_lab.Bbb.Protocol.{
  Message, msg_hello, msg_time, msg_force_safe, msg_abz_config, msg_abz_start, msg_abz_stop,
  err_invalid_argument, cap_timebase, cap_force_safe, cap_pwm_capture,
  cap_pwm_complementary_monitor, cap_abz_emulator, cap_hall_emulator, cap_ssi_emulator,
  cap_biss_emulator, cap_spi_sensor_emulator,
}
use hil_lab.Bbb.Rpc.{Args, no_args}
use hil_lab.Hil.Capability.{
  Capability, Capabilities, timebase, pwm_capture, pwm_complementary_monitor, abz_generator,
  ssi_sensor_emulator, biss_sensor_emulator, spi_sensor_emulator,
  force_safe as force_safe_capability,
}
use hil_lab.Hil.Core.{
  Timestamp, make_timestamp, BackendIdentity, make_identity, pru, host_api_version, PwmMeasurement,
  supports, require, validate_contract,
}
use hil_lab.Hil.Uio.{get}
use hil_lab.Hil.Zynq.{attempt}
unfoldable pub use Checks.*

module _ (board : Board) where
  -- `_request`, on one of the clients.
  unfoldable pub request_on :
      (ℕ → Args → Exec board.State Message) → ℕ → Args → Exec board.State Message
  unfolding check_response
  request_on client msg_type args = do
    response ← attempt (λ e. infrastructure) (client msg_type args)
    lift (check_response response)
    pure response

  -- `_hello`.
  unfoldable pub hello : (ℕ → Args → Exec board.State Message) → Exec board.State Hello
  unfolding request_on
  hello client = do
    response ← request_on client msg_hello no_args
    raise_if (response.arg1 == 0 || response.arg2 == 0) infrastructure
    pure (record {
      capabilities_raw = response.arg0;
      tick_hz = response.arg1;
      counter_bits = response.arg2;
      firmware_version = response.arg3;
    })

  unfoldable pub hello_stimulus :
      Option (ℕ → Args → Exec board.State Message) → Exec board.State (Option Hello)
  unfolding hello
  hello_stimulus none = pure none
  hello_stimulus (some client) = hello client >>= λ h. pure (some h)

  -- `__init__`, which keeps the identity.
  unfoldable pub construct : String → Exec board.State BackendIdentity
  unfolding hello hello_stimulus map_capabilities make_identity
  construct hardware_revision = do
    capture ← hello board.capture
    stimulus ← hello_stimulus board.stimulus
    lift (check_stimulus capture stimulus)
    identity ← lift (
        make_identity (record {
          backend_type = "bbb_pru";
          hardware_revision = hardware_revision;
          firmware_revision = pru capture.firmware_version (version_of stimulus);
          api_version = host_api_version;
          capabilities = map_capabilities capture.capabilities_raw (caps_of stimulus);
          tick_hz = capture.tick_hz;
          counter_bits = capture.counter_bits;
        }))
    lift (validate_contract identity)
    pure identity

  -- `_stimulus_rpc`.
  abbrev pub stimulus_rpc : Exec board.State (ℕ → Args → Exec board.State Message)
  stimulus_rpc = elim board.stimulus [ none ↦ raise infrastructure | some client ↦ pure client ]

  module _ (identity : BackendIdentity) where
    unfoldable pub read_timestamp : Exec board.State Timestamp
    unfolding request_on make_timestamp
    read_timestamp = do
      lift (require identity timebase)
      response ← request_on board.capture msg_time no_args
      raise_if
          (not (response.arg1 == identity.tick_hz) || not (response.arg2 == identity.counter_bits))
          infrastructure
      lift (make_timestamp response.arg0 response.arg1 response.arg2)

    -- The second client's turn in `force_safe`, if there is one.
    unfoldable pub force_stimulus :
        Option (ℕ → Args → Exec board.State Message) → Exec board.State Unit
    unfolding request_on
    force_stimulus none = pure tt
    force_stimulus (some client) = request_on client msg_force_safe no_args >>= λ response. pure tt

    unfoldable pub force_safe : Bool → Exec board.State Unit
    unfolding request_on force_stimulus
    force_safe asserted = do
      lift (require identity force_safe_capability)
      raise_if (not asserted) invalid_configuration
      response ← request_on board.capture msg_force_safe no_args
      force_stimulus board.stimulus

    -- The `except` clauses of `_read_snapshot`: a `TypeError` makes it call the reader again.
    unfoldable pub fallback : Result Snapshot → Exec board.State Snapshot
    fallback (ok snapshot) = pure snapshot
    fallback (err type_error) = board.read_plain
    fallback (err e) = raise infrastructure

    unfoldable pub read_snapshot : Exec board.State Snapshot
    unfolding fallback
    read_snapshot s =
        let (r, t) = board.read_limited s in
        (fallback r >>= λ snapshot.
        raise_if (not (snapshot.tick_hz == identity.tick_hz)) infrastructure >> pure snapshot)
          t

    unfoldable pub read_pwm : ℕ → Exec board.State PwmMeasurement
    unfolding read_snapshot
    read_pwm channel = do
      lift (require identity pwm_capture)
      raise_if (not (ltb channel 6)) invalid_configuration
      snapshot ← read_snapshot
      let sample = snapshot.channel channel
      pure (record {
        channel = channel;
        sequence = snapshot.event_seq;
        period_ticks = sample.period_ticks;
        high_ticks = sample.high_ticks;
        low_ticks = sample.low_ticks;
        valid = bit_and sample.flags pwm_valid_mask == pwm_valid_mask;
        overflow = false;
      })

    unfoldable pub stimulus_ticks :
        Option (ℕ → Args → Exec board.State Message) → Exec board.State (Option ℕ)
    unfolding request_on
    stimulus_ticks none = pure none
    stimulus_ticks (some client) =
        request_on client msg_time no_args >>= λ response. pure (some response.arg0)

    unfoldable pub pwm_health : Bool → Exec board.State (Option (Bool × ℕ × ℕ))
    unfolding read_snapshot
    pwm_health false = pure none
    pwm_health true = read_snapshot >>= λ snapshot.
        pure (some (snapshot.running, snapshot.event_seq, snapshot.fault_flags))

    unfoldable pub health : Exec board.State Health
    unfolding read_timestamp stimulus_ticks pwm_health
    health = do
      capture_time ← read_timestamp
      stimulus ← stimulus_ticks board.stimulus
      pwm ← pwm_health (supports identity pwm_capture)
      pure (record {
        capture_ticks = capture_time.ticks;
        tick_hz = capture_time.tick_hz;
        counter_bits = capture_time.counter_bits;
        stimulus_ticks = stimulus;
        pwm = pwm;
      })

    -- A request for the generator, after the guards of its method.
    unfoldable pub ask_stimulus : ℕ → Args → Exec board.State Unit
    unfolding request_on
    ask_stimulus msg_type args = do
      client ← stimulus_rpc
      response ← request_on client msg_type args
      pure tt

    unfoldable pub configure_abz : AbzConfig → Exec board.State Unit
    unfolding ask_stimulus
    configure_abz config = lift (require identity abz_generator) >> elim (abz_args config) [
      | none ↦ raise invalid_configuration
      | some args ↦ ask_stimulus msg_abz_config args
    ]

    unfoldable pub start_abz : Exec board.State Unit
    unfolding ask_stimulus
    start_abz = lift (require identity abz_generator) >> ask_stimulus msg_abz_start no_args

    unfoldable pub stop_abz : Exec board.State Unit
    unfolding ask_stimulus
    stop_abz = lift (require identity abz_generator) >> ask_stimulus msg_abz_stop no_args
