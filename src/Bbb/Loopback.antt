-- ===== src/Bbb/Loopback.antt =====
-- boards/beaglebone_black/host/hil_pru_cli.py: the functions over the client, up to the loopback benchmark.
pub mod Accounts
pub mod Desync
use text.Mathlib.Text.{◌==◌ as str_eq}
use hil_lab.Prelude.{
  ℕ, zero, suc, ◌+◌, ◌-◌, ◌%◌, ◌^◌, Bool, true, false, Option, none, some, List, [], ◌∷◌, ◌++◌, map,
  not, ◌==◌, ◌||◌, ltb, leb, if◌then◌else◌, String, min, length, get_elem?, take,
}
use hil_lab.Prelude.Bits.{any_bits}
use hil_lab.Prelude.Sort.{sorted}
use hil_lab.Errors.{
  Error, Result, ok, err, bind, or_err, refuse_if, Exec, pure, raise, lift, raise_if, ◌>>=◌, ◌>>◌,
  value_error, runtime_error, index_error, file_not_found,
}
use hil_lab.Bbb.Floats.{Floats}
use hil_lab.Bbb.Conversions.{us_to_ticks, ticks_to_us}
use hil_lab.Bbb.Protocol.{
  Message, msg_hello, cap_timebase, cap_force_safe, cap_pwm_capture, cap_pwm_complementary_monitor,
  cap_abz_emulator, cap_hall_emulator, cap_ssi_emulator, cap_biss_emulator, cap_spi_sensor_emulator,
}
use hil_lab.Bbb.Protocol.Codes.{
  cap_rpmsg, cap_gpio_loopback, cap_watchdog, cap_shared_snapshot, cap_raw_edge_capture,
  cap_stimulus_engine, cap_scheduled_gpio, cap_scheduled_apply, msg_gpio_loopback,
}
use hil_lab.Bbb.Rpc.{Rpmsg, Client, Args, no_args, request}
use hil_lab.Bbb.Raw.Analysis.{wrapped_sub}

abbrev pub cap_names : List (ℕ × String)
cap_names =
    (cap_timebase, "timebase")
    ∷ (cap_rpmsg, "rpmsg")
    ∷ (cap_gpio_loopback, "gpio_loopback")
    ∷ (cap_force_safe, "force_safe")
    ∷ (cap_watchdog, "watchdog")
    ∷ (cap_pwm_capture, "pwm_capture")
    ∷ (cap_pwm_complementary_monitor, "pwm_complementary_monitor")
    ∷ (cap_shared_snapshot, "shared_snapshot")
    ∷ (cap_raw_edge_capture, "raw_edge_capture")
    ∷ (cap_stimulus_engine, "stimulus_engine")
    ∷ (cap_abz_emulator, "abz_emulator")
    ∷ (cap_scheduled_gpio, "scheduled_gpio")
    ∷ (cap_hall_emulator, "hall_emulator")
    ∷ (cap_ssi_emulator, "ssi_emulator")
    ∷ (cap_biss_emulator, "biss_emulator")
    ∷ (cap_spi_sensor_emulator, "spi_sensor_emulator")
    ∷ (cap_scheduled_apply, "scheduled_apply")
    ∷ []

-- `[name for bit, name in CAP_NAMES.items() if caps & bit]`
abbrev pub names_of : ℕ → List (ℕ × String) → List String
names_of caps [] = []
names_of caps ((bit, name) ∷ rest) =
    let names = names_of caps rest in if any_bits caps bit then name ∷ names else names

-- What `hello` returns, the version as a number instead of its text.
pub record HelloInfo : Type 0 where
  pub status : ℕ
  pub capabilities_raw : ℕ
  pub capabilities : List String
  pub tick_hz : ℕ
  pub counter_bits : ℕ
  pub firmware_version : ℕ

-- The first candidate that exists, of the two fixed names and what `glob` found in its order.
abbrev pub first_existing : (String → Bool) → List String → Result String
first_existing exists [] = err file_not_found
first_existing exists (candidate ∷ rest) =
    let later = first_existing exists rest in if exists candidate then ok candidate else later

unfoldable pub discover_device : (String → Bool) → List String → Option String → Result String
discover_device exists globbed none =
    first_existing exists ("/dev/rpmsg_pru30" ∷ "/dev/rpmsg-pru30" ∷ globbed)
discover_device exists globbed (some explicit) =
    if str_eq explicit ""
    then first_existing exists ("/dev/rpmsg_pru30" ∷ "/dev/rpmsg-pru30" ∷ globbed)
    else ok explicit

-- A benchmark's failure: the exception of a sample, a status, or an edge that was not seen.
pub data Reason : Type 0 where
  raised : Error → Reason
  refused : ℕ → Reason
  missing_edge : Reason

pub record Failure : Type 0 where
  pub index : ℕ
  pub reason : Reason

-- `0xFFFFFFFF`, which the firmware sends for an edge that it did not see.
abbrev pub no_edge : ℕ
no_edge = 0xffff_ffff

module _ (floats : Floats) where
  open floats use {Float, of_nat, add, sub, mul, div, lt}

  pub record Sample : Type 0 where
    pub status : ℕ
    pub requested_start_ticks : ℕ
    pub observed_rise_ticks : ℕ
    pub observed_fall_ticks : ℕ
    pub response_ticks : ℕ
    pub rise_latency_us : Option Float
    pub observed_high_us : Option Float
    pub command_rtt_us : Float
    pub non_programmed_rtt_us : Float
    pub tick_hz : ℕ

  pub record Timing : Type 0 where
    pub delay_us : Float
    pub width_us : Float
    pub timeout_us : Float

  -- The arguments of the request, in the order in which they are computed.
  unfoldable pub loopback_args : ℕ → Timing → Result Args
  unfolding us_to_ticks
  loopback_args tick_hz timing = bind (us_to_ticks floats timing.delay_us tick_hz) λ delay.
      bind (us_to_ticks floats timing.width_us tick_hz) λ width.
        bind (us_to_ticks floats timing.timeout_us tick_hz)
          λ timeout. ok (record { arg0 = delay; arg1 = width; arg2 = timeout; arg3 = 0 })

  -- `None if absent else ticks_to_us(...)`
  abbrev pub optional_us : ℕ → Option ℕ → Result (Option Float)
  optional_us tick_hz none = ok none
  optional_us tick_hz (some ticks) = bind (ticks_to_us floats ticks tick_hz) λ us. ok (some us)

  unfoldable pub rise_latency_ticks : Message → Option ℕ
  rise_latency_ticks response =
      if response.arg1 == no_edge then none else some (wrapped_sub response.arg1 response.arg0)

  unfoldable pub high_ticks : Message → Option ℕ
  high_ticks response =
      if response.arg1 == no_edge || response.arg2 == no_edge
      then none
      else some (wrapped_sub response.arg2 response.arg1)

  unfoldable pub sample_of : ℕ → Timing → Message → ℕ → ℕ → Result Sample
  unfolding rise_latency_ticks high_ticks ticks_to_us
  sample_of tick_hz timing response host_start_ns host_end_ns =
      bind (div (of_nat (host_end_ns - host_start_ns)) (of_nat 1000)) λ rtt.
        bind (optional_us tick_hz (rise_latency_ticks response)) λ latency.
          bind (optional_us tick_hz (high_ticks response)) λ high. ok (record {
            status = response.flags;
            requested_start_ticks = response.arg0;
            observed_rise_ticks = response.arg1;
            observed_fall_ticks = response.arg2;
            response_ticks = response.arg3;
            rise_latency_us = latency;
            observed_high_us = high;
            command_rtt_us = rtt;
            non_programmed_rtt_us = sub rtt (add timing.delay_us timing.width_us);
            tick_hz = tick_hz;
          })

  -- The lists that a benchmark fills.
  pub record Tally : Type 0 where
    pub rise : List Float
    pub high : List Float
    pub high_error : List Float
    pub rtt : List Float
    pub non_programmed_rtt : List Float
    pub failures : List Failure

  abbrev pub no_samples : Tally
  no_samples = record {
    rise = [];
    high = [];
    high_error = [];
    rtt = [];
    non_programmed_rtt = [];
    failures = [];
  }

  unfoldable pub fail : ℕ → Reason → Tally → Tally
  fail index reason tally = record tally {
    failures = tally.failures ++ record { index = index; reason = reason } ∷ [];
  }

  unfoldable pub keep : Timing → Sample → Float → Float → Tally → Tally
  keep timing sample rise_value high_value tally = record tally {
    rise = tally.rise ++ rise_value ∷ [];
    high = tally.high ++ high_value ∷ [];
    high_error = tally.high_error ++ sub high_value timing.width_us ∷ [];
    rtt = tally.rtt ++ sample.command_rtt_us ∷ [];
    non_programmed_rtt = tally.non_programmed_rtt ++ sample.non_programmed_rtt_us ∷ [];
  }

  -- `if rise_value is None or high_value is None`
  unfoldable pub keep_edges : ℕ → Timing → Sample → Option Float → Option Float → Tally → Tally
  unfolding keep fail
  keep_edges index timing sample none high_value tally = fail index missing_edge tally
  keep_edges index timing sample (some rise_value) none tally = fail index missing_edge tally
  keep_edges index timing sample (some rise_value) (some high_value) tally =
      keep timing sample rise_value high_value tally

  -- The body of the loop after the `try`.
  unfoldable pub enter_sample : ℕ → Timing → Result Sample → Tally → Tally
  unfolding keep_edges fail
  enter_sample index timing (err e) tally = fail index (raised e) tally
  enter_sample index timing (ok sample) tally =
      if not (sample.status == 0)
      then fail index (refused sample.status) tally
      else keep_edges index timing sample sample.rise_latency_us sample.observed_high_us tally

  module _ (rpmsg : Rpmsg) (perf_counter_ns : Exec (Client rpmsg.State) ℕ) where
    unfoldable pub hello : Exec (Client rpmsg.State) HelloInfo
    unfolding request
    hello = request rpmsg msg_hello no_args >>= λ response. pure (record {
      status = response.flags;
      capabilities_raw = response.arg0;
      capabilities = names_of response.arg0 cap_names;
      tick_hz = response.arg1;
      counter_bits = response.arg2;
      firmware_version = response.arg3;
    })

    unfoldable pub loopback_once : ℕ → Timing → Exec (Client rpmsg.State) Sample
    unfolding request loopback_args sample_of
    loopback_once tick_hz timing = do
      host_start_ns ← perf_counter_ns
      args ← lift (loopback_args tick_hz timing)
      response ← request rpmsg msg_gpio_loopback args
      host_end_ns ← perf_counter_ns
      lift (sample_of tick_hz timing response host_start_ns host_end_ns)

    -- `for _ in range(warmup)`
    unfoldable pub warm_up : ℕ → ℕ → Timing → Exec (Client rpmsg.State) Unit
    unfolding loopback_once
    warm_up zero tick_hz timing = pure tt
    warm_up (suc n) tick_hz timing =
        let rest = warm_up n tick_hz timing in
        loopback_once tick_hz timing >>= λ sample.
        raise_if (not (sample.status == 0)) runtime_error >> rest

    -- `for index in range(count)`, with that many rounds left. No exception of a sample leaves it.
    unfoldable pub bench_loop :
        ℕ → ℕ → ℕ → Timing → Tally → Client rpmsg.State → Tally × Client rpmsg.State
    unfolding loopback_once enter_sample
    bench_loop zero index tick_hz timing tally c = (tally, c)
    bench_loop (suc n) index tick_hz timing tally c =
        let (sample, d) = loopback_once tick_hz timing c in
        bench_loop n (suc index) tick_hz timing (enter_sample index timing sample tally) d

    -- `run_loopback_benchmark` up to its statistics: the tally of `count` samples.
    unfoldable pub run_loopback_benchmark : ℕ → ℕ → Timing → Exec (Client rpmsg.State) Tally
    unfolding hello warm_up bench_loop
    run_loopback_benchmark count warmup timing = do
      raise_if (count == 0) value_error
      info ← hello
      raise_if (not (info.status == 0)) runtime_error
      warm_up warmup info.tick_hz timing
      total_start_ns ← perf_counter_ns
      λ c. let (tally, d) = bench_loop count 0 info.tick_hz timing no_samples c in (ok tally, d)
