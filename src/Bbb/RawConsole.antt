-- ===== src/Bbb/RawConsole.antt =====
-- boards/beaglebone_black/host/hil_raw_cli.py: the commands of the raw edge capture, over the client and
-- the reader of the shared memory.
pub mod Order
use hil_lab.Prelude.{
  ℕ, ◌-◌, min, Bool, true, false, not, ◌&&◌, ◌==◌, leb, if◌then◌else◌, List, [], ◌∷◌, length, drop,
  String,
}
use hil_lab.Prelude.Int.{ℤ, pos, negsuc}
use hil_lab.Errors.{
  Result, ok, err, Exec, pure, raise, lift, raise_if, ◌>>=◌, ◌>>◌, value_error, runtime_error,
}
use hil_lab.Bbb.Floats.{Floats}
use hil_lab.Bbb.Protocol.{Message}
use hil_lab.Bbb.Protocol.Codes.{
  msg_raw_config, msg_raw_start, msg_raw_stop, msg_raw_clear, msg_raw_status,
}
use hil_lab.Bbb.Raw.{RawCaptureShared, RawRecord, raw_capacity, raw_records}
use hil_lab.Bbb.Raw.Ticks.{Report, analyze_raw_capture}
use hil_lab.Bbb.Rpc.{Rpmsg, Client, Args, no_args, request}
use hil_lab.Bbb.Loopback.{HelloInfo, hello}
use hil_lab.Bbb.Stim.Commands.{hello_result}
use hil_lab.Bbb.Console.{Value, num, flag, Printed}

-- `status_dict`, as a record.
pub record RawStatus : Type 0 where
  pub status : ℕ
  pub running : Bool
  pub event_count : ℕ
  pub event_limit : ℕ
  pub stop_reason : ℕ

abbrev pub status_dict : Message → RawStatus
status_dict response = record {
  status = response.flags;
  running = not (response.arg0 == 0);
  event_count = response.arg1;
  event_limit = response.arg2;
  stop_reason = response.arg3;
}

-- `limit = max(0, min(args.limit, len(records)))`
abbrev pub dump_limit : ℤ → ℕ → ℕ
dump_limit (pos n) count = min n count
dump_limit (negsuc n) count = 0

-- `records[-limit:] if limit else []`
unfoldable pub last_records : ℤ → List RawRecord → List RawRecord
last_records limit records =
    let n = dump_limit limit (length records) in
    if n == 0 then [] else drop (length records - n) records

-- `if not 1 <= args.event_limit <= RAW_CAPACITY`
abbrev pub is_event_limit : ℕ → Bool
is_event_limit n = leb 1 n && leb n raw_capacity

abbrev pub event_limit_args : ℕ → Args
event_limit_args n = record { arg0 = n; arg1 = 0; arg2 = 0; arg3 = 0 }

-- A request whose status is not 0 ends the capture.
unfoldable pub checked_request : (rpmsg : Rpmsg) → ℕ → Args → Exec (Client rpmsg.State) Message
unfolding request
checked_request rpmsg msg_type args = do
  response ← request rpmsg msg_type args
  raise_if (not (response.flags == 0)) runtime_error
  pure response

-- What `capture` prints: the control values, and the analysis.
pub record CaptureResult (floats : Floats) : Type 0 where
  pub arm_request_ticks : ℕ
  pub prearm_raw_inputs : ℕ
  pub state : RawStatus
  pub analysis : Report floats

-- The single-request commands.
pub data RawCommand : Type 0 where
  say_hello clear start stop ask_status : RawCommand
  config : ℕ → RawCommand

-- The reader of the shared memory and `time.sleep` stand beside the client.
module _ (floats : Floats) (rpmsg : Rpmsg) where
  unfoldable pub capture :
      Exec (Client rpmsg.State) RawCaptureShared
      → (floats.Float → Exec (Client rpmsg.State) Unit)
      → ℕ
      → floats.Float
      → floats.Float
      → Exec (Client rpmsg.State) (CaptureResult floats)
  unfolding checked_request analyze_raw_capture
  capture read_frozen_raw_capture sleep_ms event_limit settle_ms min_deadtime_ns = do
    raise_if (not (is_event_limit event_limit)) value_error
    raise_if (floats.lt settle_ms (floats.of_nat 0)) value_error
    configured ← checked_request rpmsg msg_raw_config (event_limit_args event_limit)
    cleared ← checked_request rpmsg msg_raw_clear no_args
    started ← checked_request rpmsg msg_raw_start no_args
    sleep_ms settle_ms
    status ← checked_request rpmsg msg_raw_status no_args
    raise_if (not (status.arg0 == 0)) runtime_error
    shared ← read_frozen_raw_capture
    analysis ← lift (analyze_raw_capture floats shared min_deadtime_ns)
    pure (record {
      arm_request_ticks = started.arg0;
      prearm_raw_inputs = started.arg1;
      state = status_dict status;
      analysis = analysis;
    })

  unfoldable pub run_raw_command :
      Exec (Client rpmsg.State) ℕ → RawCommand → Exec (Client rpmsg.State) (Printed floats.Float)
  unfolding request hello
  run_raw_command perf_counter_ns say_hello =
      hello floats rpmsg perf_counter_ns >>= λ info. pure (hello_result floats info)
  run_raw_command perf_counter_ns (config event_limit) = do
    raise_if (not (is_event_limit event_limit)) value_error
    response ← request rpmsg msg_raw_config (event_limit_args event_limit)
    pure (
        ("status", num response.flags)
        ∷ ("event_limit", num response.arg0)
        ∷ ("capacity", num response.arg1)
        ∷ [])
  run_raw_command perf_counter_ns clear = request rpmsg msg_raw_clear no_args >>= λ response.
      pure (("status", num response.flags) ∷ ("generation", num response.arg0) ∷ [])
  run_raw_command perf_counter_ns start = request rpmsg msg_raw_start no_args >>= λ response. pure (
      ("status", num response.flags)
      ∷ ("arm_request_ticks", num response.arg0)
      ∷ ("prearm_raw_inputs", num response.arg1)
      ∷ ("event_limit", num response.arg2)
      ∷ [])
  run_raw_command perf_counter_ns stop = request rpmsg msg_raw_stop no_args >>= λ response. pure (
      ("status", num response.flags)
      ∷ ("stop_ticks", num response.arg0)
      ∷ ("event_count", num response.arg1)
      ∷ ("stop_reason", num response.arg2)
      ∷ [])
  run_raw_command perf_counter_ns ask_status = request rpmsg msg_raw_status no_args >>= λ response.
      pure (
        ("status", num response.flags)
        ∷ ("running", flag (not (response.arg0 == 0)))
        ∷ ("event_count", num response.arg1)
        ∷ ("event_limit", num response.arg2)
        ∷ ("stop_reason", num response.arg3)
        ∷ [])
