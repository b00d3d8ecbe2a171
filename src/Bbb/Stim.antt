-- ===== src/Bbb/Stim.antt =====
-- boards/beaglebone_black/host/hil_stim_cli.py: the arguments of the stimulus commands, before a request
-- is sent. The child modules have the commands and their theorems.
pub mod Commands
pub mod Requests
pub mod Schedules
pub mod Closing
use text.Mathlib.Text.{◌==◌ as str_eq}
use hil_lab.Prelude.{
  ℕ, ◌+◌, ◌*◌, ◌%◌, ◌^◌, Bool, true, false, not, ◌&&◌, ◌||◌, ◌==◌, ltb, leb, if◌then◌else◌, Option,
  none, some, List, [], ◌∷◌, String, bit_or,
}
use hil_lab.Errors.{
  Result, ok, err, bind, refuse_if, Exec, pure, raise, lift, raise_if, ◌>>=◌, ◌>>◌, value_error,
  file_not_found,
}
use hil_lab.Bbb.Floats.{Floats}
use hil_lab.Bbb.Abz.{encode_config_flags}
use hil_lab.Bbb.Conversions.{
  is_nonpositive, us_to_ticks, transition_ticks_from_rpm, transition_ticks_from_hz,
  rpm_from_transition_ticks,
}
use hil_lab.Bbb.Protocol.{msg_time}
use hil_lab.Bbb.Rpc.{Rpmsg, Client, Args, no_args, request}

abbrev pub abz_min_transition_ticks : ℕ
abz_min_transition_ticks = 100

abbrev pub abz_sched_transition_valid : ℕ
abz_sched_transition_valid = 2 ^ 0

abbrev pub abz_sched_direction_valid : ℕ
abz_sched_direction_valid = 2 ^ 1

abbrev pub is_some : {A : Type 0} → Option A → Bool
is_some none = false
is_some (some a) = true

abbrev pub one_if : Bool → ℕ
one_if b = if b then 1 else 0

-- The first candidate that opens.
abbrev pub first_opening : (String → Bool) → List String → Result String
first_opening opens [] = err file_not_found
first_opening opens (candidate ∷ rest) =
    let later = first_opening opens rest in if opens candidate then ok candidate else later

unfoldable pub discover_stim_device : (String → Bool) → List String → Option String → Result String
discover_stim_device opens globbed none =
    first_opening opens ("/dev/rpmsg_pru31" ∷ "/dev/rpmsg-pru31" ∷ globbed)
discover_stim_device opens globbed (some explicit) =
    if str_eq explicit ""
    then first_opening opens ("/dev/rpmsg_pru31" ∷ "/dev/rpmsg-pru31" ∷ globbed)
    else ok explicit

-- `0 if direction == "forward" else 1`
abbrev pub direction_value : String → ℕ
direction_value direction = if str_eq direction "forward" then 0 else 1

abbrev pub scheduled_direction : Option String → ℕ × ℕ
scheduled_direction none = (0, 0)
scheduled_direction (some direction) = (direction_value direction, abz_sched_direction_valid)

module _ (floats : Floats) where
  open floats use {Float}

  -- The options of a rate, and the pulses per revolution.
  pub record Rate : Type 0 where
    pub transition_ticks : Option ℕ
    pub transition_hz : Option Float
    pub rpm : Option Float
    pub ppr : Option ℕ

  -- `selected` of `resolve_transition_ticks`, and `rate_selected`.
  abbrev pub selected : Rate → ℕ
  selected rate =
      one_if (is_some rate.transition_ticks)
      + one_if (is_some rate.transition_hz)
      + one_if (is_some rate.rpm)

  -- `rpm_from_transition_ticks(...) if args.ppr`, and no value without pulses.
  abbrev pub derived_rpm : ℕ → Option ℕ → ℕ → Result (Option Float)
  derived_rpm ticks none tick_hz = ok none
  derived_rpm ticks (some ppr) tick_hz =
      if ppr == 0
      then ok none
      else (bind (rpm_from_transition_ticks floats ticks ppr tick_hz) λ rpm. ok (some rpm))

  abbrev pub from_rpm : Float → Option ℕ → ℕ → Result (ℕ × Option Float)
  from_rpm rpm none tick_hz = err value_error
  from_rpm rpm (some ppr) tick_hz =
      if ppr == 0
      then err value_error
      else (bind (transition_ticks_from_rpm floats rpm ppr tick_hz) λ ticks. ok (ticks, some rpm))

  abbrev pub with_rpm : Option ℕ → ℕ → ℕ → Result (ℕ × Option Float)
  with_rpm ppr tick_hz ticks = bind (derived_rpm ticks ppr tick_hz) λ rpm. ok (ticks, rpm)

  -- The three branches, of which the guard has left one.
  unfoldable pub convert_rate :
      Option ℕ → Option Float → Option Float → Option ℕ → ℕ → Result (ℕ × Option Float)
  unfolding transition_ticks_from_hz transition_ticks_from_rpm rpm_from_transition_ticks
  convert_rate (some ticks) hz rpm ppr tick_hz = with_rpm ppr tick_hz ticks
  convert_rate none (some hz) rpm ppr tick_hz =
      bind (transition_ticks_from_hz floats hz tick_hz) (with_rpm ppr tick_hz)
  convert_rate none none (some rpm) ppr tick_hz = from_rpm rpm ppr tick_hz
  convert_rate none none none ppr tick_hz = err value_error

  unfoldable pub resolve_transition_ticks : Rate → ℕ → Result (ℕ × Option Float)
  unfolding convert_rate
  resolve_transition_ticks rate tick_hz =
      bind (refuse_if (not (selected rate == 1)) value_error) λ d.
        bind (convert_rate rate.transition_ticks rate.transition_hz rate.rpm rate.ppr tick_hz)
          λ resolved.
            bind (refuse_if (ltb resolved.0 abz_min_transition_ticks) value_error) λ e. ok resolved

  pub record AbzOptions : Type 0 where
    pub rate : Rate
    pub direction : String
    pub initial_phase : ℕ
    pub index_period_transitions : Option ℕ
    pub index_width_transitions : ℕ

  -- `args.ppr * 4 if args.ppr else 0`, for which a missing value and 0 are the same.
  abbrev pub default_period : Option ℕ → ℕ
  default_period none = 0
  default_period (some ppr) = ppr * 4

  abbrev pub index_period : Option ℕ → Option ℕ → ℕ
  index_period none ppr = default_period ppr
  index_period (some period) ppr = period

  -- The arguments of MSG_ABZ_CONFIG, with the speed for the report.
  unfoldable pub abz_config : AbzOptions → ℕ → Result (Args × Option Float)
  unfolding resolve_transition_ticks encode_config_flags
  abz_config o tick_hz = bind (resolve_transition_ticks o.rate tick_hz) λ resolved.
      let period = index_period o.index_period_transitions o.rate.ppr in
      let width = if period == 0 then 0 else o.index_width_transitions in
      bind (refuse_if (not (period == 0) && ltb period width) value_error) λ d.
        bind (encode_config_flags o.direction o.initial_phase) λ flags.
          ok (record { arg0 = resolved.0; arg1 = period; arg2 = width; arg3 = flags }, resolved.1)

  -- The rate of a scheduled change and its flag, if one is given.
  unfoldable pub scheduled_rate : Rate → ℕ → Result (ℕ × ℕ)
  unfolding resolve_transition_ticks
  scheduled_rate rate tick_hz =
      if selected rate == 0
      then ok (0, 0)
      else if not (selected rate == 1)
      then err value_error
      else (bind (resolve_transition_ticks rate tick_hz)
          λ resolved. ok (resolved.0, abz_sched_transition_valid))

  -- The arguments of MSG_ABZ_SCHEDULE.
  unfoldable pub schedule_args : Rate → Option String → ℕ → ℕ → Result Args
  unfolding scheduled_rate
  schedule_args rate direction tick_hz apply_ticks = bind (scheduled_rate rate tick_hz) λ scheduled.
      let turn = scheduled_direction direction in
      let flags = bit_or scheduled.1 turn.1 in
      bind (refuse_if (flags == 0) value_error)
        λ d. ok (record { arg0 = apply_ticks; arg1 = scheduled.0; arg2 = turn.0; arg3 = flags })

  -- The arguments of MSG_HALL_CONFIG.
  unfoldable pub hall_config : Rate → String → ℕ → ℕ → Result (Args × Option Float)
  unfolding resolve_transition_ticks
  hall_config rate direction initial_step tick_hz =
      bind (resolve_transition_ticks rate tick_hz) λ resolved.
        bind (refuse_if (not (ltb initial_step 6)) value_error) λ d. ok (
          record {
            arg0 = resolved.0;
            arg1 = direction_value direction;
            arg2 = initial_step;
            arg3 = 0;
          },
          resolved.1,
        )

  module _ (rpmsg : Rpmsg) where
    -- The branches of `resolve_future_ticks`: none or both of the two options are refused first.
    unfoldable pub resolve_future_ticks : ℕ → Option ℕ → Option Float → Exec (Client rpmsg.State) ℕ
    unfolding request us_to_ticks
    resolve_future_ticks tick_hz none none = raise value_error
    resolve_future_ticks tick_hz (some ticks) (some us) = raise value_error
    resolve_future_ticks tick_hz (some ticks) none =
        raise_if (not (leb ticks 0xffff_ffff)) value_error >> pure ticks
    resolve_future_ticks tick_hz none (some us) = do
      raise_if (is_nonpositive floats us) value_error
      response ← request rpmsg msg_time no_args
      delay ← lift (us_to_ticks floats us tick_hz)
      pure ((response.arg0 + delay) % 2 ^ 32)
