-- ===== src/Bbb/Raw/Analysis.antt =====
-- boards/beaglebone_black/host/hil_raw_shared.py: the loop of `analyze_raw_capture`. The arrays that the
-- source indexes by channel or by pair are kept as one record for each channel and each pair.
use hil_lab.Prelude.{
  ℕ, ◌+◌, ◌-◌, ◌*◌, ◌%◌, ◌^◌, Bool, false, Option, none, some, List, [], ◌∷◌, ◌++◌, not, ◌&&◌,
  if◌then◌else◌, bit_and, map_from, replicate,
}
use hil_lab.Prelude.Bits.{any_bits}
use hil_lab.Errors.{Result, ok, bind, map_result_from}
use hil_lab.Bbb.Floats.{Floats}
use hil_lab.Bbb.Raw.{RawRecord, RawCaptureShared, validate, raw_records, raw_to_logical}

-- `(now - previous) & 0xFFFFFFFF` on integers without a bound.
abbrev pub wrapped_sub : ℕ → ℕ → ℕ
wrapped_sub now previous = (now + (2 ^ 32 - previous % 2 ^ 32)) % 2 ^ 32

unfoldable pub append_delta : List ℕ → ℕ → Option ℕ → List ℕ
append_delta destination now none = destination
append_delta destination now (some previous) = destination ++ (wrapped_sub now previous ∷ [])

pub record Channel : Type 0 where
  pub rise_last : Option ℕ
  pub fall_last : Option ℕ
  pub period_ticks : List ℕ
  pub high_ticks : List ℕ
  pub low_ticks : List ℕ
  pub rise_count : ℕ
  pub fall_count : ℕ

unfoldable pub on_rise : ℕ → Channel → Channel
unfolding append_delta
on_rise timestamp c = record c {
  period_ticks = append_delta c.period_ticks timestamp c.rise_last;
  low_ticks = append_delta c.low_ticks timestamp c.fall_last;
  rise_last = some timestamp;
  rise_count = c.rise_count + 1;
}

unfoldable pub on_fall : ℕ → Channel → Channel
unfolding append_delta
on_fall timestamp c = record c {
  high_ticks = append_delta c.high_ticks timestamp c.rise_last;
  fall_last = some timestamp;
  fall_count = c.fall_count + 1;
}

-- The body of `for channel in range(6)`.
unfoldable pub channel_step : ℕ → ℕ → ℕ → ℕ → Channel → Channel
unfolding on_rise on_fall
channel_step timestamp rise_bits fall_bits channel c =
    let risen = if any_bits rise_bits (2 ^ channel) then on_rise timestamp c else c in
    if any_bits fall_bits (2 ^ channel) then on_fall timestamp risen else risen

pub record Pair : Type 0 where
  pub pending_hl : Option ℕ
  pub pending_lh : Option ℕ
  pub dead_hl_ticks : List ℕ
  pub dead_lh_ticks : List ℕ
  pub overlap_count : ℕ
  pub violation_count : ℕ
  pub overlap_active : Bool

unfoldable pub see_overlap : Bool → Pair → Pair
see_overlap overlap_now p = record p {
  overlap_count =
      if overlap_now && not p.overlap_active then p.overlap_count + 1 else p.overlap_count;
  overlap_active = overlap_now;
}

pub record Analysis : Type 0 where
  pub channels : List Channel
  pub pairs : List Pair

abbrev pub no_channel : Channel
no_channel = record {
  rise_last = none;
  fall_last = none;
  period_ticks = [];
  high_ticks = [];
  low_ticks = [];
  rise_count = 0;
  fall_count = 0;
}

abbrev pub no_pair : Pair
no_pair = record {
  pending_hl = none;
  pending_lh = none;
  dead_hl_ticks = [];
  dead_lh_ticks = [];
  overlap_count = 0;
  violation_count = 0;
  overlap_active = false;
}

-- The state before the loop.
abbrev pub no_events : Analysis
no_events = record { channels = replicate 6 no_channel; pairs = replicate 3 no_pair }

module _ (floats : Floats) where
  open floats use {Float, of_nat, mul, div, lt}

  unfoldable pub ticks_to_ns : ℕ → ℕ → Result Float
  ticks_to_ns ticks tick_hz = div (mul (of_nat ticks) (of_nat 1000000000)) (of_nat tick_hz)

  -- `min_deadtime_ns > 0 and dt_ns < min_deadtime_ns`
  abbrev pub is_short : Float → Float → Bool
  is_short min_deadtime_ns dt_ns = lt (of_nat 0) min_deadtime_ns && lt dt_ns min_deadtime_ns

  -- The dead time that ends now, if one is pending, and the violations that it adds.
  unfoldable pub dead_time : Float → ℕ → ℕ → Option ℕ → Result (List ℕ × ℕ)
  unfolding ticks_to_ns
  dead_time min_deadtime_ns tick_hz timestamp none = ok ([], 0)
  dead_time min_deadtime_ns tick_hz timestamp (some start) =
      let dt_ticks = wrapped_sub timestamp start in
      bind (ticks_to_ns dt_ticks tick_hz)
        λ dt_ns. ok (dt_ticks ∷ [], if is_short min_deadtime_ns dt_ns then 1 else 0)

  -- `if rise_bits & lo_bit`
  unfoldable pub end_hl : Float → ℕ → ℕ → Pair → Result Pair
  unfolding dead_time
  end_hl min_deadtime_ns tick_hz timestamp p =
      bind (dead_time min_deadtime_ns tick_hz timestamp p.pending_hl) λ dead. ok (record p {
        dead_hl_ticks = p.dead_hl_ticks ++ dead.0;
        violation_count = p.violation_count + dead.1;
        pending_hl = none;
      })

  -- `if rise_bits & hi_bit`
  unfoldable pub end_lh : Float → ℕ → ℕ → Pair → Result Pair
  unfolding dead_time
  end_lh min_deadtime_ns tick_hz timestamp p =
      bind (dead_time min_deadtime_ns tick_hz timestamp p.pending_lh) λ dead. ok (record p {
        dead_lh_ticks = p.dead_lh_ticks ++ dead.0;
        violation_count = p.violation_count + dead.1;
        pending_lh = none;
      })

  -- The body of `for pair in range(3)`, by the four edges and the overlap that it reads from the bits.
  unfoldable pub pair_edges :
      Float → ℕ → ℕ → (hi_fell lo_rose lo_fell hi_rose overlap_now : Bool) → Pair → Result Pair
  unfolding end_hl end_lh see_overlap
  pair_edges min_deadtime_ns tick_hz timestamp hi_fell lo_rose lo_fell hi_rose overlap_now p =
      let p₁ = if hi_fell then record p { pending_hl = some timestamp } else p in
      bind (if lo_rose then end_hl min_deadtime_ns tick_hz timestamp p₁ else ok p₁) λ p₂.
        let p₃ = if lo_fell then record p₂ { pending_lh = some timestamp } else p₂ in
        bind (if hi_rose then end_lh min_deadtime_ns tick_hz timestamp p₃ else ok p₃)
          λ p₄. ok (see_overlap overlap_now p₄)

  unfoldable pub pair_step : Float → ℕ → ℕ → ℕ → ℕ → ℕ → ℕ → Pair → Result Pair
  unfolding pair_edges
  pair_step min_deadtime_ns tick_hz timestamp state rise_bits fall_bits pair p =
      let hi_bit = 2 ^ (pair * 2) in
      let lo_bit = 2 ^ (pair * 2 + 1) in
      pair_edges min_deadtime_ns tick_hz timestamp (any_bits fall_bits hi_bit)
        (any_bits rise_bits lo_bit) (any_bits fall_bits lo_bit) (any_bits rise_bits hi_bit)
        (any_bits state hi_bit && any_bits state lo_bit) p

  -- The body of `for record in records`.
  unfoldable pub analyze_record : Float → ℕ → ℕ → RawRecord → Analysis → Result Analysis
  unfolding channel_step pair_step
  analyze_record min_deadtime_ns tick_hz previous_state item a =
      let timestamp = item.timestamp_ticks in
      let state = item.logical_inputs in
      let rise_bits = bit_and item.changed_inputs state in
      let fall_bits = bit_and item.changed_inputs previous_state in
      bind
        (map_result_from (pair_step min_deadtime_ns tick_hz timestamp state rise_bits fall_bits) 0
          a.pairs)
        λ pairs. ok (record {
          channels = map_from (channel_step timestamp rise_bits fall_bits) 0 a.channels;
          pairs = pairs;
        })

  unfoldable pub analyze_loop : Float → ℕ → ℕ → List RawRecord → Analysis → Result Analysis
  unfolding analyze_record
  analyze_loop min_deadtime_ns tick_hz previous_state [] a = ok a
  analyze_loop min_deadtime_ns tick_hz previous_state (item ∷ items) a =
      bind (analyze_record min_deadtime_ns tick_hz previous_state item a)
        (analyze_loop min_deadtime_ns tick_hz item.logical_inputs items)

  -- `analyze_raw_capture` up to its loop: the validation, the records, and the loop over them.
  unfoldable pub analyze_events : RawCaptureShared → Float → Result Analysis
  unfolding validate raw_records raw_to_logical analyze_loop
  analyze_events shared min_deadtime_ns = bind (validate shared) λ d.
      bind (raw_records shared) λ records.
        analyze_loop min_deadtime_ns shared.tick_hz (raw_to_logical shared.initial_raw_inputs)
          records no_events
