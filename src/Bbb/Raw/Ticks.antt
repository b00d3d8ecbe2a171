-- ===== src/Bbb/Raw/Ticks.antt =====
-- boards/beaglebone_black/host/hil_raw_shared.py: the statistics and histograms of tick counts, and
-- `analyze_raw_capture` as a whole.
use text.Mathlib.Text.{◌==◌ as str_eq}
use hil_lab.Prelude.{
  ℕ, suc, ◌+◌, ◌-◌, min, Option, none, some, List, [], ◌∷◌, map, not, ◌==◌, ltb, if◌then◌else◌,
  length, get_elem?, String, ◌&&◌,
}
use hil_lab.Prelude.Sort.{sorted}
use hil_lab.Errors.{Result, ok, bind, or_err, map_result, index_error}
use hil_lab.Bbb.Floats.{Floats}
use hil_lab.Bbb.Raw.{RawCaptureShared, raw_to_logical}
use hil_lab.Bbb.Raw.Analysis.{Channel, Pair, wrapped_sub, ticks_to_ns, analyze_events}

-- `Counter(values)`: the values with their counts, in the order of their first occurrence.
unfoldable pub increment : ℕ → List (ℕ × ℕ) → List (ℕ × ℕ)
increment x [] = (x, 1) ∷ []
increment x ((k, n) ∷ counts) = if k == x then (k, suc n) ∷ counts else (k, n) ∷ increment x counts

unfoldable pub counter_loop : List (ℕ × ℕ) → List ℕ → List (ℕ × ℕ)
unfolding increment
counter_loop counts [] = counts
counter_loop counts (x ∷ xs) = counter_loop (increment x counts) xs

-- `counts[ticks]`, which is 0 for a value that did not occur.
unfoldable pub count_of : ℕ → List (ℕ × ℕ) → ℕ
count_of x [] = 0
count_of x ((k, n) ∷ counts) = if k == x then n else count_of x counts

abbrev pub keys : List (ℕ × ℕ) → List ℕ
keys = map (λ p. p.0)

-- `[(ticks, counts[ticks]) for ticks in sorted(counts)]`
unfoldable pub tick_counts : List ℕ → List (ℕ × ℕ)
unfolding counter_loop count_of sorted
tick_counts values =
    let counts = counter_loop [] values in
    map (λ ticks. (ticks, count_of ticks counts)) (sorted ltb (keys counts))

unfoldable pub duration_ticks : RawCaptureShared → ℕ
duration_ticks shared =
    if shared.stop_ticks == 0 then 0 else wrapped_sub shared.stop_ticks shared.start_ticks

module _ (floats : Floats) where
  open floats use {Float, of_nat, literal, add, sub, mul, div, lt, eq, floor, mean}

  unfoldable pub ticks_to_us : ℕ → ℕ → Result Float
  ticks_to_us ticks tick_hz = div (mul (of_nat ticks) (of_nat 1000000)) (of_nat tick_hz)

  unfoldable pub percentile : List Float → Float → Result (Option Float)
  percentile [] p = ok none
  percentile (x ∷ []) p = ok (some x)
  percentile (x ∷ y ∷ rest) p =
      let sorted_values = x ∷ y ∷ rest in
      let position = mul (of_nat (length sorted_values - 1)) p in
      bind (floor position) λ lo.
        let hi = min (lo + 1) (length sorted_values - 1) in
        let frac = sub position (of_nat lo) in
        bind (or_err (get_elem? sorted_values lo) index_error) λ below.
          bind (or_err (get_elem? sorted_values hi) index_error)
            λ above. ok (some (add (mul below (sub (of_nat 1) frac)) (mul above frac)))

  pub record Statistics : Type 0 where
    pub count : ℕ
    pub min_value : Option Float
    pub mean_value : Option Float
    pub p50 : Option Float
    pub p95 : Option Float
    pub p99 : Option Float
    pub max_value : Option Float

  unfoldable pub summarize : List Float → Result Statistics
  unfolding percentile sorted
  summarize [] = ok (record {
    count = 0;
    min_value = none;
    mean_value = none;
    p50 = none;
    p95 = none;
    p99 = none;
    max_value = none;
  })
  summarize (x ∷ xs) =
      let ordered = sorted lt (x ∷ xs) in
      bind (mean ordered) λ m. bind (percentile ordered (literal 50 100)) λ a.
        bind (percentile ordered (literal 95 100)) λ b.
          bind (percentile ordered (literal 99 100)) λ c. ok (record {
            count = length (x ∷ xs);
            min_value = get_elem? ordered 0;
            mean_value = some m;
            p50 = a;
            p95 = b;
            p99 = c;
            max_value = get_elem? ordered (length ordered - 1);
          })

  abbrev pub convert : String → ℕ → ℕ → Result Float
  convert scale tick_hz ticks =
      if str_eq scale "us" then ticks_to_us ticks tick_hz else ticks_to_ns floats ticks tick_hz

  -- An entry of the histogram, and a summary with its histogram.
  pub record Bucket : Type 0 where
    pub ticks : ℕ
    pub count : ℕ
    pub value : Float

  pub record TickSummary : Type 0 where
    pub statistics : Statistics
    pub tick_histogram : List Bucket

  unfoldable pub summarize_ticks : List ℕ → ℕ → String → Result TickSummary
  unfolding summarize tick_counts ticks_to_us ticks_to_ns
  summarize_ticks values tick_hz scale =
      bind (map_result (convert scale tick_hz) values) λ converted.
        bind (summarize converted) λ statistics.
          bind
            (map_result
              (λ p.
                bind (convert scale tick_hz p.0)
                  λ v. ok (record { ticks = p.0; count = p.1; value = v }))
              (tick_counts values))
            λ histogram. ok (record { statistics = statistics; tick_histogram = histogram })

  pub record ChannelReport : Type 0 where
    pub rise_count : ℕ
    pub fall_count : ℕ
    pub period_us : TickSummary
    pub high_us : TickSummary
    pub low_us : TickSummary

  pub record PairReport : Type 0 where
    pub deadtime_high_to_low_ns : TickSummary
    pub deadtime_low_to_high_ns : TickSummary
    pub overlap_count : ℕ
    pub min_deadtime_violation_count : ℕ

  unfoldable pub channel_report : ℕ → Channel → Result ChannelReport
  unfolding summarize_ticks
  channel_report tick_hz c = bind (summarize_ticks c.period_ticks tick_hz "us") λ period.
      bind (summarize_ticks c.high_ticks tick_hz "us") λ high.
        bind (summarize_ticks c.low_ticks tick_hz "us") λ low. ok (record {
          rise_count = c.rise_count;
          fall_count = c.fall_count;
          period_us = period;
          high_us = high;
          low_us = low;
        })

  unfoldable pub pair_report : ℕ → Pair → Result PairReport
  unfolding summarize_ticks
  pair_report tick_hz p = bind (summarize_ticks p.dead_hl_ticks tick_hz "ns") λ high_to_low.
      bind (summarize_ticks p.dead_lh_ticks tick_hz "ns") λ low_to_high. ok (record {
        deadtime_high_to_low_ns = high_to_low;
        deadtime_low_to_high_ns = low_to_high;
        overlap_count = p.overlap_count;
        min_deadtime_violation_count = p.violation_count;
      })

  -- The report's channels and pairs in the order of CHANNEL_NAMES and PAIR_NAMES. The fields of the
  -- capture that it repeats are left out.
  pub record Report : Type 0 where
    pub channels : List ChannelReport
    pub pairs : List PairReport
    pub capture_duration_us : Option Float
    pub event_rate_hz : Option Float
    pub initial_logical_inputs : ℕ
    pub final_logical_inputs : ℕ

  unfoldable pub duration_us : RawCaptureShared → Result (Option Float)
  unfolding duration_ticks ticks_to_us
  duration_us shared =
      if shared.tick_hz == 0
      then ok none
      else (bind (ticks_to_us (duration_ticks shared) shared.tick_hz) λ us. ok (some us))

  unfoldable pub event_rate : RawCaptureShared → Option Float → Result (Option Float)
  event_rate shared none = ok none
  event_rate shared (some us) =
      if not (eq us (of_nat 0)) && lt (of_nat 0) us
      then (bind (div (mul (of_nat shared.event_count) (of_nat 1000000)) us) λ rate. ok (some rate))
      else ok none

  unfoldable pub analyze_raw_capture : RawCaptureShared → Float → Result Report
  unfolding analyze_events channel_report pair_report duration_us event_rate raw_to_logical
  analyze_raw_capture shared min_deadtime_ns =
      bind (analyze_events floats shared min_deadtime_ns) λ a.
        bind (map_result (channel_report shared.tick_hz) a.channels) λ channels.
          bind (map_result (pair_report shared.tick_hz) a.pairs) λ pairs.
            bind (duration_us shared) λ duration. bind (event_rate shared duration) λ rate.
              ok (record {
                channels = channels;
                pairs = pairs;
                capture_duration_us = duration;
                event_rate_hz = rate;
                initial_logical_inputs = raw_to_logical shared.initial_raw_inputs;
                final_logical_inputs = raw_to_logical shared.final_raw_inputs;
              })
