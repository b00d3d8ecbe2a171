-- ===== src/Bbb/Tests/Captures.antt =====
-- Concrete runs of the models of the raw capture, with whole numbers in place of floats.
use hil_lab.Prelude.{
  ℕ, ◌+◌, ◌-◌, ◌*◌, ◌/◌, ◌≡◌, refl, false, List, [], ◌∷◌, ◌++◌, length, replicate, ltb, ◌==◌,
  if◌then◌else◌, none, some, map, Indexed,
}
use hil_lab.Errors.{Result, ok, err, zero_division}
use hil_lab.Prelude.Bits.{bit}
use hil_lab.Bbb.Floats.{Floats}
use hil_lab.Bbb.Raw.{
  RawEdgeRecord, RawCaptureShared, raw_magic, RawRecord, raw_to_logical, raw_records,
}
use hil_lab.Bbb.Raw.Analysis.{
  Pair, Analysis, wrapped_sub, ticks_to_ns, no_channel, no_pair, analyze_events,
}
use hil_lab.Bbb.Raw.Ticks.{tick_counts}
use hil_lab.Bbb.Raw.Histogram.{IsHistogram, tick_counts-IsHistogram}
use hil_lab.Bbb.Raw.Levels.{IsBalanced, last_state, analyze_events-IsBalanced}
use hil_lab.Bbb.Raw.Periods.{HasCycles, analyze_events-HasCycles}
use hil_lab.Bbb.Raw.Overlaps.{CountsOverlaps, analyze_events-CountsOverlaps}
use hil_lab.Bbb.Raw.Stale.{glitch, glitch-dead_time}

-- Whole numbers in place of floats.
abbrev sum : List ℕ → ℕ
sum [] = 0
sum (x ∷ xs) = x + sum xs

abbrev quotient : ℕ → ℕ → Result ℕ
quotient a b = if b == 0 then err zero_division else ok (a / b)

abbrev pub whole : Floats
whole = record {
  Float = ℕ;
  of_nat = λ n. n;
  literal = λ n d. n / d;
  add = ◌+◌;
  sub = λ a b. a - b;
  mul = ◌*◌;
  div = quotient;
  lt = ltb;
  eq = ◌==◌;
  floor = λ x. ok x;
  round = λ x. ok x;
  mean = λ xs. quotient (sum xs) (length xs);
}

abbrev edge : ℕ → ℕ → RawEdgeRecord
edge ticks inputs = record { timestamp_ticks = ticks; raw_inputs = inputs }

-- One cycle of the repository's own test, the low side's rise too early: UH is raw bit 1, UL raw bit 2.
abbrev pub short_capture : RawCaptureShared
short_capture = record {
  magic = raw_magic;
  version = 1;
  total_size = 8256;
  tick_hz = 200000000;
  capacity = 1024;
  running = 0;
  configured_event_limit = 1024;
  event_count = 8;
  initial_raw_inputs = 2;
  final_raw_inputs = 2;
  start_ticks = 0;
  stop_ticks = 20000;
  stop_reason = 1;
  input_mask = 0;
  generation = 1;
  overflow_count = 0;
  ring =
      edge 4860 0
      ∷ edge 4940 4
      ∷ edge 9860 0
      ∷ edge 10000 2
      ∷ edge 14860 0
      ∷ edge 15000 4
      ∷ edge 19860 0
      ∷ edge 20000 2
      ∷ replicate 1016 (edge 0 0);
}

abbrev short_analysis : Analysis
short_analysis = record {
  channels =
      record {
        rise_last = some 20000;
        fall_last = some 14860;
        period_ticks = 10000 ∷ [];
        high_ticks = 4860 ∷ [];
        low_ticks = 5140 ∷ 5140 ∷ [];
        rise_count = 2;
        fall_count = 2;
      }
      ∷ record {
        rise_last = some 15000;
        fall_last = some 19860;
        period_ticks = 10060 ∷ [];
        high_ticks = 4920 ∷ 4860 ∷ [];
        low_ticks = 5140 ∷ [];
        rise_count = 2;
        fall_count = 2;
      }
      ∷ replicate 4 no_channel;
  pairs =
      record {
        pending_hl = none;
        pending_lh = none;
        dead_hl_ticks = 80 ∷ 140 ∷ [];
        dead_lh_ticks = 140 ∷ 140 ∷ [];
        overlap_count = 0;
        violation_count = 1;
        overlap_active = false;
      }
      ∷ replicate 2 no_pair;
}

analysed : analyze_events whole short_capture 600 ≡ ok short_analysis
unfolding analyze_events
analysed = refl

analyze_events-HasCycles_example :
    Indexed
      (λ k. HasCycles (bit (raw_to_logical short_capture.initial_raw_inputs) k))
      0
      short_analysis.channels
analyze_events-HasCycles_example =
    analyze_events-HasCycles whole short_capture 600 short_analysis analysed

analyze_events-IsBalanced_example :
    (records : List RawRecord) × (raw_records short_capture ≡ ok records)
    × Indexed
        (IsBalanced (raw_to_logical 2) (last_state (raw_to_logical 2) records))
        0
        short_analysis.channels
analyze_events-IsBalanced_example =
    analyze_events-IsBalanced whole short_capture 600 short_analysis analysed

analyze_events-CountsOverlaps_example :
    (records : List RawRecord) × (raw_records short_capture ≡ ok records)
    × Indexed (CountsOverlaps (map (λ r. r.logical_inputs) records)) 0 short_analysis.pairs
analyze_events-CountsOverlaps_example =
    analyze_events-CountsOverlaps whole short_capture 600 short_analysis analysed

tick_counts-IsHistogram_example :
    IsHistogram (80 ∷ 140 ∷ 80 ∷ []) (tick_counts (80 ∷ 140 ∷ 80 ∷ []))
tick_counts-IsHistogram_example = tick_counts-IsHistogram (80 ∷ 140 ∷ 80 ∷ [])

tick_counts_run : tick_counts (140 ∷ 80 ∷ 140 ∷ []) ≡ (80, 1) ∷ (140, 2) ∷ []
unfolding tick_counts
tick_counts_run = refl

glitch_ns : ticks_to_ns whole (wrapped_sub 1000 0) 200000000 ≡ ok 5000
unfolding ticks_to_ns
glitch_ns = refl

glitch-dead_time_example :
    (q : Pair) × (glitch whole 600 200000000 0 10 1000 no_pair ≡ ok q)
    × (q.dead_hl_ticks ≡ [] ++ (wrapped_sub 1000 0 ∷ []))
    × (q.overlap_count ≡ 0 + 1)
glitch-dead_time_example =
    glitch-dead_time whole 600 5000 200000000 0 10 1000 no_pair refl glitch_ns
