-- ===== src/Bbb/Conversions.antt =====
-- boards/beaglebone_black/host/hil_pru_protocol.py and hil_abz.py: conversions between times, rates and
-- ticks of the PRU counter.
use hil_lab.Prelude.{ℕ, Bool, ◌||◌, ◌==◌, if◌then◌else◌}
use hil_lab.Errors.{Result, err, bind, value_error}
use hil_lab.Bbb.Floats.{Floats}

module _ (floats : Floats) where
  open floats use {Float, of_nat, mul, div, lt, eq, round}

  -- `x <= 0` on floats.
  abbrev pub is_nonpositive : Float → Bool
  is_nonpositive x = lt x (of_nat 0) || eq x (of_nat 0)

  unfoldable pub us_to_ticks : Float → ℕ → Result ℕ
  us_to_ticks us tick_hz =
      if lt us (of_nat 0)
      then err value_error
      else (bind (div (mul us (of_nat tick_hz)) (of_nat 1000000)) round)

  unfoldable pub ticks_to_us : ℕ → ℕ → Result Float
  ticks_to_us ticks tick_hz =
      if tick_hz == 0
      then err value_error
      else div (mul (of_nat ticks) (of_nat 1000000)) (of_nat tick_hz)

  unfoldable pub transition_ticks_from_rpm : Float → ℕ → ℕ → Result ℕ
  transition_ticks_from_rpm rpm ppr tick_hz =
      if is_nonpositive rpm || (ppr == 0 || tick_hz == 0)
      then err value_error
      else (bind (div rpm (of_nat 60)) λ per_second.
          bind (div (of_nat tick_hz) (mul (mul per_second (of_nat ppr)) (of_nat 4))) round)

  unfoldable pub transition_ticks_from_hz : Float → ℕ → Result ℕ
  transition_ticks_from_hz transition_hz tick_hz =
      if is_nonpositive transition_hz || tick_hz == 0
      then err value_error
      else (bind (div (of_nat tick_hz) transition_hz) round)

  unfoldable pub rpm_from_transition_ticks : ℕ → ℕ → ℕ → Result Float
  rpm_from_transition_ticks transition_ticks ppr tick_hz =
      if transition_ticks == 0 || (ppr == 0 || tick_hz == 0)
      then err value_error
      else (bind (div (of_nat tick_hz) (of_nat transition_ticks)) λ transitions_per_second.
          div (mul transitions_per_second (of_nat 60)) (mul (of_nat ppr) (of_nat 4)))
