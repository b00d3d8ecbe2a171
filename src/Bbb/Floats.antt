-- ===== src/Bbb/Floats.antt =====
-- The floating-point arithmetic that boards/beaglebone_black/host calls: Python's, as a parameter.
use hil_lab.Prelude.{ℕ, Bool, List}
use hil_lab.Errors.{Result}

-- `of_nat` converts an integer, `literal n d` is the literal that is written for n / d. A division by
-- zero raises, and so does the conversion of an infinite number to an integer.
pub record Floats : Type 1 where
  pub Float : Type 0
  pub of_nat : ℕ → Float
  pub literal : ℕ → ℕ → Float
  pub add : Float → Float → Float
  pub sub : Float → Float → Float
  pub mul : Float → Float → Float
  pub div : Float → Float → Result Float
  pub lt : Float → Float → Bool
  pub eq : Float → Float → Bool
  pub floor : Float → Result ℕ
  pub round : Float → Result ℕ
  pub mean : List Float → Result Float
