-- ===== src/Prelude/Int.antt =====
-- Signed integers over the native numbers, for the Python ints that may be negative.
use Prim.Native.Nat.{ℕ}
use mathlib.Core.Bool.{Bool, false}
use hil_lab.Prelude.Tests.{◌==◌}

-- `negsuc n` is -(n + 1).
pub data ℤ : Type 0 where
  pos : ℕ → ℤ
  negsuc : ℕ → ℤ

-- The test `x == n` for a non-negative `n`.
abbrev pub is_pos : ℤ → ℕ → Bool
is_pos (pos m) n = m == n
is_pos (negsuc m) n = false
