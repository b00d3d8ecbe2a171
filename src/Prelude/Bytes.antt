-- ===== src/Prelude/Bytes.antt =====
-- Byte strings as lists of numbers below 256, and Python's `int.to_bytes` and `int.from_bytes` in
-- little-endian order.
use Prim.Native.Nat.{ℕ, zero, suc, ◌+◌, ◌-◌, ◌*◌, ◌/◌, ◌%◌, ◌^◌, ◌<◌}
use mathlib.Core.Path.{◌≡◌, refl, ap, ap₂, subst, ◌∙◌}
use mathlib.Core.Bool.{Bool, true, false, ◌&&◌}
use mathlib.Core.Option.{Option, none, some}
use mathlib.Core.Logic.{inl, inr}
use mathlib.Core.List.{List, [], ◌∷◌}
use native.Mathlib.Nat.{pow-suc}
use native.Mathlib.Omega.{arith}
use hil_lab.Prelude.Tests.{ltb, if◌then◌else◌, Bool-cases}
use hil_lab.Prelude.Lists.{length, All}
use hil_lab.Prelude.Int.{ℤ, pos, negsuc}

-- The bytes of `n`, least significant first; what does not fit `w` bytes is cut off.
abbrev pub to_le : ℕ → ℕ → List ℕ
to_le zero n = []
to_le (suc w) n = (n % 256) ∷ to_le w (n / 256)

abbrev pub from_le : List ℕ → ℕ
from_le [] = 0
from_le (b ∷ bs) = b + 256 * from_le bs

abbrev pub IsByte : ℕ → Type 0
IsByte b = b < 256

abbrev pub IsBytes : List ℕ → Type 0
IsBytes = All IsByte

-- `bytes((...))` refuses a value that is not a byte.
abbrev pub are_bytes : List ℕ → Bool
are_bytes [] = true
are_bytes (b ∷ bs) = ltb b 256 && are_bytes bs

pub length-to_le : (w n : ℕ) → length (to_le w n) ≡ w
length-to_le zero n = refl
length-to_le (suc w) n = ap suc (length-to_le w (n / 256))

pub to_le-IsBytes : (w n : ℕ) → IsBytes (to_le w n)
to_le-IsBytes zero n = tt
to_le-IsBytes (suc w) n = (omega arith, to_le-IsBytes w (n / 256))

pub from_le-to_le : (w n : ℕ) → n < 256 ^ w → from_le (to_le w n) ≡ n
from_le-to_le zero n h = omega arith
from_le-to_le (suc w) n h = omega (arith, from_le-to_le w (n / 256) (omega (arith, pow-suc 256 w)))

pub from_le-lt : (bs : List ℕ) → IsBytes bs → from_le bs < 256 ^ length bs
from_le-lt [] h = omega arith
from_le-lt (b ∷ bs) h = omega (arith, pow-suc 256 (length bs), from_le-lt bs h.1)

pub to_le-from_le : (bs : List ℕ) → IsBytes bs → to_le (length bs) (from_le bs) ≡ bs
to_le-from_le [] h = refl
to_le-from_le (b ∷ bs) h =
    ap₂ ◌∷◌ (omega arith) (ap (λ t. to_le (length bs) t) (omega arith) ∙ to_le-from_le bs h.1)

pub are_bytes→IsBytes : (bs : List ℕ) → are_bytes bs ≡ true → IsBytes bs
are_bytes→IsBytes [] h = tt
are_bytes→IsBytes (b ∷ bs) h = ground (arith, are_bytes→IsBytes bs)

-- `int.to_bytes(w, "little", signed=False)`; `none` is the OverflowError.
unfoldable pub to_bytes_unsigned : ℕ → ℤ → Option (List ℕ)
to_bytes_unsigned w (pos n) = if ltb n (256 ^ w) then some (to_le w n) else none
to_bytes_unsigned w (negsuc n) = none

-- `int.to_bytes(w, "little", signed=True)`: two's complement.
unfoldable pub to_bytes_signed : ℕ → ℤ → Option (List ℕ)
to_bytes_signed w (pos n) = if ltb n (256 ^ w / 2) then some (to_le w n) else none
to_bytes_signed w (negsuc n) =
    if ltb n (256 ^ w / 2) then some (to_le w (256 ^ w - suc n)) else none

-- `int.from_bytes(bs, "little", signed=True)`.
unfoldable pub from_bytes_signed : List ℕ → ℤ
from_bytes_signed bs =
    let n = from_le bs in
    if ltb (2 * n) (256 ^ length bs) then pos n else negsuc (256 ^ length bs - n - 1)

unfoldable pub to_bytes : Bool → ℕ → ℤ → Option (List ℕ)
unfolding to_bytes_unsigned to_bytes_signed
to_bytes true w v = to_bytes_signed w v
to_bytes false w v = to_bytes_unsigned w v

unfoldable pub from_bytes : Bool → List ℕ → ℤ
unfolding from_bytes_signed
from_bytes true bs = from_bytes_signed bs
from_bytes false bs = pos (from_le bs)

-- The bytes that stand for a value: their number, their range, and the value read back.
abbrev pub Encodes : Bool → ℕ → ℤ → List ℕ → Type 0
Encodes s w v bs = (length bs ≡ w) × IsBytes bs × (from_bytes s bs ≡ v)

to_le-Encodes_unsigned : (w n : ℕ) → n < 256 ^ w → Encodes false w (pos n) (to_le w n)
unfolding from_bytes
to_le-Encodes_unsigned w n h = (length-to_le w n, to_le-IsBytes w n, ap pos (from_le-to_le w n h))

to_le-Encodes_signed :
    (w n : ℕ) (v : ℤ)
    → n < 256 ^ w
    → (if ltb (2 * n) (256 ^ w) then pos n else negsuc (256 ^ w - n - 1)) ≡ v
    → Encodes true w v (to_le w n)
unfolding from_bytes from_bytes_signed
to_le-Encodes_signed w n v h e =
    (length-to_le w n, to_le-IsBytes w n, rw (length-to_le w n, from_le-to_le w n h) e)

pow-even : (w : ℕ) → 256 ^ suc w ≡ 2 * (256 ^ suc w / 2)
pow-even w = omega (arith, pow-suc 256 w)

-- `to_bytes` either refuses, or gives the bytes that `from_bytes` reads back.
pub to_bytes-Encodes :
    (s : Bool) (w : ℕ) (v : ℤ) (bs : List ℕ)
    → to_bytes s (suc w) v ≡ some bs
    → Encodes s (suc w) v bs
unfolding to_bytes to_bytes_unsigned to_bytes_signed
to_bytes-Encodes false w (pos n) bs h = elim (Bool-cases (ltb n (256 ^ suc w))) [
  | inl fits ↦
      subst (Encodes false (suc w) (pos n)) (ground arith)
        (to_le-Encodes_unsigned (suc w) n (ground arith))
  | inr big ↦ absurd (ground arith)
]
to_bytes-Encodes false w (negsuc n) bs h = cc
to_bytes-Encodes true w (pos n) bs h = elim (Bool-cases (ltb n (256 ^ suc w / 2))) [
  | inl fits ↦ subst (Encodes true (suc w) (pos n)) (ground arith) (
      to_le-Encodes_signed (suc w) n (pos n) (ground (arith, pow-even w))
        (ground (arith, pow-even w)))
  | inr big ↦ absurd (ground arith)
]
to_bytes-Encodes true w (negsuc n) bs h = elim (Bool-cases (ltb n (256 ^ suc w / 2))) [
  | inl fits ↦ subst (Encodes true (suc w) (negsuc n)) (ground arith) (
      to_le-Encodes_signed (suc w) (256 ^ suc w - suc n) (negsuc n) (ground (arith, pow-even w))
        (ground (arith, pow-even w)))
  | inr big ↦ absurd (ground arith)
]
