-- ===== src/Bbb/Abz.antt =====
-- boards/beaglebone_black/host/hil_abz.py: the flag word of an ABZ configuration. Its conversions
-- between rates and ticks are in Conversions.
use text.Mathlib.Text.{◌==◌ as str_eq}
use hil_lab.Prelude.{
  ℕ, ◌+◌, ◌*◌, ◌/◌, ◌^◌, ◌<◌, ◌≡◌, refl, ap₂, String, Bool, true, false, ◌||◌, not, ltb,
  if◌then◌else◌, bit_or, bit_and, arith, lt→ltb,
}
use hil_lab.Prelude.Bits.{any_bits, mask-one}
use hil_lab.Prelude.Bits.Fields.{fields-bit_or, bit_and-mask}
use hil_lab.Errors.{Result, ok, err, value_error}

unfoldable pub encode_config_flags : String → ℕ → Result ℕ
encode_config_flags direction initial_phase =
    if not (str_eq direction "forward" || str_eq direction "reverse")
    then err value_error
    else if not (ltb initial_phase 4)
    then err value_error
    else ok (bit_or (if str_eq direction "forward" then 0 else 1) (initial_phase * 2 ^ 8))

unfoldable pub decode_config_flags : ℕ → String × ℕ
decode_config_flags flags =
    (if any_bits flags 1 then "reverse" else "forward", bit_and (flags / 2 ^ 8) 3)

-- The flag word of a direction bit and a phase, and what it decodes to.
pub decode_config_flags-word :
    (reverse : Bool) (phase : ℕ)
    → phase < 4
    → decode_config_flags (bit_or (if reverse then 1 else 0) (phase * 2 ^ 8))
      ≡ (if reverse then "reverse" else "forward", phase)
unfolding decode_config_flags
decode_config_flags-word reverse phase h =
    ap₂ (λ x y. (if x then "reverse" else "forward", y)) (low reverse) (high reverse)
  where
    low : (r : Bool) → any_bits (bit_or (if r then 1 else 0) (phase * 2 ^ 8)) 1 ≡ r
    low true = ground (arith, fields-bit_or 8 phase 1 (omega arith), mask-one (phase * 2 ^ 8 + 1))
    low false = ground (arith, fields-bit_or 8 phase 0 (omega arith), mask-one (phase * 2 ^ 8))

    high : (r : Bool) → bit_and (bit_or (if r then 1 else 0) (phase * 2 ^ 8) / 2 ^ 8) 3 ≡ phase
    high true =
        rw (fields-bit_or 8 phase 1 (omega arith))
          (omega (arith, h, bit_and-mask 2 ((phase * 2 ^ 8 + 1) / 2 ^ 8)))
    high false =
        rw (fields-bit_or 8 phase 0 (omega arith))
          (omega (arith, h, bit_and-mask 2 ((phase * 2 ^ 8 + 0) / 2 ^ 8)))

-- Each of the two directions and each phase below 4 encodes to a word that decodes to them.
pub decode-encode_config_flags :
    (reverse : Bool) (phase : ℕ)
    → phase < 4
    → (flags : ℕ) × (encode_config_flags (if reverse then "reverse" else "forward") phase
        ≡ ok flags)
      × (decode_config_flags flags ≡ (if reverse then "reverse" else "forward", phase))
unfolding encode_config_flags
decode-encode_config_flags reverse phase h = (
  bit_or (if reverse then 1 else 0) (phase * 2 ^ 8),
  encoded reverse,
  decode_config_flags-word reverse phase h,
)
  where
    encoded :
        (r : Bool)
        → encode_config_flags (if r then "reverse" else "forward") phase
          ≡ ok (bit_or (if r then 1 else 0) (phase * 2 ^ 8))
    encoded true = rw (lt→ltb phase 4 h) refl
    encoded false = rw (lt→ltb phase 4 h) refl
