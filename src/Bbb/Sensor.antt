-- ===== src/Bbb/Sensor.antt =====
-- boards/beaglebone_black/host/hil_sensor.py: the inverted CRC6 of a BiSS frame, and the frame.
pub mod Register
pub mod Traces
pub mod Detects
use native.Mathlib.Nat.{one-le-pow}
use hil_lab.Prelude.{
  ℕ, zero, suc, ◌+◌, ◌-◌, ◌*◌, ◌/◌, ◌%◌, ◌&&◌, ◌^◌, ◌≤◌, ◌<◌, ◌≡◌, refl, Bool, true, not, ◌==◌, ltb,
  leb, if◌then◌else◌, bit_and, bit_or, bit_xor, arith, ◌⊎◌, inl, inr, subst, lt→ltb,
}
use hil_lab.Prelude.Bits.{and_not, bits_ext, bit-bit_and, bit-bit_xor, bit-le, mask-one}
use hil_lab.Prelude.Bits.Fields.{bit_or-fields, bit_and-mask}
use hil_lab.Errors.{Result, ok, err, bind, value_error}

-- One turn of the loops: the register takes in one bit.
abbrev pub crc_step : ℕ → ℕ → ℕ
crc_step crc b =
    let feedback = bit_xor (bit_and (crc / 2 ^ 5) 1) b in
    let shifted = bit_and (crc * 2) 0x3f in if feedback == 0 then shifted else bit_xor shifted 3

-- The loop over the `n` low bits of a value, from the highest one down.
abbrev pub crc_bits : ℕ → ℕ → ℕ → ℕ
crc_bits zero value crc = crc
crc_bits (suc n) value crc =
    let next = crc_step crc (bit_and (value / 2 ^ n) 1) in crc_bits n value next

-- `(1 << position_bits) - 1`, and the same for 32 bits.
abbrev pub position_mask : ℕ → ℕ
position_mask position_bits = if ltb position_bits 32 then 2 ^ position_bits - 1 else 0xffff_ffff

abbrev pub is_width : ℕ → Bool
is_width position_bits = not (position_bits == 0) && leb position_bits 32

unfoldable pub crc6_biss : ℕ → ℕ → ℕ → ℕ → Result ℕ
crc6_biss position position_bits error_ok warning_ok =
    let masked = bit_and position (position_mask position_bits) in
    let status = bit_or (bit_and error_ok 1 * 2) (bit_and warning_ok 1) in
    if is_width position_bits
    then ok (and_not 0x3f (crc_bits 2 status (crc_bits position_bits masked 0)))
    else err value_error

-- The shifts of `build_biss_frame`, from the start bits on.
abbrev pub join_frame : ℕ → ℕ → ℕ → ℕ → ℕ → ℕ
join_frame position_bits position error_ok warning_ok crc =
    let start = bit_or (bit_or (bit_or 0 0 * 2) 1 * 2) 0 in
    let with_position = bit_or (start * 2 ^ position_bits) position in
    let with_error = bit_or (with_position * 2) (bit_and error_ok 1) in
    let with_warning = bit_or (with_error * 2) (bit_and warning_ok 1) in
    bit_or (with_warning * 2 ^ 6) crc

unfoldable pub build_biss_frame : ℕ → ℕ → ℕ → ℕ → Result (ℕ × ℕ)
unfolding crc6_biss
build_biss_frame position position_bits error_ok warning_ok =
    if is_width position_bits
    then (let masked = bit_and position (position_mask position_bits) in
        bind (crc6_biss masked position_bits error_ok warning_ok)
          (λ crc. ok (join_frame position_bits masked error_ok warning_ok crc, position_bits + 11)))
    else err value_error

pub mask-mod : (n x : ℕ) → n ≤ 32 → bit_and x (position_mask n) ≡ x % 2 ^ n
mask-mod n x h = split (below h)
  where
    below : n ≤ 32 → (n < 32) ⊎ (32 ≡ n)
    below h = omega (arith, h)

    split : (n < 32) ⊎ (32 ≡ n) → bit_and x (position_mask n) ≡ x % 2 ^ n
    split (inl l) = rw (lt→ltb n 32 l) (bit_and-mask n x)
    split (inr e) = subst (λ k. bit_and x (position_mask k) ≡ x % 2 ^ k) e (bit_and-mask 32 x)

and_not-63 : (x : ℕ) → and_not 0x3f x < 64
and_not-63 x = omega (arith, six, bit_and-mask 6 (and_not 0x3f x))
  where
    six : bit_and (and_not 0x3f x) 63 ≡ and_not 0x3f x
    six = bits_ext _ _ (λ k. omega (
      arith,
      bit-bit_and (and_not 0x3f x) 63 k,
      bit-bit_xor 63 (bit_and 63 x) k,
      bit-bit_and 63 x k,
      bit-le 63 k,
      bit-le x k,
    ))

join_frame-fields :
    (n position error_ok warning_ok crc : ℕ)
    → position < 2 ^ n
    → crc < 64
    → join_frame n position error_ok warning_ok crc
      ≡ (((2 * 2 ^ n + position) * 2 + error_ok % 2) * 2 + warning_ok % 2) * 64 + crc
join_frame-fields n position e w crc h g =
    rw
      (
        mask-one e,
        mask-one w,
        bit_or-fields n 2 position h,
        bit_or-fields 1 (2 * 2 ^ n + position) (e % 2) (omega arith),
        bit_or-fields 1 ((2 * 2 ^ n + position) * 2 + e % 2) (w % 2) (omega arith),
        bit_or-fields 6 (((2 * 2 ^ n + position) * 2 + e % 2) * 2 + w % 2) crc g,
      )
      refl

-- A frame of 1 to 32 position bits is built with 11 bits more, and consists of the start bits 010, the
-- position reduced to its width, the lowest bits of the two flags, and the six bits of the CRC of the
-- reduced position and the flags.
pub build_biss_frame-fields :
    (position n error_ok warning_ok : ℕ)
    → 1 ≤ n
    → n ≤ 32
    → (frame : ℕ) × (crc : ℕ) × (build_biss_frame position n error_ok warning_ok
        ≡ ok (frame, n + 11))
      × (crc6_biss (position % 2 ^ n) n error_ok warning_ok ≡ ok crc)
      × (frame % 64 ≡ crc)
      × (frame / 64 % 2 ≡ warning_ok % 2)
      × (frame / 128 % 2 ≡ error_ok % 2)
      × (frame / 256 ≡ 2 * 2 ^ n + position % 2 ^ n)
unfolding build_biss_frame
build_biss_frame-fields position n e w low high = (
  join_frame n (position % 2 ^ n) e w crc,
  crc,
  rw (wide, mask-mod n position high) refl,
  rw (wide) refl,
  omega (arith, joined, and_not-63 register),
  omega (arith, joined, and_not-63 register),
  omega (arith, joined, and_not-63 register),
  omega (arith, joined, and_not-63 register),
)
  where
    wide : is_width n ≡ true
    wide = ground (arith, low, high)

    register : ℕ
    register =
        crc_bits 2 (bit_or (bit_and e 1 * 2) (bit_and w 1))
          (crc_bits n (bit_and (position % 2 ^ n) (position_mask n)) 0)

    crc : ℕ
    crc = and_not 0x3f register

    joined :
        join_frame n (position % 2 ^ n) e w crc
        ≡ (((2 * 2 ^ n + position % 2 ^ n) * 2 + e % 2) * 2 + w % 2) * 64 + crc
    joined =
        join_frame-fields n (position % 2 ^ n) e w crc (omega (arith, one-le-pow n 2))
          (and_not-63 register)
