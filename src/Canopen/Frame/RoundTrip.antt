-- ===== src/Canopen/Frame/RoundTrip.antt =====
-- fieldbus/canopen/socketcan.py: the wire form of a CAN frame, written and read.
use hil_lab.Prelude.{
  ℕ, ◌-◌, ◌%◌, ◌≤◌, ◌<◌, ◌≡◌, refl, List, ◌∷◌, ◌++◌, arith, length, take, drop, get_or, replicate,
  length-append, length-replicate, length-take, All-take, All-drop, take-append,
}
use hil_lab.Prelude.Bits.Fields.{bit_and-mask}
use hil_lab.Prelude.Bytes.{to_le, from_le, IsByte, IsBytes}
use hil_lab.Errors.{ok}
use hil_lab.Canopen.Frame.{CanFrame, IsFrame, make_frame, ljust, pack_can_frame, unpack_can_frame}

-- The wire form with any 32-bit identifier word, flags included.
abbrev pub wire : ℕ → List ℕ → List ℕ
wire word bs = to_le 4 word ++ (length bs ∷ 0 ∷ 0 ∷ 0 ∷ ljust 8 bs)

pub length-ljust : (w : ℕ) (bs : List ℕ) → length bs ≤ w → length (ljust w bs) ≡ w
length-ljust w bs h = omega (
  arith,
  length-append bs (replicate (w - length bs) 0),
  length-replicate {0} {A = ℕ} (w - length bs) 0,
)

-- The socket layer keeps the low 11 bits of the identifier word and drops its three flags, so an
-- extended, remote or error frame is read as a standard data frame.
pub unpack_can_frame-wire :
    (word : ℕ) (bs : List ℕ)
    → word < 0x1_0000_0000
    → length bs ≤ 8
    → unpack_can_frame (wire word bs) ≡ ok (record { can_id = word % 2048; payload = bs })
unfolding unpack_can_frame make_frame
unpack_can_frame-wire word bs h k = ground (
  arith,
  length-ljust 8 bs k,
  bit_and-mask 11 word,
  take-append (length bs) bs (replicate (8 - length bs) 0) refl,
)

-- A frame that the constructor accepts survives the trip through the wire form.
pub unpack_can_frame-pack_can_frame :
    (f : CanFrame) → IsFrame f → unpack_can_frame (pack_can_frame f) ≡ ok f
unfolding pack_can_frame
unpack_can_frame-pack_can_frame f h = ground (arith, unpack_can_frame-wire f.can_id f.payload)

-- Sixteen bytes from the socket give a frame that the constructor accepts, or an error.
pub unpack_can_frame-IsFrame :
    (bytes : List ℕ) (f : CanFrame) → IsBytes bytes → unpack_can_frame bytes ≡ ok f → IsFrame f
unfolding unpack_can_frame make_frame
unpack_can_frame-IsFrame bytes f h e = record {
  id_fits = ground (arith, bit_and-mask 11 (from_le (take 4 bytes)));
  payload_fits = ground (arith, length-take (get_or bytes 4 0) (drop 8 bytes));
  payload_bytes =
      ground (arith, All-take IsByte (get_or bytes 4 0) (drop 8 bytes) (All-drop IsByte 8 bytes h));
}
