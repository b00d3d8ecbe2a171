-- ===== src/Canopen/Frame.antt =====
-- fieldbus/canopen/socketcan.py: classical CAN frames, their wire form `=IB3x8s` (on a little-endian
-- host), and the bus over a raw CAN socket. `=` gives standard sizes: 4 + 1 + 3 + 8 = 16 bytes.
pub mod RoundTrip
pub mod Bus
use hil_lab.Prelude.{
  ℕ, ◌≤◌, ◌-◌, Bool, true, false, List, [], ◌∷◌, ◌++◌, bit_and, ltb, ◌==◌, not, if◌then◌else◌,
  length, take, drop, get_or, replicate,
}
use hil_lab.Prelude.Bytes.{to_le, from_le, IsBytes}
use hil_lab.Errors.{Result, ok, err, value_error}

-- `payload` is the field `data`.
pub record CanFrame : Type 0 where
  pub can_id : ℕ
  pub payload : List ℕ

-- What `CanFrame.__post_init__` lets through.
pub record IsFrame (f : CanFrame) : Type 0 where
  pub id_fits : f.can_id ≤ 0x7ff
  pub payload_fits : length f.payload ≤ 8
  pub payload_bytes : IsBytes f.payload

-- `CanFrame(can_id, data)`. A negative identifier, which is refused too, is not representable.
unfoldable pub make_frame : ℕ → List ℕ → Result CanFrame
make_frame can_id payload =
    if ltb 0x7ff can_id
    then err value_error
    else if ltb 8 (length payload)
    then err value_error
    else ok (record { can_id = can_id; payload = payload })

abbrev pub ljust : ℕ → List ℕ → List ℕ
ljust w bs = bs ++ replicate (w - length bs) 0

abbrev pub can_frame_size : ℕ
can_frame_size = 16

unfoldable pub pack_can_frame : CanFrame → List ℕ
pack_can_frame f = to_le 4 f.can_id ++ (length f.payload ∷ 0 ∷ 0 ∷ 0 ∷ ljust 8 f.payload)

unfoldable pub unpack_can_frame : List ℕ → Result CanFrame
unfolding make_frame
unpack_can_frame payload =
    if not (length payload == can_frame_size)
    then err value_error
    else let can_id = from_le (take 4 payload) in
      let dlc = get_or payload 4 0 in
      let content = drop 8 payload in
      if ltb 8 dlc then err value_error else make_frame (bit_and can_id 0x7ff) (take dlc content)
