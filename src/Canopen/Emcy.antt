-- ===== src/Canopen/Emcy.antt =====
-- fieldbus/canopen/emcy.py: emergency frames.
use hil_lab.Prelude.{
  ℕ, ◌+◌, ◌-◌, ◌/◌, ◌%◌, ◌≤◌, ◌<◌, ◌≡◌, List, ◌∷◌, ◌&&◌, arith, leb, ◌==◌, not, if◌then◌else◌,
  length, take, drop, get_or, take-length,
}
use hil_lab.Prelude.Bytes.{from_le}
use hil_lab.Errors.{Result, ok, err, value_error}
use hil_lab.Canopen.Frame.{CanFrame}

pub record Emcy : Type 0 where
  pub node_id : ℕ
  pub error_code : ℕ
  pub error_register : ℕ
  pub manufacturer_data : List ℕ

unfoldable pub parse_emcy : CanFrame → Result Emcy
parse_emcy frame =
    if not (leb 0x081 frame.can_id && leb frame.can_id 0x0ff)
    then err value_error
    else if not (length frame.payload == 8)
    then err value_error
    else ok (record {
      node_id = frame.can_id - 0x80;
      error_code = from_le (take 2 frame.payload);
      error_register = get_or frame.payload 2 0;
      manufacturer_data = drop 3 (take 8 frame.payload);
    })

-- The frame in which a node reports an emergency, by CiA 301.
abbrev pub emcy_frame : Emcy → CanFrame
emcy_frame e = record {
  can_id = 0x80 + e.node_id;
  payload = e.error_code % 256 ∷ e.error_code / 256 ∷ e.error_register ∷ e.manufacturer_data;
}

-- Every emergency of a node from 1 to 127 with a 16-bit code and five manufacturer bytes is read
-- back whole from the frame that reports it.
pub parse_emcy-emcy_frame :
    (e : Emcy)
    → 1 ≤ e.node_id
    → e.node_id ≤ 127
    → e.error_code < 65536
    → length e.manufacturer_data ≡ 5
    → parse_emcy (emcy_frame e) ≡ ok e
unfolding parse_emcy
parse_emcy-emcy_frame e lo hi c h = ground (arith, take-length 5 e.manufacturer_data h)
