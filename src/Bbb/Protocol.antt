-- ===== src/Bbb/Protocol.antt =====
-- boards/beaglebone_black/host/hil_pru_protocol.py: the 32-byte message and the checks of a response.
pub mod Codes
pub mod RoundTrip
use hil_lab.Prelude.{
  ℕ, ◌+◌, ◌^◌, Bool, true, false, List, [], ◌∷◌, ◌++◌, ◌==◌, ltb, not, if◌then◌else◌, bit_or,
  length, take, drop, get_or,
}
use hil_lab.Prelude.Bytes.{to_le, from_le}
use hil_lab.Errors.{Result, ok, err, bind, refuse_if, struct_error, value_error, runtime_error}

abbrev pub magic_word : ℕ
magic_word = 0x304c_4948

abbrev pub protocol_version : ℕ
protocol_version = 1

abbrev pub msg_hello : ℕ
msg_hello = 1

abbrev pub msg_time : ℕ
msg_time = 2

abbrev pub msg_force_safe : ℕ
msg_force_safe = 4

abbrev pub msg_abz_config : ℕ
msg_abz_config = 16

abbrev pub msg_abz_start : ℕ
msg_abz_start = 17

abbrev pub msg_abz_stop : ℕ
msg_abz_stop = 18

abbrev pub msg_response_bit : ℕ
msg_response_bit = 0x8000

abbrev pub err_invalid_argument : ℕ
err_invalid_argument = 2 ^ 4

abbrev pub cap_timebase : ℕ
cap_timebase = 2 ^ 0

abbrev pub cap_force_safe : ℕ
cap_force_safe = 2 ^ 3

abbrev pub cap_pwm_capture : ℕ
cap_pwm_capture = 2 ^ 5

abbrev pub cap_pwm_complementary_monitor : ℕ
cap_pwm_complementary_monitor = 2 ^ 6

abbrev pub cap_abz_emulator : ℕ
cap_abz_emulator = 2 ^ 10

abbrev pub cap_hall_emulator : ℕ
cap_hall_emulator = 2 ^ 12

abbrev pub cap_ssi_emulator : ℕ
cap_ssi_emulator = 2 ^ 13

abbrev pub cap_biss_emulator : ℕ
cap_biss_emulator = 2 ^ 14

abbrev pub cap_spi_sensor_emulator : ℕ
cap_spi_sensor_emulator = 2 ^ 15

pub record Message : Type 0 where
  pub type : ℕ
  pub seq : ℕ
  pub flags : ℕ
  pub arg0 : ℕ
  pub arg1 : ℕ
  pub arg2 : ℕ
  pub arg3 : ℕ
  pub magic : ℕ
  pub version : ℕ

-- `struct.Struct("<IHHIIIIII")`, by the widths of its fields, and its `pack` and `unpack`.
abbrev pub wire : List ℕ
wire = 4 ∷ 2 ∷ 2 ∷ 4 ∷ 4 ∷ 4 ∷ 4 ∷ 4 ∷ 4 ∷ []

abbrev pub pack_fields : List ℕ → List ℕ → Result (List ℕ)
pack_fields [] ns = ok []
pack_fields (w ∷ ws) [] = err struct_error
pack_fields (w ∷ ws) (n ∷ ns) =
    let rest = pack_fields ws ns in
    if ltb n (256 ^ w) then bind rest (λ bs. ok (to_le w n ++ bs)) else err struct_error

abbrev pub unpack_fields : List ℕ → List ℕ → List ℕ
unpack_fields [] bs = []
unpack_fields (w ∷ ws) bs = from_le (take w bs) ∷ unpack_fields ws (drop w bs)

-- The order of the fields on the wire.
abbrev pub fields : Message → List ℕ
fields m = m.magic ∷ m.version ∷ m.type ∷ m.seq ∷ m.flags ∷ m.arg0 ∷ m.arg1 ∷ m.arg2 ∷ m.arg3 ∷ []

abbrev pub message_of : List ℕ → Message
message_of ns = record {
  type = get_or ns 2 0;
  seq = get_or ns 3 0;
  flags = get_or ns 4 0;
  arg0 = get_or ns 5 0;
  arg1 = get_or ns 6 0;
  arg2 = get_or ns 7 0;
  arg3 = get_or ns 8 0;
  magic = get_or ns 0 0;
  version = get_or ns 1 0;
}

unfoldable pub pack : Message → Result (List ℕ)
pack m = pack_fields wire (fields m)

unfoldable pub unpack : List ℕ → Result Message
unpack payload =
    if length payload == 32 then ok (message_of (unpack_fields wire payload)) else err value_error

unfoldable pub validate_response : Message → ℕ → ℕ → Result (Unit {0})
validate_response m request_type request_seq =
    if not (m.magic == magic_word)
    then err runtime_error
    else if not (m.version == protocol_version)
    then err runtime_error
    else if not (m.type == bit_or request_type msg_response_bit)
    then err runtime_error
    else if not (m.seq == request_seq)
    then err runtime_error
    else ok tt
