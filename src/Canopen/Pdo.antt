-- ===== src/Canopen/Pdo.antt =====
-- fieldbus/canopen/pdo.py: process data mappings, their encoding into CAN frames, and the SDO
-- sequence that configures one in a node.
pub mod Codec
pub mod Configure
pub mod Interrupted
pub mod Profiles
use text.Mathlib.Text.{◌==◌ as str_eq}
use hil_lab.Prelude.{
  ℕ, zero, suc, ◌+◌, ◌-◌, ◌*◌, ◌/◌, ◌%◌, ◌^◌, String, Bool, true, false, Option, none, some, ◌&&◌,
  ◌||◌, List, [], ◌∷◌, ◌++◌, ltb, leb, ◌==◌, not, if◌then◌else◌, length, take, drop, get_or,
  bit_and, bit_or,
}
use hil_lab.Prelude.Int.{ℤ, pos}
use hil_lab.Prelude.Bytes.{from_bytes, to_bytes}
use hil_lab.Errors.{
  Result, ok, err, refuse_if, or_err, bind, Exec, pure, raise, lift, raise_if, ◌>>=◌, ◌>>◌,
  value_error, key_error, overflow_error,
}
use hil_lab.Canopen.Frame.{CanFrame, make_frame}
use hil_lab.Canopen.Sdo.Port.{SdoPort, download_u8, download_u32}

pub record PdoMappingEntry : Type 0 where
  pub name : String
  pub index : ℕ
  pub subindex : ℕ
  pub bits : ℕ
  pub signed : Bool

-- `PdoMappingEntry.__post_init__`. Negative indices, refused too, are not representable.
unfoldable pub make_entry : String → ℕ → ℕ → ℕ → Bool → Result PdoMappingEntry
make_entry name index subindex bits signed =
    if str_eq name ""
    then err value_error
    else if ltb 0xffff index
    then err value_error
    else if ltb 0xff subindex
    then err value_error
    else if not (bits == 8 || bits == 16 || bits == 32)
    then err value_error
    else ok
        (record { name = name; index = index; subindex = subindex; bits = bits; signed = signed })

abbrev pub mapping_value : PdoMappingEntry → ℕ
mapping_value e = bit_or (bit_or (e.index * 2 ^ 16) (e.subindex * 2 ^ 8)) e.bits

pub record PdoMapping : Type 0 where
  pub cob_id : ℕ
  pub entries : List PdoMappingEntry

-- `sum(entry.bits for entry in entries)`.
abbrev pub total_bits : List PdoMappingEntry → ℕ
total_bits [] = 0
total_bits (e ∷ es) = e.bits + total_bits es

-- `PdoMapping.__post_init__`.
unfoldable pub make_mapping : ℕ → List PdoMappingEntry → Result PdoMapping
make_mapping cob_id entries =
    if ltb 0x7ff cob_id
    then err value_error
    else if not (leb 1 (length entries) && leb (length entries) 8)
    then err value_error
    else if ltb 64 (total_bits entries)
    then err value_error
    else ok (record { cob_id = cob_id; entries = entries })

abbrev pub payload_bytes : PdoMapping → ℕ
payload_bytes m = total_bits m.entries / 8

-- The loop of `encode`; a mapping of names to values is a partial function.
unfoldable pub encode_entries : List PdoMappingEntry → (String → Option ℤ) → Result (List ℕ)
encode_entries [] values = ok []
encode_entries (e ∷ es) values =
    let rest = encode_entries es values in
    bind (or_err (values e.name) key_error) λ value.
      bind (or_err (to_bytes e.signed (e.bits / 8) value) overflow_error)
        λ bytes. bind rest λ more. ok (bytes ++ more)

unfoldable pub encode : PdoMapping → (String → Option ℤ) → Result CanFrame
unfolding encode_entries make_frame
encode m values = bind (encode_entries m.entries values) λ payload. make_frame m.cob_id payload

-- A `dict` from names to values, as the list of its items.
abbrev pub Dict : Type 0
Dict = List (String × ℤ)

abbrev pub lookup : String → Dict → Option ℤ
lookup k [] = none
lookup k ((j, v) ∷ d) = if str_eq j k then some v else lookup k d

abbrev pub insert : String → ℤ → Dict → Dict
insert k v [] = (k, v) ∷ []
insert k v ((j, w) ∷ d) = if str_eq j k then (j, v) ∷ d else (j, w) ∷ insert k v d

-- The loop of `decode`: the bytes from the offset on, and the dictionary built so far.
unfoldable pub decode_entries : List PdoMappingEntry → List ℕ → Dict → Dict
decode_entries [] bytes result = result
decode_entries (e ∷ es) bytes result =
    let width = e.bits / 8 in
    decode_entries es (drop width bytes)
      (insert e.name (from_bytes e.signed (take width bytes)) result)

unfoldable pub decode : PdoMapping → CanFrame → Result Dict
unfolding decode_entries
decode m frame =
    if not (frame.can_id == m.cob_id)
    then err value_error
    else if not (length frame.payload == payload_bytes m)
    then err value_error
    else ok (decode_entries m.entries frame.payload [])

unfoldable pub with_node_id : PdoMapping → ℕ → Result PdoMapping
unfolding make_mapping
with_node_id m node_id =
    if not (leb 1 node_id && leb node_id 127)
    then err value_error
    else make_mapping (m.cob_id + node_id) m.entries

module _ (sdo : SdoPort) (mapping_index : ℕ) where
  -- The loop that writes the mapping entries, from the subindex on.
  unfoldable pub write_entries : ℕ → List PdoMappingEntry → Exec sdo.State Unit
  write_entries subindex [] = pure tt
  write_entries subindex (e ∷ es) =
      download_u32 sdo mapping_index subindex (pos (mapping_value e))
      >> write_entries (subindex + 1) es

abbrev pub type_fits : Option ℕ → Bool
type_fits none = true
type_fits (some t) = leb t 0xff

module _ (sdo : SdoPort) (communication_index : ℕ) where
  abbrev pub write_transmission_type : Option ℕ → Exec sdo.State Unit
  write_transmission_type none = pure tt
  write_transmission_type (some t) = download_u8 sdo communication_index 2 (pos t)

module _ (sdo : SdoPort) (mapping_index communication_index : ℕ) where
  unfoldable pub configure_pdo_mapping : PdoMapping → Option ℕ → Exec sdo.State Unit
  unfolding write_entries
  configure_pdo_mapping m transmission_type = do
    raise_if (not (leb 0x1400 communication_index && leb communication_index 0x19ff)) value_error
    raise_if (not (leb 0x1600 mapping_index && leb mapping_index 0x1bff)) value_error
    raise_if (not (type_fits transmission_type)) value_error
    download_u32 sdo communication_index 1 (pos (bit_or m.cob_id 0x8000_0000))
    download_u8 sdo mapping_index 0 (pos 0)
    write_entries sdo mapping_index 1 m.entries
    download_u8 sdo mapping_index 0 (pos (length m.entries))
    write_transmission_type sdo communication_index transmission_type
    download_u32 sdo communication_index 1 (pos m.cob_id)
