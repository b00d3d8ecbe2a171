-- ===== src/Canopen/Sdo.antt =====
-- fieldbus/canopen/sdo.py: the expedited SDO client over a CAN bus.
pub mod Port
pub mod Response
pub mod Transfer
use hil_lab.Prelude.{
  ℕ, zero, suc, ◌+◌, ◌-◌, ◌*◌, ◌/◌, ◌%◌, Bool, true, false, Option, none, some, ◌&&◌, ◌||◌, List,
  [], ◌∷◌, ◌++◌, ltb, leb, ◌==◌, not, if◌then◌else◌, length, take, drop, get_or, bit_and, bit_or,
}
use hil_lab.Prelude.Bits.{any_bits}
use hil_lab.Prelude.Bytes.{from_le, are_bytes}
use hil_lab.Errors.{
  Result, ok, err, refuse_if, or_err, bind, Exec, pure, raise, lift, raise_if, ◌>>=◌, ◌>>◌,
  value_error, runtime_error, timeout_error, sdo_abort,
}
use hil_lab.Canopen.Frame.{CanFrame, make_frame, ljust}
use hil_lab.Canopen.Frame.Bus.{CanBus}

pub record CanopenSdoClient : Type 0 where
  pub node_id : ℕ
  pub max_frames : ℕ

pub record SdoUpload : Type 0 where
  pub index : ℕ
  pub subindex : ℕ
  pub content : List ℕ

-- `CanopenSdoClient(bus, node_id, max_frames=...)`; the default is 32.
unfoldable pub create : ℕ → ℕ → Result CanopenSdoClient
create node_id max_frames =
    if not (leb 1 node_id && leb node_id 127)
    then err value_error
    else if max_frames == 0
    then err value_error
    else ok (record { node_id = node_id; max_frames = max_frames })

abbrev pub request_cob_id : CanopenSdoClient → ℕ
request_cob_id c = 0x600 + c.node_id

abbrev pub response_cob_id : CanopenSdoClient → ℕ
response_cob_id c = 0x580 + c.node_id

-- The table `commands`, by the number of bytes; `none` is the KeyError.
abbrev pub download_command : ℕ → Option ℕ
download_command n =
    if n == 1
    then some 0x2f
    else if n == 2
    then some 0x2b
    else if n == 3
    then some 0x27
    else if n == 4
    then some 0x23
    else none

-- The four bytes that head each request; `bytes` refuses an index above 16 or a subindex above 8 bits.
abbrev pub request_head : ℕ → ℕ → ℕ → Result (List ℕ)
request_head command index subindex =
    let head = command ∷ bit_and index 0xff ∷ index / 256 ∷ subindex ∷ [] in
    if are_bytes head then ok head else err value_error

unfoldable pub download_frame : CanopenSdoClient → ℕ → ℕ → List ℕ → Result CanFrame
unfolding make_frame
download_frame c index subindex content =
    bind (or_err (download_command (length content)) value_error) λ command.
      bind (request_head command index subindex)
        λ head. make_frame (request_cob_id c) (head ++ ljust 4 content)

unfoldable pub upload_frame : CanopenSdoClient → ℕ → ℕ → Result CanFrame
unfolding make_frame
upload_frame c index subindex =
    bind (request_head 0x40 index subindex)
      λ head. make_frame (request_cob_id c) (head ++ 0 ∷ 0 ∷ 0 ∷ 0 ∷ [])

-- The value that an expedited upload response holds.
unfoldable pub upload_content : CanFrame → Result (List ℕ)
upload_content response =
    let command = get_or response.payload 0 0 in
    if not (bit_and command 0xe0 == 0x40) || not (any_bits command 0x02)
    then err runtime_error
    else let size = if any_bits command 0x01 then 4 - bit_and (command / 4) 0x03 else 4 in
      ok (take size (drop 4 response.payload))

module _ (bus : CanBus) (c : CanopenSdoClient) (index subindex : ℕ) where
  -- `_response`, with `n` frames of the loop left.
  unfoldable pub response_loop : ℕ → Exec bus.State CanFrame
  response_loop zero = raise timeout_error
  response_loop (suc n) = bus.recv >>= λ frame.
      let rest = response_loop n in
      let response_index = bit_or (get_or frame.payload 1 0) (get_or frame.payload 2 0 * 256) in
      if not (frame.can_id == response_cob_id c)
      then rest
      else if not (length frame.payload == 8)
      then raise runtime_error
      else if not (response_index == index) || not (get_or frame.payload 3 0 == subindex)
      then rest
      else if get_or frame.payload 0 0 == 0x80
      then raise (sdo_abort (from_le (take 4 (drop 4 frame.payload))) index subindex)
      else pure frame

  unfoldable pub download : List ℕ → Exec bus.State Unit
  unfolding response_loop download_frame
  download content = do
    request ← lift (download_frame c index subindex content)
    bus.send request
    response ← response_loop c.max_frames
    raise_if (not (get_or response.payload 0 0 == 0x60)) runtime_error

  unfoldable pub upload : Exec bus.State SdoUpload
  unfolding response_loop upload_frame upload_content
  upload = do
    request ← lift (upload_frame c index subindex)
    bus.send request
    response ← response_loop c.max_frames
    content ← lift (upload_content response)
    pure (record { index = index; subindex = subindex; content = content })
