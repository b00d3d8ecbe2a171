-- ===== src/Canopen/Cia402.antt =====
-- fieldbus/canopen/cia402.py: the CiA 402 state of a drive by its statusword, the controlword that
-- leads on, and the loop that enables a drive.
pub mod States
pub mod Enable
pub mod Drive
use hil_lab.Prelude.{
  ℕ, zero, suc, ◌+◌, Bool, true, false, ◌&&◌, ◌||◌, ◌==◌, not, if◌then◌else◌, bit_and,
}
use hil_lab.Prelude.Int.{ℤ, pos, is_pos}
use hil_lab.Errors.{
  Result, ok, err, Exec, pure, raise, lift, raise_if, ◌>>=◌, ◌>>◌, bind, value_error, runtime_error,
}
use hil_lab.Canopen.Frame.Bus.{CanBus}
use hil_lab.Canopen.Nmt.{start_remote_node, build_nmt_frame}
use hil_lab.Canopen.Sdo.{CanopenSdoClient, create}
use hil_lab.Canopen.Sdo.Port.{SdoPort, client_port, download_i8, download_u16, upload_u16}

pub data CiA402State : Type 0 where
  not_ready switch_on_disabled ready_to_switch_on switched_on operation_enabled : CiA402State
  quick_stop_active fault_reaction_active fault unknown : CiA402State

unfoldable pub decode_state : ℕ → CiA402State
decode_state statusword =
    if bit_and statusword 0x004f == 0x0000
    then not_ready
    else if bit_and statusword 0x004f == 0x0040
    then switch_on_disabled
    else if bit_and statusword 0x006f == 0x0021
    then ready_to_switch_on
    else if bit_and statusword 0x006f == 0x0023
    then switched_on
    else if bit_and statusword 0x006f == 0x0027
    then operation_enabled
    else if bit_and statusword 0x006f == 0x0007
    then quick_stop_active
    else if bit_and statusword 0x004f == 0x000f
    then fault_reaction_active
    else if bit_and statusword 0x004f == 0x0008
    then fault
    else unknown

-- The branches of `next_controlword` on the decoded state.
abbrev pub controlword_for : CiA402State → ℕ
controlword_for fault = 0x0080
controlword_for switch_on_disabled = 0x0006
controlword_for ready_to_switch_on = 0x0007
controlword_for switched_on = 0x000f
controlword_for operation_enabled = 0x000f
controlword_for quick_stop_active = 0x000f
controlword_for not_ready = 0x0000
controlword_for fault_reaction_active = 0x0000
controlword_for unknown = 0x0000

unfoldable pub next_controlword : ℕ → ℕ
unfolding decode_state
next_controlword statusword = controlword_for (decode_state statusword)

abbrev pub is_operation_enabled : CiA402State → Bool
is_operation_enabled operation_enabled = true
is_operation_enabled _ = false

abbrev pub is_mode : ℤ → Bool
is_mode mode =
    is_pos mode 1
    || is_pos mode 3
    || is_pos mode 4
    || is_pos mode 6
    || is_pos mode 8
    || is_pos mode 9
    || is_pos mode 10

module _ (sdo : SdoPort) where
  unfoldable pub set_mode : ℤ → Exec sdo.State Unit
  set_mode mode = do raise_if (not (is_mode mode)) value_error; download_i8 sdo 0x6060 0 mode

  -- The loop of `enable_operation` with `n` steps left.
  unfoldable pub enable_loop : ℕ → Exec sdo.State CiA402State
  unfolding decode_state next_controlword
  enable_loop zero = raise runtime_error
  enable_loop (suc n) = upload_u16 sdo 0x6041 0 >>= λ sw.
      let state = decode_state sw in
      let rest = enable_loop n in
      if is_operation_enabled state
      then pure state
      else (download_u16 sdo 0x6040 0 (pos (next_controlword sw)) >> rest)

-- The node's SDO client, and `start_nmt` on the same state.
module _ (sdo : SdoPort) (start_nmt : Exec sdo.State Unit) where
  unfoldable pub enable_operation : ℤ → ℕ → Exec sdo.State CiA402State
  unfolding set_mode enable_loop
  enable_operation mode max_steps = do
    raise_if (max_steps == 0) value_error
    set_mode sdo mode
    start_nmt
    enable_loop sdo max_steps

module _ (sdo : SdoPort) where
  unfoldable pub quick_stop : Exec sdo.State Unit
  quick_stop = download_u16 sdo 0x6040 0 (pos 0x000b)

  unfoldable pub disable_voltage : Exec sdo.State Unit
  disable_voltage = download_u16 sdo 0x6040 0 (pos 0x0000)

-- `CanopenCiA402Node.start_nmt` on the node's bus.
abbrev pub start_nmt : (bus : CanBus) → ℕ → Exec bus.State Unit
unfolding build_nmt_frame
start_nmt bus node_id = lift (build_nmt_frame start_remote_node node_id) >>= bus.send

-- `CanopenCiA402Node.create(bus, node_id).enable_operation(mode)`: the parts put together.
unfoldable pub node_enable_operation : (bus : CanBus) → ℕ → ℤ → ℕ → Exec bus.State CiA402State
unfolding create enable_operation
node_enable_operation bus node_id mode max_steps = lift (create node_id 32) >>= λ client.
    enable_operation (client_port bus client) (start_nmt bus node_id) mode max_steps
