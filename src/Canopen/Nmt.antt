-- ===== src/Canopen/Nmt.antt =====
-- fieldbus/canopen/nmt.py: network management commands and heartbeats.
pub mod Laws
use hil_lab.Prelude.{
  ℕ, zero, suc, ◌+◌, ◌-◌, Bool, true, false, ◌&&◌, List, [], ◌∷◌, ltb, leb, ◌==◌, not,
  if◌then◌else◌, length, get_or,
}
use hil_lab.Errors.{
  Result, ok, err, bind, Exec, raise, lift, ◌>>=◌, ◌>>◌, raise_if, value_error, timeout_error,
}
use hil_lab.Canopen.Frame.{CanFrame, make_frame}
use hil_lab.Canopen.Frame.Bus.{CanBus}

pub data NmtCommand : Type 0 where
  start_remote_node stop_remote_node enter_pre_operational reset_node reset_communication :
      NmtCommand

abbrev pub command_code : NmtCommand → ℕ
command_code start_remote_node = 0x01
command_code stop_remote_node = 0x02
command_code enter_pre_operational = 0x80
command_code reset_node = 0x81
command_code reset_communication = 0x82

pub data NmtState : Type 0 where
  bootup stopped operational pre_operational : NmtState

-- `NmtState(code)`: the lookup by value, which raises ValueError on an unknown code.
abbrev pub nmt_state : ℕ → Result NmtState
nmt_state code =
    if code == 0x00
    then ok bootup
    else if code == 0x04
    then ok stopped
    else if code == 0x05
    then ok operational
    else if code == 0x7f
    then ok pre_operational
    else err value_error

abbrev pub state_code : NmtState → ℕ
state_code bootup = 0x00
state_code stopped = 0x04
state_code operational = 0x05
state_code pre_operational = 0x7f

pub record Heartbeat : Type 0 where
  pub node_id : ℕ
  pub state : NmtState

unfoldable pub build_nmt_frame : NmtCommand → ℕ → Result CanFrame
unfolding make_frame
build_nmt_frame command node_id =
    if ltb 127 node_id
    then err value_error
    else make_frame 0x000 (command_code command ∷ node_id ∷ [])

unfoldable pub parse_heartbeat : CanFrame → Result Heartbeat
parse_heartbeat frame =
    if not (leb 0x701 frame.can_id && leb frame.can_id 0x77f)
    then err value_error
    else if not (length frame.payload == 1)
    then err value_error
    else bind (nmt_state (get_or frame.payload 0 0))
        (λ state. ok (record { node_id = frame.can_id - 0x700; state = state }))

module _ (bus : CanBus) (node_id : ℕ) where
  -- The loop with `n` frames left.
  unfoldable pub heartbeat_loop : ℕ → Exec bus.State Heartbeat
  unfolding parse_heartbeat
  heartbeat_loop zero = raise timeout_error
  heartbeat_loop (suc n) = do
    frame ← bus.recv
    let rest = heartbeat_loop n
    if frame.can_id == 0x700 + node_id then lift (parse_heartbeat frame) else rest

  unfoldable pub wait_for_heartbeat : ℕ → Exec bus.State Heartbeat
  unfolding heartbeat_loop
  wait_for_heartbeat max_frames = do
    raise_if (not (leb 1 node_id && leb node_id 127)) value_error
    heartbeat_loop max_frames
