-- ===== src/Canopen/Tests/Frames.antt =====
-- CAN frames, heartbeats and emergencies at concrete inputs.
use hil_lab.Prelude.{◌%◌, ◌≡◌, refl, [], ◌∷◌, arith}
use hil_lab.Errors.{ok}
use hil_lab.Canopen.Frame.{CanFrame, pack_can_frame, unpack_can_frame}
use hil_lab.Canopen.Frame.RoundTrip.{wire, unpack_can_frame-wire}
use hil_lab.Canopen.Nmt.{Heartbeat, operational, start_remote_node, build_nmt_frame}
use hil_lab.Canopen.Emcy.{Emcy}

abbrev reply : CanFrame
reply = record { can_id = 0x581; payload = 0x60 ∷ 0x40 ∷ 0x60 ∷ 0 ∷ 0 ∷ 0 ∷ 0 ∷ 0 ∷ [] }

abbrev alive : Heartbeat
alive = record { node_id = 5; state = operational }

pack_reply :
    pack_can_frame reply
    ≡ 0x81 ∷ 5 ∷ 0 ∷ 0 ∷ 8 ∷ 0 ∷ 0 ∷ 0 ∷ 0x60 ∷ 0x40 ∷ 0x60 ∷ 0 ∷ 0 ∷ 0 ∷ 0 ∷ 0 ∷ []
unfolding pack_can_frame
pack_reply = refl

start_node_one :
    build_nmt_frame start_remote_node 1 ≡ ok (record { can_id = 0; payload = 1 ∷ 1 ∷ [] })
unfolding build_nmt_frame
start_node_one = refl

-- The extended frame 0x12345705 is read as the heartbeat of node 5.
unpack_can_frame-wire_example :
    unpack_can_frame (wire 0x9234_5705 (5 ∷ []))
    ≡ ok (record { can_id = 0x9234_5705 % 2048; payload = 5 ∷ [] })
unpack_can_frame-wire_example =
    unpack_can_frame-wire 0x9234_5705 (5 ∷ []) (omega arith) (omega arith)

abbrev overload : Emcy
overload = record {
  node_id = 5;
  error_code = 0x2310;
  error_register = 1;
  manufacturer_data = b'a' ∷ b'b' ∷ b'c' ∷ b'd' ∷ b'e' ∷ [];
}
