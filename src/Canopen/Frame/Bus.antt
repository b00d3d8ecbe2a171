-- ===== src/Canopen/Frame/Bus.antt =====
-- The bus that the CANopen helpers talk to: the protocol `CanBus` of fieldbus/canopen/sdo.py, its
-- implementation `SocketCanBus` over a raw socket, and the scripted `FakeBus` of the tests.
use hil_lab.Prelude.{ℕ, List, [], ◌∷◌, ◌++◌, ◌==◌, not, length}
use hil_lab.Errors.{Exec, ok, err, lift, raise_if, ◌>>=◌, runtime_error, timeout_error}
use hil_lab.Canopen.Frame.{CanFrame, can_frame_size, pack_can_frame, unpack_can_frame}

pub record CanBus : Type 1 where
  pub State : Type 0
  pub send : CanFrame → Exec State Unit
  pub recv : Exec State CanFrame

-- The operating system's raw CAN socket: `send` returns the number of bytes written.
pub record Socket : Type 1 where
  pub State : Type 0
  pub send : List ℕ → Exec State ℕ
  pub recv : ℕ → Exec State (List ℕ)

module _ (sock : Socket) where
  unfoldable pub socket_send : CanFrame → Exec sock.State Unit
  unfolding pack_can_frame
  socket_send frame = do
    written ← sock.send (pack_can_frame frame)
    raise_if (not (written == length (pack_can_frame frame))) runtime_error

  unfoldable pub socket_recv : Exec sock.State CanFrame
  socket_recv = sock.recv can_frame_size >>= λ payload. lift (unpack_can_frame payload)

abbrev pub socket_can_bus : Socket → CanBus
unfolding socket_send socket_recv
socket_can_bus sock = record {
  State = sock.State;
  send = socket_send sock;
  recv = socket_recv sock;
}

-- What the bus will deliver, and what was sent on it, oldest first.
pub record FakeState : Type 0 where
  pub responses : List CanFrame
  pub sent : List CanFrame

abbrev fake_recv : List CanFrame → Exec FakeState CanFrame
fake_recv [] s = (err timeout_error, s)
fake_recv (frame ∷ rest) s = (ok frame, record s { responses = rest })

abbrev pub fake_bus : CanBus
fake_bus = record {
  State = FakeState;
  send = λ frame s. (ok tt, record s { sent = s.sent ++ frame ∷ [] });
  recv = λ s. fake_recv s.responses s;
}
