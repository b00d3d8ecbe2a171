-- ===== src/Bbb/Rpc.antt =====
-- boards/beaglebone_black/host/hil_pru_cli.py, class HilPru: one request over the character device and
-- its response.
pub mod Exchange
pub mod Late
use hil_lab.Prelude.{
  ℕ, suc, ◌+◌, ◌^◌, Bool, true, false, Option, none, some, List, [], ◌∷◌, ◌==◌, not, if◌then◌else◌,
  length,
}
use hil_lab.Prelude.Bits.{any_bits}
use hil_lab.Errors.{
  Result, ok, err, or_err, Exec, pure, raise, lift, raise_if, ◌>>=◌, ◌>>◌, runtime_error,
  timeout_error,
}
use hil_lab.Bbb.Protocol.{Message, magic_word, protocol_version, pack, unpack, validate_response}

-- The device: `os.write` gives the number of bytes written, `poll` the first event mask or nothing
-- when the timeout has run, `os.read` a packet.
pub record Rpmsg : Type 1 where
  pub State : Type 0
  pub write : List ℕ → Exec State ℕ
  pub poll : Exec State (Option ℕ)
  pub read : Exec State (List ℕ)

-- The state of a client: the next sequence number, and the device's own.
pub record Client (Device : Type 0) : Type 0 where
  pub seq : ℕ
  pub device : Device

-- The arguments `arg0` to `arg3`.
pub record Args : Type 0 where
  pub arg0 : ℕ
  pub arg1 : ℕ
  pub arg2 : ℕ
  pub arg3 : ℕ

abbrev pub no_args : Args
no_args = record { arg0 = 0; arg1 = 0; arg2 = 0; arg3 = 0 }

abbrev pub request_message : ℕ → ℕ → Args → Message
request_message msg_type seq args = record {
  type = msg_type;
  seq = seq;
  flags = 0;
  arg0 = args.arg0;
  arg1 = args.arg1;
  arg2 = args.arg2;
  arg3 = args.arg3;
  magic = magic_word;
  version = protocol_version;
}

-- `select.POLLERR | select.POLLHUP`.
abbrev pub poll_failure : ℕ
poll_failure = 0x18

module _ (rpmsg : Rpmsg) where
  -- The exchange, with the sequence number taken.
  unfoldable pub exchange : ℕ → ℕ → Args → Exec rpmsg.State Message
  unfolding pack unpack validate_response
  exchange msg_type seq args = do
    packet ← lift (pack (request_message msg_type seq args))
    written ← rpmsg.write packet
    raise_if (not (written == length packet)) runtime_error
    events ← rpmsg.poll
    event ← lift (or_err events timeout_error)
    raise_if (any_bits event poll_failure) runtime_error
    payload ← rpmsg.read
    response ← lift (unpack payload)
    lift (validate_response response msg_type seq)
    pure response

  unfoldable pub request : ℕ → Args → Exec (Client rpmsg.State) Message
  unfolding exchange
  request msg_type args client =
      let (r, device) = exchange msg_type client.seq args client.device in
      (r, record { seq = suc client.seq; device = device })
