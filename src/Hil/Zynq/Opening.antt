-- ===== src/Hil/Zynq/Opening.antt =====
-- host/hil/backends/zynq.py: what the constructor guarantees, and the two boards opened on a register
-- window (`open_uio`, without opening and closing the device).
use hil_lab.Prelude.{
  ◌≡◌, refl, sym, ap, ap₂, ◌∙◌, String, true, false, Option, none, some, List, arith, not,
}
use hil_lab.Errors.{
  Result, ok, err, Exec, pure, ◌>>=◌, >>=-eq-ok, continue, raise_if, raise_if-eq-ok, ◌>>◌,
  infrastructure, invalid_configuration, ok-run, lift,
}
use hil_lab.Hil.Capability.{has_required, timebase}
use hil_lab.Hil.Core.{Timestamp, BackendIdentity, validate_contract}
use hil_lab.Hil.Uio.{Mmio32, Health, AbzConfig}
use hil_lab.Hil.Uio as U
use hil_lab.Hil.Uio.Handshake.{Negotiates, identity_of, handshake-ok, handshake-eq-ok}
use hil_lab.Hil.Uio.Registers.{Registers, register_file}
use hil_lab.Hil.RegisterMap.{decode_capabilities, reg_capabilities}
use hil_lab.Hil.Zynq.{Transport, construct, expect, is_other_board, guard, call, read_timestamp}

-- `ZynqUioTransport` as a transport.
abbrev pub uio_transport : Mmio32 → BackendIdentity → Transport
uio_transport mmio identity = record {
  State = mmio.State;
  Status = Health;
  read_identity = pure (some identity);
  read_timestamp = some (U.read_timestamp mmio identity >>= λ t. pure (some t));
  force_safe = some (U.force_safe mmio);
  health = some (U.health mmio >>= λ h. pure (some h));
  read_pwm = some (λ channel. U.read_pwm mmio channel >>= λ m. pure (some m));
  configure_abz = some (U.configure_abz mmio);
  start_abz = some (U.start_abz mmio);
  stop_abz = some (U.stop_abz mmio);
  schedule_dio = some (U.schedule_dio mmio);
}

-- `open_uio` of `Axu2cgbBackend` and `Ax7010Backend`: the handshake, then the constructor.
unfoldable pub open_uio :
    (mmio : Mmio32) → String → List String → String → Exec mmio.State BackendIdentity
unfolding construct
open_uio mmio board types hardware_revision =
    U.handshake mmio (some board) hardware_revision >>= λ identity.
    construct (uio_transport mmio identity) types

-- A backend that was constructed holds the identity that its transport gave, of an expected board,
-- with the two capabilities that every backend must have.
pub construct-eq-ok :
    (transport : Transport) (types : List String) (s t : transport.State)
    (identity : BackendIdentity)
    → construct transport types s ≡ (ok identity, t)
    → (transport.read_identity s ≡ (ok (some identity), t))
      × (is_other_board types identity.backend_type ≡ false)
      × (has_required identity.capabilities ≡ true)
unfolding construct
construct-eq-ok transport types s t identity h =
    split (transport.read_identity s).0 (transport.read_identity s).1 refl h
  where
    split :
        (r : Result (Option BackendIdentity)) (u : transport.State)
        → transport.read_identity s ≡ (r, u)
        → continue
            (guard (λ e. infrastructure) r)
            (λ answer. expect answer >>= λ i.
              raise_if (is_other_board types i.backend_type) invalid_configuration
              >> (lift (validate_contract i) >> pure i))
            u
          ≡ (ok identity, t)
        → (transport.read_identity s ≡ (ok (some identity), t))
          × (is_other_board types identity.backend_type ≡ false)
          × (has_required identity.capabilities ≡ true)
    split (err e) u e₁ g = cc
    split (ok none) u e₁ g = cc
    split (ok (some i)) u e₁ g =
        let (m, g₁) =
          raise_if-eq-ok (is_other_board types i.backend_type) invalid_configuration _ u g in
        let (n, g₂) =
          raise_if-eq-ok (not (has_required i.capabilities)) invalid_configuration (pure i) u g₁ in
        let (a, b) = ok-run g₂ in
        (
          e₁ ∙ sym (ap₂ (λ x y. (ok (some x), y)) a b),
          ap (λ x. is_other_board types x.backend_type) a ∙ m,
          ap (λ x. has_required x.capabilities) a ∙ ground (arith, n),
        )

-- A timestamp that the backend passes on has the rate and the width of the negotiated identity.
pub read_timestamp-eq-ok :
    (transport : Transport) (identity : BackendIdentity) (s t : transport.State) (value : Timestamp)
    → read_timestamp transport identity s ≡ (ok value, t)
    → (value.tick_hz ≡ identity.tick_hz) × (value.counter_bits ≡ identity.counter_bits)
unfolding read_timestamp
read_timestamp-eq-ok transport identity s t value h =
    let (answer, u, a, b) =
      >>=-eq-ok (call transport identity timebase transport.read_timestamp) _ s h in
    let (v, w, c, d) = >>=-eq-ok (expect answer) _ u b in
    let (e, k) = raise_if-eq-ok _ infrastructure (pure v) w d in
    let (i, j) = ok-run k in
    (ap (λ x. x.tick_hz) i ∙ ground (arith, e), ap (λ x. x.counter_bits) i ∙ ground (arith, e))

-- A window that negotiates as the board of a backend, and has the two required capability bits, is
-- opened, without a write to it.
pub open_uio-ok :
    (board hardware_revision : String) (types : List String) (s : Registers)
    → Negotiates (some board) s board
    → is_other_board types board ≡ false
    → has_required (decode_capabilities (s.value reg_capabilities)) ≡ true
    → open_uio register_file board types hardware_revision s
      ≡ (ok (identity_of s board hardware_revision), s)
unfolding open_uio
open_uio-ok board hw types s n m h = rw (handshake-ok (some board) hw s board n, m, h) refl

-- An opened backend has read a window that negotiates as its own board, with the two required
-- capability bits, holds the identity of that window, and has written nothing.
pub open_uio-eq-ok :
    (board hardware_revision : String) (types : List String) (s t : Registers)
    (identity : BackendIdentity)
    → open_uio register_file board types hardware_revision s ≡ (ok identity, t)
    → (found : String) × Negotiates (some board) s found
      × (identity ≡ identity_of s found hardware_revision)
      × (has_required (decode_capabilities (s.value reg_capabilities)) ≡ true)
      × (t ≡ s)
unfolding open_uio
open_uio-eq-ok board hw types s t identity h =
    let (i, u, a, b) = >>=-eq-ok (U.handshake register_file (some board) hw) _ s h in
    let (found, n, e, f) = handshake-eq-ok (some board) hw s u i a in
    let (c, d, r) = construct-eq-ok (uio_transport register_file i) types u t identity b in
    let (w, y) = ok-run c in
    let x = ap (λ o. U.get o i) w in
    (found, n, x ∙ e, ap (λ j. has_required j.capabilities) (sym (x ∙ e)) ∙ r, y ∙ f)
