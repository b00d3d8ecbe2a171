-- ===== src/Hil/Uio/Handshake.antt =====
-- host/hil/transports/uio.py, `ZynqUioTransport.__init__` against a register file: which windows it
-- accepts, and the identity that it makes of one.
use text.Mathlib.Text.{◌==◌ as str_eq}
use hil_lab.Prelude.{
  ℕ, ◌/◌, ◌^◌, ◌≡◌, ◌≢◌, ap, ◌∙◌, sym, String, Bool, true, false, Option, none, some, ◌==◌, arith,
  if◌then◌else◌, Option-cases, inl, inr,
}
use hil_lab.Errors.{ok-run, ok}
use hil_lab.Hil.Core.{BackendIdentity, axi_build, host_api_version, make_identity}
use hil_lab.Hil.RegisterMap.{
  magic_word, reg_magic, reg_abi_version, reg_backend_id, reg_capabilities, reg_tick_hz,
  reg_counter_bits, reg_build_id, backend_type, decode_capabilities,
}
use hil_lab.Hil.Uio.{get, handshake, is_unexpected}
use hil_lab.Hil.Uio.Registers.{Registers, register_file}

abbrev pub identity_of : Registers → String → String → BackendIdentity
identity_of s board hardware_revision = record {
  backend_type = board;
  hardware_revision = hardware_revision;
  firmware_revision = axi_build (s.value reg_build_id);
  api_version = host_api_version;
  capabilities = decode_capabilities (s.value reg_capabilities);
  tick_hz = s.value reg_tick_hz;
  counter_bits = 64;
}

-- The windows that negotiate as `board`.
abbrev pub Negotiates : Option String → Registers → String → Type 0
Negotiates expected s board =
    (s.value reg_magic ≡ magic_word)
    × (s.value reg_abi_version / 2 ^ 16 ≡ 1)
    × (backend_type (s.value reg_backend_id) ≡ some board)
    × (is_unexpected expected board ≡ false)
    × (s.value reg_tick_hz ≢ 0)
    × (s.value reg_counter_bits ≡ 64)

named : (id : ℕ) (board : String) → backend_type id ≡ some board → str_eq board "" ≡ false
named id board h = choose (id == 0x0000_7010) (id == 0x0002_c600) h
  where
    choose :
        (a b : Bool)
        → (if a then some "zynq7010_ax7010" else if b then some "zu2cg_axu2cgb" else none)
          ≡ some board
        → str_eq board "" ≡ false
    choose true b h = ap (λ o. str_eq (get o "") "") (sym h)
    choose false true h = ap (λ o. str_eq (get o "") "") (sym h)
    choose false false h = cc

-- A window that negotiates as `board` gives its identity and is not written.
pub handshake-ok :
    (expected : Option String) (hardware_revision : String) (s : Registers) (board : String)
    → Negotiates expected s board
    → handshake register_file expected hardware_revision s
      ≡ (ok (identity_of s board hardware_revision), s)
unfolding handshake make_identity
handshake-ok expected hw s board (a, b, c, d, e, f) =
    ground (arith, named (s.value reg_backend_id) board c)

-- A handshake that succeeds has read a window with the magic word, ABI major version 1, a known board
-- that matches the expected one, a clock rate and a 64-bit counter, gives the identity of that
-- window and writes nothing.
pub handshake-eq-ok :
    (expected : Option String) (hardware_revision : String) (s t : Registers)
    (identity : BackendIdentity)
    → handshake register_file expected hardware_revision s ≡ (ok identity, t)
    → (board : String) × Negotiates expected s board
      × (identity ≡ identity_of s board hardware_revision)
      × (t ≡ s)
unfolding handshake make_identity
handshake-eq-ok expected hw s t identity h =
    elim (Option-cases (backend_type (s.value reg_backend_id))) [
      | inl e ↦ absurd (ground (arith, h, e))
      | inr (board, e) ↦ join board (
        ground (arith, h, e),
        ground (arith, h, e),
        e,
        ground (arith, h, e),
        ground (arith, h, e),
        ground (arith, h, e),
      )
    ]
  where
    join :
        (board : String)
        → Negotiates expected s board
        → (board : String) × Negotiates expected s board
          × (identity ≡ identity_of s board hw)
          × (t ≡ s)
    join board n =
        let (i, u) = ok-run (sym (handshake-ok expected hw s board n) ∙ h) in (board, n, i, u)
