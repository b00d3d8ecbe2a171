-- ===== src/Hil/Pru/Safe.antt =====
-- host/hil/backends/beaglebone_pru.py: the constructor's guarantees and `force_safe`.
use text.Mathlib.Text.{◌==◌ as str_eq}
use hil_lab.Prelude.{
  ℕ, ◌≡◌, refl, sym, ap, ◌∙◌, Bool, true, false, Option, none, some, not, ◌&&◌, ◌==◌, arith,
}
use hil_lab.Prelude.Bits.{any_bits}
use hil_lab.Errors.{
  Error, Result, ok, err, Exec, pure, lift, raise_if-eq-ok, continue, ◌>>=◌, ◌>>◌, >>=-eq-ok,
  ok-run, infrastructure, invalid_configuration,
}
use hil_lab.Bbb.Protocol.{Message, msg_force_safe, cap_force_safe}
use hil_lab.Bbb.Rpc.{Args, no_args}
use hil_lab.Hil.Capability.{has_required, force_safe as force_safe_capability}
use hil_lab.Hil.Core.{BackendIdentity, supports, require}
use hil_lab.Hil.Zynq.{guard}
use hil_lab.Hil.Pru.{
  Board, Hello, check_response, drives_stimulus, caps_of, map_capabilities, request_on,
  force_stimulus, force_safe,
}

-- What the constructor has checked of the identity and of the second client's answer.
abbrev pub IsConsistent : BackendIdentity → Hello → Option Hello → Type 0
IsConsistent identity capture none = identity.tick_hz ≡ capture.tick_hz
IsConsistent identity capture (some stimulus) =
    (stimulus.tick_hz ≡ identity.tick_hz)
    × (stimulus.counter_bits ≡ identity.counter_bits)
    × (drives_stimulus stimulus.capabilities_raw
          && not (any_bits stimulus.capabilities_raw cap_force_safe)
        ≡ false)

abbrev pub IsQualified : BackendIdentity → Type 0
IsQualified identity =
    (capture : Hello) × (stimulus : Option Hello) × (identity.capabilities
      ≡ map_capabilities capture.capabilities_raw (caps_of stimulus))
    × (has_required identity.capabilities ≡ true)
    × IsConsistent identity capture stimulus

-- A client's answer to a request that succeeded.
abbrev pub Acknowledges : {S : Type 0} → (ℕ → Args → Exec S Message) → ℕ → S → S → Type 0
Acknowledges client msg_type s t =
    (r : Message) × (client msg_type no_args s ≡ (ok r, t)) × (r.flags ≡ 0)

request_on-Acknowledges :
    (board : Board) (client : ℕ → Args → Exec board.State Message) (msg_type : ℕ)
    (s t : board.State) (r : Message)
    → request_on board client msg_type no_args s ≡ (ok r, t)
    → Acknowledges client msg_type s t
unfolding request_on check_response
request_on-Acknowledges board client ty s t r h =
    split (client ty no_args s).0 (client ty no_args s).1 refl h
  where
    clear : (m : Message) → check_response m ≡ ok tt → m.flags ≡ 0
    clear m e = ground arith

    split :
        (x : Result Message) (u : board.State)
        → client ty no_args s ≡ (x, u)
        → continue (guard (λ e. infrastructure) x) (λ m. lift (check_response m) >> pure m) u
          ≡ (ok r, t)
        → Acknowledges client ty s t
    split (ok m) u e g =
        let (d, w, a, b) = >>=-eq-ok (lift (check_response m)) (λ d. pure m) u g in
        (m, e ∙ ap (λ v. (ok m, v)) (ap (λ p. p.1) a ∙ sym (ok-run b).1), clear m (ap (λ p. p.0) a))
    split (err x) u e g = cc

-- What a success of `force_safe` means for the second client.
abbrev pub StimulusSafe :
    (board : Board)
    → Option (ℕ → Args → Exec board.State Message)
    → board.State
    → board.State
    → Type 0
StimulusSafe board none s t = t ≡ s
StimulusSafe board (some client) s t = Acknowledges client msg_force_safe s t

-- `force_safe` succeeds only when the first client and then, if there is one, the second have
-- acknowledged the request with status 0, and only for the assertion, not the release.
pub force_safe-acknowledged :
    (board : Board) (identity : BackendIdentity) (asserted : Bool) (s t : board.State)
    → force_safe board identity asserted s ≡ (ok tt, t)
    → (asserted ≡ true)
      × (u : board.State) × Acknowledges board.capture msg_force_safe s u
      × StimulusSafe board board.stimulus u t
unfolding force_safe
force_safe-acknowledged board identity asserted s t h =
    let (d, s₁, a₁, h₁) = >>=-eq-ok (lift (require identity force_safe_capability)) _ s h in
    let (n, h₂) =
      raise_if-eq-ok (not asserted) invalid_configuration
        (request_on board board.capture msg_force_safe no_args >>= λ response.
          force_stimulus board identity board.stimulus)
        s₁ h₁ in
    let (r, u, a₃, h₃) =
      >>=-eq-ok (request_on board board.capture msg_force_safe no_args)
        (λ response. force_stimulus board identity board.stimulus) s₁ h₂ in
    (
      ground (arith, n),
      u,
      request_on-Acknowledges board board.capture msg_force_safe s u r
          (ap (request_on board board.capture msg_force_safe no_args) (ap (λ p. p.1) a₁) ∙ a₃),
      second board.stimulus u h₃,
    )
  where
    second :
        (client : Option (ℕ → Args → Exec board.State Message)) (u : board.State)
        → force_stimulus board identity client u ≡ (ok tt, t)
        → StimulusSafe board client u t
    second none u g = sym (ap (λ p. p.1) g)
    second (some client) u g =
        let (r, w, a, b) =
          >>=-eq-ok (request_on board client msg_force_safe no_args) (λ response. pure tt) u g in
        request_on-Acknowledges board client msg_force_safe u t r
          (a ∙ ap (λ v. (ok r, v)) (ap (λ p. p.1) b))

-- When the first client does not answer, `force_safe` ends there: the second client, which drives
-- the stimulus, is not asked.
pub force_safe-first_fails :
    (board : Board) (identity : BackendIdentity) (s t : board.State) (e : Error)
    → supports identity force_safe_capability ≡ true
    → board.capture msg_force_safe no_args s ≡ (err e, t)
    → force_safe board identity true s ≡ (err infrastructure, t)
unfolding force_safe request_on
force_safe-first_fails board identity s t e h f = rw (h, f) refl
