-- ===== src/Hil/Zynq.antt =====
-- host/hil/backends/zynq.py: the backend over a board-specific transport, which it asks for its
-- identity and whose calls it guards by capability and whose failures it turns into two errors.
pub mod Errors
pub mod Opening
use text.Mathlib.Text.{◌==◌ as str_eq}
use hil_lab.Prelude.{
  ℕ, String, Bool, true, false, Option, none, some, List, [], ◌∷◌, not, ◌&&◌, ◌||◌, ◌==◌,
  if◌then◌else◌,
}
use hil_lab.Errors.{
  Error, Result, ok, err, Exec, pure, raise, lift, raise_if, ◌>>=◌, ◌>>◌, infrastructure,
  invalid_configuration,
}
use hil_lab.Hil.Capability.{
  Capability, timebase, pwm_capture, abz_generator, dio_scheduler,
  force_safe as force_safe_capability,
}
use hil_lab.Hil.Core.{
  Timestamp, BackendIdentity, PwmMeasurement, DioEvent, require, validate_contract,
}
use hil_lab.Hil.Uio.{AbzConfig}

-- A transport object. A method that the object may lack is an `Option`; where the backend checks the
-- class of an answer, `none` stands for an answer of another class.
pub record Transport : Type 1 where
  pub State : Type 0
  pub Status : Type 0
  pub read_identity : Exec State (Option BackendIdentity)
  pub read_timestamp : Option (Exec State (Option Timestamp))
  pub force_safe : Option (Bool → Exec State Unit)
  pub health : Option (Exec State (Option Status))
  pub read_pwm : Option (ℕ → Exec State (Option PwmMeasurement))
  pub configure_abz : Option (AbzConfig → Exec State Unit)
  pub start_abz : Option (Exec State Unit)
  pub stop_abz : Option (Exec State Unit)
  pub schedule_dio : Option (DioEvent → Exec State Unit)

-- What the `except` clauses of `_call` let through, and what they raise instead.
abbrev pub normalise : Error → Error
normalise invalid_configuration = invalid_configuration
normalise e = infrastructure

-- `try: return handler(...)` with an `except` clause that maps the exception.
abbrev pub guard : {A : Type 0} → (Error → Error) → Result A → Result A
guard f (ok a) = ok a
guard f (err e) = err (f e)

abbrev pub attempt : {S A : Type 0} → (Error → Error) → Exec S A → Exec S A
attempt f m s = let (r, t) = m s in (guard f r, t)

-- `isinstance(value, ...)`, or an infrastructure error.
abbrev pub expect : {S A : Type 0} → Option A → Exec S A
expect none = raise infrastructure
expect (some a) = pure a

abbrev pub mem : String → List String → Bool
mem x [] = false
mem x (y ∷ ys) = str_eq x y || mem x ys

-- `self.expected_backend_types and identity.backend_type not in self.expected_backend_types`.
abbrev pub is_other_board : List String → String → Bool
is_other_board [] board = false
is_other_board (x ∷ xs) board = not (mem board (x ∷ xs))

-- `handler(x)` for a method that may be missing.
abbrev pub at : {X A : Type 0} → X → Option (X → A) → Option A
at x none = none
at x (some f) = some (f x)

module _ (transport : Transport) where
  -- `__init__`, which keeps the identity.
  unfoldable pub construct : List String → Exec transport.State BackendIdentity
  construct expected_backend_types = do
    answer ← attempt (λ e. infrastructure) transport.read_identity
    identity ← expect answer
    raise_if (is_other_board expected_backend_types identity.backend_type) invalid_configuration
    lift (validate_contract identity)
    pure identity

  module _ (identity : BackendIdentity) where
    -- `_call`, with the handler applied to its arguments.
    unfoldable pub call :
        {A : Type 0} → Capability → Option (Exec transport.State A) → Exec transport.State A
    call capability none = lift (require identity capability) >> raise infrastructure
    call capability (some handler) = lift (require identity capability) >> attempt normalise handler

    unfoldable pub read_timestamp : Exec transport.State Timestamp
    unfolding call
    read_timestamp = do
      answer ← call timebase transport.read_timestamp
      value ← expect answer
      raise_if
          (not (value.tick_hz == identity.tick_hz)
            || not (value.counter_bits == identity.counter_bits))
          infrastructure
      pure value

    unfoldable pub force_safe : Bool → Exec transport.State Unit
    unfolding call
    force_safe asserted = call force_safe_capability (at asserted transport.force_safe)

    unfoldable pub health : Exec transport.State transport.Status
    health = elim transport.health [
      | none ↦ raise infrastructure
      | some handler ↦ attempt (λ e. infrastructure) handler >>= λ answer. expect answer
    ]

    unfoldable pub read_pwm : ℕ → Exec transport.State PwmMeasurement
    unfolding call
    read_pwm channel = call pwm_capture (at channel transport.read_pwm) >>= λ answer. expect answer

    unfoldable pub configure_abz : AbzConfig → Exec transport.State Unit
    unfolding call
    configure_abz config = call abz_generator (at config transport.configure_abz)

    unfoldable pub start_abz : Exec transport.State Unit
    unfolding call
    start_abz = call abz_generator transport.start_abz

    unfoldable pub stop_abz : Exec transport.State Unit
    unfolding call
    stop_abz = call abz_generator transport.stop_abz

    unfoldable pub schedule_dio : DioEvent → Exec transport.State Unit
    unfolding call
    schedule_dio event = call dio_scheduler (at event transport.schedule_dio)

-- The frozen sets of the two boards.
abbrev pub axu2cgb_types : List String
axu2cgb_types = "zynq_axu2cgb" ∷ "zu2cg_axu2cgb" ∷ []

abbrev pub ax7010_types : List String
ax7010_types = "zynq7010_ax7010" ∷ "zynq_ax7010" ∷ []
