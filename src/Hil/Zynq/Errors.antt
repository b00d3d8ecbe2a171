-- ===== src/Hil/Zynq/Errors.antt =====
-- host/hil/backends/zynq.py: what a call of the backend does when it fails.
use hil_lab.Prelude.{
  ℕ, ◌≡◌, refl, Bool, true, false, Option, none, some, ◌⊎◌, inl, inr, not, ◌||◌, ◌==◌,
}
use hil_lab.Errors.{
  Error, Result, ok, err, Exec, pure, continue, refuse_if, ◌>>=◌, unsupported_capability,
  infrastructure, invalid_configuration,
}
use hil_lab.Hil.Capability.{
  Capability, timebase, pwm_capture, abz_generator, dio_scheduler,
  force_safe as force_safe_capability,
}
use hil_lab.Hil.Core.{BackendIdentity, DioEvent, supports, require}
use hil_lab.Hil.Uio.{AbzConfig}
use hil_lab.Hil.Zynq.{
  Transport, guard, normalise, expect, at, call, read_timestamp, force_safe, read_pwm,
  configure_abz, start_abz, stop_abz, schedule_dio,
}

-- The guarded calls, and the capability that each needs.
pub data Request : Type 0 where
  timestamp start stop : Request
  safe : Bool → Request
  pwm : ℕ → Request
  configure : AbzConfig → Request
  schedule : DioEvent → Request

abbrev pub capability_of : Request → Capability
capability_of timestamp = timebase
capability_of start = abz_generator
capability_of stop = abz_generator
capability_of (safe asserted) = force_safe_capability
capability_of (pwm channel) = pwm_capture
capability_of (configure config) = abz_generator
capability_of (schedule event) = dio_scheduler

-- The call that a request makes, its value dropped.
unfoldable pub perform :
    (transport : Transport) → BackendIdentity → Request → Exec transport.State Unit
unfolding read_timestamp force_safe read_pwm configure_abz start_abz stop_abz schedule_dio
perform transport identity timestamp = read_timestamp transport identity >>= λ value. pure tt
perform transport identity start = start_abz transport identity
perform transport identity stop = stop_abz transport identity
perform transport identity (safe asserted) = force_safe transport identity asserted
perform transport identity (pwm channel) = read_pwm transport identity channel >>= λ value. pure tt
perform transport identity (configure config) = configure_abz transport identity config
perform transport identity (schedule event) = schedule_dio transport identity event

call-unsupported :
    {A : Type 0} (transport : Transport) (identity : BackendIdentity) (c : Capability)
    (handler : Option (Exec transport.State A)) (s : transport.State)
    → supports identity c ≡ false
    → call transport identity c handler s ≡ (err (unsupported_capability c), s)
unfolding call
call-unsupported transport identity c none s h = rw (h) refl
call-unsupported transport identity c (some handler) s h = rw (h) refl

-- A call that needs a capability which the identity lacks raises the error that names it, and the
-- transport is not touched.
pub perform-unsupported :
    (transport : Transport) (identity : BackendIdentity) (request : Request) (s : transport.State)
    → supports identity (capability_of request) ≡ false
    → perform transport identity request s
      ≡ (err (unsupported_capability (capability_of request)), s)
unfolding perform
perform-unsupported transport identity timestamp s h =
    rw (call-unsupported transport identity timebase transport.read_timestamp s h) refl
perform-unsupported transport identity start s h = call-unsupported transport identity _ _ s h
perform-unsupported transport identity stop s h = call-unsupported transport identity _ _ s h
perform-unsupported transport identity (safe asserted) s h =
    call-unsupported transport identity _ _ s h
perform-unsupported transport identity (pwm channel) s h =
    rw (call-unsupported transport identity pwm_capture (at channel transport.read_pwm) s h) refl
perform-unsupported transport identity (configure config) s h =
    call-unsupported transport identity _ _ s h
perform-unsupported transport identity (schedule event) s h =
    call-unsupported transport identity _ _ s h

-- The errors of the contract, for one capability.
abbrev pub IsContractError : Capability → Error → Type 0
IsContractError c e =
    (e ≡ unsupported_capability c) ⊎ ((e ≡ infrastructure) ⊎ (e ≡ invalid_configuration))

abbrev pub RaisesOnly : {A : Type 0} → Capability → Result A → Type 0
RaisesOnly c (ok a) = Unit
RaisesOnly c (err e) = IsContractError c e

continue-RaisesOnly :
    {S A B : Type 0} (c : Capability) (r : Result A) (f : A → Exec S B) (s : S)
    → RaisesOnly c r
    → ((a : A) (t : S) → RaisesOnly c (f a t).0)
    → RaisesOnly c (continue r f s).0
continue-RaisesOnly c (ok a) f s h k = k a s
continue-RaisesOnly c (err e) f s h k = h

guard-RaisesOnly : {A : Type 0} (c : Capability) (r : Result A) → RaisesOnly c (guard normalise r)
guard-RaisesOnly c (ok a) = tt
guard-RaisesOnly c (err e) = normalised e
  where
    normalised : (e : Error) → IsContractError c (normalise e)
    normalised invalid_configuration = inr (inr refl)
    normalised e = inr (inl refl)

require-RaisesOnly :
    (c : Capability) (identity : BackendIdentity) → RaisesOnly c (require identity c)
require-RaisesOnly c identity = split (supports identity c)
  where
    split : (b : Bool) → RaisesOnly c (refuse_if (not b) (unsupported_capability c))
    split true = tt
    split false = inl refl

refuse_if-RaisesOnly : (c : Capability) (b : Bool) → RaisesOnly c (refuse_if b infrastructure)
refuse_if-RaisesOnly c true = inr (inl refl)
refuse_if-RaisesOnly c false = tt

expect-RaisesOnly :
    {S A : Type 0} (c : Capability) (o : Option A) (s : S) → RaisesOnly c (expect o s).0
expect-RaisesOnly c none s = inr (inl refl)
expect-RaisesOnly c (some a) s = tt

call-RaisesOnly :
    {A : Type 0} (transport : Transport) (identity : BackendIdentity) (c : Capability)
    (handler : Option (Exec transport.State A)) (s : transport.State)
    → RaisesOnly c (call transport identity c handler s).0
unfolding call
call-RaisesOnly transport identity c none s =
    continue-RaisesOnly c (require identity c) _ s (require-RaisesOnly c identity)
      (λ a t. inr (inl refl))
call-RaisesOnly transport identity c (some handler) s =
    continue-RaisesOnly c (require identity c) _ s (require-RaisesOnly c identity)
      (λ a t. guard-RaisesOnly c (handler t).0)

read_timestamp-RaisesOnly :
    (transport : Transport) (identity : BackendIdentity) (s : transport.State)
    → RaisesOnly timebase (read_timestamp transport identity s).0
unfolding read_timestamp
read_timestamp-RaisesOnly transport identity s =
    continue-RaisesOnly timebase (call transport identity timebase transport.read_timestamp s).0 _ _
      (call-RaisesOnly transport identity timebase transport.read_timestamp s)
      (λ o t.
        continue-RaisesOnly timebase (expect o t).0 _ _ (expect-RaisesOnly timebase o t) (λ v u.
          continue-RaisesOnly timebase
            (refuse_if
              (not (v.tick_hz == identity.tick_hz) || not (v.counter_bits == identity.counter_bits))
              infrastructure)
            _ u (refuse_if-RaisesOnly timebase _) (λ d w. tt)))

-- Whatever the transport raises or answers, a call of the backend that fails raises an error of the
-- contract: an unsupported capability, always the one of the call, an infrastructure error or an
-- invalid configuration.
pub perform-RaisesOnly :
    (transport : Transport) (identity : BackendIdentity) (request : Request) (s : transport.State)
    → RaisesOnly (capability_of request) (perform transport identity request s).0
unfolding perform
perform-RaisesOnly transport identity timestamp s =
    continue-RaisesOnly timebase (read_timestamp transport identity s).0 _ _
      (read_timestamp-RaisesOnly transport identity s) (λ a t. tt)
perform-RaisesOnly transport identity start s = call-RaisesOnly transport identity _ _ s
perform-RaisesOnly transport identity stop s = call-RaisesOnly transport identity _ _ s
perform-RaisesOnly transport identity (safe asserted) s = call-RaisesOnly transport identity _ _ s
perform-RaisesOnly transport identity (pwm channel) s =
    continue-RaisesOnly pwm_capture (read_pwm transport identity channel s).0 _ _
      (continue-RaisesOnly pwm_capture
        (call transport identity pwm_capture (at channel transport.read_pwm) s).0 _ _
        (call-RaisesOnly transport identity pwm_capture (at channel transport.read_pwm) s)
        (λ o t. expect-RaisesOnly pwm_capture o t))
      (λ a t. tt)
perform-RaisesOnly transport identity (configure config) s =
    call-RaisesOnly transport identity _ _ s
perform-RaisesOnly transport identity (schedule event) s = call-RaisesOnly transport identity _ _ s
