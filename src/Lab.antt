-- ===== src/Lab.antt =====
-- lab/session.py, lab/resources/model.py, lab/labgrid/client.py and the command evidence of
-- fieldbus/core.py: one test session on a bench holds a file lock and a labgrid place, and brings the
-- backend to its safe state when it begins and when it ends.
pub mod Release
pub mod Safety
mod Tests
use text.Mathlib.Text.{◌==◌ as str_eq}
use hil_lab.Prelude.{
  ℕ, String, Bool, true, false, not, ◌&&◌, ◌||◌, Option, none, some, List, [], ◌∷◌, ◌==◌,
  if◌then◌else◌,
}
use hil_lab.Errors.{
  finally, Error, Result, ok, err, refuse_if, or_err, Exec, pure, raise, lift, raise_if, ◌>>=◌,
  ◌>>◌, value_error, resource_busy, tool_unavailable, command_failed,
}

-- The fields that the code reads; `ok` is `returncode == 0`.
pub record CommandEvidence : Type 0 where
  pub argv : List String
  pub returncode : ℕ

abbrev pub is_ok : CommandEvidence → Bool
is_ok evidence = evidence.returncode == 0

unfoldable pub require_success : CommandEvidence → Result CommandEvidence
require_success evidence = if is_ok evidence then ok evidence else err command_failed

pub record BenchResource : Type 0 where
  pub resource_id : String
  pub controller : String
  pub backend : String
  pub dut : String
  pub adapter_revision : String
  pub fieldbus_interface : Option String

unfoldable pub make_resource : BenchResource → Result BenchResource
make_resource r =
    if str_eq r.resource_id ""
      || (str_eq r.controller ""
          || (str_eq r.backend "" || (str_eq r.dut "" || str_eq r.adapter_revision "")))
    then err value_error
    else ok r

-- What stands outside the session: the backend's `force_safe(True)`, the command runner, the search
-- path and the state that they share.
pub record Bench : Type 1 where
  pub Hardware : Type 0
  pub force_safe : Exec Hardware Unit
  pub runner : List String → Exec Hardware CommandEvidence
  pub which : Hardware → Option String
  pub place : Option String

-- A session on a bench: the hardware, whether another process holds the file lock, whether this
-- session's lock object holds it (`_file is not None`), and the lease's `acquired`.
pub record Session (Hardware : Type 0) : Type 0 where
  pub hardware : Hardware
  pub locked_elsewhere : Bool
  pub holds : Bool
  pub acquired : Bool

-- `try: m; except Exception: k; raise`.
abbrev pub rescue : {S A : Type 0} → Result A → Exec S Unit → Exec S A
rescue (ok a) k s = (ok a, s)
rescue (err e) k s = (k >> raise e) s

abbrev pub on_error : {S A : Type 0} → Exec S A → Exec S Unit → Exec S A
on_error m k s = let (r, t) = m s in rescue r k t

-- `try: m; except Exception: pass`.
abbrev pub suppress : {S : Type 0} → Exec S Unit → Exec S Unit
suppress m s = (ok tt, (m s).1)

module _ (bench : Bench) where
  abbrev State : Type 0
  State = Session bench.Hardware

  -- An operation of the hardware, within the session.
  abbrev pub on_hardware : {A : Type 0} → Exec bench.Hardware A → Exec (Session bench.Hardware) A
  on_hardware m s = let (r, h) = m s.hardware in (r, record s { hardware = h })

  -- `ResourceLock.acquire` with `blocking=False`: the lock is refused while any open file holds it.
  unfoldable pub lock_acquire : Exec (Session bench.Hardware) Unit
  lock_acquire s =
      if s.locked_elsewhere || s.holds
      then (err resource_busy, s)
      else (ok tt, record s { holds = true })

  -- `ResourceLock.release`, which does nothing without the lock.
  unfoldable pub lock_release : Exec (Session bench.Hardware) Unit
  lock_release s = (ok tt, record s { holds = false })

  -- `LabgridPlaceLease._exe`, and the command that the lease runs.
  unfoldable pub run_labgrid : String → String → Exec (Session bench.Hardware) CommandEvidence
  unfolding require_success
  run_labgrid place operation s =
      (lift (or_err (bench.which s.hardware) tool_unavailable) >>= λ exe.
      on_hardware (bench.runner (exe ∷ "-p" ∷ place ∷ operation ∷ [])) >>= λ evidence.
      lift (require_success evidence))
        s

  -- `LabgridPlaceLease.acquire` and `release`, their evidence dropped as the session drops it.
  unfoldable pub lease_acquire : String → Exec (Session bench.Hardware) Unit
  unfolding run_labgrid
  lease_acquire place =
      run_labgrid place "acquire" >>= λ evidence s. (ok tt, record s { acquired = true })

  unfoldable pub lease_release : String → Exec (Session bench.Hardware) Unit
  unfolding run_labgrid
  lease_release place s =
      if s.acquired
      then finally (run_labgrid place "release" >>= λ evidence. pure tt)
          (λ t. (ok tt, record t { acquired = false })) s
      else (ok tt, s)

  -- The lease's part of a session, which may have none.
  abbrev pub acquire_place : Option String → Exec (Session bench.Hardware) Unit
  acquire_place none = pure tt
  acquire_place (some place) = lease_acquire place

  abbrev pub release_place : Option String → Exec (Session bench.Hardware) Unit
  release_place none = pure tt
  release_place (some place) = lease_release place

  -- `ServoHilSession.__enter__`.
  unfoldable pub enter : Exec (Session bench.Hardware) Unit
  unfolding lock_acquire lock_release lease_acquire lease_release
  enter =
      lock_acquire
      >> on_error (acquire_place bench.place >> on_hardware bench.force_safe)
          (suppress (release_place bench.place) >> lock_release)

  -- `ServoHilSession.__exit__`; the flag says that the body ended with an exception.
  unfoldable pub exit : Bool → Exec (Session bench.Hardware) Unit
  unfolding lock_release lease_release
  exit failed s =
      let (safety, t) = on_hardware bench.force_safe s in
      (finally (release_place bench.place) lock_release
          >> (if failed then pure tt else lift safety))
        t
