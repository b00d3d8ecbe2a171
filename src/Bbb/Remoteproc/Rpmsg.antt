-- ===== src/Bbb/Remoteproc/Rpmsg.antt =====
-- boards/beaglebone_black/scripts/pru0_ctl.py and pru1_ctl.py: waiting for the RPMsg device of a core that was
-- started. The loop is given the number of its turns, and answers `none` when these are used up.
pub mod Ends
use hil_lab.Prelude.{
  ℕ, zero, suc, Bool, true, false, not, if◌then◌else◌, Option, none, some, List, [], ◌∷◌, String,
}
use hil_lab.Errors.{Result, ok, err, Exec, pure, raise, ◌>>=◌, ◌>>◌, timeout_error}
use hil_lab.Bbb.Floats.{Floats}

-- The patterns of the two scripts.
abbrev pub patterns0 : List String
patterns0 = "/dev/rpmsg_pru30" ∷ "/dev/rpmsg-pru30" ∷ "/dev/rpmsg*30*" ∷ []

abbrev pub patterns1 : List String
patterns1 = "/dev/rpmsg_pru31" ∷ "/dev/rpmsg-pru31" ∷ "/dev/rpmsg*31*" ∷ []

-- The calls of the operating system: `glob.glob`, `Path.exists`, `time.monotonic` and `time.sleep(0.05)`.
pub record Waiting (floats : Floats) : Type 1 where
  pub State : Type 0
  pub glob : String → Exec State (List String)
  pub exists : String → Exec State Bool
  pub monotonic : Exec State floats.Float
  pub sleep : Exec State Unit

module _ (floats : Floats) (waiting : Waiting floats) where
  open waiting use {State, glob, exists, monotonic, sleep}

  abbrev pub on_found : Option String → Exec State (Option String) → Exec State (Option String)
  on_found none rest = rest
  on_found (some candidate) rest = pure (some candidate)

  unfoldable pub first_candidate : List String → Exec State (Option String)
  first_candidate [] = pure none
  first_candidate (candidate ∷ others) =
      let rest = first_candidate others in
      exists candidate >>= λ found. if found then pure (some candidate) else rest

  unfoldable pub first_device : List String → Exec State (Option String)
  unfolding first_candidate
  first_device [] = pure none
  first_device (pattern ∷ others) =
      let rest = first_device others in
      glob pattern >>= λ candidates. first_candidate candidates >>= λ found. on_found found rest

  -- One turn of the loop, before the deadline.
  abbrev pub turn : List String → Exec State (Option String) → Exec State (Option String)
  turn patterns rest = first_device patterns >>= λ found. on_found found (sleep >> rest)

  unfoldable pub wait_loop : ℕ → List String → floats.Float → Exec State (Option String)
  unfolding first_device
  wait_loop zero patterns deadline = pure none
  wait_loop (suc turns) patterns deadline =
      let rest = wait_loop turns patterns deadline in
      monotonic >>= λ now.
      if floats.lt now deadline then turn patterns rest else raise timeout_error

  unfoldable pub wait_for_rpmsg : ℕ → List String → floats.Float → Exec State (Option String)
  unfolding wait_loop
  wait_for_rpmsg turns patterns timeout_s =
      monotonic >>= λ start. wait_loop turns patterns (floats.add start timeout_s)
