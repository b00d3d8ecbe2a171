-- ===== src/Lab/Release.antt =====
-- lab/session.py: what a session holds after it was entered and after it was left, whatever fails.
use hil_lab.Prelude.{◌≡◌, String, Bool, true, false, Option, none, some}
use hil_lab.Errors.{Result, ok, err}
use hil_lab.Lab.{Bench, Session}

abbrev pub has_place : Option String → Bool
has_place none = false
has_place (some place) = true

-- The two sessions hold the same.
abbrev pub HoldsSame : {H : Type 0} → Session H → Session H → Type 0
HoldsSame s t =
    (t.holds ≡ s.holds) × (t.acquired ≡ s.acquired) × (t.locked_elsewhere ≡ s.locked_elsewhere)

module _ (bench : Bench) where
  abbrev State : Type 0
  State = Session bench.Hardware

  -- Releasing the place keeps the lock, and ends without the place.
  abbrev Released : State → State → Type 0
  Released s t = (t.holds ≡ s.holds) × (t.acquired ≡ false)

  -- Taking the place keeps the lock; on success the place is held, and otherwise nothing changes.
  Acquired : Option String → State → Result (Unit {0}) → State → Type 0
  Acquired place s (ok done) t = (t.holds ≡ s.holds) × (t.acquired ≡ has_place place)
  Acquired place s (err e) t = (t.holds ≡ s.holds) × (t.acquired ≡ s.acquired)

  -- How a session stands after `__enter__`.
  abbrev pub Entered : Result (Unit {0}) × Session bench.Hardware → Type 0
  Entered (ok done, t) = (t.holds ≡ true) × (t.acquired ≡ has_place bench.place)
  Entered (err e, t) = (t.holds ≡ false) × (t.acquired ≡ false)

  -- The body of the `try` statement, from a session that holds the lock.
  Tried : Result (Unit {0}) → State → Type 0
  Tried (ok done) t = (t.holds ≡ true) × (t.acquired ≡ has_place bench.place)
  Tried (err e) t = has_place bench.place ≡ false → t.acquired ≡ false

abbrev Left : {H : Type 0} → Session H → Type 0
Left s = (s.holds ≡ false) × (s.acquired ≡ false)
