-- ===== src/Bbb/Console.antt =====
-- What the command lines of boards/beaglebone_black/host share: the client opened and closed around a
-- command, the printed dictionary, and the exit code.
pub mod Closing
use text.Mathlib.Text.{◌==◌ as str_eq}
use hil_lab.Prelude.{
  ℕ, Bool, true, false, Option, none, some, List, [], ◌∷◌, ◌==◌, if◌then◌else◌, String,
}
use hil_lab.Errors.{Result, ok, err, Exec, pure, lift, ◌>>=◌, finally}
use hil_lab.Bbb.Rpc.{Rpmsg, Client}

-- A value of the printed dictionary; `unknown` is the text `unknown-<code>`.
pub data Value (Float : Type 0) : Type 0 where
  num : ℕ → Value Float
  real : Float → Value Float
  flag : Bool → Value Float
  label : String → Value Float
  labels : List String → Value Float
  unknown : ℕ → Value Float
  null : Value Float

abbrev pub Printed : Type 0 → Type 0
Printed Float = List (String × Value Float)

abbrev pub optional_real : {Float : Type 0} → Option Float → Value Float
optional_real none = null
optional_real (some x) = real x

-- `int(result.get("status", 0))`, of a dictionary whose status is a number.
abbrev pub number_in : {Float : Type 0} → Value Float → ℕ
number_in (num n) = n
number_in v = 0

abbrev pub status_in : {Float : Type 0} → Printed Float → ℕ
status_in [] = 0
status_in ((key, value) ∷ rest) =
    let later = status_in rest in if str_eq key "status" then number_in value else later

unfoldable pub exit_code : {Float : Type 0} → Printed Float → ℕ
exit_code result = if status_in result == 0 then 0 else 2

-- The operating system's side of `HilPru`: opening the device, and closing it.
pub record Port : Type 1 where
  pub rpmsg : Rpmsg
  pub open_device : String → Exec rpmsg.State Unit
  pub close_device : Exec rpmsg.State Unit

module _ (port : Port) where
  -- What runs on a new client, whose first request has number 1.
  abbrev pub on_client : {A : Type 0} → Exec (Client port.rpmsg.State) A → Exec port.rpmsg.State A
  on_client m s = let (r, c) = m (record { seq = 1; device = s }) in (r, c.device)

  -- `client = HilPru(device)`, the command under `try`, and `client.close()` under `finally`.
  unfoldable pub with_client :
      {A : Type 0} → String → Exec (Client port.rpmsg.State) A → Exec port.rpmsg.State A
  with_client device command =
      port.open_device device >>= λ d. finally (on_client command) port.close_device
