-- ===== src/Bbb/Remoteproc.antt =====
-- boards/beaglebone_black/scripts/pru0_ctl.py and pru1_ctl.py: finding the remoteproc of a PRU core, starting
-- and stopping it, and deploying a firmware. The two scripts differ in the names that they look for.
pub mod Rpmsg
pub mod Deploy
pub mod Unique
use Prim.Native.String.{[] as nil, ◌∷◌ as cons}
use Prim.Native.Char.{Char, code}
use text.Mathlib.Text.{◌==◌ as str_eq}
use hil_lab.Prelude.{
  ℕ, zero, suc, ◌+◌, Bool, true, false, not, ◌&&◌, ◌||◌, ◌==◌, leb, if◌then◌else◌, Option, none,
  some, List, [], ◌∷◌, String,
}
use hil_lab.Errors.{
  Error, Result, ok, err, Exec, pure, raise, raise_if, ◌>>=◌, ◌>>◌, os_error, file_not_found,
  runtime_error,
}

-- The names of a core, and the parts by which a name in small letters is taken for it.
pub record Core : Type 0 where
  pub names : List String
  pub parts : List String

abbrev pub pru0 : Core
pru0 = record {
  names = "4a334000.pru" ∷ "4a334000.pru0" ∷ "pruss-core0" ∷ [];
  parts = "4a334000.pru" ∷ "pruss-core0" ∷ [];
}

abbrev pub pru1 : Core
pru1 = record {
  names = "4a338000.pru" ∷ "4a338000.pru1" ∷ "pruss-core1" ∷ [];
  parts = "4a338000.pru" ∷ "pruss-core1" ∷ [];
}

-- The code of a character of `name.lower()`; the names of sysfs are ASCII.
abbrev pub lower_code : ℕ → ℕ
lower_code c = if leb 65 c && leb c 90 then c + 32 else c

-- Whether the first text begins the second one in small letters, and whether it occurs in that.
abbrev pub begins : String → String → Bool
begins nil text = true
begins (cons c part) nil = false
begins (cons c part) (cons d text) = code c == lower_code (code d) && begins part text

abbrev pub occurs : String → String → Bool
occurs part nil = begins part nil
occurs part (cons d text) = begins part (cons d text) || occurs part text

abbrev pub any : (String → Bool) → List String → Bool
any test [] = false
any test (x ∷ xs) = test x || any test xs

unfoldable pub is_core : Core → String → Bool
is_core core name = any (str_eq name) core.names || any (λ part. occurs part name) core.parts

-- `except OSError`, whose subclasses are among these.
abbrev pub is_os_error : Error → Bool
is_os_error os_error = true
is_os_error file_not_found = true
is_os_error e = false

-- The files of the operating system: sysfs, and the directory of the firmware.
pub record Sysfs : Type 1 where
  pub State : Type 0
  pub remoteprocs : Exec State (List String)
  pub exists : String → Exec State Bool
  pub is_file : String → Exec State Bool
  pub effective_user : Exec State ℕ
  -- The stripped text of a file of a remoteproc, and a text written to it with a newline.
  pub read_text : String → String → Exec State String
  pub write_control : String → String → String → Exec State Unit
  -- `shutil.copy2` to a name in /lib/firmware.
  pub copy_firmware : String → String → Exec State Unit

module _ (sysfs : Sysfs) (core : Core) where
  open sysfs use {State, remoteprocs, exists, read_text}

  -- What is done with the name, or with nothing where it cannot be read.
  abbrev pub on_name :
      {A : Type 0} → Result String → (String → Exec State A) → Exec State A → Exec State A
  on_name (ok name) f skip = f name
  on_name (err e) f skip = if is_os_error e then skip else raise e

  -- `try: name = read_text(path / "name")`
  abbrev pub with_name :
      {A : Type 0} → String → (String → Exec State A) → Exec State A → Exec State A
  with_name path f skip s = let (name, t) = read_text path "name" s in on_name name f skip t

  -- The loop over the remoteprocs, which keeps those of the core.
  unfoldable pub matches_in : List String → Exec State (List String)
  unfolding is_core
  matches_in [] = pure []
  matches_in (path ∷ rest) =
      let later = matches_in rest in
      with_name path
        (λ name. if is_core core name then (later >>= λ found. pure (path ∷ found)) else later)
        later

  -- The loop that reads the names for the message.
  unfoldable pub found_in : List String → Exec State Unit
  found_in [] = pure tt
  found_in (path ∷ rest) = let later = found_in rest in with_name path (λ name. later) later

  unfoldable pub only_match : List String → Exec State String
  unfolding found_in
  only_match (path ∷ []) = pure path
  only_match found = remoteprocs >>= λ paths. found_in paths >> raise runtime_error

  unfoldable pub search_remoteproc : Exec State String
  unfolding matches_in only_match
  search_remoteproc = remoteprocs >>= λ paths. matches_in paths >>= λ found. only_match found

  unfoldable pub find_remoteproc : Option String → Exec State String
  unfolding search_remoteproc
  find_remoteproc none = search_remoteproc
  find_remoteproc (some explicit) =
      if str_eq explicit ""
      then search_remoteproc
      else (exists explicit >>= λ found. raise_if (not found) file_not_found >> pure explicit)

module _ (sysfs : Sysfs) where
  open sysfs use {State, is_file, effective_user, read_text, write_control, copy_firmware}

  abbrev pub state : String → Exec State String
  state remoteproc = read_text remoteproc "state"

  unfoldable pub stop : String → Exec State Unit
  stop remoteproc = state remoteproc >>= λ value.
      if str_eq value "running" then write_control remoteproc "state" "stop" else pure tt

  unfoldable pub start : String → Exec State Unit
  start remoteproc = state remoteproc >>= λ value.
      if not (str_eq value "running") then write_control remoteproc "state" "start" else pure tt

  -- PermissionError is an OSError.
  unfoldable pub install_and_start : String → String → String → Exec State Unit
  unfolding stop start
  install_and_start remoteproc source firmware_name = do
    user ← effective_user
    raise_if (not (user == 0)) os_error
    file ← is_file source
    raise_if (not file) file_not_found
    stop remoteproc
    copy_firmware source firmware_name
    write_control remoteproc "firmware" firmware_name
    start remoteproc
