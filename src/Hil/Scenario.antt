-- ===== src/Hil/Scenario.antt =====
-- host/hil/scenario.py: the checks that turn a JSON document into a scenario. A JSON value is given as far
-- as the code looks at it, and the arguments of a step are passed through.
pub mod Order
use text.Mathlib.Text.{◌==◌ as str_eq}
use hil_lab.Prelude.{
  ℕ, zero, suc, ◌≤◌, ◌≡◌, refl, sym, ap, ◌∙◌, String, Bool, true, false, Option, none, some, List,
  [], ◌∷◌, not, ◌&&◌, ◌||◌, ◌==◌, ltb, if◌then◌else◌, All, length, arith,
}
use hil_lab.Prelude.Int.{ℤ, pos, negsuc}
use hil_lab.Errors.{
  Result, ok, err, bind, bind-eq-ok, or_err, refuse_if, ok-injective, value_error,
  invalid_configuration,
}
use hil_lab.Hil.Capability.{
  Capability, Capabilities, timebase, force_safe, pwm_capture, pwm_generator,
  pwm_complementary_monitor, abz_generator, abz_capture, ssi_sensor_emulator, ssi_sensor_capture,
  biss_sensor_emulator, spi_sensor_emulator, dio_scheduler, fault_injection, dac_feedback,
  pmsm_plant_lite, pmsm_plant, dual_inertia_plant,
}
use hil_lab.Hil.Core.{BackendIdentity}

-- A value of a document: missing, a Boolean, an integer, a float of which only its equality to 1 is
-- asked, a string, or something else.
pub data Value : Type 0 where
  absent other : Value
  boolean : Bool → Value
  integer : ℤ → Value
  float : Bool → Value
  string : String → Value

-- A list, nothing, or something else.
pub data ListOf (A : Type 0) : Type 0 where
  missing no_list : ListOf A
  list : List A → ListOf A

-- `raw.get("args", {})`: nothing, an object, or something else.
pub data ArgsOf (A : Type 0) : Type 0 where
  no_args no_object : ArgsOf A
  object : A → ArgsOf A

pub data RawStep (A : Type 0) : Type 0 where
  raw : Value → Value → ArgsOf A → RawStep A
  no_step : RawStep A

pub record Document (A : Type 0) : Type 0 where
  pub version : Value
  pub name : Value
  pub required_capabilities : ListOf Value
  pub steps : ListOf (RawStep A)

pub record ScenarioStep (A : Type 0) : Type 0 where
  pub at_ticks : ℕ
  pub action : String
  pub args : Option A

pub record Scenario (A : Type 0) : Type 0 where
  pub name : String
  pub required_capabilities : List Capability
  pub steps : List (ScenarioStep A)

-- The values of the enumeration.
abbrev pub names : List (String × Capability)
names =
    ("timebase", timebase)
    ∷ ("force_safe", force_safe)
    ∷ ("pwm_capture", pwm_capture)
    ∷ ("pwm_generator", pwm_generator)
    ∷ ("pwm_complementary_monitor", pwm_complementary_monitor)
    ∷ ("abz_generator", abz_generator)
    ∷ ("abz_capture", abz_capture)
    ∷ ("ssi_sensor_emulator", ssi_sensor_emulator)
    ∷ ("ssi_sensor_capture", ssi_sensor_capture)
    ∷ ("biss_sensor_emulator", biss_sensor_emulator)
    ∷ ("spi_sensor_emulator", spi_sensor_emulator)
    ∷ ("dio_scheduler", dio_scheduler)
    ∷ ("fault_injection", fault_injection)
    ∷ ("dac_feedback", dac_feedback)
    ∷ ("pmsm_plant_lite", pmsm_plant_lite)
    ∷ ("pmsm_plant", pmsm_plant)
    ∷ ("dual_inertia_plant", dual_inertia_plant)
    ∷ []

abbrev pub look_up : String → List (String × Capability) → Option Capability
look_up value [] = none
look_up value ((name, capability) ∷ rest) =
    if str_eq value name then some capability else look_up value rest

-- The version 1, which Python's `True` and `1.0` equal.
abbrev pub is_version : Value → Bool
is_version (integer (pos n)) = n == 1
is_version (boolean b) = b
is_version (float is_one) = is_one
is_version v = false

-- A non-empty string.
abbrev pub string_of : Value → Result String
string_of (string s) = if str_eq s "" then err value_error else ok s
string_of v = err value_error

-- The values whose type is `int`, Booleans included.
abbrev pub int_of : Value → Result ℤ
int_of (integer n) = ok n
int_of (boolean b) = ok (pos (if b then 1 else 0))
int_of v = err value_error

abbrev pub are_strings : List Value → Bool
are_strings [] = true
are_strings (string s ∷ vs) = are_strings vs
are_strings (v ∷ vs) = false

abbrev pub capability_of : Value → Result Capability
capability_of (string s) = or_err (look_up s names) value_error
capability_of v = err value_error

abbrev pub capabilities_of : List Value → Result (List Capability)
capabilities_of [] = ok []
capabilities_of (v ∷ vs) = bind (capability_of v) λ c. bind (capabilities_of vs) λ cs. ok (c ∷ cs)

abbrev pub read_capabilities : ListOf Value → Result (List Capability)
read_capabilities missing = ok []
read_capabilities no_list = err value_error
read_capabilities (list vs) = if are_strings vs then capabilities_of vs else err value_error

abbrev pub lt_int : ℤ → ℤ → Bool
lt_int (pos a) (pos b) = ltb a b
lt_int (pos a) (negsuc b) = false
lt_int (negsuc a) (pos b) = true
lt_int (negsuc a) (negsuc b) = ltb b a

abbrev pub are_supported : List Capability → Capabilities → Bool
are_supported [] caps = true
are_supported (c ∷ cs) caps = caps c && are_supported cs caps

module _ {A : Type 0} where
  abbrev pub args_of : ArgsOf A → Result (Option A)
  args_of no_args = ok none
  args_of no_object = err value_error
  args_of (object a) = ok (some a)

  -- `ScenarioStep.__post_init__`.
  abbrev pub make_step : ℤ → String → Option A → Result (ScenarioStep A)
  make_step (negsuc n) action args = err value_error
  make_step (pos n) action args =
      if str_eq action ""
      then err value_error
      else ok (record { at_ticks = n; action = action; args = args })

  -- One turn of the loop over the steps.
  abbrev pub read_step : ℤ → RawStep A → Result (ScenarioStep A)
  read_step previous no_step = err value_error
  read_step previous (raw at_ticks action args) = bind (int_of at_ticks) λ t.
      bind (string_of action)
        λ a. bind (args_of args) λ x. if lt_int t previous then err value_error else make_step t a x

  abbrev pub read_steps : ℤ → List (RawStep A) → Result (List (ScenarioStep A))
  read_steps previous [] = ok []
  read_steps previous (r ∷ rs) =
      bind (read_step previous r)
        λ step. bind (read_steps (pos step.at_ticks) rs) λ steps. ok (step ∷ steps)

  abbrev pub read_all_steps : ListOf (RawStep A) → Result (List (ScenarioStep A))
  read_all_steps missing = err value_error
  read_all_steps no_list = err value_error
  read_all_steps (list []) = err value_error
  read_all_steps (list (r ∷ rs)) = read_steps (negsuc 0) (r ∷ rs)

  unfoldable pub scenario_from_dict : Document A → Result (Scenario A)
  scenario_from_dict document =
      bind (refuse_if (not (is_version document.version)) value_error) λ d.
        bind (string_of document.name) λ name.
          bind (read_capabilities document.required_capabilities) λ capabilities.
            bind (read_all_steps document.steps) λ steps.
              ok (record { name = name; required_capabilities = capabilities; steps = steps })

  -- `Scenario.validate_against`.
  abbrev pub validate_against : Scenario A → BackendIdentity → Result (Unit {0})
  validate_against scenario identity =
      refuse_if (not (are_supported scenario.required_capabilities identity.capabilities))
        invalid_configuration

  -- The steps start no earlier than `previous` and never go back.
  abbrev pub IsOrdered : ℕ → List (ScenarioStep A) → Type 0
  IsOrdered previous [] = Unit
  IsOrdered previous (step ∷ steps) = (previous ≤ step.at_ticks) × IsOrdered step.at_ticks steps

  -- The documented shape of a scenario: a name, at least one step, ordered steps.
  abbrev pub IsScenario : Scenario A → Type 0
  IsScenario scenario =
      (str_eq scenario.name "" ≡ false) × (1 ≤ length scenario.steps) × IsOrdered 0 scenario.steps
