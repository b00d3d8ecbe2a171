-- ===== src/Hil/Scenario/Order.antt =====
-- host/hil/scenario.py: what an accepted document gives.
use text.Mathlib.Text.{◌==◌ as str_eq}
use hil_lab.Prelude.{
  ℕ, suc, ◌≤◌, ◌≡◌, refl, subst, sym, ap, ◌∙◌, String, Bool, true, false, Option, List, [], ◌∷◌,
  not, if◌then◌else◌, length, arith,
}
use hil_lab.Prelude.Int.{ℤ, pos, negsuc}
use hil_lab.Errors.{ok, err, bind-eq-ok, refuse_if, ok-injective, refuse_if-eq-ok, value_error}
use hil_lab.Hil.Scenario.{
  Value, absent, other, boolean, integer, float, string, ListOf, missing, no_list, list, RawStep,
  raw, no_step, Document, ScenarioStep, Scenario, is_version, string_of, int_of, read_capabilities,
  lt_int, args_of, make_step, read_step, read_steps, read_all_steps, scenario_from_dict, IsOrdered,
  IsScenario,
}

read_step-ordered :
    {A : Type 0} (previous : ℤ) (r : RawStep A) (step : ScenarioStep A)
    → read_step previous r ≡ ok step
    → lt_int (pos step.at_ticks) previous ≡ false
read_step-ordered previous no_step step h = cc
read_step-ordered {A = A} previous (raw at_ticks action args) step h =
    let (t, a, h₁) = bind-eq-ok (int_of at_ticks) _ h in
    let (s, b, h₂) = bind-eq-ok (string_of action) _ h₁ in
    let (x, c, h₃) = bind-eq-ok (args_of args) _ h₂ in ordered t s x h₃
  where
    ordered :
        (t : ℤ) (s : String) (x : Option A)
        → (if lt_int t previous then err value_error else make_step t s x) ≡ ok step
        → lt_int (pos step.at_ticks) previous ≡ false
    ordered t s x g = split t (lt_int t previous) refl g
      where
        made :
            (n : ℕ) (c : Bool)
            → lt_int (pos n) previous ≡ false
            → (if c then err value_error else ok (record { at_ticks = n; action = s; args = x }))
              ≡ ok step
            → lt_int (pos step.at_ticks) previous ≡ false
        made n true e k = cc
        made n false e k =
            ap (λ y. lt_int (pos y.at_ticks) previous)
              (ok-injective (record { at_ticks = n; action = s; args = x }) step k)
            ∙ e

        split :
            (t : ℤ) (b : Bool)
            → lt_int t previous ≡ b
            → (if b then err value_error else make_step t s x) ≡ ok step
            → lt_int (pos step.at_ticks) previous ≡ false
        split t true e k = cc
        split (pos n) false e k = made n (str_eq s "") e k
        split (negsuc n) false e k = cc

read_steps-IsOrdered :
    {A : Type 0} (previous : ℤ) (lower : ℕ) (rs : List (RawStep A)) (steps : List (ScenarioStep A))
    → ((n : ℕ) → lt_int (pos n) previous ≡ false → lower ≤ n)
    → read_steps previous rs ≡ ok steps
    → IsOrdered lower steps × (length steps ≡ length rs)
read_steps-IsOrdered previous lower [] steps low h =
    subst (λ s. IsOrdered lower s × (length s ≡ 0)) (sym (ok-injective [] steps h)) (tt, refl)
read_steps-IsOrdered {A = A} previous lower (r ∷ rs) steps low h =
    let (step, a, h₁) = bind-eq-ok (read_step previous r) _ h in
    let (rest, b, h₂) = bind-eq-ok (read_steps (pos step.at_ticks) rs) _ h₁ in
    let (o, l) =
      read_steps-IsOrdered (pos step.at_ticks) step.at_ticks rs rest (at_least step.at_ticks) b in
    subst (λ s. IsOrdered lower s × (length s ≡ suc (length rs)))
      (sym (ok-injective (step ∷ rest) steps h₂))
      ((low step.at_ticks (read_step-ordered previous r step a), o), ap suc l)
  where
    at_least : (m n : ℕ) → lt_int (pos n) (pos m) ≡ false → m ≤ n
    at_least m n e = ground (arith, e)

string_of-named : (v : Value) (s : String) → string_of v ≡ ok s → str_eq s "" ≡ false
string_of-named (string x) s h = named (str_eq x "") refl h
  where
    named :
        (b : Bool)
        → str_eq x "" ≡ b
        → (if b then err value_error else ok x) ≡ ok s
        → str_eq s "" ≡ false
    named true e k = cc
    named false e k = ap (λ y. str_eq y "") (ok-injective x s k) ∙ e
string_of-named absent s h = cc
string_of-named other s h = cc
string_of-named (boolean b) s h = cc
string_of-named (integer n) s h = cc
string_of-named (float b) s h = cc

read_all_steps-IsOrdered :
    {A : Type 0} (rs : ListOf (RawStep A)) (steps : List (ScenarioStep A))
    → read_all_steps rs ≡ ok steps
    → (1 ≤ length steps) × IsOrdered 0 steps
read_all_steps-IsOrdered missing steps h = cc
read_all_steps-IsOrdered no_list steps h = cc
read_all_steps-IsOrdered (list []) steps h = cc
read_all_steps-IsOrdered (list (r ∷ rs)) steps h =
    let (o, l) = read_steps-IsOrdered (negsuc 0) 0 (r ∷ rs) steps (λ n e. omega arith) h in
    (omega (arith, l), o)

-- A document that is accepted has version 1 and gives a scenario with a name, at least one step, and
-- steps in the order of their ticks.
pub scenario_from_dict-IsScenario :
    {A : Type 0} (document : Document A) (scenario : Scenario A)
    → scenario_from_dict document ≡ ok scenario
    → (is_version document.version ≡ true) × IsScenario scenario
unfolding scenario_from_dict
scenario_from_dict-IsScenario document scenario h =
    let (d, a, h₁) = bind-eq-ok (refuse_if (not (is_version document.version)) value_error) _ h in
    let (name, b, h₂) = bind-eq-ok (string_of document.name) _ h₁ in
    let (capabilities, c, h₃) =
      bind-eq-ok (read_capabilities document.required_capabilities) _ h₂ in
    let (steps, e, h₄) = bind-eq-ok (read_all_steps document.steps) _ h₃ in
    let (l, o) = read_all_steps-IsOrdered document.steps steps e in
    let q =
      ok-injective (record { name = name; required_capabilities = capabilities; steps = steps })
        scenario h₄ in
    (
      ground (arith, refuse_if-eq-ok (not (is_version document.version)) value_error a),
      subst IsScenario (sym q) (string_of-named document.name name b, l, o),
    )
