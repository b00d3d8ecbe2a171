-- ===== src/Hil/Tests/Scenarios.antt =====
-- Scenario documents, accepted and refused.
use hil_lab.Prelude.{ℕ, ◌≡◌, refl, false, true, none, some, [], ◌∷◌}
use hil_lab.Prelude.Int.{pos}
use hil_lab.Errors.{ok, err, value_error}
use hil_lab.Hil.Capability.{abz_generator}
use hil_lab.Hil.Scenario.{
  boolean, integer, string, list, raw, no_args, object, Document, Scenario, is_version,
  scenario_from_dict, IsScenario,
}
use hil_lab.Hil.Scenario.Order.{scenario_from_dict-IsScenario}

-- Two steps; the first tick is given as `false`, which Python takes for 0.
abbrev document : Document ℕ
document = record {
  version = integer (pos 1);
  name = string "spin";
  required_capabilities = list (string "abz_generator" ∷ []);
  steps = list (
      raw (boolean false) (string "start_abz") no_args
      ∷ raw (integer (pos 500)) (string "stop_abz") (object 7)
      ∷ []);
}

abbrev spin : Scenario ℕ
spin = record {
  name = "spin";
  required_capabilities = abz_generator ∷ [];
  steps =
      record { at_ticks = 0; action = "start_abz"; args = none }
      ∷ record { at_ticks = 500; action = "stop_abz"; args = some 7 }
      ∷ [];
}

document_accepted : scenario_from_dict document ≡ ok spin
unfolding scenario_from_dict
document_accepted = refl

document_reversed :
    scenario_from_dict (record document {
      steps = list (
          raw (integer (pos 5)) (string "a") no_args
          ∷ raw (integer (pos 4)) (string "b") no_args
          ∷ []);
    })
    ≡ err value_error
unfolding scenario_from_dict
document_reversed = refl

scenario_from_dict-IsScenario_example : (is_version document.version ≡ true) × IsScenario spin
scenario_from_dict-IsScenario_example =
    scenario_from_dict-IsScenario document spin document_accepted
