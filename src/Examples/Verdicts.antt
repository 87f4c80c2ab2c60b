-- ===== src/Examples/Verdicts.antt =====
-- Gates and verdicts.
use mesa_e2e_certification.Prelude.{
  insert_all, to_set, insert, sorted, String, ◌==◌, ◌≡◌, ◌≢◌, refl, Bool, true, false, none, some,
  Option, List, [], ◌∷◌, map, All, Nodup, subset, Dict, lookup,
}
use mesa_e2e_certification.Models.{GateStatus, ExecutionStatus}
use mesa_e2e_certification.Json.{members, Json, field, end}
use mesa_e2e_certification.Values.{
  le_number, is_finite_number, ℤ, pos, Floats, int, Value, number, le_ℤ, eq_ℤ,
}
use mesa_e2e_certification.Gates.{
  metric_passes, resolve_alias, evaluate_metrics, Operator, Threshold, MetricRequirement,
  GateDefinition, GateReason, GateResult, metric_aliases, comparison_passes, resolve_aliases,
  evaluate_threshold_gate,
}
use mesa_e2e_certification.Gates.Passing.{Satisfies, IsMet, comparison_passes_iff, gate_pass_iff}
use mesa_e2e_certification.Gates.Aliases.{IsObserved, aliases_origin}
use mesa_e2e_certification.Freeze.{FreezeStatus, FreezeVerification}
use mesa_e2e_certification.Verdict.{
  lifecycle_is_valid, passes_by_id, evaluate_gates, gate_ids, evaluate_final_verdict,
  derive_production_verdict, profile_b_gate_ids,
}
use mesa_e2e_certification.Verdict.Outcome.{
  IsSettled, IsCertifiable, HasFailed, certified_iff, failed_iff, invalidated_iff,
}
use mesa_e2e_certification.Verdict.Production.{IsOfficial, production_iff}

-- Floats that hold whole numbers only.
abbrev pub floats : Floats
floats = record {
  Float = ℤ;
  is_finite = λ x. true;
  le_float_float = le_ℤ;
  le_float_int = le_ℤ;
  le_int_float = le_ℤ;
  eq_float_float = eq_ℤ;
  eq_float_int = eq_ℤ;
}

abbrev at_least_16 : MetricRequirement floats
at_least_16 = record { operator = Operator.gte; value = Threshold.bound (int (pos 16)) }

abbrev pub verified : MetricRequirement floats
verified = record { operator = Operator.gte; value = Threshold.bound (int (pos 1)) }

abbrev b1 : GateDefinition floats
b1 = record {
  gate_id = "B1";
  name = none;
  hard = true;
  requirements = ("ram_min_gb", at_least_16) ∷ ("completion_verified", verified) ∷ [];
  wait_for_mesa = false;
  unresolved_methodology = false;
  notes = none;
}

-- The second metric comes under its alias.
abbrev observed : Dict (Value floats)
observed =
    ("ram_min_gb", number (int (pos 32)))
    ∷ ("gpt_oss_completion_verified", number (int (pos 1)))
    ∷ []

comparison_passes_iff_example :
    Satisfies floats (number (int (pos 32))) Operator.gte (Threshold.bound (int (pos 16)))
unfolding comparison_passes is_finite_number le_number
comparison_passes_iff_example =
    (comparison_passes_iff floats (number (int (pos 32))) Operator.gte
        (Threshold.bound (int (pos 16)))).0
      refl

gate_pass_iff_example :
    (b1.wait_for_mesa ≡ false)
    × (b1.unresolved_methodology ≡ false)
    × (ExecutionStatus.completed ≡ ExecutionStatus.completed)
    × (◌≢◌ {A = List String} ("b1.json" ∷ []) [])
    × All
        (IsMet floats (resolve_aliases floats b1.requirements metric_aliases observed))
        b1.requirements
unfolding evaluate_threshold_gate evaluate_metrics sorted lookup resolve_aliases resolve_alias
    insert metric_passes comparison_passes is_finite_number le_number
gate_pass_iff_example =
    (gate_pass_iff floats b1 observed ExecutionStatus.completed ("b1.json" ∷ [])).0 refl

aliases_origin_example :
    IsObserved floats b1.requirements observed "completion_verified" (number (int (pos 1)))
unfolding resolve_aliases lookup resolve_alias insert
aliases_origin_example =
    (aliases_origin floats b1.requirements observed "completion_verified" (number (int (pos 1)))).1
      refl

abbrev result : GateStatus → String → GateResult floats
result status gate_id = record {
  gate_id = gate_id;
  hard = true;
  execution_status = ExecutionStatus.completed;
  status = status;
  required = [];
  observed = [];
  reason = GateReason.thresholds_met;
  evidence = gate_id ∷ [];
}

abbrev passed_gates : List (GateResult floats)
passed_gates = map (result GateStatus.pass) profile_b_gate_ids

abbrev failed_gates : List (GateResult floats)
failed_gates = result GateStatus.pass "B0" ∷ result GateStatus.fail "B1" ∷ []

abbrev frozen : FreezeVerification
frozen = record { status = FreezeStatus.pass; drift = [] }

abbrev drifted : FreezeVerification
drifted = record { status = FreezeStatus.invalidated_code_change; drift = [] }

abbrev artifacts : Dict Bool
artifacts = ("gates.json", true) ∷ []

certified_iff_example :
    IsCertifiable floats "run-1" passed_gates profile_b_gate_ids artifacts frozen true
unfolding evaluate_final_verdict to_set sorted evaluate_gates passes_by_id lookup insert_all insert
certified_iff_example =
    (certified_iff floats "run-1" passed_gates profile_b_gate_ids artifacts frozen true).0 refl

failed_iff_example :
    IsSettled floats "run-1" failed_gates ("B0" ∷ []) artifacts frozen true
    × (subset ("B0" ∷ []) (gate_ids floats failed_gates) ≡ true)
    × HasFailed floats "run-1" failed_gates ("B0" ∷ []) artifacts frozen true
unfolding evaluate_final_verdict to_set sorted evaluate_gates
failed_iff_example =
    (failed_iff floats "run-1" failed_gates ("B0" ∷ []) artifacts frozen true).0 refl

invalidated_iff_example :
    Nodup (gate_ids floats failed_gates) × (drifted.status ≡ FreezeStatus.invalidated_code_change)
unfolding evaluate_final_verdict to_set
invalidated_iff_example =
    (invalidated_iff floats "run-1" failed_gates ("B0" ∷ []) artifacts drifted false).0 refl

abbrev manifest : Option Json
manifest = some (Json.object (field "status" (Json.string "FINALIZING") end))

production_iff_example :
    IsOfficial floats profile_b_gate_ids "run-1" passed_gates profile_b_gate_ids frozen manifest
      (λ n. n == "gates.json")
      ("gates.json" ∷ [])
      true
unfolding derive_production_verdict evaluate_final_verdict to_set lifecycle_is_valid lookup members
    sorted insert_all insert evaluate_gates passes_by_id
production_iff_example =
    (production_iff floats profile_b_gate_ids "run-1" passed_gates profile_b_gate_ids frozen
        manifest (λ n. n == "gates.json") ("gates.json" ∷ []) true).0
      refl
