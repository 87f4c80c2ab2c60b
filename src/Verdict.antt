-- ===== src/Verdict.antt =====
-- harness/verdict.py: the final verdict.
pub mod Passed
pub mod Outcome
pub mod Stated
pub mod Production
use mesa_e2e_certification.Prelude.{
  same_set, String, ◌==◌, Bool, true, false, not, ◌&&◌, ◌||◌, Option, none, some, List, [], ◌∷◌,
  map, if◌then◌else◌, eqb, length, is_empty, any, filter, sorted, subset, difference, to_set, Dict,
  lookup, insert_all, keys, elem,
}
use mesa_e2e_certification.Models.{
  GateStatus, VerdictStatus, is_gate_pass, is_gate_fail, is_pass_native,
}
use mesa_e2e_certification.Values.{Floats}
use mesa_e2e_certification.Gates.{GateResult}
use mesa_e2e_certification.Freeze.{FreezeStatus, FreezeVerification, Note}
use mesa_e2e_certification.Json.{Json, Fields, get}

-- FinalVerdict.reasons: the text's fixed part is the constructor, the values in it stay.
pub data Reason : Type 0 where
  duplicate_gate_results frozen_material_drift invalid_run_lifecycle : Reason
  drifted : Note → Reason
  freeze_verification : FreezeStatus → Reason
  mandatory_evidence_missing : Reason
  mandatory_gate_results_missing hard_gates_failed hard_gates_not_verified : List String → Reason
  mandatory_gates_not_pass : List String → Reason
  all_passed registry_not_exact provenance_absent producers_unavailable : Reason

pub record FinalVerdict : Type 0 where
  pub run_id : String
  pub status : VerdictStatus
  pub reasons : List Reason
  pub gate_statuses : Dict GateStatus
  pub missing_artifacts : List String

-- `freeze_verification.drift or ["frozen material drift"]`
abbrev drift_reasons : List Note → List Reason
drift_reasons [] = Reason.frozen_material_drift ∷ []
drift_reasons (n ∷ ns) = map Reason.drifted (n ∷ ns)

abbrev pub is_freeze_pass : FreezeStatus → Bool
is_freeze_pass FreezeStatus.pass = true
is_freeze_pass _ = false

abbrev pub is_code_change : FreezeStatus → Bool
is_code_change FreezeStatus.invalidated_code_change = true
is_code_change _ = false

-- PROFILE_B_GATE_IDS of harness/gates.py
abbrev pub profile_b_gate_ids : List String
profile_b_gate_ids =
    "B0" ∷ "B1" ∷ "B2" ∷ "B3" ∷ "B4" ∷ "B5" ∷ "B6" ∷ "B7" ∷ "B8" ∷ "B9" ∷ "B10" ∷ "B11" ∷ "B12"
    ∷ "B13" ∷ "B14" ∷ []

-- the mandatory artifacts that are not there
abbrev pub absent_artifacts : Dict Bool → List String
absent_artifacts artifacts = sorted (keys (filter (λ e. not e.1) artifacts))

module _ (floats : Floats) where
  abbrev pub gate_ids : List (GateResult floats) → List String
  gate_ids gates = map (λ g. g.gate_id) gates

  -- `run_id` is not empty: with an empty one the model does not validate, and the call raises.
  unfoldable pub make_verdict :
      String → VerdictStatus → List Reason → List (GateResult floats) → List String → FinalVerdict
  make_verdict run_id status reasons gates missing_artifacts = record {
    run_id = run_id;
    status = status;
    reasons = reasons;
    gate_statuses = insert_all [] (map (λ g. (g.gate_id, g.status)) gates);
    missing_artifacts = missing_artifacts;
  }

  -- `{gate.gate_id: gate for gate in gate_list}`
  unfoldable pub by_id : List (GateResult floats) → Dict (GateResult floats)
  by_id gates = insert_all [] (map (λ g. (g.gate_id, g)) gates)

  -- A missing gate would be a KeyError; the evaluation has returned before one is looked up.
  unfoldable pub passes_by_id : List (GateResult floats) → String → Bool
  unfolding by_id
  passes_by_id gates gate_id = elim (lookup gate_id (by_id gates)) [
    | none ↦ false
    | some g ↦ is_gate_pass g.status
  ]

  abbrev pub failed_hard : List (GateResult floats) → List String
  failed_hard gates = sorted (gate_ids (filter (λ g. g.hard && is_gate_fail g.status) gates))

  abbrev pub unverified_hard : List (GateResult floats) → List String
  unverified_hard gates =
      sorted (gate_ids (filter (λ g. g.hard && not (is_gate_pass g.status)) gates))

  abbrev pub mandatory_not_passed : List (GateResult floats) → List String → List String
  mandatory_not_passed gates mandatory_gate_ids =
      sorted (filter (λ i. not (passes_by_id gates i)) mandatory_gate_ids)

  -- the part of the evaluation that reads the gates
  unfoldable pub evaluate_gates : String → List (GateResult floats) → List String → FinalVerdict
  unfolding make_verdict
  evaluate_gates run_id gates mandatory_gate_ids =
      let missing_gates = sorted (difference mandatory_gate_ids (gate_ids gates)) in
      if not (is_empty missing_gates)
      then make_verdict run_id VerdictStatus.profile_b_blocked_precondition
          (Reason.mandatory_gate_results_missing missing_gates ∷ []) gates []
      else if not (is_empty (failed_hard gates))
      then make_verdict run_id VerdictStatus.profile_b_fail
          (Reason.hard_gates_failed (failed_hard gates) ∷ []) gates []
      else if not (is_empty (unverified_hard gates))
      then make_verdict run_id VerdictStatus.profile_b_blocked_precondition
          (Reason.hard_gates_not_verified (unverified_hard gates) ∷ []) gates []
      else if not (is_empty (mandatory_not_passed gates mandatory_gate_ids))
      then make_verdict run_id VerdictStatus.profile_b_blocked_precondition
          (Reason.mandatory_gates_not_pass (mandatory_not_passed gates mandatory_gate_ids) ∷ [])
          gates []
      else make_verdict run_id VerdictStatus.profile_b_pass_native (Reason.all_passed ∷ []) gates []

  unfoldable pub evaluate_final_verdict :
      String
      → List (GateResult floats)
      → List String
      → Dict Bool
      → FreezeVerification
      → Bool
      → FinalVerdict
  unfolding make_verdict
  evaluate_final_verdict run_id gates mandatory_gate_ids artifacts freeze lifecycle_valid =
      if not (eqb (length (gate_ids gates)) (length (to_set (gate_ids gates))))
      then make_verdict run_id VerdictStatus.profile_b_blocked_precondition
          (Reason.duplicate_gate_results ∷ []) gates []
      else if is_code_change freeze.status
      then make_verdict run_id VerdictStatus.invalidated_code_change (drift_reasons freeze.drift)
          gates []
      else if not (is_freeze_pass freeze.status)
      then make_verdict run_id VerdictStatus.profile_b_blocked_precondition
          (Reason.freeze_verification freeze.status ∷ []) gates []
      else if not lifecycle_valid
      then make_verdict run_id VerdictStatus.profile_b_blocked_precondition
          (Reason.invalid_run_lifecycle ∷ []) gates []
      else if not (is_empty (absent_artifacts artifacts))
      then make_verdict run_id VerdictStatus.profile_b_blocked_precondition
          (Reason.mandatory_evidence_missing ∷ []) gates (absent_artifacts artifacts)
      else evaluate_gates run_id gates mandatory_gate_ids

-- `m.get(key) in values`, where the values are strings
abbrev pub is_one_of : Option Json → List String → Bool
is_one_of (some (Json.string s)) values = elem s values
is_one_of _ values = false

abbrev pub is_false : Option Json → Bool
is_false (some (Json.bool false)) = true
is_false _ = false

-- A list or an object has no hash, and the `in` test on it raises a TypeError.
abbrev pub is_unhashable : Option Json → Bool
is_unhashable (some (Json.array xs)) = true
is_unhashable (some (Json.object fs)) = true
is_unhashable _ = false

-- The run manifest: `none` is a missing or unreadable file, or one that is no JSON.
unfoldable pub lifecycle_is_valid : Option Json → Bool
lifecycle_is_valid (some (Json.object m)) =
    is_one_of (get "status" m) ("PASS_NATIVE" ∷ "FINALIZING" ∷ "COMPLETED" ∷ [])
    && not (is_false (get "lifecycle_valid" m))
    && not (is_unhashable (get "lifecycle_status" m))
    && not
        (is_one_of (get "lifecycle_status" m) ("FAIL" ∷ "INVALIDATED" ∷ "BLOCKED" ∷ "INVALID" ∷ []))
lifecycle_is_valid _ = false

module _ (floats : Floats) where
  -- The files are arguments: `freeze` is what `verify_contract_freeze` answers, `manifest` what
  -- run_manifest.json holds, `is_file` whether a mandatory artifact is there. `producers` are the
  -- keys of PRODUCTION_METRIC_PRODUCERS.
  unfoldable pub derive_production_verdict :
      List String
      → String
      → List (GateResult floats)
      → List String
      → FreezeVerification
      → Option Json
      → (String → Bool)
      → List String
      → Bool
      → FinalVerdict
  unfolding make_verdict
  derive_production_verdict producers run_id gates mandatory_gate_ids freeze manifest is_file
        artifact_names official_execution_verified =
      let verdict =
        evaluate_final_verdict floats run_id gates mandatory_gate_ids
          (insert_all [] (map (λ n. (n, is_file n)) artifact_names)) freeze
          (lifecycle_is_valid manifest) in
      if not (same_set mandatory_gate_ids profile_b_gate_ids)
        || not (same_set (gate_ids floats gates) profile_b_gate_ids)
      then make_verdict floats run_id VerdictStatus.profile_b_blocked_precondition
          (Reason.registry_not_exact ∷ []) gates []
      else if is_pass_native verdict.status && not official_execution_verified
      then make_verdict floats run_id VerdictStatus.profile_b_blocked_precondition
          (Reason.provenance_absent ∷ []) gates []
      else if is_pass_native verdict.status
          && not (is_empty (difference profile_b_gate_ids producers))
      then make_verdict floats run_id VerdictStatus.profile_b_blocked_precondition
          (Reason.producers_unavailable ∷ []) gates []
      else verdict
