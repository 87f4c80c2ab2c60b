-- ===== src/Examples/Releases.antt =====
-- A transaction that reaches its release, call by call.
use mesa_e2e_certification.Transaction.Scoring.{score_officially, find_authority, scoring_body}
use mesa_e2e_certification.Oracle.{audit_oracle_surfaces, extract_raw_audit_surfaces}
use mesa_e2e_certification.Transaction.Preparing.{
  merge_surfaces, oracle_audit_body, raw_sealing_body, ensure_store, raw_execution_body,
  bootstrap_body, files_at, freeze_body,
}
use mesa_e2e_certification.Prelude.{
  arith, inl, sort_items, insert, insert_all, to_set, ℕ, ◌≡◌, refl, Bool, true, false, none, some,
  List, [], ◌∷◌, ◌++◌, map, take, lookup, insert, sort_items, insert_item, insert_sorted, sorted,
}
use mesa_e2e_certification.Json.{Json, elements, members, to_fields, to_items}
use mesa_e2e_certification.Values.{is_finite_number, le_number}
use mesa_e2e_certification.Freeze.{
  require, ◌>>◌, require_some, ◌>>=◌, FreezeStatus, verify_contract_freeze, open_freeze,
  expected_digest, check_payload, check_drift, material_notes, require_no_drift,
  all_repository_notes, all_material_notes, check_material, check_materials, check_sha, check_shas,
  file_notes, has_identities, is_hex_digest, is_material_sha, is_repository_sha, is_version_1,
  refuse, repository_notes, verify_steps,
}
use mesa_e2e_certification.Transaction.Gating.{
  evaluate_all, gate_result, failed_hard_gates, gate_evaluation_body, load_scores, check_scorer,
  check_freeze,
}
use mesa_e2e_certification.Models.{RunStatus, VerdictStatus, ExecutionStatus}
use mesa_e2e_certification.Lifecycle.{
  Event, RunLifecycle, transition, is_allowed, allowed_transitions, linear_transition, is_terminal,
  is_invalidatable, same, new,
}
use mesa_e2e_certification.Gates.{
  GateResult, evaluate_threshold_gate, evaluate_metrics, resolve_aliases, resolve_alias,
  metric_passes, comparison_passes,
}
use mesa_e2e_certification.Verdict.{
  FinalVerdict, profile_b_gate_ids, derive_production_verdict, evaluate_final_verdict,
  evaluate_gates, passes_by_id, lifecycle_is_valid,
}
use mesa_e2e_certification.Operations.{verify_health_artifacts, assess, exceeds_budget}
use mesa_e2e_certification.Transaction.Closing.{
  execute_verdict_derivation, derive_verdict, verdict_derivation_body, prepare_verdict,
  verify_official_execution, conclude_verdict, verify_freeze, evidence_index_body,
  run_id_consistency_body, health_verification_body, release_finalization_body, publish,
}
use mesa_e2e_certification.Transaction.{TransactionPhase, phase_sequence, same_phase, has_phase}
use mesa_e2e_certification.Transaction.Core.{
  ok, Transaction, Run, new_transaction, execute, require_phase, is_lifecycle_valid, replay, settle,
  move,
}
use mesa_e2e_certification.Transaction.Calls.{
  PhaseCall, call_bootstrap, call_freeze, call_raw_execution, call_raw_sealing, call_oracle_audit,
  call_scoring, call_gate_evaluation, call_verdict_derivation, call_evidence_index,
  call_run_id_consistency, call_health_verification, call_release_finalization, attempt, run_calls,
  phases_returned,
}
use mesa_e2e_certification.Transaction.Calls.Ordered.{release_needs_all}
use mesa_e2e_certification.Transaction.Calls.Released.{IsCertified, release-IsCertified}
use mesa_e2e_certification.Transaction.Certifying.{IsDerived, verdict-IsDerived}
use mesa_e2e_certification.Transaction.Evaluated.{IsProduced, evaluate_all-IsProduced}
use mesa_e2e_certification.Examples.Freezes.{sha}
use mesa_e2e_certification.Examples.Verdicts.{floats}
use mesa_e2e_certification.Examples.Transactions.{services, started, calls, gate, output, config}

abbrev event : RunStatus → RunStatus → Event
event s t = record { source = s; target = t; timestamp_utc = "2026-01-01T00:00:00Z"; reason = none }

-- the statuses from the first on, and the events between them
abbrev events : RunStatus → List RunStatus → List Event
events s [] = []
events s (t ∷ ts) = event s t ∷ events t ts

abbrev lifecycle_at : RunStatus → List RunStatus → RunLifecycle
lifecycle_at status path = record {
  run_id = "run-1";
  status = status;
  history = events RunStatus.created path;
}

abbrev to_ready : List RunStatus
to_ready = RunStatus.bootstrapped ∷ RunStatus.harness_ready ∷ []

abbrev to_frozen : List RunStatus
to_frozen = to_ready ++ RunStatus.gt_frozen ∷ RunStatus.contract_frozen ∷ []

abbrev at_run : ℕ → Run floats services → Transaction floats services
at_run i r = record {
  run_id = "run-1";
  is_official = true;
  run = r;
  completed_phases = take i phase_sequence;
  current_step_idx = i;
  failed = false;
}

abbrev r0 : Run floats services
r0 = started.run

abbrev r1 : Run floats services
r1 = record r0 { lifecycle = lifecycle_at RunStatus.harness_ready to_ready; has_store = true }

abbrev r2 : Run floats services
r2 = record r1 {
  lifecycle = lifecycle_at RunStatus.contract_frozen to_frozen;
  freeze_path = some "contract_freeze.json";
  checksum_path = some "contract_freeze.sha256";
  gate_config_hash = some sha;
  repository_root = some ".";
  current_repository_shas =
      some (("MESA", sha) ∷ ("MESA_Data", sha) ∷ ("MESA_E2E_Certification", sha) ∷ []);
}

abbrev r3 : Run floats services
r3 = record r2 {
  lifecycle = lifecycle_at RunStatus.test_running (to_frozen ++ RunStatus.test_running ∷ []);
}

abbrev r4 : Run floats services
r4 = record r3 {
  raw_manifest_hash = some sha;
  lifecycle =
      lifecycle_at RunStatus.test_completed
        (to_frozen ++ RunStatus.test_running ∷ RunStatus.test_completed ∷ []);
}

abbrev r5 : Run floats services
r5 = record r4 { audited_manifest_hash = some sha }

abbrev results : List (GateResult floats)
results =
    map
      (λ i.
        evaluate_threshold_gate floats (gate i) output.observed ExecutionStatus.completed
          output.evidence)
      profile_b_gate_ids

abbrev r7 : Run floats services
r7 = record r5 { gate_results = results }

verified :
    verify_contract_freeze
      (files_at floats services tt)
      "contract_freeze.json"
      "contract_freeze.sha256"
      "."
      (("MESA", sha) ∷ ("MESA_Data", sha) ∷ ("MESA_E2E_Certification", sha) ∷ [])
    ≡ some (record { status = FreezeStatus.pass; drift = [] })
unfolding verify_contract_freeze ◌>>=◌ open_freeze ◌>>◌ require require_some expected_digest
    check_payload lookup members to_fields elements to_items check_drift material_notes
    require_no_drift all_repository_notes sort_items all_material_notes check_material
    check_materials check_sha check_shas file_notes has_identities is_hex_digest is_material_sha
    is_repository_sha is_version_1 refuse repository_notes verify_steps insert_item insert_sorted
    sorted
verified = refl

freeze_verified :
    verify_freeze floats services results
      (record {
        mandatory_gate_ids = to_set config.mandatory_gate_ids;
        freeze = "contract_freeze.json";
        checksum = "contract_freeze.sha256";
        root = ".";
        shas = ("MESA", sha) ∷ ("MESA_Data", sha) ∷ ("MESA_E2E_Certification", sha) ∷ [];
      })
      tt
    ≡ some (record { status = FreezeStatus.pass; drift = [] })
unfolding verify_freeze to_set evaluate_threshold_gate evaluate_metrics sorted lookup
    resolve_aliases resolve_alias insert metric_passes comparison_passes is_finite_number le_number
freeze_verified = verified

evaluated :
    evaluate_all floats services.starts_with config.gates
      (map (λ i. (i, output)) profile_b_gate_ids)
      profile_b_gate_ids
    ≡ some results
unfolding evaluate_all gate_result lookup
evaluated = refl

none_failed : failed_hard_gates floats results ≡ []
unfolding evaluate_threshold_gate evaluate_metrics sorted lookup resolve_aliases resolve_alias
    insert metric_passes comparison_passes is_finite_number le_number
none_failed = refl

step_bootstrap : attempt floats services (call_bootstrap none) (at_run 0 r0) ≡ (true, at_run 1 r1)
unfolding attempt execute require_phase is_lifecycle_valid replay transition is_allowed
    allowed_transitions linear_transition is_terminal is_invalidatable same new same_phase settle
    move bootstrap_body
step_bootstrap = refl

step_freeze :
    attempt floats services
      (call_freeze "contract_freeze.json" "contract_freeze.sha256" "."
        (("MESA", sha) ∷ ("MESA_Data", sha) ∷ ("MESA_E2E_Certification", sha) ∷ []))
      (at_run 1 r1)
    ≡ (true, at_run 2 r2)
unfolding attempt execute require_phase is_lifecycle_valid replay transition is_allowed
    allowed_transitions linear_transition is_terminal is_invalidatable same new same_phase settle
    move freeze_body
step_freeze = rw verified refl

step_raw_execution :
    attempt floats services (call_raw_execution (λ w. (some tt, w))) (at_run 2 r2)
    ≡ (true, at_run 3 r3)
unfolding attempt execute require_phase is_lifecycle_valid replay transition is_allowed
    allowed_transitions linear_transition is_terminal is_invalidatable same new same_phase settle
    move raw_execution_body ensure_store
step_raw_execution = refl

step_raw_sealing : attempt floats services (call_raw_sealing) (at_run 3 r3) ≡ (true, at_run 4 r4)
unfolding attempt execute require_phase is_lifecycle_valid replay transition is_allowed
    allowed_transitions linear_transition is_terminal is_invalidatable same new same_phase settle
    move raw_sealing_body ensure_store
step_raw_sealing = refl

step_oracle_audit :
    attempt floats services (call_oracle_audit none []) (at_run 4 r4) ≡ (true, at_run 5 r5)
unfolding attempt execute require_phase is_lifecycle_valid replay transition is_allowed
    allowed_transitions linear_transition is_terminal is_invalidatable same new same_phase settle
    move oracle_audit_body ensure_store extract_raw_audit_surfaces audit_oracle_surfaces members
    merge_surfaces to_fields insert sort_items
step_oracle_audit = refl

step_scoring : attempt floats services (call_scoring) (at_run 5 r5) ≡ (true, at_run 6 r5)
unfolding attempt execute require_phase is_lifecycle_valid replay transition is_allowed
    allowed_transitions linear_transition is_terminal is_invalidatable same new same_phase settle
    move scoring_body ensure_store find_authority score_officially
step_scoring = refl

step_gate_evaluation :
    attempt floats services (call_gate_evaluation) (at_run 6 r5) ≡ (true, at_run 7 r7)
unfolding attempt execute require_phase is_lifecycle_valid replay transition is_allowed
    allowed_transitions linear_transition is_terminal is_invalidatable same new same_phase settle
    move gate_evaluation_body ensure_store load_scores check_scorer check_freeze
step_gate_evaluation = rw (verified, evaluated, none_failed) refl

abbrev verdict : FinalVerdict
verdict =
    derive_verdict floats services "run-1" results
      (record {
        mandatory_gate_ids = to_set profile_b_gate_ids;
        freeze = "contract_freeze.json";
        checksum = "contract_freeze.sha256";
        root = ".";
        shas = ("MESA", sha) ∷ ("MESA_Data", sha) ∷ ("MESA_E2E_Certification", sha) ∷ [];
      })
      true tt (record { status = FreezeStatus.pass; drift = [] })

abbrev r8 : Run floats services
r8 = record r7 { final_verdict = some verdict }

abbrev r9 : Run floats services
r9 = record r8 { evidence_index = some Json.null }

certified : verdict.status ≡ VerdictStatus.profile_b_pass_native
unfolding derive_production_verdict evaluate_final_verdict to_set sorted evaluate_gates passes_by_id
    lookup insert_all insert lifecycle_is_valid evaluate_threshold_gate evaluate_metrics
    resolve_aliases resolve_alias metric_passes comparison_passes is_finite_number le_number members
certified = refl

step_verdict_derivation :
    attempt floats services call_verdict_derivation (at_run 7 r7) ≡ (true, at_run 8 r8)
unfolding attempt execute require_phase is_lifecycle_valid replay transition is_allowed
    allowed_transitions linear_transition is_terminal is_invalidatable same new same_phase settle
    move verdict_derivation_body prepare_verdict verify_official_execution conclude_verdict
step_verdict_derivation = rw freeze_verified refl

step_evidence_index :
    attempt floats services (call_evidence_index (Json.null ∷ [])) (at_run 8 r8)
    ≡ (true, at_run 9 r9)
unfolding attempt execute require_phase is_lifecycle_valid replay transition is_allowed
    allowed_transitions linear_transition is_terminal is_invalidatable same new same_phase settle
    move evidence_index_body
step_evidence_index = refl

step_run_id_consistency :
    attempt floats services (call_run_id_consistency []) (at_run 9 r9) ≡ (true, at_run 10 r9)
unfolding attempt execute require_phase is_lifecycle_valid replay transition is_allowed
    allowed_transitions linear_transition is_terminal is_invalidatable same new same_phase settle
    move run_id_consistency_body
step_run_id_consistency = refl

step_health_verification :
    attempt floats services call_health_verification (at_run 10 r9) ≡ (true, at_run 11 r9)
unfolding attempt execute require_phase is_lifecycle_valid replay transition is_allowed
    allowed_transitions linear_transition is_terminal is_invalidatable same new same_phase settle
    move health_verification_body verify_health_artifacts assess exceeds_budget
step_health_verification = refl

abbrev with_verdict : FinalVerdict → Transaction floats services
with_verdict v = at_run 11 (record r9 { final_verdict = some v })

step_release_finalization :
    (v : FinalVerdict)
    → v.status ≡ VerdictStatus.profile_b_pass_native
    → (attempt floats services (call_release_finalization "release") (with_verdict v)).0 ≡ true
unfolding attempt execute require_phase is_lifecycle_valid replay transition is_allowed
    allowed_transitions linear_transition is_terminal is_invalidatable same new same_phase settle
    move release_finalization_body publish sorted
step_release_finalization v h = rw h refl

step_early : attempt floats services call_scoring started ≡ (false, started)
unfolding attempt execute require_phase is_lifecycle_valid replay transition is_allowed
    allowed_transitions linear_transition is_terminal is_invalidatable same new same_phase settle
    move
step_early = refl

-- A call that leads to a transaction in which the release returns later on.
release_later :
    (c : PhaseCall floats services) (cs : List (PhaseCall floats services))
    (t u : Transaction floats services) (b : Bool)
    → attempt floats services c t ≡ (b, u)
    → has_phase TransactionPhase.release_finalization (phases_returned floats services u cs) ≡ true
    → has_phase TransactionPhase.release_finalization (phases_returned floats services t (c ∷ cs))
      ≡ true
unfolding phases_returned
release_later c cs t u true e h = rw e (ground (arith, h))
release_later c cs t u false e h = rw e h

release_now :
    (cs : List (PhaseCall floats services)) (t : Transaction floats services)
    → (attempt floats services (call_release_finalization "release") t).0 ≡ true
    → has_phase TransactionPhase.release_finalization
        (phases_returned floats services t (call_release_finalization "release" ∷ cs))
      ≡ true
unfolding phases_returned same_phase
release_now cs t e = rw e refl

reaches_release :
    has_phase TransactionPhase.release_finalization (phases_returned floats services started calls)
    ≡ true
reaches_release = release_later _ _ _ _ _ step_early (
    release_later _ _ _ _ _ step_bootstrap (
      release_later _ _ _ _ _ step_freeze (
        release_later _ _ _ _ _ step_raw_execution (
          release_later _ _ _ _ _ step_raw_sealing (
            release_later _ _ _ _ _ step_oracle_audit (
              release_later _ _ _ _ _ step_scoring (
                release_later _ _ _ _ _ step_gate_evaluation (
                  release_later _ _ _ _ _ step_verdict_derivation (
                    release_later _ _ _ _ _ step_evidence_index (
                      release_later _ _ _ _ _ step_run_id_consistency (
                        release_later _ _ _ _ _ step_health_verification (
                          release_now _ (at_run 11 r9)
                            (step_release_finalization verdict certified)))))))))))))

release_needs_all_example :
    (phases_returned floats services started calls ≡ phase_sequence)
    × ((run_calls floats services started calls).completed_phases
        ≡ phase_sequence ++ TransactionPhase.completed ∷ [])
unfolding new_transaction new
release_needs_all_example =
    release_needs_all floats services "run-1" true true tt started refl calls reaches_release

release-IsCertified_example : IsCertified floats services (run_calls floats services started calls)
unfolding new_transaction new
release-IsCertified_example =
    release-IsCertified floats services "run-1" true true tt started refl calls reaches_release

verdict_returned : (execute_verdict_derivation floats services (at_run 7 r7)).0 ≡ ok verdict
unfolding execute_verdict_derivation execute require_phase is_lifecycle_valid replay transition
    is_allowed allowed_transitions linear_transition is_terminal is_invalidatable same new
    same_phase settle move verdict_derivation_body prepare_verdict verify_official_execution
    conclude_verdict
verdict_returned = rw freeze_verified refl

verdict-IsDerived_example : IsDerived floats services (at_run 7 r7)
verdict-IsDerived_example =
    verdict-IsDerived floats services (at_run 7 r7) verdict verdict_returned certified

abbrev first_result : GateResult floats
first_result =
    evaluate_threshold_gate floats (gate "B0") output.observed ExecutionStatus.completed
      output.evidence

evaluate_all-IsProduced_example :
    IsProduced floats services.starts_with config.gates
      (map (λ i. (i, output)) profile_b_gate_ids)
      profile_b_gate_ids
      first_result
unfolding evaluate_threshold_gate evaluate_metrics sorted lookup resolve_aliases resolve_alias
    insert metric_passes comparison_passes is_finite_number le_number
evaluate_all-IsProduced_example =
    evaluate_all-IsProduced floats services.starts_with config.gates
      (map (λ i. (i, output)) profile_b_gate_ids) profile_b_gate_ids results first_result evaluated
      (inl refl) refl
