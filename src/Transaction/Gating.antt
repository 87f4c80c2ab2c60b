-- ===== src/Transaction/Gating.antt =====
-- The evaluation of the gates in a transaction, from what the metric producers derive.
use mesa_e2e_certification.Prelude.{
  ℕ, String, ◌==◌, inl, inr, Bool, true, false, not, ◌&&◌, ◌||◌, Option, none, some, List, [], ◌∷◌,
  map, if◌then◌else◌, eqb, is_empty, filter, Dict, lookup,
}
use mesa_e2e_certification.Models.{GateStatus, ExecutionStatus, is_gate_pass}
use mesa_e2e_certification.Values.{Floats}
use mesa_e2e_certification.Gates.{GateDefinition, GateReason, GateResult, evaluate_threshold_gate}
use mesa_e2e_certification.Freeze.{verify_contract_freeze}
use mesa_e2e_certification.Verdict.{is_freeze_pass}
use mesa_e2e_certification.Transaction.{
  TransactionPhase, Problem, ScoreSummary, Produced, gate_observations, gate_results, Services,
}
use mesa_e2e_certification.Transaction.Core.{
  Result, Handler, Transaction, Body, pure, ◌>>=◌, ◌>>◌, gets, modify, or_raise, raise_if,
  refuse_if, service, advance, execute,
}
use mesa_e2e_certification.Transaction.Preparing.{
  State, differs, files_at, write_immutable_json, ensure_store,
}
use mesa_e2e_certification.Transaction.Scoring.{oracle_audit_hash}

-- `a == b` of two optional texts
abbrev pub same_text : Option String → Option String → Bool
same_text none none = true
same_text (some a) (some b) = a == b
same_text _ _ = false

-- `a == b` of two optional numbers
abbrev pub same_number : Option ℕ → Option ℕ → Bool
same_number none none = true
same_number (some a) (some b) = eqb a b
same_number _ _ = false

module _ (floats : Floats) where
  -- the gates that stop the certification
  abbrev pub failed_hard_gates : List (GateResult floats) → List String
  failed_hard_gates results =
      map (λ g. g.gate_id) (filter (λ g. g.hard && not (is_gate_pass g.status)) results)

  -- The result of a gate whose producer did not complete.
  unfoldable pub blocked_gate :
      Bool → String → GateDefinition floats → Produced floats → GateResult floats
  blocked_gate contract_blocked gate_id definition produced = record {
    gate_id = gate_id;
    hard = definition.hard;
    execution_status = ExecutionStatus.blocked;
    status = if contract_blocked then GateStatus.blocked else GateStatus.unverified;
    required = definition.requirements;
    observed = [];
    reason = GateReason.produced produced.reason;
    evidence = [];
  }

  module _ (starts_with : String → String → Bool) where
    unfoldable pub gate_result :
        String → GateDefinition floats → Produced floats → GateResult floats
    unfolding blocked_gate
    gate_result gate_id definition produced =
        if produced.execution == "COMPLETED"
        then evaluate_threshold_gate floats definition produced.observed ExecutionStatus.completed
            produced.evidence
        else blocked_gate
            (starts_with produced.reason "BLOCKED_BY_MESA_CONTRACT:"
              || starts_with produced.reason "BLOCKED_BY_RUNTIME_STATE_PROOF:")
            gate_id definition produced

    -- the loop over the mandatory gates; `none` is a KeyError
    unfoldable pub evaluate_all :
        Dict (GateDefinition floats)
        → Dict (Produced floats)
        → List String
        → Option (List (GateResult floats))
    unfolding gate_result
    evaluate_all gates produced [] = some []
    evaluate_all gates produced (gate_id ∷ gate_ids) =
        let rest = evaluate_all gates produced gate_ids in
        elim (lookup gate_id gates) [
          | none ↦ none
          | some definition ↦ elim (lookup gate_id produced) [
            | none ↦ none
            | some p ↦ elim rest [
              | none ↦ none
              | some results ↦ some (gate_result gate_id definition p ∷ results)
            ]
          ]
        ]

module _ (floats : Floats) (services : Services floats) where
  -- The score summary and the report, as the scoring left them.
  unfoldable pub load_scores : String → Body (State floats services) ScoreSummary
  load_scores run_id = do
    world ← gets (λ (r : State floats services). r.world)
    refuse_if (not (services.is_file world (services.run_file "scoring-summary.json")))
        Problem.score_missing
    service (services.verify_seal "scoring-summary.json")
    sealed ← gets (λ (r : State floats services). r.world)
    summary ← or_raise (services.read_summary sealed) Problem.service_raised
    refuse_if (not (same_text summary.run_id (some run_id))) Problem.score_run_id
    manifest_hash ← gets (λ (r : State floats services). r.raw_manifest_hash)
    refuse_if (not (same_text summary.raw_manifest_hash manifest_hash)) Problem.score_manifest
    service services.require_passing_oracle_audit
    audit ← oracle_audit_hash floats services
    raise_if (not (same_text summary.oracle_audit_hash (some audit))) Problem.score_audit_stale
    after ← gets (λ (r : State floats services). r.world)
    raise_if (not (services.is_file after (services.run_file "scoring-report.json")))
        Problem.score_report
    report_hash ← service (λ w. (services.sha256 w (services.run_file "scoring-report.json"), w))
    raise_if (not (same_text (some report_hash) summary.score_artifact_hash)) Problem.score_report
    counts ← or_raise (services.read_report_counts after) Problem.service_raised
    raise_if
        (not (same_number counts.0 summary.item_count)
          || not (same_number (some counts.1) summary.item_count))
        Problem.score_item_count
    pure summary

  -- the scorer that the summary names is the one that is there
  unfoldable pub check_scorer : String → ScoreSummary → Body (State floats services) (Unit {0})
  check_scorer run_id summary =
      if same_text summary.scorer_version (some "profile-b-official-v2")
      then official
      else unverified
    where
      official : Body (State floats services) (Unit {0})
      official = do
        freeze_path ← gets (λ (r : State floats services). r.freeze_path)
        freeze ← or_raise freeze_path Problem.attribute_missing
        repository_root ← gets (λ (r : State floats services). r.repository_root)
        root ← or_raise repository_root Problem.attribute_missing
        answer ←
            service
              (λ w. let (a, w') = services.load_authority freeze root run_id w in (some a, w'))
        authority ← or_raise (elim answer [ inl a ↦ some a | inr e ↦ none ]) Problem.service_raised
        raise_if (not (same_text summary.scorer_sha256 (some (services.scorer_sha256 authority))))
            Problem.scorer_source

      unverified : Body (State floats services) (Unit {0})
      unverified = do
        scorer ← service services.module_sha256
        raise_if (not (same_text summary.scorer_sha256 (some scorer))) Problem.scorer_source

  -- the freeze and the thresholds are still those of the freeze phase
  unfoldable pub check_freeze : Body (State floats services) (Unit {0})
  check_freeze = do
    r ← gets (λ (r : State floats services). r)
    freeze ← or_raise r.freeze_path Problem.attribute_missing
    checksum ← or_raise r.checksum_path Problem.attribute_missing
    root ← or_raise r.repository_root Problem.attribute_missing
    shas ← or_raise r.current_repository_shas Problem.attribute_missing
    verification ←
        or_raise
          (verify_contract_freeze (files_at floats services r.world) freeze checksum root shas)
          Problem.service_raised
    raise_if (not (is_freeze_pass verification.status))
        (Problem.freeze_before_gates verification.drift)
    digest ← service services.gate_config_sha256
    raise_if (not (same_text (some digest) r.gate_config_hash)) Problem.thresholds_changed

  unfoldable pub gate_evaluation_body :
      String → Bool → Body (State floats services) (List (GateResult floats))
  gate_evaluation_body run_id is_official = do
    ensure_store floats services
    manifest ← service services.compute_raw_manifest
    sealed ← gets (λ (r : State floats services). r.raw_manifest_hash)
    refuse_if (differs sealed manifest.manifest_hash) Problem.changed_before_gates
    summary ← load_scores run_id
    check_scorer run_id summary
    world ← gets (λ (r : State floats services). r.world)
    config ← or_raise (services.load_gate_config world) Problem.service_raised
    check_freeze
    produced ← service (services.produce_all is_official)
    digest ← service services.producer_code_sha256
    results ←
        or_raise
          (evaluate_all floats services.starts_with config.gates produced config.mandatory_gate_ids)
          Problem.service_raised
    modify (λ (r : State floats services). record r { gate_results = results })
    write_immutable_json floats services "gate-observations.json"
        (gate_observations is_official digest produced)
    let failed = failed_hard_gates floats results
    modify (λ (r : State floats services). record r {
      failure_reason =
          if is_empty failed then r.failure_reason else some (Problem.hard_gates_not_passed failed);
    })
    write_immutable_json floats services "gate-results.json"
        (gate_results results (is_empty failed))
    pure results

  unfoldable pub execute_gate_evaluation :
      Transaction floats services → Result (List (GateResult floats)) × Transaction floats services
  execute_gate_evaluation t =
      execute floats services TransactionPhase.gate_evaluation Handler.fail_and_wrap
        (advance floats services TransactionPhase.gate_evaluation)
        (gate_evaluation_body t.run_id t.is_official) t
