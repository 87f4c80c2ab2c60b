-- ===== src/Transaction/Closing.antt =====
-- The last phases of a transaction: the verdict, the evidence, the health and the release.
use mesa_e2e_certification.Prelude.{
  String, ◌==◌, Bool, true, false, not, Option, none, some, List, [], ◌∷◌, if◌then◌else◌, is_empty,
  filter, sorted, to_set, Dict, same_set, ◌&&◌,
}
use mesa_e2e_certification.Json.{Json}
use mesa_e2e_certification.Models.{RunStatus, is_pass_native}
use mesa_e2e_certification.Values.{Floats}
use mesa_e2e_certification.Gates.{GateResult}
use mesa_e2e_certification.Freeze.{FreezeStatus, FreezeVerification, verify_contract_freeze}
use mesa_e2e_certification.Verdict.{
  FinalVerdict, derive_production_verdict, gate_ids, profile_b_gate_ids,
}
use mesa_e2e_certification.Operations.{ResourceStatus, is_pass, verify_health_artifacts}
use mesa_e2e_certification.Transaction.{
  TransactionPhase, Problem, run_manifest, verdict, lifecycle, Services, add_phase,
}
use mesa_e2e_certification.Transaction.Core.{
  Result, Handler, Transaction, Body, pure, ◌>>=◌, ◌>>◌, gets, modify, or_raise, raise_if,
  refuse_if, service, move, advance, execute,
}
use mesa_e2e_certification.Transaction.Preparing.{State, files_at, read_json, write}

-- REQUIRED_RELEASE_FILES of harness/finalizer.py
abbrev pub required_release_files : List String
required_release_files =
    "answer-summary.json" ∷ "contract-freeze.json" ∷ "decision-summary.json"
    ∷ "determinism-manifest.json" ∷ "evidence-index.json" ∷ "final-report.md"
    ∷ "frozen-identities.json" ∷ "gate-results.json" ∷ "graph-summary.json"
    ∷ "health-post-test.json" ∷ "health-pre-test.json" ∷ "identity-map-summary.json"
    ∷ "repair-summary.json" ∷ "resource-provider-summary.json" ∷ "retrieval-summary.json"
    ∷ "run_manifest.json" ∷ "scorer-canary-results.json" ∷ []

-- `not self.raw_manifest_hash`, and the hash where there is one
abbrev pub sealed_hash : Option String → Option String
sealed_hash none = none
sealed_hash (some hash) = if hash == "" then none else some hash

-- a verdict that is there and certifies
abbrev pub is_certified : Option FinalVerdict → Bool
is_certified none = false
is_certified (some v) = is_pass_native v.status

module _ (floats : Floats) (services : Services floats) where
  -- a call of the session, whose errors become one error of the transaction
  abbrev pub attest :
      (services.World → Option (Unit {0}) × services.World)
      → Body (State floats services) (Unit {0})
  attest f = do
    answer ← service (λ w. let (a, w') = f w in (some a, w'))
    or_raise answer Problem.provenance_not_verified

  -- `_verify_official_execution`
  unfoldable pub verify_official_execution : Bool → Body (State floats services) Bool
  verify_official_execution false = pure false
  verify_official_execution true = do
    r ← gets (λ (r : State floats services). r)
    hash ← or_raise (sealed_hash r.raw_manifest_hash) Problem.manifest_not_sealed
    manifest ←
        or_raise (read_json floats services r.world "raw-manifest.json")
          Problem.provenance_not_verified
    attest (services.verify_raw_manifest manifest hash)
    attest (services.verify_derived_artifact "scope-isolation.json" "scope_isolation")
    attest (services.verify_derived_artifact "graph-ablation.json" "graph_ablation")
    pure true

  -- What the derivation of the verdict is given, besides the gates and the session.
  pub record VerdictInputs : Type 0 where
    pub mandatory_gate_ids : List String
    pub freeze : services.FilePath
    pub checksum : services.FilePath
    pub root : services.FilePath
    pub shas : Dict String

  -- the writing of the run manifest, and the attributes that the freeze phase has set
  unfoldable pub prepare_verdict :
      Bool → Bool → State floats services → Body (State floats services) VerdictInputs
  prepare_verdict is_official failed r = do
    config ← or_raise (services.load_gate_config r.world) Problem.service_raised
    write floats services "run_manifest.json" (run_manifest (not failed) is_official r.lifecycle)
    freeze ← or_raise r.freeze_path Problem.attribute_missing
    checksum ← or_raise r.checksum_path Problem.attribute_missing
    root ← or_raise r.repository_root Problem.attribute_missing
    shas ← or_raise r.current_repository_shas Problem.attribute_missing
    pure (record {
      mandatory_gate_ids = to_set config.mandatory_gate_ids;
      freeze = freeze;
      checksum = checksum;
      root = root;
      shas = shas;
    })

  -- `derive_production_verdict` on the files as they are now
  abbrev pub derive_verdict :
      String
      → List (GateResult floats)
      → VerdictInputs
      → Bool
      → services.World
      → FreezeVerification
      → FinalVerdict
  derive_verdict run_id gates inputs official world verification =
      derive_production_verdict floats services.producers run_id gates inputs.mandatory_gate_ids
        verification (read_json floats services world "run_manifest.json")
        (λ n. services.is_file world (services.run_file n)) ("contract-freeze.json" ∷ []) official

  -- The freeze is verified where the mandatory gates and the reported gates are those of the
  -- registry; elsewhere the verdict is settled before, and the answer here is not looked at.
  unfoldable pub verify_freeze :
      List (GateResult floats) → VerdictInputs → services.World → Option FreezeVerification
  verify_freeze gates inputs world =
      if same_set inputs.mandatory_gate_ids profile_b_gate_ids
        && same_set (gate_ids floats gates) profile_b_gate_ids
      then verify_contract_freeze (files_at floats services world) inputs.freeze inputs.checksum
          inputs.root inputs.shas
      else some (record { status = FreezeStatus.missing_freeze; drift = [] })

  unfoldable pub conclude_verdict :
      String
      → List (GateResult floats)
      → VerdictInputs
      → Bool
      → Body (State floats services) FinalVerdict
  unfolding verify_freeze
  conclude_verdict run_id gates inputs official = do
    world ← gets (λ (r : State floats services). r.world)
    verification ← or_raise (verify_freeze gates inputs world) Problem.service_raised
    let derived = derive_verdict run_id gates inputs official world verification
    modify (λ (r : State floats services). record r { final_verdict = some derived })
    write floats services "verdict.json" (verdict derived)
    pure derived

  unfoldable pub verdict_derivation_body :
      String → Bool → Bool → Body (State floats services) FinalVerdict
  unfolding prepare_verdict verify_official_execution conclude_verdict
  verdict_derivation_body run_id is_official failed = do
    r ← gets (λ (r : State floats services). r)
    inputs ← prepare_verdict is_official failed r
    official ← verify_official_execution is_official
    conclude_verdict run_id r.gate_results inputs official

  unfoldable pub execute_verdict_derivation :
      Transaction floats services → Result FinalVerdict × Transaction floats services
  execute_verdict_derivation t =
      execute floats services TransactionPhase.verdict_derivation Handler.fail_and_wrap
        (advance floats services TransactionPhase.verdict_derivation)
        (verdict_derivation_body t.run_id t.is_official t.failed) t

  unfoldable pub evidence_index_body : List Json → Body (State floats services) Json
  evidence_index_body records = do
    refuse_if (is_empty records) Problem.empty_evidence
    index ← service (services.build_evidence_index records)
    modify (λ (r : State floats services). record r { evidence_index = some index })
    pure index

  unfoldable pub execute_evidence_index :
      List Json → Transaction floats services → Result Json × Transaction floats services
  execute_evidence_index records =
      execute floats services TransactionPhase.evidence_index Handler.fail_once_and_wrap_others
        (advance floats services TransactionPhase.evidence_index) (evidence_index_body records)

  unfoldable pub run_id_consistency_body :
      List Json → Body (State floats services) (Bool × List String)
  run_id_consistency_body reuse_authorizations = do
    report ← service (services.validate_run_id_consistency reuse_authorizations)
    refuse_if (not report.0) (Problem.run_ids_differ report.1)
    pure report

  unfoldable pub execute_run_id_consistency :
      List Json
      → Transaction floats services
      → Result (Bool × List String) × Transaction floats services
  execute_run_id_consistency reuse_authorizations =
      execute floats services TransactionPhase.run_id_consistency Handler.fail_once
        (advance floats services TransactionPhase.run_id_consistency)
        (run_id_consistency_body reuse_authorizations)

  unfoldable pub health_verification_body : String → Body (State floats services) ResourceStatus
  health_verification_body run_id = do
    world ← gets (λ (r : State floats services). r.world)
    let payload = verify_health_artifacts (services.measurements world) run_id
    raise_if (not (is_pass payload.status)) (Problem.unhealthy payload.reasons)
    pure payload

  unfoldable pub execute_health_verification :
      Transaction floats services → Result ResourceStatus × Transaction floats services
  execute_health_verification t =
      execute floats services TransactionPhase.health_verification Handler.fail_once_and_wrap_others
        (advance floats services TransactionPhase.health_verification)
        (health_verification_body t.run_id) t

  abbrev pub missing_files : services.World → List String
  missing_files world =
      filter (λ n. not (services.is_file world (services.run_file n)))
        (sorted required_release_files)

  -- the writer of the lifecycle, and the release bundle
  unfoldable pub publish : services.FilePath → Body (State floats services) services.FilePath
  publish target_release_dir = do
    s ← gets (λ (r : State floats services). r.lifecycle)
    write floats services "lifecycle.json" (lifecycle s)
    service (services.finalize_release target_release_dir)

  unfoldable pub release_finalization_body :
      services.FilePath → Body (State floats services) services.FilePath
  unfolding publish
  release_finalization_body target_release_dir = do
    r ← gets (λ (r : State floats services). r)
    refuse_if (not (is_certified r.final_verdict))
        (Problem.verdict_not_pass (elim r.final_verdict [ none ↦ none | some v ↦ some v.status ]))
    refuse_if (not (is_empty (missing_files r.world)))
        (Problem.release_files_missing (missing_files r.world))
    move RunStatus.finalizing
    move RunStatus.pass_native
    publish target_release_dir

  -- The last phase adds COMPLETED, and leaves the index.
  abbrev pub finish : Transaction floats services → Transaction floats services
  finish t = record t {
    completed_phases =
        add_phase TransactionPhase.completed
          (add_phase TransactionPhase.release_finalization t.completed_phases);
  }

  unfoldable pub execute_release_finalization :
      services.FilePath
      → Transaction floats services
      → Result services.FilePath × Transaction floats services
  execute_release_finalization target_release_dir =
      execute floats services TransactionPhase.release_finalization
        Handler.fail_once_and_wrap_others finish (release_finalization_body target_release_dir)
