-- ===== src/Examples/Transactions.antt =====
-- A transaction over a quiet harness: every call returns, and all files have the same hash.
use mesa_e2e_certification.Lifecycle.{new}
use mesa_e2e_certification.Prelude.{
  String, ◌==◌, ◌≡◌, refl, inl, true, false, Option, none, some, List, [], ◌∷◌, map, if◌then◌else◌,
  length, take,
}
use mesa_e2e_certification.Json.{Json, field, end}
use mesa_e2e_certification.Values.{int, pos, number}
use mesa_e2e_certification.Gates.{GateConfig, GateDefinition}
use mesa_e2e_certification.Verdict.{profile_b_gate_ids}
use mesa_e2e_certification.Oracle.{Matching}
use mesa_e2e_certification.Transaction.{
  TransactionPhase, phase_sequence, LaneReport, OfficialScores, ScoreSummary, Produced, Services,
}
use mesa_e2e_certification.Transaction.Core.{new_transaction, Transaction}
use mesa_e2e_certification.Transaction.Calls.{
  PhaseCall, call_bootstrap, call_freeze, call_raw_execution, call_raw_sealing, call_oracle_audit,
  call_scoring, call_gate_evaluation, call_verdict_derivation, call_evidence_index,
  call_run_id_consistency, call_health_verification, call_release_finalization, attempt, run_calls,
  phases_returned,
}
use mesa_e2e_certification.Transaction.Calls.Ordered.{
  Ran, attempt_outcome, phases_in_order, failed_absorbs,
}
use mesa_e2e_certification.Examples.Freezes.{sha, payload}
use mesa_e2e_certification.Examples.Verdicts.{floats, verified}
use mesa_e2e_certification.Examples.Health.{measurements}
use mesa_e2e_certification.Examples.Runs.{clock, created_run}

abbrev plain_matching : Matching
plain_matching = record { search = λ p t. false; escape = λ t. t; casefold = λ t. t }

abbrev pub gate : String → GateDefinition floats
gate gate_id = record {
  gate_id = gate_id;
  name = none;
  hard = true;
  requirements = ("done", verified) ∷ [];
  wait_for_mesa = false;
  unresolved_methodology = false;
  notes = none;
}

abbrev pub config : GateConfig floats
config = record {
  resources = record { ram_min_gib = 16; ram_recommended_gib = 32; disk_min_gib = 100 };
  mandatory_gate_ids = profile_b_gate_ids;
  gates = map (λ i. (i, gate i)) profile_b_gate_ids;
}

abbrev pub output : Produced floats
output = record {
  execution = "COMPLETED";
  observed = ("done", number (int (pos 1))) ∷ [];
  evidence = "gate.json" ∷ [];
  reason = "";
  producer_version = "1";
}

abbrev lane : LaneReport
lane = record { items = Json.null ∷ []; metrics = []; status = "PASS" }

abbrev official_scores : OfficialScores
official_scores = record {
  retrieval = lane;
  answers = lane;
  scorer_version = "profile-b-official-v2";
  scorer_sha256 = sha;
  ground_truth_sha256 = sha;
  qrels_sha256 = sha;
  identity_map_sha256 = sha;
  normalization_sha256 = sha;
  item_count = 2;
  status = "PASS";
}

abbrev summary : ScoreSummary
summary = record {
  run_id = some "run-1";
  scorer_version = some "profile-b-official-v2";
  scorer_sha256 = some sha;
  raw_manifest_hash = some sha;
  oracle_audit_hash = some sha;
  item_count = some 2;
  status = some "PASS";
  score_artifact_hash = some sha;
  metrics = [];
  inputs = [];
  lane_status = [];
}

-- The text of a file is its name.
abbrev content : String → Option Json
content t =
    if t == "run_manifest.json"
    then some (Json.object (field "status" (Json.string "COMPLETED") end))
    else if t == "raw/answers/q1.json"
    then some (Json.object (field "query_id" (Json.string "q1") end))
    else some payload

abbrev pub services : Services floats
services = record {
  World = Unit {0};
  clock = clock;
  now = λ w. true;
  FilePath = String;
  run_dir = "run-1";
  run_file = λ n. n;
  is_file = λ w p. true;
  size = λ w p. 1;
  sha256 = λ w p. some sha;
  read_text = λ w p. some p;
  name = λ p. p;
  resolve = λ w root p. some p;
  loads = content;
  words = λ t. sha ∷ "contract_freeze.json" ∷ [];
  is_blank = λ t. t == "";
  contains = λ t part. true;
  starts_with = λ t part. false;
  describe = λ p. "failed";
  matching = plain_matching;
  measurements = λ w. measurements;
  producers = profile_b_gate_ids;
  make_run_dir = λ w. (some tt, w);
  new_store = λ w. (some tt, w);
  initialize_store = λ w. (some tt, w);
  write_execution_record = λ w. (some tt, w);
  start_capture = λ w. (some tt, w);
  write = λ file document w. (some tt, w);
  write_immutable_json = λ file document w. (some tt, w);
  copy_into_run = λ p w. (some p, w);
  gate_config_sha256 = λ w. (some sha, w);
  module_sha256 = λ w. (some sha, w);
  report_sha256 = λ r. sha;
  compute_raw_manifest = λ w. (
    some (record {
      manifest_hash = sha;
      entries = record { path = "raw/answers/q1.json"; sha256 = sha } ∷ [];
    }),
    w,
  );
  persist_oracle_audit = λ r w. (some tt, w);
  require_passing_oracle_audit = λ w. (some tt, w);
  verify_seal = λ p w. (some tt, w);
  persist_scored = λ l q s w. (some tt, w);
  Authority = Unit {0};
  scorer_sha256 = λ a. sha;
  load_authority = λ f r i w. (inl tt, w);
  score_run = λ a m w. (some official_scores, w);
  read_summary = λ w. some summary;
  read_report_counts = λ w. some (some 2, 2);
  load_gate_config = λ w. some config;
  produce_all = λ o w. (some (map (λ i. (i, output)) profile_b_gate_ids), w);
  producer_code_sha256 = λ w. (some (some sha), w);
  verify_raw_manifest = λ m h w. (some tt, w);
  verify_derived_artifact = λ f k w. (some tt, w);
  build_evidence_index = λ r w. (some Json.null, w);
  validate_run_id_consistency = λ r w. (some (true, []), w);
  finalize_release = λ p w. (some p, w);
}

abbrev pub started : Transaction floats services
started = record {
  run_id = "run-1";
  is_official = true;
  run = record {
    lifecycle = created_run;
    failure_reason = none;
    has_store = false;
    raw_manifest_hash = none;
    audited_manifest_hash = none;
    gate_results = [];
    final_verdict = none;
    evidence_index = none;
    freeze_path = none;
    checksum_path = none;
    gate_config_hash = none;
    repository_root = none;
    current_repository_shas = none;
    world = tt;
  };
  completed_phases = [];
  current_step_idx = 0;
  failed = false;
}

-- The twelve phases in order, with a call out of order and a second release.
abbrev pub calls : List (PhaseCall floats services)
calls =
    call_scoring
    ∷ call_bootstrap none
    ∷ call_freeze "contract_freeze.json" "contract_freeze.sha256" "."
        (("MESA", sha) ∷ ("MESA_Data", sha) ∷ ("MESA_E2E_Certification", sha) ∷ [])
    ∷ call_raw_execution (λ w. (some tt, w))
    ∷ call_raw_sealing
    ∷ call_oracle_audit none []
    ∷ call_scoring
    ∷ call_gate_evaluation
    ∷ call_verdict_derivation
    ∷ call_evidence_index (Json.null ∷ [])
    ∷ call_run_id_consistency []
    ∷ call_health_verification
    ∷ call_release_finalization "release"
    ∷ call_release_finalization "release"
    ∷ []

abbrev failed_run : Transaction floats services
failed_run = record started { failed = true }

attempt_outcome_example :
    Ran floats services TransactionPhase.bootstrap started
      (attempt floats services (call_bootstrap none) started)
attempt_outcome_example = attempt_outcome floats services (call_bootstrap none) started

phases_in_order_example :
    phases_returned floats services started calls
    ≡ take (length (phases_returned floats services started calls)) phase_sequence
unfolding new_transaction new
phases_in_order_example = phases_in_order floats services "run-1" true true tt started refl calls

failed_absorbs_example :
    (run_calls floats services failed_run calls ≡ failed_run)
    × (phases_returned floats services failed_run calls ≡ [])
failed_absorbs_example = failed_absorbs floats services calls failed_run refl
