-- ===== src/Transaction.antt =====
-- harness/transaction.py: the certification transaction. Its phases, the reasons it fails for, the
-- documents it writes, and what it uses of the rest of the harness, of the disk and of the session.
pub mod Core
pub mod Preparing
pub mod Scoring
pub mod Gating
pub mod Closing
pub mod Calls
pub mod Evaluated
pub mod Certifying
use mathlib.Core.Bool.{decide}
use mesa_e2e_certification.Prelude.{
  ℕ, String, ◌⊎◌, Bool, true, false, ◌&&◌, Option, none, some, List, [], ◌∷◌, ◌++◌, any, all,
  if◌then◌else◌, Dict,
}
use mesa_e2e_certification.Models.{GateStatus, VerdictStatus}
use mesa_e2e_certification.Json.{Json}
use mesa_e2e_certification.Values.{Floats, Value}
use mesa_e2e_certification.Gates.{GateConfig, GateResult}
use mesa_e2e_certification.Lifecycle.{Clock, LifecycleError, RunLifecycle}
use mesa_e2e_certification.Freeze.{FreezeStatus, Note}
use mesa_e2e_certification.Verdict.{FinalVerdict}
use mesa_e2e_certification.Operations.{Measurements, ResourceReason}
use mesa_e2e_certification.Oracle.{Matching, Finding, RawEntry, RawManifest, OracleReport}

pub data TransactionPhase : Type 0 where
  bootstrap freeze raw_execution raw_sealing oracle_audit scoring : TransactionPhase
  gate_evaluation verdict_derivation evidence_index run_id_consistency : TransactionPhase
  health_verification release_finalization completed failed : TransactionPhase

unfoldable pub TransactionPhase-discrete : Discrete TransactionPhase
TransactionPhase-discrete = hlevel

-- PHASE_SEQUENCE
abbrev pub phase_sequence : List TransactionPhase
phase_sequence =
    TransactionPhase.bootstrap ∷ TransactionPhase.freeze ∷ TransactionPhase.raw_execution
    ∷ TransactionPhase.raw_sealing ∷ TransactionPhase.oracle_audit ∷ TransactionPhase.scoring
    ∷ TransactionPhase.gate_evaluation ∷ TransactionPhase.verdict_derivation
    ∷ TransactionPhase.evidence_index ∷ TransactionPhase.run_id_consistency
    ∷ TransactionPhase.health_verification ∷ TransactionPhase.release_finalization ∷ []

unfoldable pub same_phase : TransactionPhase → TransactionPhase → Bool
unfolding TransactionPhase-discrete decide
same_phase p q = decide (TransactionPhase-discrete p q)

abbrev pub has_phase : TransactionPhase → List TransactionPhase → Bool
has_phase p ps = any (same_phase p) ps

-- `ps == qs` of two sets
abbrev pub same_phases : List TransactionPhase → List TransactionPhase → Bool
same_phases ps qs = all (λ p. has_phase p qs) ps && all (λ q. has_phase q ps) qs

-- `ps.add(p)`
abbrev pub add_phase : TransactionPhase → List TransactionPhase → List TransactionPhase
add_phase p ps = if has_phase p ps then ps else ps ++ p ∷ []

-- What a method raises, and what `failure_reason` holds: the text's fixed part is the constructor,
-- the values in it stay. `service_raised` is an exception of the code that a phase calls.
pub data Problem : Type 0 where
  failed_before : Problem
  failed_with : Problem → Problem
  sequence_corrupted history_mismatch invalid_lifecycle : Problem
  out_of_order : (attempted expected : TransactionPhase) → Problem
  service_raised attribute_missing : Problem
  lifecycle_raised : LifecycleError → Problem
  freeze_rejected : List Note → Problem
  changed_after_sealing changed_after_audit changed_before_gates : Problem
  oracle_audit_failed : List Finding → Problem
  no_raw_records authority_unavailable no_scored_items : Problem
  score_missing score_run_id score_manifest score_audit_stale score_report : Problem
  score_item_count scorer_source : Problem
  freeze_before_gates : List Note → Problem
  thresholds_changed : Problem
  hard_gates_not_passed : List String → Problem
  manifest_not_sealed provenance_not_verified empty_evidence : Problem
  run_ids_differ : List String → Problem
  unhealthy : List ResourceReason → Problem
  verdict_not_pass : Option VerdictStatus → Problem
  release_files_missing : List String → Problem
  in_phase : TransactionPhase → Problem → Problem

-- the error of a call after a failure, which quotes `failure_reason`
abbrev pub has_failed : Option Problem → Problem
has_failed none = Problem.failed_before
has_failed (some problem) = Problem.failed_with problem

-- `isinstance(exc, TransactionError)`
abbrev pub is_transaction_error : Problem → Bool
is_transaction_error Problem.service_raised = false
is_transaction_error Problem.attribute_missing = false
is_transaction_error (Problem.lifecycle_raised e) = false
is_transaction_error _ = true

-- The report of one lane of the official scoring.
pub record LaneReport : Type 0 where
  pub items : List Json
  pub metrics : Dict Json
  pub status : String

-- What `score_run_from_frozen_authority` returns.
pub record OfficialScores : Type 0 where
  pub retrieval : LaneReport
  pub answers : LaneReport
  pub scorer_version : String
  pub scorer_sha256 : String
  pub ground_truth_sha256 : String
  pub qrels_sha256 : String
  pub identity_map_sha256 : String
  pub normalization_sha256 : String
  pub item_count : ℕ
  pub status : String

-- The fields of scoring-report.json that are read later; `lanes` are the two lane reports of an official scoring.
pub record ScoreReport : Type 0 where
  pub scorer_version : String
  pub scorer_sha256 : String
  pub raw_manifest_hash : String
  pub oracle_audit_hash : String
  pub item_count : ℕ
  pub status : String
  pub items : List Json
  pub lanes : Option (LaneReport × LaneReport)

-- scoring-summary.json: what `get` answers on each of its keys.
pub record ScoreSummary : Type 0 where
  pub run_id : Option String
  pub scorer_version : Option String
  pub scorer_sha256 : Option String
  pub raw_manifest_hash : Option String
  pub oracle_audit_hash : Option String
  pub item_count : Option ℕ
  pub status : Option String
  pub score_artifact_hash : Option String
  pub metrics : Dict Json
  -- the hashes of the frozen inputs, and the status of each lane
  pub inputs : Dict String
  pub lane_status : Dict String

pub data AuthorityError : Type 0 where
  unavailable other : AuthorityError

module _ (floats : Floats) where
  -- What the producer of one gate returns.
  pub record Produced : Type 0 where
    pub execution : String
    pub observed : Dict (Value floats)
    pub evidence : List String
    pub reason : String
    pub producer_version : String

  -- What a phase writes into the run directory.
  pub data Document : Type 0 where
    layout : Option Json → Document
    raw_manifest : RawManifest → Document
    oracle_report : OracleReport → Document
    score_report : ScoreReport → Document
    lane_report : LaneReport → Document
    -- the report without its items
    lane_summary : LaneReport → Document
    score_summary : ScoreSummary → Document
    gate_observations : Bool → Option String → Dict Produced → Document
    -- the results, and whether the file says PASS and PROFILE_B_PASS_NATIVE
    gate_results : List (GateResult floats) → Bool → Document
    -- `lifecycle_valid`, and whether `execution_mode` is official
    run_manifest : Bool → Bool → RunLifecycle → Document
    verdict : FinalVerdict → Document
    lifecycle : RunLifecycle → Document

  -- The parts of the harness that the transaction calls, over an unknown state of the disk and of
  -- the execution session. An operation that is `none` has raised; it may have changed the state.
  pub record Services : Type 1 where
    pub World : Type 0
    pub clock : Clock
    pub now : World → clock.Instant
    pub FilePath : Type 0
    -- `run_dir` and `run_dir / name`
    pub run_dir : FilePath
    pub run_file : String → FilePath
    pub is_file : World → FilePath → Bool
    pub size : World → FilePath → ℕ
    pub sha256 : World → FilePath → Option String
    pub read_text : World → FilePath → Option String
    pub name : FilePath → String
    pub resolve : World → FilePath → String → Option FilePath
    pub loads : String → Option Json
    pub words : String → List String
    pub is_blank : String → Bool
    pub contains : String → String → Bool
    pub starts_with : String → String → Bool
    -- the text of an exception
    pub describe : Problem → String
    pub matching : Matching
    pub measurements : World → Measurements
    -- the keys of PRODUCTION_METRIC_PRODUCERS
    pub producers : List String
    pub make_run_dir : World → Option (Unit {0}) × World
    pub new_store : World → Option (Unit {0}) × World
    pub initialize_store : World → Option (Unit {0}) × World
    pub write_execution_record : World → Option (Unit {0}) × World
    pub start_capture : World → Option (Unit {0}) × World
    -- `write_text` or `write_bytes`, and `_write_immutable_json` of the store
    pub write : String → Document → World → Option (Unit {0}) × World
    pub write_immutable_json : String → Document → World → Option (Unit {0}) × World
    pub copy_into_run : FilePath → World → Option FilePath × World
    -- SHA-256 of the gate configuration, of this module, and of a report as it is written
    pub gate_config_sha256 : World → Option String × World
    pub module_sha256 : World → Option String × World
    pub report_sha256 : ScoreReport → String
    -- methods of the store
    pub compute_raw_manifest : World → Option RawManifest × World
    pub persist_oracle_audit : OracleReport → World → Option (Unit {0}) × World
    pub require_passing_oracle_audit : World → Option (Unit {0}) × World
    pub verify_seal : String → World → Option (Unit {0}) × World
    pub persist_scored : (lane : String) → Option Json → Json → World → Option (Unit {0}) × World
    -- harness/official_scoring.py
    pub Authority : Type 0
    pub scorer_sha256 : Authority → String
    pub load_authority : FilePath → FilePath → String → World → (Authority ⊎ AuthorityError) × World
    pub score_run : Authority → RawManifest → World → Option OfficialScores × World
    -- the content of a JSON file, with `none` where it cannot be read or is no JSON
    pub read_summary : World → Option ScoreSummary
    -- `item_count` of a report, and the number of its items
    pub read_report_counts : World → Option (Option ℕ × ℕ)
    -- harness/gates.py, harness/metric_producers.py
    pub load_gate_config : World → Option (GateConfig floats)
    pub produce_all : Bool → World → Option (Dict Produced) × World
    -- with `some none` for the errors that the transaction catches
    pub producer_code_sha256 : World → Option (Option String) × World
    -- harness/execution_provenance.py, with `none` for any exception
    pub verify_raw_manifest : Json → String → World → Option (Unit {0}) × World
    pub verify_derived_artifact : (file kind : String) → World → Option (Unit {0}) × World
    -- harness/evidence.py; of the report, whether the status is PASS, and the mismatches
    pub build_evidence_index : List Json → World → Option Json × World
    pub validate_run_id_consistency : List Json → World → Option (Bool × List String) × World
    -- harness/finalizer.py
    pub finalize_release : FilePath → World → Option FilePath × World
