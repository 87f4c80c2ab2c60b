-- ===== src/Lib.antt =====
-- The certification harness of MESA, Profile B: the parts of harness/ that decide whether a run is
-- certified.
--
-- The parts and how they interact. A run moves through the lifecycle (harness/lifecycle.py). Its
-- frozen material is verified against contract-freeze.json (harness/freeze.py). Retrieved chunks
-- are mapped to source chunks (harness/identity.py) and scored (harness/retrieval_scorer.py).
-- Observed metrics are evaluated gate by gate (harness/gates.py), and the final verdict
-- (harness/verdict.py) is computed of the gate results, the freeze verification, the lifecycle and
-- the artifacts of the run. The ground truth that the scorer reads is audited on its own
-- (harness/gt_governance.py), and so are the health measurements (harness/operations.py).
--
-- The files:
--   Models and GroundTruth: the enumerations and records of harness/models.py.
--   Lifecycle: class RunLifecycle. `new` is the constructor and `transition` the method; `run` is a
--     caller that makes calls in turn and goes on after an exception. Lifecycle/Steps is one call,
--     Lifecycle/Path any sequence of calls. A call whose timestamp overflows in the conversion to UTC
--     raises after it has moved the status.
--   Values and Gates: gates.py, with `validate_gate`, `validate_resources` and `validate_config`
--     for the model validators, `comparison_passes` and `evaluate_threshold_gate`. Gates/Passing is
--     when a gate passes, Gates/Aliases the second names of metrics.
--   Json: the values that `json.loads` gives.
--   Freeze: `verify_contract_freeze`. An early return is a `return` of the monad `Step`.
--     Freeze/Steps has the rules of the monad, Freeze/Payload the completeness of a payload,
--     Freeze/Accepts and Freeze/Opens what the payload and the two files are, described on their
--     own, and Freeze/Verify the whole verification.
--   Verdict: `evaluate_final_verdict`, the first part before the gates and `evaluate_gates` the
--     rest, and `derive_production_verdict`. Verdict/Passed relates the lists that the code sorts
--     to the gates, Verdict/Outcome is the evaluation, Verdict/Stated the run manifest and
--     Verdict/Production the entry point.
--   Identity: class IdentityMap. A method that may raise returns the object after the call and the
--     exception. Identity/Consistent is adding, Identity/Loading the file and Identity/Resolving
--     the lookups.
--   Retrieval: `score_retrieval`. Retrieval/Single is its single-hop part, Retrieval/Coverage and
--     Retrieval/Relational its relational part and Retrieval/Usable the results that it rejects.
--   Operations: `capture_health_snapshot`, whose judgement is `assess`, `evaluate_resource_status`
--     and `verify_health_artifacts`. Operations/Health is the judgement of a snapshot,
--     Operations/Artifacts the telemetry and the files.
--   Governance: `_structural_errors` is `structural_errors`, by item and by kind of error;
--     `validate_ground_truth_items` and `validate_ground_truth`. Governance/Structure is one item,
--     Governance/Accepted the list of items.
--   Reviews: `validate_dev_test_leakage`, `build_domain_audit_artifact` and
--     `validate_no_answer_audit`. Reviews/Splits is the leakage, Reviews/Audits the domain audit.
--   Secrets: `_find_secret_field` and `_find_forbidden_key`, which make the same search with
--     different names; Secrets/Found is what it finds.
--   Prelude: tests, lists, sets and maps as lists without and with keys.
--   Oracle: `extract_raw_audit_surfaces` and `audit_oracle_surfaces` of oracle.py; Oracle/Leaks is
--     when the audit finds nothing.
--   Evidence: `validate_run_id_consistency` of evidence.py, on the files that were found and read.
--     Its lists are filled from one list of notes. Evidence/Last is which
--     authorization counts, Evidence/Covered a passing check.
--   Artifacts: class RunArtifactStore of artifacts.py over a disk that maps paths to contents:
--     `verify_seal`, `write_immutable_json` and the two ways in which a method ends with a write.
--     Artifacts/Manifest has the raw manifest and the guard of the oracle audit, and
--     Artifacts/Persisting the methods. Artifacts/Sealed is one write, Artifacts/Kept any sequence
--     of calls, Artifacts/Audited a score. A write and its sidecar are one step.
--   Transaction: class CertificationTransaction of transaction.py, with the interface `Services`.
--     Transaction/Core has its state, `require_phase`, `fail_transaction` and the `try` statement
--     that all phases share. The methods `execute_...` are in Transaction/Preparing (up to the
--     oracle audit), Transaction/Scoring, Transaction/Gating and Transaction/Closing, each as its
--     body between the guard and the `except` clause. Transaction/Calls is a caller of the twelve
--     methods in any order, Calls/Ordered and Calls/Released what holds after its calls,
--     Transaction/Certifying what a certifying verdict stands for, and Transaction/Evaluated
--     where a passing gate comes from.
--   Examples: concrete inputs.
--
-- Parameters: `Services` is what the transaction calls: the disk, the session, the store, the
-- scoring and the producers, over an unknown state, each of whose operations may raise and may
-- change the state. `Codec` is what the store uses of JSON, hashes and paths. `Matching` is what
-- the audit uses of regular expressions. `Texts` is what the check of the run ids uses of `json`,
-- `fnmatch` and `str`. `Clock` is what the lifecycle uses of `datetime`,
-- `Floats` the comparisons of Python's floats, `Files` the file system, hashes, paths and JSON
-- codec of the freeze, `RowSource` the decoding of an identity file and of its rows,
-- `Measurements` the files of the health check. The blank test and the normalization of texts are
-- arguments of the governance, and case folding is one of the searches, whose theorems ask that it
-- keeps the empty text. Splitting a text into words is one of `Codec`, and the theorem on a write
-- asks that it gives back the two words of a seal. No other parameter comes with a hypothesis. The keys of
-- PRODUCTION_METRIC_PRODUCERS are an argument of the verdict.
--
-- Texts of reasons: the fixed part of a text is a constructor, and the values in it are its
-- arguments. Quotients of the scores are kept as numerator and denominator. A Python set or
-- dictionary is a list in the order of insertion. No definition has fuel: every loop of the source
-- is over a list.
--
-- Not modelled: the creation of a freeze, the writers of JSON files, the answer scorer, the other
-- checks of the runtime lock and of the holdout manifest, the audit plan, the evidence index and the
-- confinement of its paths, the finalizer, the validators of the captures and of the request and
-- response records, the official scoring, the metric producers and the collectors, and the HTTP
-- access to MESA.
pub mod Artifacts
pub mod Evidence
pub mod Examples
pub mod Freeze
pub mod Gates
pub mod Governance
pub mod GroundTruth
pub mod Identity
pub mod Json
pub mod Lifecycle
pub mod Models
pub mod Operations
pub mod Oracle
pub mod Prelude
pub mod Retrieval
pub mod Reviews
pub mod Secrets
pub mod Transaction
pub mod Values
pub mod Verdict
