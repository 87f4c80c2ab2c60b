-- ===== src/Transaction/Scoring.antt =====
-- The scoring of a transaction: by the frozen authority, or without one, where nothing passes.
use mesa_e2e_certification.Prelude.{
  String, ◌==◌, ◌⊎◌, inl, inr, Bool, false, Option, none, some, List, [], ◌∷◌, ◌++◌, if◌then◌else◌,
  length, is_empty, all, elem, insert_all,
}
use mesa_e2e_certification.Json.{Json, nil, cons, as_object, as_string, get, to_fields}
use mesa_e2e_certification.Values.{Floats}
use mesa_e2e_certification.Oracle.{RawEntry, RawManifest}
use mesa_e2e_certification.Transaction.{
  TransactionPhase, Problem, LaneReport, OfficialScores, ScoreReport, ScoreSummary, AuthorityError,
  score_report, lane_report, lane_summary, score_summary, Services,
}
use mesa_e2e_certification.Transaction.Core.{
  Result, Outcome, returned, raised, Handler, Transaction, Body, pure, ◌>>=◌, ◌>>◌, gets, or_raise,
  refuse_if, service, advance, execute,
}
use mesa_e2e_certification.Transaction.Preparing.{
  State, differs, write, write_immutable_json, ensure_store,
}

-- `it.get("status") == "PASS"`
unfoldable pub has_passed : Json → Bool
has_passed item = elim (as_object (some item)) [
  | none ↦ false
  | some fs ↦ elim (as_string (get "status" fs)) [ none ↦ false | some s ↦ s == "PASS" ]
]

-- `"PASS" if all(...) else "FAIL"`
abbrev pub status_text : Bool → String
status_text b = if b then "PASS" else "FAIL"

-- `raw_payload.get("lane", default)`, with `returned none` for a lane that is skipped
unfoldable pub lane_of : String → Option Json → Outcome (Option String)
lane_of default none = returned (some default)
lane_of default (some (Json.string s)) =
    returned (if elem s ("retrieval" ∷ "answers" ∷ []) then some s else none)
lane_of default (some (Json.array xs)) = raised Problem.service_raised
lane_of default (some (Json.object fs)) = raised Problem.service_raised
lane_of default (some _) = returned none

abbrev or_null : Option Json → Json
or_null none = Json.null
or_null (some j) = j

-- what is stored for an item that no authority has scored
unfoldable pub unverified_item : Option Json → String → Json
unverified_item query_id lane = Json.object (
    to_fields (
      ("query_id", or_null query_id)
      ∷ ("lane", Json.string lane)
      ∷ ("status", Json.string "UNVERIFIED")
      ∷ ("reasons", Json.array (cons (Json.string "frozen scoring authority unavailable") nil))
      ∷ []))

unfoldable pub official_report : OfficialScores → String → String → ScoreReport
official_report official manifest_hash oracle_audit_hash = record {
  scorer_version = official.scorer_version;
  scorer_sha256 = official.scorer_sha256;
  raw_manifest_hash = manifest_hash;
  oracle_audit_hash = oracle_audit_hash;
  item_count = official.item_count;
  status = official.status;
  items = official.retrieval.items ++ official.answers.items;
  lanes = some (official.retrieval, official.answers);
}

unfoldable pub official_summary : String → OfficialScores → String → String → String → ScoreSummary
official_summary run_id official manifest_hash oracle_audit_hash score_artifact_hash = record {
  run_id = some run_id;
  scorer_version = some official.scorer_version;
  scorer_sha256 = some official.scorer_sha256;
  raw_manifest_hash = some manifest_hash;
  oracle_audit_hash = some oracle_audit_hash;
  item_count = some official.item_count;
  status = some official.status;
  score_artifact_hash = some score_artifact_hash;
  metrics = insert_all official.retrieval.metrics official.answers.metrics;
  inputs =
      ("ground_truth_sha256", official.ground_truth_sha256)
      ∷ ("qrels_sha256", official.qrels_sha256)
      ∷ ("identity_map_sha256", official.identity_map_sha256)
      ∷ ("normalization_sha256", official.normalization_sha256)
      ∷ [];
  lane_status =
      ("retrieval", official.retrieval.status) ∷ ("answers", official.answers.status) ∷ [];
}

abbrev pub unverified_version : String
unverified_version = "unverified-adapter-1"

unfoldable pub unverified_report : String → String → String → List Json → ScoreReport
unfolding has_passed
unverified_report scorer_sha256 manifest_hash oracle_audit_hash items = record {
  scorer_version = unverified_version;
  scorer_sha256 = scorer_sha256;
  raw_manifest_hash = manifest_hash;
  oracle_audit_hash = oracle_audit_hash;
  item_count = length items;
  status = status_text (all has_passed items);
  items = items;
  lanes = none;
}

-- `scorer_sha256` is read again for the summary.
unfoldable pub unverified_summary : String → String → ScoreReport → String → ScoreSummary
unverified_summary run_id scorer_sha256 report score_artifact_hash = record {
  run_id = some run_id;
  scorer_version = some unverified_version;
  scorer_sha256 = some scorer_sha256;
  raw_manifest_hash = some report.raw_manifest_hash;
  oracle_audit_hash = some report.oracle_audit_hash;
  item_count = some report.item_count;
  status = some report.status;
  score_artifact_hash = some score_artifact_hash;
  metrics = [];
  inputs = [];
  lane_status = [];
}

module _ (floats : Floats) (services : Services floats) where
  -- `outcome` as a statement
  abbrev outcome : {A : Type 0} → Outcome A → Body (State floats services) A
  outcome o r = (o, r)

  abbrev or_authority :
      Bool → (services.Authority ⊎ AuthorityError) → Outcome (Option services.Authority)
  or_authority is_official (inl authority) = returned (some authority)
  or_authority is_official (inr AuthorityError.unavailable) =
      if is_official then raised Problem.authority_unavailable else returned none
  or_authority is_official (inr AuthorityError.other) = raised Problem.service_raised

  -- The authority of the freeze; without a session there may be none.
  unfoldable pub find_authority :
      String → Bool → Body (State floats services) (Option services.Authority)
  find_authority run_id is_official = do
    freeze_path ← gets (λ (r : State floats services). r.freeze_path)
    freeze ← or_raise freeze_path Problem.attribute_missing
    repository_root ← gets (λ (r : State floats services). r.repository_root)
    root ← or_raise repository_root Problem.attribute_missing
    answer ←
        service (λ w. let (a, w') = services.load_authority freeze root run_id w in (some a, w'))
    outcome (or_authority is_official answer)

  -- the hash of oracle-leakage-audit.json
  abbrev pub oracle_audit_hash : Body (State floats services) String
  oracle_audit_hash =
      service (λ w. (services.sha256 w (services.run_file "oracle-leakage-audit.json"), w))

  abbrev write_lane :
      (report summary : String) → LaneReport → Body (State floats services) (Unit {0})
  write_lane report summary lane = do
    write_immutable_json floats services report (lane_report lane)
    write_immutable_json floats services summary (lane_summary lane)

  unfoldable pub score_officially :
      String → services.Authority → RawManifest → Body (State floats services) ScoreReport
  score_officially run_id authority manifest = do
    official ← service (services.score_run authority manifest)
    audit ← oracle_audit_hash
    let report = official_report official manifest.manifest_hash audit
    write floats services "scoring-report.json" (score_report report)
    write_lane "retrieval-test-report.json" "retrieval-summary.json" official.retrieval
    write_lane "answer-test-report.json" "answer-summary.json" official.answers
    write_immutable_json floats services "scoring-summary.json" (
        score_summary (
          official_summary run_id official manifest.manifest_hash audit
            (services.report_sha256 report)))
    pure report

  unfoldable pub score_entry : RawEntry → Body (State floats services) (List Json)
  score_entry entry = do
    service (services.verify_seal entry.path)
    text ← service (λ w. (services.read_text w (services.run_file entry.path), w))
    payload ← or_raise (services.loads text) Problem.service_raised
    fs ← or_raise (as_object (some payload)) Problem.attribute_missing
    lane ← outcome (
        lane_of (if services.contains entry.path "answers" then "answers" else "retrieval")
          (get "lane" fs))
    elim lane [
      | none ↦ pure []
      | some l ↦ do
        service
            (services.persist_scored l (get "query_id" fs) (unverified_item (get "query_id" fs) l))
        pure (unverified_item (get "query_id" fs) l ∷ [])
    ]

  -- the loop over the entries of the sealed manifest
  unfoldable pub score_entries : List RawEntry → Body (State floats services) (List Json)
  unfolding score_entry
  score_entries [] = pure []
  score_entries (entry ∷ entries) = do
    scored ← score_entry entry
    rest ← score_entries entries
    pure (scored ++ rest)

  unfoldable pub score_unverified : String → RawManifest → Body (State floats services) ScoreReport
  score_unverified run_id manifest = do
    items ← score_entries manifest.entries
    refuse_if (is_empty items) Problem.no_scored_items
    audit ← oracle_audit_hash
    scorer ← service services.module_sha256
    let report = unverified_report scorer manifest.manifest_hash audit items
    write floats services "answer-test-report.json" (score_report report)
    write floats services "retrieval-test-report.json" (score_report report)
    write floats services "scoring-report.json" (score_report report)
    scorer_again ← service services.module_sha256
    let summary = unverified_summary run_id scorer_again report (services.report_sha256 report)
    write_immutable_json floats services "scoring-summary.json" (score_summary summary)
    write floats services "answer-summary.json" (score_summary summary)
    write floats services "retrieval-summary.json" (score_summary summary)
    pure report

  unfoldable pub scoring_body : String → Bool → Body (State floats services) ScoreReport
  scoring_body run_id is_official = do
    ensure_store floats services
    manifest ← service services.compute_raw_manifest
    sealed ← gets (λ (r : State floats services). r.raw_manifest_hash)
    refuse_if (differs sealed manifest.manifest_hash) Problem.changed_after_sealing
    audited ← gets (λ (r : State floats services). r.audited_manifest_hash)
    refuse_if (differs audited manifest.manifest_hash) Problem.changed_after_audit
    service services.require_passing_oracle_audit
    refuse_if (is_empty manifest.entries) Problem.no_raw_records
    authority ← find_authority run_id is_official
    elim authority [
      | some a ↦ score_officially run_id a manifest
      | none ↦ score_unverified run_id manifest
    ]

  unfoldable pub execute_scoring :
      Transaction floats services → Result ScoreReport × Transaction floats services
  execute_scoring t =
      execute floats services TransactionPhase.scoring Handler.fail_once_and_wrap
        (advance floats services TransactionPhase.scoring) (scoring_body t.run_id t.is_official) t
