-- ===== src/Artifacts/Persisting.antt =====
-- harness/artifacts.py: what the store persists, and the guards of its scored lane.
use mesa_e2e_certification.Prelude.{
  true, some, none, ℕ, String, ◌==◌, ◌<>◌, Bool, not, ◌||◌, Option, List, [], ◌∷◌, map,
  if◌then◌else◌, ltb, length, Dict, lookup, insert, insert_all, has_key,
}
use mesa_e2e_certification.Json.{
  Json, Fields, elements, members, to_items, to_fields, as_string, as_array, as_object, get,
}
use mesa_e2e_certification.Oracle.{RawEntry, RawManifest}
use mesa_e2e_certification.Artifacts.{
  StoreError, Stored, ok, err, ◌>>=◌, ◌>>◌, require, or_fail, Disk, Codec, audit_path, is_text,
  equals_number, is_truthy, verify_seal, query_path, digest_of, execution, persist, persist_sealed,
}
use mesa_e2e_certification.Artifacts.Manifest.{
  compute_raw_manifest, require_passing_oracle_audit, entry_json,
}

module _ (codec : Codec) (run_id : String) (max_response_bytes : ℕ) where
  open codec use {
    dumps, canonical, loads, sha256, size, name, parent, ends_with, words, is_query_id, decimal,
  }

  -- A request, its response and when and how they were exchanged.
  pub record Exchange : Type 0 where
    pub query_id : String
    pub request : Json
    pub response : Json
    pub transport_status : Json
    -- `timestamp_utc.isoformat()`, and whether the timestamp is timezone-aware
    pub timestamp_utc : String
    pub is_aware : Bool
    pub latency_ms : Json
    pub execution_id : Option String

  abbrev pub context_request : Exchange → Stored (String × Json)
  context_request e = do
    request_sha256 ← digest_of codec e.request
    response_sha256 ← digest_of codec e.response
    path ← query_path codec "raw/context" e.query_id
    ok (
      path,
      Json.object (
          to_fields (
            ("schema_version", Json.string "1.0")
            ∷ ("run_id", Json.string run_id)
            ∷ ("lane", Json.string "context")
            ∷ ("query_id", Json.string e.query_id)
            ∷ ("request", e.request)
            ∷ ("request_sha256", Json.string request_sha256)
            ∷ ("response", e.response)
            ∷ ("response_sha256", Json.string response_sha256)
            ∷ ("transport_status", e.transport_status)
            ∷ ("timestamp_utc", Json.string e.timestamp_utc)
            ∷ ("latency_ms", e.latency_ms)
            ∷ execution e.execution_id)),
    )

  unfoldable pub persist_raw_context : Exchange → Disk → Stored String × Disk
  unfolding query_path persist
  persist_raw_context e = persist codec (context_request e)

  -- `records` are the dumps of the request record and of the response record, with `none` where one
  -- of them does not validate.
  abbrev pub retrieval_request : Exchange → Option (Json × Json) → Stored (String × Json)
  retrieval_request e records = do
    bytes ← or_fail (canonical e.response) StoreError.not_canonical_json
    require (not (ltb max_response_bytes (size bytes))) StoreError.response_too_large
    request_sha256 ← digest_of codec e.request
    dumped ← or_fail records StoreError.invalid_record
    path ← query_path codec "raw/retrieval" e.query_id
    ok (
      path,
      Json.object (
          to_fields (
            ("schema_version", Json.string "1.0")
            ∷ ("run_id", Json.string run_id)
            ∷ ("lane", Json.string "retrieval")
            ∷ ("query_id", Json.string e.query_id)
            ∷ ("request", dumped.0)
            ∷ ("response", dumped.1)
            ∷ execution e.execution_id)),
    )

  unfoldable pub persist_raw_retrieval :
      Exchange → Option (Json × Json) → Disk → Stored String × Disk
  unfolding query_path persist
  persist_raw_retrieval e records = persist codec (retrieval_request e records)

  -- A validated capture: its dump, and the run of a certified one.
  pub record Capture : Type 0 where
    pub query_id : String
    pub dump : Dict Json
    pub certified_run_id : Option String

  abbrev pub same_run : Option String → Bool
  same_run none = true
  same_run (some other) = other == run_id

  abbrev pub answer_request : Capture → Option String → Stored (String × Json)
  answer_request c execution_id = do
    require (same_run c.certified_run_id) StoreError.capture_run_id
    path ← query_path codec "raw/answers" c.query_id
    ok (
      path,
      Json.object (
          to_fields (
            insert_all
              (insert_all (("run_id", Json.string run_id) ∷ ("lane", Json.string "answers") ∷ [])
                c.dump)
              (execution execution_id))),
    )

  unfoldable pub persist_raw_answer : Capture → Option String → Disk → Stored String × Disk
  unfolding query_path persist
  persist_raw_answer c execution_id = persist codec (answer_request c execution_id)

  abbrev pub attempt_request : String → ℕ → Bool → Json → Stored (String × Json)
  attempt_request query_id attempt_number is_aware payload = do
    require (is_query_id query_id) StoreError.unsafe_query_id
    require (not (ltb attempt_number 1)) StoreError.attempt_not_positive
    require is_aware StoreError.timestamp_naive
    ok ("raw/provider/" <> query_id <> ".attempt_" <> decimal attempt_number <> ".json", payload)

  unfoldable pub persist_raw_provider_attempt :
      String → ℕ → Bool → Json → Disk → Stored String × Disk
  unfolding persist_sealed
  persist_raw_provider_attempt query_id attempt_number is_aware payload =
      persist_sealed codec (attempt_request query_id attempt_number is_aware payload)

  -- The optional fields of the payload are `extra`, in the order of the source.
  abbrev pub exchange_request : Exchange → String → Dict Json → Stored (String × Json)
  exchange_request e provider extra = do
    bytes ← or_fail (canonical e.response) StoreError.not_canonical_json
    require (not (ltb max_response_bytes (size bytes))) StoreError.response_too_large
    require e.is_aware StoreError.timestamp_naive
    request_sha256 ← digest_of codec e.request
    path ← query_path codec "raw/provider" e.query_id
    ok (
      path,
      Json.object (
          to_fields (
            ("schema_version", Json.string "1.0")
            ∷ ("run_id", Json.string run_id)
            ∷ ("lane", Json.string "provider_exchange")
            ∷ ("query_id", Json.string e.query_id)
            ∷ ("timestamp_utc", Json.string e.timestamp_utc)
            ∷ ("provider", Json.string provider)
            ∷ ("request", e.request)
            ∷ ("request_sha256", Json.string request_sha256)
            ∷ ("response", e.response)
            ∷ ("response_sha256", Json.string (sha256 bytes))
            ∷ extra)),
    )

  unfoldable pub persist_raw_provider_exchange :
      Exchange → String → Dict Json → Disk → Stored String × Disk
  unfolding query_path persist_sealed
  persist_raw_provider_exchange e provider extra =
      persist_sealed codec (exchange_request e provider extra)

  -- `persist_raw_scope`, `persist_raw_graph` and `persist_raw_state_proof`, by their directories
  unfoldable pub persist_raw_file : (directory file : String) → Json → Disk → Stored String × Disk
  unfolding persist_sealed
  persist_raw_file directory file payload =
      persist_sealed codec (ok (directory <> "/" <> file, payload))

  -- `purpose` is a text, without a slash at its start, and `response` an object.
  abbrev pub session_request :
      String → Exchange → Fields → (profile mesa_sha api_version : String) → Stored (String × Json)
  session_request purpose e response profile mesa_sha api_version = do
    require (not (purpose == "")) StoreError.purpose_empty
    session_id ← or_fail (as_string (get "session_id" response)) StoreError.session_id_missing
    require (not (session_id == "")) StoreError.session_id_missing
    request_sha256 ← digest_of codec e.request
    response_sha256 ← digest_of codec (Json.object response)
    ok (
      "raw/sessions" <> "/" <> purpose <> ".json",
      Json.object (
          to_fields (
            ("schema_version", Json.string "1.0")
            ∷ ("run_id", Json.string run_id)
            ∷ ("lane", Json.string "sessions")
            ∷ ("purpose", Json.string purpose)
            ∷ ("native_session_id", Json.string session_id)
            ∷ ("request", e.request)
            ∷ ("request_sha256", Json.string request_sha256)
            ∷ ("response", Json.object response)
            ∷ ("response_sha256", Json.string response_sha256)
            ∷ ("transport_status", e.transport_status)
            ∷ ("timestamp_utc", Json.string e.timestamp_utc)
            ∷ ("latency_ms", e.latency_ms)
            ∷ ("mesa_runtime_profile", Json.string profile)
            ∷ ("mesa_sha", Json.string mesa_sha)
            ∷ ("api_version", Json.string api_version)
            ∷ execution e.execution_id)),
    )

  unfoldable pub persist_raw_session_bootstrap :
      String
      → Exchange
      → Fields
      → (profile mesa_sha api_version : String) → Disk
      → Stored String × Disk
  unfolding persist
  persist_raw_session_bootstrap purpose e response profile mesa_sha api_version =
      persist codec (session_request purpose e response profile mesa_sha api_version)

  abbrev raw_artifacts_json : RawManifest → Json
  raw_artifacts_json m =
      Json.array (to_items (map (λ (e : RawEntry). entry_json (e.path, e.sha256)) m.entries))

  -- the report with the manifest that it lacks
  unfoldable pub with_manifest :
      Option (List RawEntry → Option RawManifest) → Dict Json → Disk → Stored (Dict Json)
  unfolding compute_raw_manifest
  with_manifest session report disk =
      if is_truthy codec (lookup "raw_manifest_hash" report)
      then ok report
      else compute_raw_manifest codec run_id session disk >>= λ m. ok (
          insert "raw_artifacts" (raw_artifacts_json m)
            (insert "raw_manifest_hash" (Json.string m.manifest_hash) report))

  abbrev with_run_id : Dict Json → Dict Json
  with_run_id report =
      if is_truthy codec (lookup "run_id" report)
      then report
      else insert "run_id" (Json.string run_id) report

  unfoldable pub audit_request :
      Option (List RawEntry → Option RawManifest) → Fields → Disk → Stored (String × Json)
  unfolding with_manifest
  audit_request session report disk = do
    require (is_text (get "status" report) "PASS" || is_text (get "status" report) "FAIL")
        StoreError.invalid_report
    findings ← or_fail (as_array (get "findings" report)) StoreError.invalid_report
    require (equals_number codec (get "finding_count" report) (length (elements findings)))
        StoreError.finding_count_mismatch
    complete ← with_manifest session (members report) disk
    ok (audit_path, Json.object (to_fields (with_run_id complete)))

  unfoldable pub persist_oracle_audit :
      Option (List RawEntry → Option RawManifest) → Fields → Disk → Stored String × Disk
  unfolding audit_request persist
  persist_oracle_audit session report disk = persist codec (audit_request session report disk) disk

  -- the directories of a lane: every lane but `retrieval` goes to the answers
  abbrev pub lane_of : String → String
  lane_of lane = if lane == "retrieval" then "retrieval" else "answers"

  unfoldable pub scored_request :
      Option (List RawEntry → Option RawManifest)
      → (lane query_id : String) → Json
      → Disk
      → Stored (String × Json)
  unfolding require_passing_oracle_audit query_path verify_seal
  scored_request session lane query_id score disk = do
    require_passing_oracle_audit codec run_id session disk
    raw_path ← query_path codec ("raw/" <> lane_of lane) query_id
    raw_sha256 ← verify_seal codec raw_path disk
    path ← query_path codec ("scored/" <> lane_of lane) query_id
    ok (
      path,
      Json.object (
          to_fields (
            ("schema_version", Json.string "1.0")
            ∷ ("run_id", Json.string run_id)
            ∷ ("lane", Json.string lane)
            ∷ ("query_id", Json.string query_id)
            ∷ ("raw_artifact_path", Json.string raw_path)
            ∷ ("raw_artifact_sha256", Json.string raw_sha256)
            ∷ ("oracle_audit_status", Json.string "PASS")
            ∷ ("score", score)
            ∷ [])),
    )

  unfoldable pub persist_scored :
      Option (List RawEntry → Option RawManifest)
      → (lane query_id : String) → Json
      → Disk
      → Stored String × Disk
  unfolding scored_request persist
  persist_scored session lane query_id score disk =
      persist codec (scored_request session lane query_id score disk) disk

  abbrev pub marker_path : String
  marker_path = ".mesa-e2e-layout.json"

  -- the marker of a directory that is not empty
  unfoldable pub check_marker : Disk → Stored (Unit {0})
  check_marker disk = do
    content ← or_fail (lookup marker_path disk) StoreError.unowned_directory
    payload ← or_fail (loads content) StoreError.content_unreadable
    marker ← or_fail (as_object (some payload)) StoreError.content_unreadable
    require (is_text (get "run_id" marker) run_id) StoreError.run_id_mismatch

  -- `is_used`: the run directory is there with something in it. Directories are not on the disk.
  unfoldable pub initialize : (is_used : Bool) → Disk → Stored String × Disk
  unfolding check_marker persist
  initialize is_used disk = elim (if is_used then check_marker disk else ok tt) [
    | err e ↦ (err e, disk)
    | ok u ↦
        if has_key marker_path disk
        then (ok marker_path, disk)
        else persist codec
            (ok (
              marker_path,
              Json.object (
                  to_fields
                    (("schema_version", Json.string "1.0") ∷ ("run_id", Json.string run_id) ∷ [])),
            ))
            disk
  ]

  -- The calls of the store that can write.
  pub data StoreCall : Type 0 where
    layout : (is_used : Bool) → StoreCall
    context : Exchange → StoreCall
    retrieval : Exchange → Option (Json × Json) → StoreCall
    answer : Capture → Option String → StoreCall
    attempt : String → ℕ → Bool → Json → StoreCall
    exchange : Exchange → String → Dict Json → StoreCall
    raw_file : (directory file : String) → Json → StoreCall
    session_bootstrap :
        String → Exchange → Fields → (profile mesa_sha api_version : String) → StoreCall
    oracle_audit : Option (List RawEntry → Option RawManifest) → Fields → StoreCall
    scored :
        Option (List RawEntry → Option RawManifest) → (lane query_id : String) → Json → StoreCall

  -- the path that the call writes
  abbrev pub written_path : StoreCall → String
  written_path (layout is_used) = marker_path
  written_path (context e) = "raw/context" <> "/" <> e.query_id <> ".json"
  written_path (retrieval e records) = "raw/retrieval" <> "/" <> e.query_id <> ".json"
  written_path (answer c execution_id) = "raw/answers" <> "/" <> c.query_id <> ".json"
  written_path (attempt query_id n aware payload) =
      "raw/provider/" <> query_id <> ".attempt_" <> decimal n <> ".json"
  written_path (exchange e provider extra) = "raw/provider" <> "/" <> e.query_id <> ".json"
  written_path (raw_file directory file payload) = directory <> "/" <> file
  written_path (session_bootstrap purpose e response profile mesa_sha api_version) =
      "raw/sessions" <> "/" <> purpose <> ".json"
  written_path (oracle_audit authority report) = audit_path
  written_path (scored session lane query_id score) =
      ("scored/" <> lane_of lane) <> "/" <> query_id <> ".json"

  unfoldable pub perform : StoreCall → Disk → Stored String × Disk
  unfolding initialize persist_raw_context persist_raw_retrieval persist_raw_answer
      persist_raw_provider_attempt persist_raw_provider_exchange persist_raw_file
      persist_raw_session_bootstrap persist_oracle_audit persist_scored
  perform (layout is_used) disk = initialize is_used disk
  perform (context e) disk = persist_raw_context e disk
  perform (retrieval e records) disk = persist_raw_retrieval e records disk
  perform (answer c execution_id) disk = persist_raw_answer c execution_id disk
  perform (attempt query_id n aware payload) disk =
      persist_raw_provider_attempt query_id n aware payload disk
  perform (exchange e provider extra) disk = persist_raw_provider_exchange e provider extra disk
  perform (raw_file directory file payload) disk = persist_raw_file directory file payload disk
  perform (session_bootstrap purpose e response profile mesa_sha api_version) disk =
      persist_raw_session_bootstrap purpose e response profile mesa_sha api_version disk
  perform (oracle_audit authority report) disk = persist_oracle_audit authority report disk
  perform (scored session lane query_id score) disk =
      persist_scored session lane query_id score disk

  -- A caller that makes these calls in turn and goes on after an exception.
  unfoldable pub run_calls : List StoreCall → Disk → Disk
  unfolding perform
  run_calls [] disk = disk
  run_calls (c ∷ cs) disk = run_calls cs (perform c disk).1
