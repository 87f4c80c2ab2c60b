-- ===== src/Artifacts/Kept.antt =====
-- What every sequence of calls of the store keeps.
use mesa_e2e_certification.Prelude.{
  All, Bool, Bool-cases, List, String, [], arith, false, has_key, if◌then◌else◌, inl, inr, length,
  lookup, ltb, not, refl, some, subst, ℕ, ◌<>◌, ◌==◌, ◌||◌, ◌∷◌, ◌≡◌, ◌⊎◌,
}
use mesa_e2e_certification.Json.{Json, elements, members, as_string, as_array, get}
use mesa_e2e_certification.Artifacts.{
  StoreError, Stored, ok, err, ◌>>=◌, require, Disk, Codec, sidecar, write_immutable_json,
  verify_seal, is_text, equals_number, query_path, persist, digest_of, or_fail, persist_sealed,
}
use mesa_e2e_certification.Artifacts.Manifest.{require_passing_oracle_audit}
use mesa_e2e_certification.Artifacts.Persisting.{
  StoreCall, layout, context, retrieval, answer, attempt, exchange, raw_file, session_bootstrap,
  oracle_audit, scored, written_path, perform, run_calls, initialize, check_marker, marker_path,
  context_request, retrieval_request, answer_request, attempt_request, exchange_request,
  session_request, scored_request, audit_request, lane_of, same_run, with_manifest,
}
use mesa_e2e_certification.Artifacts.Sealed.{write-keeps, Stored-cases}

-- A request that succeeds is for this path.
record Targets (r : Stored (String × Json)) (p : String) : Type 0 where
  pub at : (path : String) (payload : Json) → r ≡ ok (path, payload) → path ≡ p

Targets-ok : (p : String) (payload : Json) → Targets (ok (p, payload)) p
Targets-ok p payload = record { at = λ path other e. ground arith }

Targets-bind :
    {A : Type 0} (m : Stored A) (f : A → Stored (String × Json)) (p : String)
    → ((a : A) → Targets (f a) p)
    → Targets (m >>= f) p
Targets-bind (ok a) f p h = h a
Targets-bind (err e) f p h = record { at = λ path payload e. absurd (ground arith) }

module _ (codec : Codec) where
  Targets-query :
      (directory query_id p : String) (payload : Json)
      → directory <> "/" <> query_id <> ".json" ≡ p
      → Targets (query_path codec directory query_id >>= λ path. ok (path, payload)) p
  unfolding query_path
  Targets-query directory query_id p payload e = elim (Bool-cases (codec.is_query_id query_id)) [
    | inl safe ↦ rw (safe, e) (Targets-ok p payload)
    | inr unsafe ↦ rw unsafe (record { at = λ path payload e. absurd (ground arith) })
  ]

  -- What a method leaves on the disk: nothing new, or a write to the path.
  abbrev pub Writes : String → Disk → Disk → Type 0
  Writes p disk after =
      (after ≡ disk) ⊎ ((payload : Json) × (write_immutable_json codec p payload disk ≡ ok after))

  persist-Writes :
      (r : Stored (String × Json)) (p : String) (disk : Disk)
      → Targets r p
      → Writes p disk (persist codec r disk).1
  unfolding persist
  persist-Writes (err e) p disk t = inl refl
  persist-Writes (ok (path, payload)) p disk t =
      elim (Stored-cases (write_immutable_json codec path payload disk)) [
        | inl (e, refused) ↦ inl (rw (refused, persist) refl)
        | inr (after, written) ↦ inr (
          payload,
          rw (written, persist)
              (subst (λ q. write_immutable_json codec q payload disk ≡ ok after)
                (t.at path payload refl) written),
        )
      ]

  persist_sealed-Writes :
      (r : Stored (String × Json)) (p : String) (disk : Disk)
      → Targets r p
      → Writes p disk (persist_sealed codec r disk).1
  unfolding persist_sealed
  persist_sealed-Writes (err e) p disk t = inl refl
  persist_sealed-Writes (ok (path, payload)) p disk t =
      elim (Stored-cases (write_immutable_json codec path payload disk)) [
        | inl (e, refused) ↦ inl (rw (refused, persist_sealed) refl)
        | inr (after, written) ↦ inr (
          payload,
          rw (written, persist_sealed)
              (subst (λ q. write_immutable_json codec q payload disk ≡ ok after)
                (t.at path payload refl) written),
        )
      ]

module _ (codec : Codec) (run_id : String) (max_response_bytes : ℕ) where
  initialize-Writes :
      (used : Bool) (disk : Disk)
      → Writes codec
          (marker_path codec run_id max_response_bytes)
          disk
          (initialize codec run_id max_response_bytes used disk).1
  unfolding initialize
  initialize-Writes used disk =
      elim (Stored-cases
        (if used then check_marker codec run_id max_response_bytes disk else ok tt)) [
          | inl (e, refused) ↦ inl (rw (refused, initialize) refl)
          | inr (u, owned) ↦
              elim (Bool-cases (has_key (marker_path codec run_id max_response_bytes) disk)) [
                | inl marked ↦ inl (rw (owned, marked, initialize) refl)
                | inr unmarked ↦
                    rw (owned, unmarked, initialize)
                      (persist-Writes codec _ _ disk (Targets-ok _ _))
              ]
        ]

  perform-Writes :
      (c : StoreCall codec run_id max_response_bytes) (disk : Disk)
      → Writes codec
          (written_path codec run_id max_response_bytes c)
          disk
          (perform codec run_id max_response_bytes c disk).1
  unfolding perform scored_request audit_request
  perform-Writes (layout used) disk = initialize-Writes used disk
  perform-Writes (context e) disk =
      persist-Writes codec (context_request codec run_id max_response_bytes e) _ disk (
        Targets-bind (digest_of codec e.request) _ _
          λ a. Targets-bind (digest_of codec e.response) _ _ λ b. Targets-query codec _ _ _ _ refl)
  perform-Writes (retrieval e records) disk =
      persist-Writes codec (retrieval_request codec run_id max_response_bytes e records) _ disk (
        Targets-bind (or_fail (codec.canonical e.response) StoreError.not_canonical_json) _ _ λ a.
          Targets-bind
            (require (not (ltb max_response_bytes (codec.size a))) StoreError.response_too_large) _
            _
            λ b. Targets-bind (digest_of codec e.request) _ _ λ c.
              Targets-bind (or_fail records StoreError.invalid_record) _ _
                λ d. Targets-query codec _ _ _ _ refl)
  perform-Writes (answer c execution_id) disk =
      persist-Writes codec (answer_request codec run_id max_response_bytes c execution_id) _ disk (
        Targets-bind
          (require (same_run codec run_id max_response_bytes c.certified_run_id)
            StoreError.capture_run_id)
          _ _ λ a. Targets-query codec _ _ _ _ refl)
  perform-Writes (attempt query_id n aware payload) disk =
      persist_sealed-Writes codec
        (attempt_request codec run_id max_response_bytes query_id n aware payload) _ disk
        (Targets-bind (require (codec.is_query_id query_id) StoreError.unsafe_query_id) _ _ λ a.
          Targets-bind (require (not (ltb n 1)) StoreError.attempt_not_positive) _ _
            λ b. Targets-bind (require aware StoreError.timestamp_naive) _ _ λ c. Targets-ok _ _)
  perform-Writes (exchange e provider extra) disk =
      persist_sealed-Writes codec
        (exchange_request codec run_id max_response_bytes e provider extra) _ disk
        (Targets-bind (or_fail (codec.canonical e.response) StoreError.not_canonical_json) _ _ λ a.
          Targets-bind
            (require (not (ltb max_response_bytes (codec.size a))) StoreError.response_too_large) _
            _
            λ b. Targets-bind (require e.is_aware StoreError.timestamp_naive) _ _ λ c.
              Targets-bind (digest_of codec e.request) _ _ λ d. Targets-query codec _ _ _ _ refl)
  perform-Writes (raw_file directory file payload) disk =
      persist_sealed-Writes codec _ _ disk (Targets-ok _ _)
  perform-Writes (session_bootstrap purpose e response profile mesa_sha api_version) disk =
      persist-Writes codec
        (session_request codec run_id max_response_bytes purpose e response profile mesa_sha
          api_version)
        _ disk
        (Targets-bind (require (not (purpose == "")) StoreError.purpose_empty) _ _ λ a.
          Targets-bind
            (or_fail (as_string (get "session_id" response)) StoreError.session_id_missing) _ _
            λ b. Targets-bind (require (not (b == "")) StoreError.session_id_missing) _ _ λ c.
              Targets-bind (digest_of codec e.request) _ _
                λ d. Targets-bind (digest_of codec (Json.object response)) _ _ λ e. Targets-ok _ _)
  perform-Writes (oracle_audit authority report) disk =
      persist-Writes codec (audit_request codec run_id max_response_bytes authority report disk) _
        disk
        (Targets-bind
          (require (is_text (get "status" report) "PASS" || is_text (get "status" report) "FAIL")
            StoreError.invalid_report)
          _ _
          λ a.
            Targets-bind (or_fail (as_array (get "findings" report)) StoreError.invalid_report) _ _
              λ b.
                Targets-bind
                  (require (equals_number codec (get "finding_count" report) (length (elements b)))
                    StoreError.finding_count_mismatch)
                  _ _
                  λ c.
                    Targets-bind
                      (with_manifest codec run_id max_response_bytes authority (members report)
                        disk)
                      _ _ λ d. Targets-ok _ _)
  perform-Writes (scored session lane query_id score) disk =
      persist-Writes codec
        (scored_request codec run_id max_response_bytes session lane query_id score disk) _ disk
        (Targets-bind (require_passing_oracle_audit codec run_id session disk) _ _ λ a.
          Targets-bind
            (query_path codec ("raw/" <> lane_of codec run_id max_response_bytes lane) query_id) _ _
            λ b. Targets-bind (verify_seal codec b disk) _ _ λ c. Targets-query codec _ _ _ _ refl)

  -- Whatever calls of its methods the store is given, raising or not, a file that is there keeps its
  -- content, where none of the calls is for a path whose sidecar is this file.
  pub content_kept :
      (cs : List (StoreCall codec run_id max_response_bytes)) (disk : Disk) (file content : String)
      → lookup file disk ≡ some content
      → All (λ c. (sidecar (written_path codec run_id max_response_bytes c) == file) ≡ false) cs
      → lookup file (run_calls codec run_id max_response_bytes cs disk) ≡ some content
  unfolding run_calls
  content_kept [] disk file content there apart = there
  content_kept (c ∷ cs) disk file content there apart =
      content_kept cs (perform codec run_id max_response_bytes c disk).1 file content
        (elim (perform-Writes c disk) [
          | inl same ↦ rw same there
          | inr (payload, written) ↦
              write-keeps codec (written_path codec run_id max_response_bytes c) payload disk _ file
                content written there apart.0
        ])
        apart.1
