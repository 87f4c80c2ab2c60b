-- ===== src/Operations.antt =====
-- harness/operations.py: the health snapshots and the resource status.
pub mod Health
pub mod Artifacts
use mesa_e2e_certification.Prelude.{
  when, ℕ, String, ◌*◌, ◌==◌, Bool, true, false, not, ◌&&◌, ◌||◌, Option, none, some, List, [], ◌∷◌,
  ◌++◌, map, if◌then◌else◌, ltb, is_empty, any, filter, sorted, Dict,
}

pub data OperationalStatus : Type 0 where
  pass fail unverified : OperationalStatus

pub data HealthPhase : Type 0 where
  pre_test post_test : HealthPhase

abbrev pub is_fail : OperationalStatus → Bool
is_fail OperationalStatus.fail = true
is_fail _ = false

abbrev pub is_pass : OperationalStatus → Bool
is_pass OperationalStatus.pass = true
is_pass _ = false

abbrev pub is_unverified : OperationalStatus → Bool
is_unverified OperationalStatus.unverified = true
is_unverified _ = false

abbrev pub same_phase : HealthPhase → HealthPhase → Bool
same_phase HealthPhase.pre_test HealthPhase.pre_test = true
same_phase HealthPhase.post_test HealthPhase.post_test = true
same_phase _ _ = false

-- The fields of a service that the evaluation reads.
pub record ServiceHealth : Type 0 where
  pub name : String
  pub status : OperationalStatus
  pub restarts : ℕ
  pub oom_killed : Bool

-- The reasons of a snapshot: the text's fixed part is the constructor, the names in it stay.
pub data HealthReason : Type 0 where
  no_services provider_unverified provider_unreachable all_passed : HealthReason
  failed_services unverified_services : List String → HealthReason

pub record HealthSnapshot (Instant Metric : Type 0) : Type 0 where
  pub run_id : String
  pub phase : HealthPhase
  pub timestamp_utc : Instant
  pub status : OperationalStatus
  pub provider_reachable : Option Bool
  pub services : List ServiceHealth
  pub host_metrics : Dict Metric
  pub reasons : List HealthReason

-- The fields of a sample and of an event that the evaluation reads.
pub record ResourceSample : Type 0 where
  pub run_id : String
  pub provider_requests : ℕ
  pub container_restart_count : ℕ
  pub oom_killed_count : ℕ
  pub provider_expected_requests : Option ℕ

pub record ResourcePressureEvent : Type 0 where
  pub run_id : String
  pub severity : String

-- `measurement_invalid` stands for the reason that quotes an exception.
pub data ResourceReason : Type 0 where
  telemetry_missing oom_killed container_restart critical_pressure : ResourceReason
  request_budget no_failure measurement_invalid : ResourceReason

-- The report without the run ID, which is the caller's.
pub record ResourceStatus : Type 0 where
  pub status : OperationalStatus
  pub reasons : List ResourceReason

-- What the checks use of `datetime`, `str`, the file system and the models' JSON validation.
pub record Measurements : Type 1 where
  pub Instant : Type 0
  pub Metric : Type 0
  -- `tzinfo is not None and utcoffset() is not None`
  pub is_aware : Instant → Bool
  pub casefold : String → String
  -- the file of this name in the run directory, with `none` for an OSError or a ValueError
  pub read_text : String → Option String
  pub splitlines : String → List String
  -- `not line.strip()`
  pub is_blank : String → Bool
  -- `model_validate_json`, with `none` for a ValidationError
  pub parse_snapshot : String → Option (HealthSnapshot Instant Metric)
  pub parse_sample : String → Option ResourceSample
  pub parse_event : String → Option ResourcePressureEvent

abbrev pub has_failed : ServiceHealth → Bool
has_failed s = is_fail s.status || ltb 0 s.restarts || s.oom_killed

abbrev pub is_unreachable : Option Bool → Bool
is_unreachable (some false) = true
is_unreachable _ = false

abbrev pub is_unknown : Option Bool → Bool
is_unknown none = true
is_unknown (some b) = false

abbrev pub failing : List ServiceHealth → List String
failing services = map (λ s. s.name) (filter has_failed services)

abbrev pub unverified_names : List ServiceHealth → List String
unverified_names services = map (λ s. s.name) (filter (λ s. is_unverified s.status) services)

-- the status and the reasons of `capture_health_snapshot`
unfoldable pub assess : List ServiceHealth → Option Bool → OperationalStatus × List HealthReason
assess services reachable =
    let reasons =
      when (is_empty services) HealthReason.no_services
      ++ when (is_unknown reachable) HealthReason.provider_unverified in
    if not (is_empty (failing services)) || is_unreachable reachable
    then (
      OperationalStatus.fail,
      reasons
          ++ when (not (is_empty (failing services)))
              (HealthReason.failed_services (sorted (failing services)))
          ++ when (is_unreachable reachable) HealthReason.provider_unreachable,
    )
    else if not (is_empty reasons) || not (is_empty (unverified_names services))
    then (
      OperationalStatus.unverified,
      reasons
          ++ when (not (is_empty (unverified_names services)))
              (HealthReason.unverified_services (sorted (unverified_names services))),
    )
    else (OperationalStatus.pass, reasons ++ HealthReason.all_passed ∷ [])

unfoldable pub exceeds_budget : ResourceSample → Bool
exceeds_budget s = elim s.provider_expected_requests [
  | none ↦ false
  | some expected ↦ ltb (2 * expected) s.provider_requests
]

module _ (measurements : Measurements) where
  open measurements use {
    Instant, Metric, is_aware, casefold, read_text, splitlines, is_blank, parse_snapshot,
    parse_sample, parse_event,
  }

  -- `none` is the ValidationError of a snapshot without a run ID or a time zone.
  unfoldable pub capture_health_snapshot :
      String
      → HealthPhase
      → Instant
      → List ServiceHealth
      → Option Bool
      → Dict Metric
      → Option (HealthSnapshot Instant Metric)
  capture_health_snapshot run_id phase timestamp services reachable host_metrics =
      if run_id == "" || not (is_aware timestamp)
      then none
      else some (record {
        run_id = run_id;
        phase = phase;
        timestamp_utc = timestamp;
        status = (assess services reachable).0;
        provider_reachable = reachable;
        services = services;
        host_metrics = host_metrics;
        reasons = (assess services reachable).1;
      })

  unfoldable pub resource_reasons :
      List ResourceSample → List ResourcePressureEvent → List ResourceReason
  resource_reasons samples events =
      when (any (λ s. ltb 0 s.oom_killed_count) samples) ResourceReason.oom_killed
      ++ when (any (λ s. ltb 0 s.container_restart_count) samples) ResourceReason.container_restart
      ++ when (any (λ e. casefold e.severity == "critical") events) ResourceReason.critical_pressure
      ++ when (any exceeds_budget samples) ResourceReason.request_budget

  unfoldable pub evaluate_resource_status :
      List ResourceSample → List ResourcePressureEvent → ResourceStatus
  unfolding resource_reasons
  evaluate_resource_status samples events =
      if is_empty samples
      then record {
        status = OperationalStatus.unverified;
        reasons = ResourceReason.telemetry_missing ∷ [];
      }
      else if is_empty (resource_reasons samples events)
      then record { status = OperationalStatus.pass; reasons = ResourceReason.no_failure ∷ [] }
      else record { status = OperationalStatus.fail; reasons = resource_reasons samples events }

  -- The checks on one snapshot file; `false` is a raised OSError or ValueError.
  unfoldable pub check_snapshot : String → String → HealthPhase → Bool
  unfolding capture_health_snapshot
  check_snapshot run_id name phase = elim (read_text name) [
    | none ↦ false
    | some text ↦ elim (parse_snapshot text) [
      | none ↦ false
      | some s ↦
          if not (s.run_id == run_id) || not (same_phase s.phase phase)
          then false
          else elim (capture_health_snapshot run_id phase s.timestamp_utc s.services
              s.provider_reachable s.host_metrics) [
                | none ↦ false
                | some again ↦ is_pass again.status && not (is_empty s.host_metrics)
              ]
    ]
  ]

  -- the records of the lines that are not blank
  unfoldable pub parse_lines : {A : Type 0} → (String → Option A) → List String → Option (List A)
  parse_lines parse [] = some []
  parse_lines parse (line ∷ lines) =
      let rest = parse_lines parse lines in
      elim (is_blank line) [
        | true ↦ rest
        | false ↦ elim (parse line) [
          | none ↦ none
          | some a ↦ elim rest [ none ↦ none | some as_ ↦ some (a ∷ as_) ]
        ]
      ]

  unfoldable pub load_lines : {A : Type 0} → (String → Option A) → String → Option (List A)
  unfolding parse_lines
  load_lines parse name = elim (read_text name) [
    | none ↦ none
    | some text ↦ parse_lines parse (splitlines text)
  ]

  abbrev invalid : ResourceStatus
  invalid = record {
    status = OperationalStatus.unverified;
    reasons = ResourceReason.measurement_invalid ∷ [];
  }

  unfoldable pub verify_health_artifacts : String → ResourceStatus
  unfolding check_snapshot load_lines evaluate_resource_status
  verify_health_artifacts run_id =
      if not (check_snapshot run_id "health-pre-test.json" HealthPhase.pre_test)
        || not (check_snapshot run_id "health-post-test.json" HealthPhase.post_test)
      then invalid
      else elim (load_lines parse_sample "resource-telemetry.jsonl") [
        | none ↦ invalid
        | some samples ↦ elim (load_lines parse_event "resource-pressure-events.jsonl") [
          | none ↦ invalid
          | some events ↦
              if any (λ s. not (s.run_id == run_id)) samples
                || any (λ e. not (e.run_id == run_id)) events
              then invalid
              else evaluate_resource_status samples events
        ]
      ]
