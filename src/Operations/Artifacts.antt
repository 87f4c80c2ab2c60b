-- ===== src/Operations/Artifacts.antt =====
-- When the resource telemetry and the health artifacts of a run pass.
use mesa_e2e_certification.Prelude.{
  ℕ, String, ◌*◌, ◌≤◌, ◌==◌, ◌≡◌, ◌≢◌, ◌↔◌, inl, inr, refl, true, false, not, ◌||◌, Option, some,
  subst, Bool-cases, List, [], ◌∷◌, ltb, is_empty, is_empty→nil, any, any-false→All, All→any-false,
  All, All-map, arith, eq_iff, Option-cases,
}
use mesa_e2e_certification.Operations.{
  OperationalStatus, HealthPhase, HealthSnapshot, ResourceSample, ResourcePressureEvent,
  Measurements, same_phase, exceeds_budget, capture_health_snapshot, resource_reasons,
  evaluate_resource_status, check_snapshot, load_lines, parse_lines, verify_health_artifacts,
}
use mesa_e2e_certification.Operations.Health.{IsHealthy, assess_iff}

-- Nothing was killed or restarted, and the provider got at most twice the expected requests.
pub record IsSteady (s : ResourceSample) : Type 0 where
  pub not_killed : s.oom_killed_count ≡ 0
  pub not_restarted : s.container_restart_count ≡ 0
  pub in_budget :
      (expected : ℕ)
      → s.provider_expected_requests ≡ some expected
      → s.provider_requests ≤ 2 * expected

budget→ :
    (s : ResourceSample)
    → exceeds_budget s ≡ false
    → (expected : ℕ) → s.provider_expected_requests ≡ some expected
    → s.provider_requests ≤ 2 * expected
unfolding exceeds_budget
budget→ s h expected e = ground arith

→budget :
    (s : ResourceSample)
    → ((expected : ℕ)
        → s.provider_expected_requests ≡ some expected
        → s.provider_requests ≤ 2 * expected)
    → exceeds_budget s ≡ false
unfolding exceeds_budget
→budget s h = elim (Option-cases s.provider_expected_requests) [
  | inl none_there ↦ rw none_there (refl)
  | inr (expected, e) ↦ ground (arith, h expected e)
]

module _ (measurements : Measurements) where
  open measurements use {
    Instant, Metric, is_aware, casefold, read_text, splitlines, is_blank, parse_snapshot,
    parse_sample, parse_event,
  }

  resource_reasons-eq-nil :
      (samples : List ResourceSample) (events : List ResourcePressureEvent)
      → is_empty (resource_reasons measurements samples events)
        ≡ not (
            any (λ s. ltb 0 s.oom_killed_count) samples
            || any (λ s. ltb 0 s.container_restart_count) samples
            || any (λ e. casefold e.severity == "critical") events
            || any exceeds_budget samples)
  unfolding resource_reasons
  resource_reasons-eq-nil samples events = ground arith

  All-IsSteady :
      (samples : List ResourceSample)
      → any (λ s. ltb 0 s.oom_killed_count) samples ≡ false
      → any (λ s. ltb 0 s.container_restart_count) samples ≡ false
      → any exceeds_budget samples ≡ false
      → All IsSteady samples
  All-IsSteady [] k r b = tt
  All-IsSteady (s ∷ samples) k r b = (
    record {
      not_killed = ground arith;
      not_restarted = ground arith;
      in_budget = budget→ s (ground arith);
    },
    All-IsSteady samples (ground arith) (ground arith) (ground arith),
  )

  steady-any :
      (samples : List ResourceSample)
      → All IsSteady samples
      → (any (λ s. ltb 0 s.oom_killed_count) samples ≡ false)
        × (any (λ s. ltb 0 s.container_restart_count) samples ≡ false)
        × (any exceeds_budget samples ≡ false)
  steady-any [] h = (refl, refl, refl)
  steady-any (s ∷ samples) (h, t) =
      let (k, r, b) = steady-any samples t in
      (
        ground (arith, h.not_killed),
        ground (arith, h.not_restarted),
        ground (arith, →budget s h.in_budget),
      )

  -- The telemetry passes exactly when there are samples, each of them is steady, and no event is
  -- critical; it is unverified exactly when there are no samples.
  pub resource_iff :
      (samples : List ResourceSample) (events : List ResourcePressureEvent)
      → (((evaluate_resource_status measurements samples events).status ≡ OperationalStatus.pass)
          ↔ ((samples ≢ [])
              × All IsSteady samples
              × All (λ e. (casefold e.severity == "critical") ≡ false) events))
        × (((evaluate_resource_status measurements samples events).status
              ≡ OperationalStatus.unverified)
            ↔ (samples ≡ []))
  unfolding evaluate_resource_status
  resource_iff samples events = (
    (
      λ h. (
        λ e. ground arith,
        All-IsSteady samples (ground (arith, resource_reasons-eq-nil samples events))
            (ground (arith, resource_reasons-eq-nil samples events))
            (ground (arith, resource_reasons-eq-nil samples events)),
        any-false→All (λ e. casefold e.severity == "critical") events
            (ground (arith, resource_reasons-eq-nil samples events)),
      ),
      λ (there, steady, calm).
          let (k, r, b) = steady-any samples steady in
          ground (
            arith,
            resource_reasons-eq-nil samples events,
            is_empty→nil samples,
            All→any-false (λ e. casefold e.severity == "critical") events calm,
          ),
    ),
    (λ h. is_empty→nil samples (ground arith), λ e. rw e),
  )

  -- The snapshot file of a phase names this run and phase, has host metrics, and its observations
  -- pass when they are assessed again.
  pub record IsMeasured (run_id name : String) (phase : HealthPhase) : Type 0 where
    pub text : String
    pub snapshot : HealthSnapshot Instant Metric
    pub read : read_text name ≡ some text
    pub parsed : parse_snapshot text ≡ some snapshot
    pub same_run : snapshot.run_id ≡ run_id
    pub named : run_id ≢ ""
    pub phase_is : snapshot.phase ≡ phase
    pub aware : is_aware snapshot.timestamp_utc ≡ true
    pub metrics : snapshot.host_metrics ≢ []
    pub reachable : snapshot.provider_reachable ≡ some true
    pub observed : snapshot.services ≢ []
    pub healthy : All IsHealthy snapshot.services

  phase_eq : (p q : HealthPhase) → same_phase p q ≡ true → p ≡ q
  phase_eq HealthPhase.pre_test HealthPhase.pre_test h = refl
  phase_eq HealthPhase.post_test HealthPhase.post_test h = refl
  phase_eq HealthPhase.pre_test HealthPhase.post_test h = ground arith
  phase_eq HealthPhase.post_test HealthPhase.pre_test h = ground arith

  check→IsMeasured :
      (run_id name : String) (phase : HealthPhase)
      → check_snapshot measurements run_id name phase ≡ true
      → IsMeasured run_id name phase
  unfolding check_snapshot capture_health_snapshot
  check→IsMeasured run_id name phase h = elim (Option-cases (read_text name)) [
    | inl unread ↦ absurd (ground arith)
    | inr (text, read) ↦ elim (Option-cases (parse_snapshot text)) [
      | inl malformed ↦ absurd (ground arith)
      | inr (s, parsed) ↦
          let (there, r, healthy) =
            (assess_iff s.services s.provider_reachable).0.0 (ground arith) in
          record {
            text = text;
            snapshot = s;
            read = read;
            parsed = parsed;
            same_run = ground (arith, eq_iff s.run_id run_id);
            named = λ e. ground (arith, eq_iff run_id "");
            phase_is = phase_eq s.phase phase (ground arith);
            aware = ground arith;
            metrics = λ e. ground arith;
            reachable = r;
            observed = there;
            healthy = healthy;
          }
    ]
  ]

  -- The records of the lines: one of each line that is not blank, in order.
  pub data Records {A : Type 0} (parse : String → Option A) : List String → List A → Type 0 where
    no_lines : Records parse [] []
    blank_line :
        {line : String} {lines : List String} {as_ : List A}
        → is_blank line ≡ true
        → Records parse lines as_
        → Records parse (line ∷ lines) as_
    record_line :
        {line : String} {lines : List String} {a : A} {as_ : List A}
        → is_blank line ≡ false
        → parse line ≡ some a
        → Records parse lines as_
        → Records parse (line ∷ lines) (a ∷ as_)

  parse_lines→Records :
      {A : Type 0} (parse : String → Option A) (lines : List String) (as_ : List A)
      → parse_lines measurements parse lines ≡ some as_
      → Records parse lines as_
  unfolding parse_lines
  parse_lines→Records parse [] [] h = no_lines
  parse_lines→Records parse [] (a ∷ as_) h = absurd (ground arith)
  parse_lines→Records parse (line ∷ lines) as_ h = elim (Bool-cases (is_blank line)) [
    | inl blank ↦
        blank_line blank (parse_lines→Records parse lines as_ (rw (blank, parse_lines) at h))
    | inr full ↦ elim (Option-cases (parse line)) [
      | inl malformed ↦ absurd (ground arith)
      | inr (a, parsed) ↦ elim (Option-cases (parse_lines measurements parse lines)) [
        | inl broken ↦ absurd (ground arith)
        | inr (rest, read) ↦
            subst (Records parse (line ∷ lines)) (ground arith)
              (record_line full parsed (parse_lines→Records parse lines rest read))
      ]
    ]
  ]

  -- The file is there, and these are the records of its lines.
  pub record IsLoaded {A : Type 0} (parse : String → Option A) (name : String) (as_ : List A)
      : Type 0 where
    pub text : String
    pub read : read_text name ≡ some text
    pub records : Records parse (splitlines text) as_

  load_lines→IsLoaded :
      {A : Type 0} (parse : String → Option A) (name : String) (as_ : List A)
      → load_lines measurements parse name ≡ some as_
      → IsLoaded parse name as_
  unfolding load_lines
  load_lines→IsLoaded parse name as_ h = elim (Option-cases (read_text name)) [
    | inl unread ↦ absurd (ground arith)
    | inr (text, read) ↦ record {
      text = text;
      read = read;
      records = parse_lines→Records parse (splitlines text) as_ (ground arith);
    }
  ]

  -- Health artifacts that verify as PASS are there for both phases, healthy and of this run, and
  -- the two resource files are there and each of their lines that is not blank parses, into samples
  -- and events of this run. There is a sample, every sample is steady, and no event is critical.
  pub verified_health :
      (run_id : String)
      → (verify_health_artifacts measurements run_id).status ≡ OperationalStatus.pass
      → IsMeasured run_id "health-pre-test.json" HealthPhase.pre_test
        × IsMeasured run_id "health-post-test.json" HealthPhase.post_test
        × (samples : List ResourceSample) × (events : List ResourcePressureEvent) × IsLoaded
            parse_sample "resource-telemetry.jsonl" samples
        × IsLoaded parse_event "resource-pressure-events.jsonl" events
        × All (λ s. (s.run_id == run_id) ≡ true) samples
        × All (λ e. (e.run_id == run_id) ≡ true) events
        × (samples ≢ [])
        × All IsSteady samples
        × All (λ e. (casefold e.severity == "critical") ≡ false) events
  unfolding verify_health_artifacts
  verified_health run_id h =
      elim (Option-cases (load_lines measurements parse_sample "resource-telemetry.jsonl")) [
        | inl unread ↦ absurd (ground arith)
        | inr (samples, loaded) ↦
            elim (Option-cases
              (load_lines measurements parse_event "resource-pressure-events.jsonl")) [
                | inl unread ↦ absurd (ground arith)
                | inr (events, loaded') ↦
                    let (some_there, steady, calm) =
                      (resource_iff samples events).0.0 (ground arith) in
                    (
                      check→IsMeasured run_id "health-pre-test.json" HealthPhase.pre_test
                          (ground arith),
                      check→IsMeasured run_id "health-post-test.json" HealthPhase.post_test
                          (ground arith),
                      samples,
                      events,
                      load_lines→IsLoaded parse_sample "resource-telemetry.jsonl" samples loaded,
                      load_lines→IsLoaded parse_event "resource-pressure-events.jsonl" events
                          loaded',
                      All-map {P = λ s. not (s.run_id == run_id) ≡ false} (λ s e. ground arith)
                          samples
                          (any-false→All (λ s. not (s.run_id == run_id)) samples (ground arith)),
                      All-map {P = λ e. not (e.run_id == run_id) ≡ false} (λ e p. ground arith)
                          events
                          (any-false→All (λ e. not (e.run_id == run_id)) events (ground arith)),
                      some_there,
                      steady,
                      calm,
                    )
              ]
      ]
