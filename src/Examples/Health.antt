-- ===== src/Examples/Health.antt =====
-- A healthy service, a quiet run and their files.
use mesa_e2e_certification.Prelude.{
  ℕ, ◌==◌, ◌≡◌, ◌≢◌, refl, Bool, true, false, some, Option, List, [], ◌∷◌, All,
}
use mesa_e2e_certification.Operations.{
  exceeds_budget, OperationalStatus, HealthPhase, ServiceHealth, HealthSnapshot, ResourceSample,
  ResourcePressureEvent, Measurements, assess, evaluate_resource_status, verify_health_artifacts,
}
use mesa_e2e_certification.Operations.Health.{IsHealthy, assess_iff}
use mesa_e2e_certification.Operations.Artifacts.{
  IsSteady, IsMeasured, IsLoaded, resource_iff, verified_health,
}

abbrev service : ServiceHealth
service = record {
  name = "mesa";
  status = OperationalStatus.pass;
  restarts = 0;
  oom_killed = false;
}

abbrev snapshot : HealthPhase → HealthSnapshot Bool ℕ
snapshot phase = record {
  run_id = "run-1";
  phase = phase;
  timestamp_utc = true;
  status = OperationalStatus.unverified;
  provider_reachable = some true;
  services = service ∷ [];
  host_metrics = ("ram_mb", 8000) ∷ [];
  reasons = [];
}

abbrev sample : ResourceSample
sample = record {
  run_id = "run-1";
  provider_requests = 20;
  container_restart_count = 0;
  oom_killed_count = 0;
  provider_expected_requests = some 10;
}

abbrev event : ResourcePressureEvent
event = record { run_id = "run-1"; severity = "warning" }

-- A file's text is its name, and each file of lines has one.
abbrev pub measurements : Measurements
measurements = record {
  Instant = Bool;
  Metric = ℕ;
  is_aware = λ t. t;
  casefold = λ s. s;
  read_text = λ n. some n;
  splitlines = λ t. t ∷ "" ∷ [];
  is_blank = λ t. t == "";
  parse_snapshot = λ t. elim (t == "health-pre-test.json") [
    | true ↦ some (snapshot HealthPhase.pre_test)
    | false ↦ some (snapshot HealthPhase.post_test)
  ];
  parse_sample = λ t. some sample;
  parse_event = λ t. some event;
}

assess_iff_example :
    (◌≢◌ {A = List ServiceHealth} (service ∷ []) [])
    × (◌≡◌ {A = Option Bool} (some true) (some true))
    × All IsHealthy (service ∷ [])
unfolding assess
assess_iff_example = (assess_iff (service ∷ []) (some true)).0.0 refl

resource_iff_example :
    (◌≢◌ {A = List ResourceSample} (sample ∷ []) [])
    × All IsSteady (sample ∷ [])
    × All (λ e. (e.severity == "critical") ≡ false) (event ∷ [])
unfolding evaluate_resource_status exceeds_budget
resource_iff_example = (resource_iff measurements (sample ∷ []) (event ∷ [])).0.0 refl

verified_health_example :
    IsMeasured measurements "run-1" "health-pre-test.json" HealthPhase.pre_test
    × IsMeasured measurements "run-1" "health-post-test.json" HealthPhase.post_test
    × (samples : List ResourceSample) × (events : List ResourcePressureEvent) × IsLoaded
        measurements
        (λ t. some sample)
        "resource-telemetry.jsonl"
        samples
    × IsLoaded measurements (λ t. some event) "resource-pressure-events.jsonl" events
    × All (λ s. (s.run_id == "run-1") ≡ true) samples
    × All (λ e. (e.run_id == "run-1") ≡ true) events
    × (samples ≢ [])
    × All IsSteady samples
    × All (λ e. (e.severity == "critical") ≡ false) events
unfolding verify_health_artifacts assess exceeds_budget
verified_health_example = verified_health measurements "run-1" refl
