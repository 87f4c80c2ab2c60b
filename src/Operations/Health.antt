-- ===== src/Operations/Health.antt =====
-- When a health snapshot, the resource telemetry and the health artifacts pass.
use mesa_e2e_certification.Prelude.{
  ◌≡◌, ◌≢◌, ◌↔◌, ◌⊎◌, inl, inr, refl, ap, ◌∙◌, sym, Bool, true, false, not, ◌||◌, Option, some,
  List, [], ◌∷◌, if◌then◌else◌, is_empty, is_empty-map, is_empty-filter, any, All→any-false,
  any→Member, Member→any, All, All-map, Member, arith,
}
use mesa_e2e_certification.Operations.{
  OperationalStatus, ServiceHealth, has_failed, is_unverified, is_unreachable, is_unknown, failing,
  unverified_names, assess,
}

-- The service was seen to pass, and was neither restarted nor killed.
pub record IsHealthy (s : ServiceHealth) : Type 0 where
  pub passed : s.status ≡ OperationalStatus.pass
  pub not_restarted : s.restarts ≡ 0
  pub not_killed : s.oom_killed ≡ false

is_empty-failing :
    (services : List ServiceHealth) → is_empty (failing services) ≡ not (any has_failed services)
is_empty-failing services = is_empty-map _ _ ∙ is_empty-filter has_failed services

is_empty-unverified_names :
    (services : List ServiceHealth)
    → is_empty (unverified_names services) ≡ not (any (λ s. is_unverified s.status) services)
is_empty-unverified_names services =
    is_empty-map _ _ ∙ is_empty-filter (λ s. is_unverified s.status) services

healthy→ : (s : ServiceHealth) → has_failed s ≡ false → is_unverified s.status ≡ false → IsHealthy s
healthy→ s h u = record {
  passed = ground arith;
  not_restarted = ground arith;
  not_killed = ground arith;
}

→healthy :
    (s : ServiceHealth) → IsHealthy s → (has_failed s ≡ false) × (is_unverified s.status ≡ false)
→healthy s h = (ground (arith, h.passed, h.not_restarted, h.not_killed), ground (arith, h.passed))

All-both :
    (services : List ServiceHealth)
    → any has_failed services ≡ false
    → any (λ s. is_unverified s.status) services ≡ false
    → All IsHealthy services
All-both [] h u = tt
All-both (s ∷ services) h u =
    (healthy→ s (ground arith) (ground arith), All-both services (ground arith) (ground arith))

-- The status that these observations make.
abbrev status_of : Bool → Bool → Bool → Option Bool → OperationalStatus
status_of failed none_there unverified reachable =
    if failed || is_unreachable reachable
    then OperationalStatus.fail
    else if (none_there || is_unknown reachable) || unverified
    then OperationalStatus.unverified
    else OperationalStatus.pass

status-assess :
    (services : List ServiceHealth) (reachable : Option Bool)
    → (assess services reachable).0
      ≡ status_of
          (any has_failed services)
          (is_empty services)
          (any (λ s. is_unverified s.status) services)
          reachable
unfolding assess
status-assess services reachable =
    ground (arith, is_empty-failing services, is_empty-unverified_names services)

pass_of :
    (f n u : Bool) (reachable : Option Bool)
    → status_of f n u reachable ≡ OperationalStatus.pass
    → (f ≡ false) × (n ≡ false) × (u ≡ false) × (reachable ≡ some true)
pass_of f n u reachable h = (ground arith, ground arith, ground arith, ground arith)

fail_of :
    (f n u : Bool) (reachable : Option Bool)
    → status_of f n u reachable ≡ OperationalStatus.fail
    → (f ≡ true) ⊎ (reachable ≡ some false)
fail_of f n u (some false) h = inr refl
fail_of true n u r h = inl refl
fail_of false n u r h = inr (ground arith)

All-healthy :
    (services : List ServiceHealth)
    → All IsHealthy services
    → (any has_failed services ≡ false) × (any (λ s. is_unverified s.status) services ≡ false)
All-healthy services h = (
  All→any-false has_failed services (All-map {P = IsHealthy} (λ s p. (→healthy s p).0) services h),
  All→any-false (λ s. is_unverified s.status) services
      (All-map {P = IsHealthy} (λ s p. (→healthy s p).1) services h),
)

-- The observations pass exactly when there are services, each of which is healthy, and the
-- provider is known to be reachable; they fail exactly when a service failed, was restarted or was
-- killed, or the provider is known to be unreachable.
pub assess_iff :
    (services : List ServiceHealth) (reachable : Option Bool)
    → (((assess services reachable).0 ≡ OperationalStatus.pass)
        ↔ ((services ≢ []) × (reachable ≡ some true) × All IsHealthy services))
      × (((assess services reachable).0 ≡ OperationalStatus.fail) ↔ (
          ((s : ServiceHealth) × Member s services × (has_failed s ≡ true))
          ⊎ (reachable ≡ some false)))
unfolding assess
assess_iff services reachable = (
  (
    λ h.
        let (f, n, u, r) = pass_of _ _ _ reachable (sym (status-assess services reachable) ∙ h) in
        (λ e. cc (n, ap is_empty e), r, All-both services f u),
    λ (there, r, healthy).
        let (f, u) = All-healthy services healthy in
        status-assess services reachable ∙ rw (f, u, r) (not_empty services there),
  ),
  (
    λ h. elim (fail_of _ _ _ reachable (sym (status-assess services reachable) ∙ h)) [
      | inl f ↦ inl (any→Member has_failed services f)
      | inr r ↦ inr r
    ],
    λ c. status-assess services reachable ∙ elim c [
      | inl (s, m, f) ↦ rw (Member→any has_failed services s m f)
      | inr r ↦ rw r (ground arith)
    ],
  ),
)
  where
    not_empty :
        (xs : List ServiceHealth)
        → xs ≢ []
        → status_of false (is_empty xs) false (some true) ≡ OperationalStatus.pass
    not_empty [] h = absurd (h refl)
    not_empty (x ∷ xs) h = refl
