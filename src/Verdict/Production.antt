-- ===== src/Verdict/Production.antt =====
-- When `derive_production_verdict` certifies.
use mesa_e2e_certification.Prelude.{
  same_set, String, ◌==◌, eq_iff, ◌≡◌, refl, ap, ◌∙◌, ◌↔◌, Bool, true, false, Bool-cases, inl, inr,
  sym, not, ◌&&◌, ◌||◌, Option, List, [], ◌∷◌, map, arith, if◌then◌else◌, All, All-map, any,
  any-false→All, All→any-false, is_empty, is_empty-difference, subset, difference, Dict, insert,
  insert_all,
}
use mesa_e2e_certification.Models.{VerdictStatus, is_pass_native}
use mesa_e2e_certification.Values.{Floats}
use mesa_e2e_certification.Gates.{GateResult}
use mesa_e2e_certification.Freeze.{FreezeVerification}
use mesa_e2e_certification.Json.{Json}
use mesa_e2e_certification.Verdict.{
  FinalVerdict, gate_ids, profile_b_gate_ids, lifecycle_is_valid, evaluate_final_verdict,
  derive_production_verdict,
}
use mesa_e2e_certification.Verdict.Outcome.{IsCertifiable, certified_iff}
use mesa_e2e_certification.Verdict.Stated.{StatesSuccess, valid→, →valid}

module _ (is_file : String → Bool) where
  abbrev artifact_of : String → String × Bool
  artifact_of n = (n, is_file n)

  abbrev IsReport : Dict Bool → Type 0
  IsReport d = All (λ e. e.1 ≡ is_file e.0) d

  insert-IsReport : (n : String) (d : Dict Bool) → IsReport d → IsReport (insert n (is_file n) d)
  unfolding insert
  insert-IsReport n [] h = (refl, tt)
  insert-IsReport n ((j, w) ∷ d) h = elim (Bool-cases (j == n)) [
    | inl same ↦ rw same (ap is_file (sym ((eq_iff j n).0 same)), h.1)
    | inr other ↦ rw other (h.0, insert-IsReport n d h.1)
  ]

  any-insert :
      (n : String) (d : Dict Bool)
      → IsReport d
      → any (λ e. not e.1) (insert n (is_file n) d) ≡ (not (is_file n) || any (λ e. not e.1) d)
  unfolding insert
  any-insert n [] h = refl
  any-insert n ((j, w) ∷ d) h = ground (arith, eq_iff j n, any-insert n d h.1, h.0)

  any-insert_all :
      (names : List String) (d : Dict Bool)
      → IsReport d
      → any (λ e. not e.1) (insert_all d (map artifact_of names))
        ≡ (any (λ n. not (is_file n)) names || any (λ e. not e.1) d)
  unfolding insert_all
  any-insert_all [] d h = refl
  any-insert_all (n ∷ names) d h =
      any-insert_all names (insert n (is_file n) d) (insert-IsReport n d h)
      ∙ ground (arith, any-insert n d h)

  -- The dict of the mandatory artifacts says that all are there exactly when each one is.
  artifacts_iff :
      (names : List String)
      → All (λ e. e.1 ≡ true) (insert_all [] (map artifact_of names))
        ↔ All (λ n. is_file n ≡ true) names
  artifacts_iff names = (
    λ h.
        All-map (λ n e. ground arith) names
          (any-false→All (λ n. not (is_file n)) names
            (ground (
              arith,
              any-insert_all names [] tt,
              All→any-false (λ e. not e.1) (insert_all [] (map artifact_of names))
                  (All-map {P = λ e. e.1 ≡ true} {Q = λ e. not e.1 ≡ false} (λ e p. ground arith) _
                    h),
            ))),
    λ h.
        All-map (λ e p. ground arith) (insert_all [] (map artifact_of names))
          (any-false→All (λ e. not e.1) (insert_all [] (map artifact_of names))
            (any-insert_all names [] tt
              ∙ ground (
                arith,
                All→any-false (λ n. not (is_file n)) names
                    (All-map {P = λ n. is_file n ≡ true} {Q = λ n. not (is_file n) ≡ false}
                      (λ n p. ground arith) names h),
              ))),
  )

-- The guards of the production entry point, over any tests and any verdicts.
abbrev guarded :
    Bool
    → Bool
    → Bool
    → Bool
    → FinalVerdict
    → FinalVerdict
    → FinalVerdict
    → FinalVerdict
    → FinalVerdict
guarded exact reported official produced x y z v =
    if not exact || not reported
    then x
    else if is_pass_native v.status && not official
    then y
    else if is_pass_native v.status && not produced
    then z
    else v

guarded→ :
    (exact reported official produced : Bool) (x y z v : FinalVerdict)
    → x.status ≡ VerdictStatus.profile_b_blocked_precondition
    → y.status ≡ VerdictStatus.profile_b_blocked_precondition
    → z.status ≡ VerdictStatus.profile_b_blocked_precondition
    → (guarded exact reported official produced x y z v).status
      ≡ VerdictStatus.profile_b_pass_native
    → (exact ≡ true)
      × (reported ≡ true)
      × (official ≡ true)
      × (produced ≡ true)
      × (v.status ≡ VerdictStatus.profile_b_pass_native)
guarded→ exact reported official produced x y z v hx hy hz h = ground arith

module _ (floats : Floats) (producers : List String) (run_id : String)
    (gates : List (GateResult floats)) (mandatory : List String) (freeze : FreezeVerification)
    (manifest : Option Json) (is_file : String → Bool) (names : List String) (official : Bool) where
  abbrev artifacts : Dict Bool
  artifacts = insert_all [] (map (artifact_of is_file) names)

  -- What a run that is certified in production has.
  pub record IsOfficial : Type 0 where
    pub mandatory_exact : same_set mandatory profile_b_gate_ids ≡ true
    pub results_exact : same_set (gate_ids floats gates) profile_b_gate_ids ≡ true
    pub executed : official ≡ true
    pub produced : subset profile_b_gate_ids producers ≡ true
    pub artifacts_present : All (λ n. is_file n ≡ true) names
    pub lifecycle : StatesSuccess manifest
    pub certifiable : IsCertifiable floats run_id gates mandatory [] freeze true

  with_artifacts :
      IsOfficial
      → IsCertifiable floats run_id gates mandatory artifacts freeze (lifecycle_is_valid manifest)
  with_artifacts o =
      let s = o.certifiable.settled in
      record {
        settled = record {
          distinct = s.distinct;
          frozen = s.frozen;
          lifecycle = →valid manifest o.lifecycle;
          artifacts_present = (artifacts_iff is_file names).1 o.artifacts_present;
        };
        hard_gates = o.certifiable.hard_gates;
        mandatory_gates = o.certifiable.mandatory_gates;
      }

  without_artifacts :
      IsCertifiable floats run_id gates mandatory artifacts freeze (lifecycle_is_valid manifest)
      → IsCertifiable floats run_id gates mandatory [] freeze true
        × (lifecycle_is_valid manifest ≡ true)
        × All (λ n. is_file n ≡ true) names
  without_artifacts c = (
    record {
      settled = record {
        distinct = c.settled.distinct;
        frozen = c.settled.frozen;
        lifecycle = refl;
        artifacts_present = tt;
      };
      hard_gates = c.hard_gates;
      mandatory_gates = c.mandatory_gates;
    },
    c.settled.lifecycle,
    (artifacts_iff is_file names).0 c.settled.artifacts_present,
  )

  abbrev inner : FinalVerdict
  inner =
      evaluate_final_verdict floats run_id gates mandatory artifacts freeze
        (lifecycle_is_valid manifest)

  abbrev production : FinalVerdict
  production =
      derive_production_verdict floats producers run_id gates mandatory freeze manifest is_file
        names official

  production→ : production.status ≡ VerdictStatus.profile_b_pass_native → IsOfficial
  unfolding derive_production_verdict
  production→ h =
      let (exact, reported, executed, produced, passed) =
        guarded→ (same_set mandatory profile_b_gate_ids)
          (same_set (gate_ids floats gates) profile_b_gate_ids) official
          (is_empty (difference profile_b_gate_ids producers)) _ _ _ inner refl refl refl h in
      let (c, valid, there) = without_artifacts (
        (certified_iff floats run_id gates mandatory artifacts freeze
            (lifecycle_is_valid manifest)).0
          passed) in
      record {
        mandatory_exact = exact;
        results_exact = reported;
        executed = executed;
        produced = sym (is_empty-difference profile_b_gate_ids producers) ∙ produced;
        artifacts_present = there;
        lifecycle = valid→ manifest valid;
        certifiable = c;
      }

  →production : IsOfficial → production.status ≡ VerdictStatus.profile_b_pass_native
  unfolding derive_production_verdict
  →production o = ground (
    arith,
    o.mandatory_exact,
    o.results_exact,
    o.executed,
    o.produced,
    is_empty-difference profile_b_gate_ids producers,
    (certified_iff floats run_id gates mandatory artifacts freeze (lifecycle_is_valid manifest)).1
        (with_artifacts o),
  )

  -- The production entry point certifies exactly when the mandatory gates and the reported gates
  -- are B0 to B14, the official execution was verified, each of these gates has a producer, every
  -- mandatory artifact is a file of the run, the manifest states a finished run without an invalid
  -- lifecycle or a lost lifecycle status, and the run is certifiable.
  pub production_iff : (production.status ≡ VerdictStatus.profile_b_pass_native) ↔ IsOfficial
  production_iff = (production→, →production)
