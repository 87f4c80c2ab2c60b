-- ===== src/Verdict/Outcome.antt =====
-- When `evaluate_final_verdict` certifies a run, and when it fails or invalidates one.
use mesa_e2e_certification.Prelude.{
  String, ◌≡◌, ◌∙◌, ◌↔◌, Bool, true, false, not, ◌&&◌, List, arith, is_empty-map, All, All-map, any,
  any-false→All, All→any-false, is_empty, is_empty-sorted, is_empty-filter, is_empty-difference,
  Nodup, length-to_set→Nodup, Nodup→length-to_set, Member, any→Member, Member→any, subset,
  difference, sorted, Dict,
}
use mesa_e2e_certification.Models.{GateStatus, VerdictStatus, is_gate_fail}
use mesa_e2e_certification.Values.{Floats}
use mesa_e2e_certification.Gates.{GateResult}
use mesa_e2e_certification.Freeze.{FreezeStatus, FreezeVerification}
use mesa_e2e_certification.Verdict.{
  FinalVerdict, gate_ids, absent_artifacts, evaluate_gates, evaluate_final_verdict,
}
use mesa_e2e_certification.Verdict.Passed.{
  HasPassed, HardPassed, verified→HardPassed, HardPassed→verified, none_left→HasPassed,
  HasPassed→none_left, is_empty-failed,
}

is_empty-absent :
    (artifacts : Dict Bool)
    → is_empty (absent_artifacts artifacts) ≡ not (any (λ e. not e.1) artifacts)
is_empty-absent artifacts =
    is_empty-sorted _ ∙ is_empty-map _ _ ∙ is_empty-filter (λ e. not e.1) artifacts

none_absent→All :
    (artifacts : Dict Bool)
    → is_empty (absent_artifacts artifacts) ≡ true
    → All (λ e. e.1 ≡ true) artifacts
none_absent→All artifacts h =
    All-map (λ e there. ground arith) artifacts
      (any-false→All (λ e. not e.1) artifacts (ground (arith, is_empty-absent artifacts)))

All→none_absent :
    (artifacts : Dict Bool)
    → All (λ e. e.1 ≡ true) artifacts
    → is_empty (absent_artifacts artifacts) ≡ true
All→none_absent artifacts h = ground (arith, is_empty-absent artifacts, none)
  where
    none : any (λ e. not e.1) artifacts ≡ false
    none =
        All→any-false (λ e. not e.1) artifacts
          (All-map {P = λ e. e.1 ≡ true} {Q = λ e. not e.1 ≡ false} (λ e p. ground arith) artifacts
            h)

module _ (floats : Floats) (run_id : String) (gates : List (GateResult floats))
    (mandatory : List String) (artifacts : Dict Bool) (freeze : FreezeVerification)
    (lifecycle_valid : Bool) where
  abbrev verdict : FinalVerdict
  verdict = evaluate_final_verdict floats run_id gates mandatory artifacts freeze lifecycle_valid

  -- What has to be settled before any gate is read.
  pub record IsSettled : Type 0 where
    pub distinct : Nodup (gate_ids floats gates)
    pub frozen : freeze.status ≡ FreezeStatus.pass
    pub lifecycle : lifecycle_valid ≡ true
    pub artifacts_present : All (λ e. e.1 ≡ true) artifacts

  -- What a certified run has.
  pub record IsCertifiable : Type 0 where
    pub settled : IsSettled
    pub hard_gates : All (HardPassed floats gates) gates
    pub mandatory_gates : All (HasPassed floats gates) mandatory

  missing :
      is_empty (sorted (difference mandatory (gate_ids floats gates)))
      ≡ subset mandatory (gate_ids floats gates)
  missing = is_empty-sorted _ ∙ is_empty-difference mandatory (gate_ids floats gates)

  certified→ : verdict.status ≡ VerdictStatus.profile_b_pass_native → IsCertifiable
  unfolding evaluate_final_verdict evaluate_gates
  certified→ h = record {
    settled = record {
      distinct = length-to_set→Nodup (gate_ids floats gates) (ground arith);
      frozen = ground arith;
      lifecycle = ground arith;
      artifacts_present = none_absent→All artifacts (ground arith);
    };
    hard_gates = verified→HardPassed floats gates (ground arith);
    mandatory_gates = none_left→HasPassed floats gates mandatory (ground arith);
  }

  →certified : IsCertifiable → verdict.status ≡ VerdictStatus.profile_b_pass_native
  unfolding evaluate_final_verdict evaluate_gates
  →certified c =
      let s = c.settled in
      ground (
        arith,
        Nodup→length-to_set (gate_ids floats gates) s.distinct,
        All→none_absent artifacts s.artifacts_present,
        HardPassed→verified floats gates c.hard_gates,
        HasPassed→none_left floats gates mandatory s.distinct c.mandatory_gates,
        missing,
      )

  -- A run is certified exactly when no gate is reported twice, the freeze is verified, the
  -- lifecycle is valid, every mandatory artifact is there, every hard gate passed, and every
  -- mandatory gate is among the results and passed.
  pub certified_iff : (verdict.status ≡ VerdictStatus.profile_b_pass_native) ↔ IsCertifiable
  certified_iff = (certified→, →certified)

  -- A hard gate among the results failed.
  abbrev pub HasFailed : Type 0
  HasFailed =
      (g : GateResult floats) × Member g gates × (g.hard ≡ true) × (g.status ≡ GateStatus.fail)

  failed→ :
      verdict.status ≡ VerdictStatus.profile_b_fail
      → IsSettled × (subset mandatory (gate_ids floats gates) ≡ true) × HasFailed
  unfolding evaluate_final_verdict evaluate_gates
  failed→ h =
      let (g, m, e) =
        any→Member (λ g. g.hard && is_gate_fail g.status) gates
          (ground (arith, is_empty-failed floats gates)) in
      (
        record {
          distinct = length-to_set→Nodup (gate_ids floats gates) (ground arith);
          frozen = ground arith;
          lifecycle = ground arith;
          artifacts_present = none_absent→All artifacts (ground arith);
        },
        ground (arith, missing),
        (g, m, ground arith, ground arith),
      )

  →failed :
      IsSettled
      → subset mandatory (gate_ids floats gates) ≡ true
      → HasFailed
      → verdict.status ≡ VerdictStatus.profile_b_fail
  unfolding evaluate_final_verdict evaluate_gates
  →failed s complete (g, m, hard, e) = ground (
    arith,
    Nodup→length-to_set (gate_ids floats gates) s.distinct,
    All→none_absent artifacts s.artifacts_present,
    is_empty-failed floats gates,
    Member→any (λ g. g.hard && is_gate_fail g.status) gates g m (ground arith),
    missing,
  )

  -- A run is failed exactly when everything before the gates is settled, every mandatory gate is
  -- among the results, and a hard gate failed; it does not matter what the other gates say.
  pub failed_iff :
      (verdict.status ≡ VerdictStatus.profile_b_fail)
      ↔ (IsSettled × (subset mandatory (gate_ids floats gates) ≡ true) × HasFailed)
  failed_iff = (failed→, λ (s, complete, f). →failed s complete f)

  -- A run is invalidated exactly when its freeze is, unless a gate is reported twice; the
  -- lifecycle, the artifacts and the gates have no say.
  pub invalidated_iff :
      (verdict.status ≡ VerdictStatus.invalidated_code_change)
      ↔ (Nodup (gate_ids floats gates) × (freeze.status ≡ FreezeStatus.invalidated_code_change))
  unfolding evaluate_final_verdict evaluate_gates
  invalidated_iff = (
    λ h. (length-to_set→Nodup (gate_ids floats gates) (ground arith), ground arith),
    λ h. ground (arith, Nodup→length-to_set (gate_ids floats gates) h.0),
  )
