-- ===== src/Gates/Passing.antt =====
-- When a gate passes.
use mesa_e2e_certification.Prelude.{
  String, ◌≡◌, ◌≢◌, refl, ◌↔◌, inl, inr, Bool, true, false, not, some, List, [], arith, is_empty,
  is_empty-sorted, is_empty-filter, is_empty-map, any-map, any, any-false→All, All→any-false, keys,
  All, All-map, Dict, lookup, has_key, Option-cases, ◌∙◌, ap,
}
use mesa_e2e_certification.Models.{GateStatus, ExecutionStatus}
use mesa_e2e_certification.Values.{
  Floats, Number, Value, bool, number, le_number, eq_number, is_finite_number,
}
use mesa_e2e_certification.Gates.{
  Operator, Threshold, MetricRequirement, GateDefinition, metric_aliases, comparison_passes,
  metric_passes, resolve_aliases, evaluate_metrics, evaluate_threshold_gate, missing_metrics,
  failed_metrics,
}

module _ (floats : Floats) where
  -- What an observed value has to be, operator by operator. There is no rule between a bool and a
  -- number, and none for a float that is not finite.
  pub data Satisfies : Value floats → Operator → Threshold floats → Type 0 where
    same_flag : (b : Bool) → Satisfies (bool b) Operator.eq (Threshold.flag b)
    at_least :
        {x required : Number floats}
        → is_finite_number floats x ≡ true
        → le_number floats required x ≡ true
        → Satisfies (number x) Operator.gte (Threshold.bound required)
    at_most :
        {x required : Number floats}
        → is_finite_number floats x ≡ true
        → le_number floats x required ≡ true
        → Satisfies (number x) Operator.lte (Threshold.bound required)
    equal :
        {x required : Number floats}
        → is_finite_number floats x ≡ true
        → eq_number floats x required ≡ true
        → Satisfies (number x) Operator.eq (Threshold.bound required)

  comparison→Satisfies :
      (v : Value floats) (op : Operator) (t : Threshold floats)
      → comparison_passes floats v op t ≡ true
      → Satisfies v op t
  unfolding comparison_passes
  comparison→Satisfies (bool true) Operator.eq (Threshold.flag true) h = same_flag true
  comparison→Satisfies (bool false) Operator.eq (Threshold.flag false) h = same_flag false
  comparison→Satisfies (bool b) op (Threshold.flag f) h = absurd (ground arith)
  comparison→Satisfies (number x) Operator.gte (Threshold.bound required) h =
      at_least (ground arith) (ground arith)
  comparison→Satisfies (number x) Operator.lte (Threshold.bound required) h =
      at_most (ground arith) (ground arith)
  comparison→Satisfies (number x) Operator.eq (Threshold.bound required) h =
      equal (ground arith) (ground arith)
  comparison→Satisfies v op t h = absurd (ground arith)

  Satisfies→comparison :
      {v : Value floats} {op : Operator} {t : Threshold floats}
      → Satisfies v op t
      → comparison_passes floats v op t ≡ true
  unfolding comparison_passes
  Satisfies→comparison (same_flag true) = refl
  Satisfies→comparison (same_flag false) = refl
  Satisfies→comparison (at_least finite h) = ground arith
  Satisfies→comparison (at_most finite h) = ground arith
  Satisfies→comparison (equal finite h) = ground arith

  -- `_comparison_passes` accepts exactly the values that a requirement asks for: the same bool
  -- under `eq`, or a finite number on the right side of a numeric bound.
  pub comparison_passes_iff :
      (v : Value floats) (op : Operator) (t : Threshold floats)
      → (comparison_passes floats v op t ≡ true) ↔ Satisfies v op t
  comparison_passes_iff v op t = (comparison→Satisfies v op t, λ s. Satisfies→comparison s)

  -- The metric of the requirement has a value, and the value satisfies it.
  abbrev pub IsMet : Dict (Value floats) → String × MetricRequirement floats → Type 0
  IsMet seen (metric, r) =
      (v : Value floats) × (lookup metric seen ≡ some v) × Satisfies v r.operator r.value

  metric_passes→IsMet :
      (seen : Dict (Value floats)) (e : String × MetricRequirement floats)
      → metric_passes floats seen e ≡ true
      → IsMet seen e
  unfolding metric_passes
  metric_passes→IsMet seen (metric, r) h = elim (Option-cases (lookup metric seen)) [
    | inl missing ↦ absurd (ground arith)
    | inr (v, found) ↦ (v, found, comparison→Satisfies v r.operator r.value (ground arith))
  ]

  IsMet→metric_passes :
      (seen : Dict (Value floats)) (e : String × MetricRequirement floats)
      → IsMet seen e
      → metric_passes floats seen e ≡ true
  unfolding metric_passes
  IsMet→metric_passes seen (metric, r) (v, found, s) =
      rw (found, metric_passes) (Satisfies→comparison s)

  is_empty-failed :
      (seen : Dict (Value floats)) (d : Dict (MetricRequirement floats))
      → is_empty (failed_metrics floats d seen)
        ≡ not (any (λ e. not (metric_passes floats seen e)) d)
  is_empty-failed seen d =
      is_empty-sorted _
      ∙ is_empty-map _ _
      ∙ is_empty-filter (λ e. not (metric_passes floats seen e)) d

  is_empty-missing :
      (seen : Dict (Value floats)) (d : Dict (MetricRequirement floats))
      → is_empty (missing_metrics floats d seen) ≡ not (any (λ e. not (has_key e.0 seen)) d)
  is_empty-missing seen d =
      is_empty-sorted _
      ∙ is_empty-filter (λ metric. not (has_key metric seen)) (keys d)
      ∙ ap not (any-map (λ metric. not (has_key metric seen)) (λ e. e.0) d)

  module _ (d : GateDefinition floats) (seen : Dict (Value floats)) (status : ExecutionStatus)
      (evidence : List String) where
    metrics_pass→All :
        (evaluate_metrics floats d seen status evidence).status ≡ GateStatus.pass
        → All (IsMet seen) d.requirements
    unfolding evaluate_metrics
    metrics_pass→All h =
        All-map (λ e passes. metric_passes→IsMet seen e (ground arith)) d.requirements
          (any-false→All (λ e. not (metric_passes floats seen e)) d.requirements
            (ground (arith, is_empty-failed seen d.requirements)))

    All→metrics_pass :
        All (IsMet seen) d.requirements
        → (evaluate_metrics floats d seen status evidence).status ≡ GateStatus.pass
    unfolding evaluate_metrics
    All→metrics_pass h = rw (is_empty-missing, none_missing, is_empty-failed, none_failed)
      where
        none_missing : any (λ e. not (has_key e.0 seen)) d.requirements ≡ false
        none_missing =
            All→any-false (λ e. not (has_key e.0 seen)) d.requirements
              (All-map {P = IsMet seen} {Q = λ e. not (has_key e.0 seen) ≡ false} (λ e m. rw m.1)
                d.requirements h)

        none_failed : any (λ e. not (metric_passes floats seen e)) d.requirements ≡ false
        none_failed =
            All→any-false (λ e. not (metric_passes floats seen e)) d.requirements
              (All-map {P = IsMet seen} {Q = λ e. not (metric_passes floats seen e) ≡ false}
                (λ e m. rw (IsMet→metric_passes seen e m)) d.requirements h)

module _ (floats : Floats) (d : GateDefinition floats) (observed : Dict (Value floats))
    (status : ExecutionStatus) (evidence : List String) where
  abbrev seen : Dict (Value floats)
  seen = resolve_aliases floats d.requirements metric_aliases observed

  -- A threshold gate passes exactly when it neither waits for MESA nor has an unresolved
  -- methodology, its execution completed, it has evidence, and every metric that it requires is
  -- observed, under its name or its alias, with a value that satisfies the requirement.
  pub gate_pass_iff :
      ((evaluate_threshold_gate floats d observed status evidence).status ≡ GateStatus.pass) ↔ (
        (d.wait_for_mesa ≡ false)
        × (d.unresolved_methodology ≡ false)
        × (status ≡ ExecutionStatus.completed)
        × (evidence ≢ [])
        × All (IsMet floats seen) d.requirements)
  unfolding evaluate_threshold_gate
  gate_pass_iff = (
    λ h. (
      ground arith,
      ground arith,
      ground arith,
      λ e. ground arith,
      metrics_pass→All floats d seen status evidence (ground arith),
    ),
    λ h. ground (arith, All→metrics_pass floats d seen status evidence h.4),
  )
