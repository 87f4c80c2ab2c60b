-- ===== src/Gates.antt =====
-- harness/gates.py: the gate configuration and the evaluation of threshold gates.
pub mod Passing
pub mod Aliases
use mesa_e2e_certification.Prelude.{
  ℕ, String, ◌==◌, Bool, true, false, not, ◌&&◌, ◌||◌, Option, none, some, List, [], ◌∷◌, map,
  if◌then◌else◌, eqb, ltb, length, is_empty, any, filter, sorted, difference, to_set, Dict, lookup,
  insert, keys, has_key, sort_items, ◌++◌,
}
use mesa_e2e_certification.Models.{GateStatus, ExecutionStatus, is_completed}
use mesa_e2e_certification.Values.{
  ℤ, pos, negsuc, Floats, Number, int, Value, bool, number, other, le_number, eq_number,
  is_finite_number,
}

pub data Operator : Type 0 where
  gte lte eq : Operator

abbrev pub is_eq_operator : Operator → Bool
is_eq_operator Operator.eq = true
is_eq_operator _ = false

abbrev pub is_gte_operator : Operator → Bool
is_gte_operator Operator.gte = true
is_gte_operator _ = false

pub data Threshold (floats : Floats) : Type 0 where
  flag : Bool → Threshold floats
  bound : Number floats → Threshold floats

pub record MetricRequirement (floats : Floats) : Type 0 where
  pub operator : Operator
  pub value : Threshold floats

pub record GateDefinition (floats : Floats) : Type 0 where
  pub gate_id : String
  pub name : Option String
  pub hard : Bool
  pub requirements : Dict (MetricRequirement floats)
  pub wait_for_mesa : Bool
  pub unresolved_methodology : Bool
  pub notes : Option String

-- GateResult.reason: the text's fixed part is the constructor, the metrics that it lists stay.
pub data GateReason : Type 0 where
  wait_for_mesa unresolved_methodology execution_not_completed missing_gate_evidence : GateReason
  missing_observed_metrics threshold_not_met : List String → GateReason
  thresholds_met : GateReason
  -- the reason of a metric producer, as harness/transaction.py enters it
  produced : String → GateReason

pub record GateResult (floats : Floats) : Type 0 where
  pub gate_id : String
  pub hard : Bool
  pub execution_status : ExecutionStatus
  pub status : GateStatus
  pub required : Dict (MetricRequirement floats)
  pub observed : Dict (Value floats)
  pub reason : GateReason
  pub evidence : List String

pub record ResourceContract : Type 0 where
  pub ram_min_gib : ℕ
  pub ram_recommended_gib : ℕ
  pub disk_min_gib : ℕ

-- Field(gt=0) of the three sizes, and recommendation_must_not_weaken_minimum
unfoldable pub validate_resources : ResourceContract → Bool
validate_resources r =
    ltb 0 r.ram_min_gib
    && ltb 0 r.ram_recommended_gib
    && ltb 0 r.disk_min_gib
    && not (ltb r.ram_recommended_gib r.ram_min_gib)

-- The fields of GateConfig that its validators read.
pub record GateConfig (floats : Floats) : Type 0 where
  pub resources : ResourceContract
  pub mandatory_gate_ids : List String
  pub gates : Dict (GateDefinition floats)

pub data GateConfigError : Type 0 where
  gate_without_requirements : (gate_id : String) → GateConfigError
  gate_keys_do_not_match duplicate_mandatory_gate_ids : GateConfigError
  gate_registry_incomplete : (missing : List String) → GateConfigError
  resource_not_derived : (metric : String) → GateConfigError

-- the names that two generations of evidence give to one metric
abbrev pub metric_aliases : List (String × String)
metric_aliases =
    ("embedding_dim_verified", "nemotron_dim_verified")
    ∷ ("nemotron_dim_verified", "embedding_dim_verified")
    ∷ ("completion_verified", "gpt_oss_completion_verified")
    ∷ ("gpt_oss_completion_verified", "completion_verified")
    ∷ []

module _ (floats : Floats) where
  -- GateDefinition.validate_gate
  unfoldable pub validate_gate : GateDefinition floats → Option GateConfigError
  validate_gate d =
      if not d.wait_for_mesa && not d.unresolved_methodology && is_empty d.requirements
      then some (GateConfigError.gate_without_requirements d.gate_id)
      else none

  -- Python's `value != expected`, in which True is 1 and False is 0
  unfoldable pub equals_int : Threshold floats → ℤ → Bool
  equals_int (Threshold.flag true) n = eq_number floats (int (pos 1)) (int n)
  equals_int (Threshold.flag false) n = eq_number floats (int (pos 0)) (int n)
  equals_int (Threshold.bound x) n = eq_number floats x (int n)

  unfoldable pub derives_from : ℕ → Option (MetricRequirement floats) → Bool
  unfolding equals_int
  derives_from expected none = false
  derives_from expected (some r) = is_gte_operator r.operator && equals_int r.value (pos expected)

  -- the check of gate B1 against the resources of the official contract
  unfoldable pub check_b1 :
      ResourceContract → Option (GateDefinition floats) → Option GateConfigError
  unfolding derives_from
  check_b1 resources none = none
  check_b1 resources (some b1) =
      if not (derives_from resources.ram_min_gib (lookup "ram_min_gb" b1.requirements))
      then some (GateConfigError.resource_not_derived "ram_min_gb")
      else if not (derives_from resources.disk_min_gib (lookup "disk_min_gb" b1.requirements))
      then some (GateConfigError.resource_not_derived "disk_min_gb")
      else none

  -- GateConfig.gate_keys_match_ids
  unfoldable pub validate_config : GateConfig floats → Option GateConfigError
  unfolding check_b1
  validate_config c =
      if any (λ e. not (e.0 == e.1.gate_id)) c.gates
      then some GateConfigError.gate_keys_do_not_match
      else if not (eqb (length (to_set c.mandatory_gate_ids)) (length c.mandatory_gate_ids))
      then some GateConfigError.duplicate_mandatory_gate_ids
      else if not (is_empty (difference (to_set c.mandatory_gate_ids) (keys c.gates)))
      then some (
          GateConfigError.gate_registry_incomplete
            (sorted (difference (to_set c.mandatory_gate_ids) (keys c.gates))))
      else check_b1 c.resources (lookup "B1" c.gates)

  -- `_comparison_passes` on a numeric requirement and a number that is no bool
  unfoldable pub number_passes : Operator → Number floats → Number floats → Bool
  number_passes Operator.gte x required = le_number floats required x
  number_passes Operator.lte x required = le_number floats x required
  number_passes Operator.eq x required = eq_number floats x required

  abbrev same_flag : Bool → Bool → Bool
  same_flag true b = b
  same_flag false b = not b

  unfoldable pub comparison_passes : Value floats → Operator → Threshold floats → Bool
  unfolding number_passes
  comparison_passes (bool b) op (Threshold.flag required) =
      is_eq_operator op && same_flag b required
  comparison_passes _ op (Threshold.flag required) = false
  comparison_passes (number x) op (Threshold.bound required) =
      if not (is_finite_number floats x) then false else number_passes op x required
  comparison_passes _ op (Threshold.bound required) = false

  -- one turn of the loop over the aliases
  unfoldable pub resolve_alias :
      Dict (MetricRequirement floats) → String × String → Dict (Value floats) → Dict (Value floats)
  resolve_alias requirements (target, source) resolved =
      if has_key target requirements && not (has_key target resolved)
      then elim (lookup source resolved) [ none ↦ resolved | some v ↦ insert target v resolved ]
      else resolved

  unfoldable pub resolve_aliases :
      Dict (MetricRequirement floats)
      → List (String × String)
      → Dict (Value floats)
      → Dict (Value floats)
  resolve_aliases requirements [] resolved = resolved
  resolve_aliases requirements (a ∷ as_) resolved =
      resolve_aliases requirements as_ (resolve_alias requirements a resolved)

  -- A missing metric would be a KeyError; the evaluation has returned before one is looked up.
  unfoldable pub metric_passes : Dict (Value floats) → String × MetricRequirement floats → Bool
  metric_passes resolved (metric, r) = elim (lookup metric resolved) [
    | none ↦ false
    | some v ↦ comparison_passes v r.operator r.value
  ]

  abbrev pub missing_metrics : Dict (MetricRequirement floats) → Dict (Value floats) → List String
  missing_metrics requirements resolved =
      sorted (filter (λ metric. not (has_key metric resolved)) (keys requirements))

  abbrev pub failed_metrics : Dict (MetricRequirement floats) → Dict (Value floats) → List String
  failed_metrics requirements resolved =
      sorted (keys (filter (λ e. not (metric_passes resolved e)) requirements))

  -- the last part of the evaluation, from `resolved_observed` on
  unfoldable pub evaluate_metrics :
      GateDefinition floats
      → Dict (Value floats)
      → ExecutionStatus
      → List String
      → GateResult floats
  evaluate_metrics d resolved execution_status evidence =
      let missing = missing_metrics d.requirements resolved in
      let failed = failed_metrics d.requirements resolved in
      if not (is_empty missing)
      then record {
        gate_id = d.gate_id;
        hard = d.hard;
        execution_status = execution_status;
        status = GateStatus.fail;
        required = sort_items d.requirements;
        observed = resolved;
        reason = GateReason.missing_observed_metrics missing;
        evidence = evidence;
      }
      else record {
        gate_id = d.gate_id;
        hard = d.hard;
        execution_status = execution_status;
        status = if not (is_empty failed) then GateStatus.fail else GateStatus.pass;
        required = sort_items d.requirements;
        observed = sort_items resolved;
        reason =
            if not (is_empty failed)
            then GateReason.threshold_not_met failed
            else GateReason.thresholds_met;
        evidence = evidence;
      }

  unfoldable pub evaluate_threshold_gate :
      GateDefinition floats
      → Dict (Value floats)
      → ExecutionStatus
      → List String
      → GateResult floats
  evaluate_threshold_gate d observed execution_status evidence =
      if d.wait_for_mesa
      then verdict GateStatus.blocked (sort_items observed) GateReason.wait_for_mesa
      else if d.unresolved_methodology
      then verdict GateStatus.unverified (sort_items observed) GateReason.unresolved_methodology
      else if not (is_completed execution_status)
      then verdict GateStatus.fail observed GateReason.execution_not_completed
      else if is_empty evidence
      then verdict GateStatus.fail observed GateReason.missing_gate_evidence
      else evaluate_metrics d (resolve_aliases d.requirements metric_aliases observed)
          execution_status evidence
    where
      verdict : GateStatus → Dict (Value floats) → GateReason → GateResult floats
      verdict status seen reason = record {
        gate_id = d.gate_id;
        hard = d.hard;
        execution_status = execution_status;
        status = status;
        required = sort_items d.requirements;
        observed = seen;
        reason = reason;
        evidence = evidence;
      }
