-- ===== src/Models.antt =====
-- harness/models.py: the enumerations of the harness.
use mesa_e2e_certification.Prelude.{Bool, true, false}

pub data RunStatus : Type 0 where
  created bootstrapped harness_ready gt_frozen contract_frozen test_running test_completed :
      RunStatus
  finalizing pass_native fail blocked invalidated : RunStatus

unfoldable pub RunStatus-discrete : Discrete RunStatus
RunStatus-discrete = hlevel

pub data GateStatus : Type 0 where
  pass fail unverified not_applicable blocked : GateStatus

pub data ScoringStatus : Type 0 where
  hit miss partial pass fail unresolved infrastructure_error : ScoringStatus
  mapping_integrity_error no_answer_evaluated_in_answer_stage : ScoringStatus

pub data ExecutionStatus : Type 0 where
  not_run completed failed blocked : ExecutionStatus

pub data VerdictStatus : Type 0 where
  profile_b_pass_native profile_b_fail profile_b_blocked_precondition : VerdictStatus
  profile_b_blocked_external profile_b_diagnostic_bridge_only : VerdictStatus
  profile_b_aborted_human_gate invalidated_code_change : VerdictStatus

-- `status is GateStatus.PASS`
abbrev pub is_gate_pass : GateStatus → Bool
is_gate_pass GateStatus.pass = true
is_gate_pass _ = false

-- `status is GateStatus.FAIL`
abbrev pub is_gate_fail : GateStatus → Bool
is_gate_fail GateStatus.fail = true
is_gate_fail _ = false

-- `status is ExecutionStatus.COMPLETED`
abbrev pub is_completed : ExecutionStatus → Bool
is_completed ExecutionStatus.completed = true
is_completed _ = false

-- `status == VerdictStatus.PROFILE_B_PASS_NATIVE`
abbrev pub is_pass_native : VerdictStatus → Bool
is_pass_native VerdictStatus.profile_b_pass_native = true
is_pass_native _ = false
