-- ===== src/Transaction/Calls.antt =====
-- A caller of the transaction: it calls the phases in any order and goes on after an exception.
pub mod Ordered
pub mod Released
use mesa_e2e_certification.Prelude.{
  String, Bool, true, false, Option, List, [], ◌∷◌, if◌then◌else◌, Dict,
}
use mesa_e2e_certification.Json.{Json}
use mesa_e2e_certification.Values.{Floats}
use mesa_e2e_certification.Transaction.{TransactionPhase, Services}
use mesa_e2e_certification.Transaction.Core.{Result, ok, err, Transaction}
use mesa_e2e_certification.Transaction.Preparing.{
  execute_bootstrap, execute_freeze, execute_raw_execution, execute_raw_sealing,
  execute_oracle_audit,
}
use mesa_e2e_certification.Transaction.Scoring.{execute_scoring}
use mesa_e2e_certification.Transaction.Gating.{execute_gate_evaluation}
use mesa_e2e_certification.Transaction.Closing.{
  execute_verdict_derivation, execute_evidence_index, execute_run_id_consistency,
  execute_health_verification, execute_release_finalization,
}

abbrev pub is_ok : {A : Type 0} → Result A → Bool
is_ok (ok a) = true
is_ok (err e) = false

module _ (floats : Floats) (services : Services floats) where
  -- The twelve methods, with the arguments of the caller.
  pub data PhaseCall : Type 0 where
    call_bootstrap : Option Json → PhaseCall
    call_freeze : (freeze checksum root : services.FilePath) → (shas : Dict String) → PhaseCall
    call_raw_execution : (services.World → Option (Unit {0}) × services.World) → PhaseCall
    call_raw_sealing : PhaseCall
    call_oracle_audit : Option Json → List String → PhaseCall
    call_scoring call_gate_evaluation call_verdict_derivation : PhaseCall
    call_evidence_index call_run_id_consistency : List Json → PhaseCall
    call_health_verification : PhaseCall
    call_release_finalization : services.FilePath → PhaseCall

  abbrev pub phase_of : PhaseCall → TransactionPhase
  phase_of (call_bootstrap layout) = TransactionPhase.bootstrap
  phase_of (call_freeze freeze checksum root shas) = TransactionPhase.freeze
  phase_of (call_raw_execution builder) = TransactionPhase.raw_execution
  phase_of call_raw_sealing = TransactionPhase.raw_sealing
  phase_of (call_oracle_audit surfaces values) = TransactionPhase.oracle_audit
  phase_of call_scoring = TransactionPhase.scoring
  phase_of call_gate_evaluation = TransactionPhase.gate_evaluation
  phase_of call_verdict_derivation = TransactionPhase.verdict_derivation
  phase_of (call_evidence_index records) = TransactionPhase.evidence_index
  phase_of (call_run_id_consistency reuse) = TransactionPhase.run_id_consistency
  phase_of call_health_verification = TransactionPhase.health_verification
  phase_of (call_release_finalization target) = TransactionPhase.release_finalization

  abbrev outcome_of :
      {A : Type 0} → Result A × Transaction floats services → Bool × Transaction floats services
  outcome_of (r, t) = (is_ok r, t)

  -- Whether the call returns, and the transaction after it.
  unfoldable pub attempt :
      PhaseCall → Transaction floats services → Bool × Transaction floats services
  unfolding execute_bootstrap execute_freeze execute_raw_execution execute_raw_sealing
      execute_oracle_audit execute_scoring execute_gate_evaluation execute_verdict_derivation
      execute_evidence_index execute_run_id_consistency execute_health_verification
      execute_release_finalization
  attempt (call_bootstrap layout) t = outcome_of (execute_bootstrap floats services layout t)
  attempt (call_freeze freeze checksum root shas) t =
      outcome_of (execute_freeze floats services freeze checksum root shas t)
  attempt (call_raw_execution builder) t =
      outcome_of (execute_raw_execution floats services builder t)
  attempt call_raw_sealing t = outcome_of (execute_raw_sealing floats services t)
  attempt (call_oracle_audit surfaces values) t =
      outcome_of (execute_oracle_audit floats services surfaces values t)
  attempt call_scoring t = outcome_of (execute_scoring floats services t)
  attempt call_gate_evaluation t = outcome_of (execute_gate_evaluation floats services t)
  attempt call_verdict_derivation t = outcome_of (execute_verdict_derivation floats services t)
  attempt (call_evidence_index records) t =
      outcome_of (execute_evidence_index floats services records t)
  attempt (call_run_id_consistency reuse) t =
      outcome_of (execute_run_id_consistency floats services reuse t)
  attempt call_health_verification t = outcome_of (execute_health_verification floats services t)
  attempt (call_release_finalization target) t =
      outcome_of (execute_release_finalization floats services target t)

  -- the transaction after the calls
  unfoldable pub run_calls :
      Transaction floats services → List PhaseCall → Transaction floats services
  unfolding attempt
  run_calls t [] = t
  run_calls t (c ∷ cs) = run_calls (attempt c t).1 cs

  -- the phases whose calls return, in the order of the calls
  unfoldable pub phases_returned :
      Transaction floats services → List PhaseCall → List TransactionPhase
  unfolding attempt
  phases_returned t [] = []
  phases_returned t (c ∷ cs) =
      let rest = phases_returned (attempt c t).1 cs in
      if (attempt c t).0 then phase_of c ∷ rest else rest
