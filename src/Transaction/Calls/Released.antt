-- ===== src/Transaction/Calls/Released.antt =====
-- What a release requires, and what the verdict of a transaction stands for.
use mesa_e2e_certification.Prelude.{
  String, ◌≡◌, refl, sym, ap, ◌∙◌, inl, inr, Bool, true, false, not, Option, none, some, List, [],
  ◌∷◌, ◌++◌, arith, is_empty, Bool-cases,
}
use mesa_e2e_certification.Models.{RunStatus}
use mesa_e2e_certification.Values.{Floats}
use mesa_e2e_certification.Lifecycle.Steps.{◌⟶◌, finalize}
use mesa_e2e_certification.Transaction.{
  TransactionPhase, TransactionPhase-discrete, Problem, Services, phase_sequence, same_phase,
  has_phase,
}
use mesa_e2e_certification.Transaction.Core.{
  Handler, Outcome, returned, ◌>>◌, refuse_if, move, Run, Transaction, Body, new_transaction,
}
use mesa_e2e_certification.Transaction.Core.Bodies.{>>=-returned, move-returned}
use mesa_e2e_certification.Transaction.Closing.{
  is_certified, missing_files, publish, release_finalization_body, finish,
  execute_release_finalization,
}
use mesa_e2e_certification.Transaction.Core.Guarding.{execute_outcome}
use mesa_e2e_certification.Transaction.Calls.{
  PhaseCall, call_bootstrap, call_freeze, call_raw_execution, call_raw_sealing, call_oracle_audit,
  call_scoring, call_gate_evaluation, call_verdict_derivation, call_evidence_index,
  call_run_id_consistency, call_health_verification, call_release_finalization, phase_of, is_ok,
  attempt, run_calls, phases_returned,
}
use mesa_e2e_certification.Transaction.Calls.Ordered.{
  IsInOrder, Ran-InOrder, attempt_outcome, released_stops, release_is_last, new_transaction-InOrder,
}

to_finalizing : {s : RunStatus} → s ⟶ RunStatus.finalizing → s ≡ RunStatus.test_completed
to_finalizing finalize = refl

module _ (floats : Floats) (services : Services floats) (target : services.FilePath)
    (r : Run floats services) where
  abbrev body : Outcome services.FilePath × Run floats services
  body = release_finalization_body floats services target r

  -- What a release body that returned has found, and what it leaves.
  pub record IsReleased : Type 0 where
    pub certified : is_certified r.final_verdict ≡ true
    pub complete : is_empty (missing_files floats services r.world) ≡ true
    pub from : r.lifecycle.status ≡ RunStatus.test_completed
    pub status : (body.1).lifecycle.status ≡ RunStatus.pass_native
    pub same_verdict : (body.1).final_verdict ≡ r.final_verdict

  publish-Keeps :
      (s : Run floats services)
      → (let u = (publish floats services target s).1 in
          (u.lifecycle ≡ s.lifecycle) × (u.final_verdict ≡ s.final_verdict))
  unfolding publish
  publish-Keeps s = ground arith

  abbrev moves : Outcome services.FilePath × Run floats services
  moves =
      (move RunStatus.finalizing >> (move RunStatus.pass_native >> publish floats services target))
        r

  moves-Certified :
      (path : services.FilePath)
      → moves.0 ≡ returned path
      → (r.lifecycle.status ≡ RunStatus.test_completed)
        × (moves.1.lifecycle.status ≡ RunStatus.pass_native)
        × (moves.1.final_verdict ≡ r.final_verdict)
  moves-Certified path h =
      let (a, ra, ea) =
        >>=-returned (move RunStatus.finalizing)
          (λ _. move RunStatus.pass_native >> publish floats services target) r path h in
      let r1 = (move {services = services} RunStatus.finalizing r).1 in
      let (b, rb, eb) =
        >>=-returned (move RunStatus.pass_native) (λ _. publish floats services target) r1 path
          (sym (ap (λ x. x.0) ea) ∙ h) in
      let (s, es, ss, edge) = move-returned {services = services} RunStatus.finalizing r a ra in
      let (s2, es2, ss2, edge2) =
        move-returned {services = services} RunStatus.pass_native r1 b rb in
      let (keeps, same) = publish-Keeps (move {services = services} RunStatus.pass_native r1).1 in
      (
        to_finalizing edge,
        ap (λ x. x.1.lifecycle.status) (ea ∙ eb)
            ∙ ap (λ x. x.status) keeps
            ∙ ap (λ x. x.lifecycle.status) es2
            ∙ ss2,
        ap (λ x. x.1.final_verdict) (ea ∙ eb)
            ∙ same
            ∙ ap (λ x. x.final_verdict) es2
            ∙ ap (λ x. x.final_verdict) es,
      )

  -- the two refusals of the body, over any tests and whatever comes after them
  guarded→ :
      (b c : Bool) (e f : Problem) (rest : Body (Run floats services) services.FilePath)
      (path : services.FilePath)
      → ((refuse_if b e >> (refuse_if c f >> rest)) r).0 ≡ returned path
      → (b ≡ false) × (c ≡ false) × ((refuse_if b e >> (refuse_if c f >> rest)) r ≡ rest r)
  guarded→ true c e f rest path h = absurd (ground arith)
  guarded→ false true e f rest path h = absurd (ground arith)
  guarded→ false false e f rest path h = (refl, refl, refl)

  release_body-IsReleased : (path : services.FilePath) → body.0 ≡ returned path → IsReleased
  unfolding release_finalization_body
  release_body-IsReleased path h =
      let (certified, complete, same) =
        guarded→ (not (is_certified r.final_verdict))
          (not (is_empty (missing_files floats services r.world))) _ _
          (move RunStatus.finalizing
            >> (move RunStatus.pass_native >> publish floats services target))
          path h in
      let (from, status, verdict) = moves-Certified path (sym (ap (λ x. x.0) same) ∙ h) in
      record {
        certified = ground arith;
        complete = ground arith;
        from = from;
        status = ap (λ x. x.1.lifecycle.status) same ∙ status;
        same_verdict = ap (λ x. x.1.final_verdict) same ∙ verdict;
      }

module _ (floats : Floats) (services : Services floats) where
  abbrev target_of : PhaseCall floats services → Option services.FilePath
  target_of (call_release_finalization target) = some target
  target_of c = none

  -- A call of the last phase is a call of the release.
  release_call :
      (c : PhaseCall floats services)
      → same_phase TransactionPhase.release_finalization (phase_of floats services c) ≡ true
      → (target : services.FilePath) × (c ≡ call_release_finalization target)
  unfolding same_phase TransactionPhase-discrete
  release_call (call_release_finalization target) h = (target, refl)
  release_call (call_bootstrap layout) h = absurd (ground arith)
  release_call (call_freeze freeze checksum root shas) h = absurd (ground arith)
  release_call (call_raw_execution builder) h = absurd (ground arith)
  release_call call_raw_sealing h = absurd (ground arith)
  release_call (call_oracle_audit surfaces values) h = absurd (ground arith)
  release_call call_scoring h = absurd (ground arith)
  release_call call_gate_evaluation h = absurd (ground arith)
  release_call call_verdict_derivation h = absurd (ground arith)
  release_call (call_evidence_index records) h = absurd (ground arith)
  release_call (call_run_id_consistency reuse) h = absurd (ground arith)
  release_call call_health_verification h = absurd (ground arith)

  -- Once the release has returned, no call changes the transaction.
  closed_absorbs :
      (cs : List (PhaseCall floats services)) (t : Transaction floats services)
      → t.current_step_idx ≡ 11
      → t.completed_phases ≡ phase_sequence ++ TransactionPhase.completed ∷ []
      → run_calls floats services t cs ≡ t
  unfolding run_calls
  closed_absorbs [] t i ps = refl
  closed_absorbs (c ∷ cs) t i ps = elim (attempt_outcome floats services c t) [
    | inl (e, stopped, r, same) ↦ rw same (closed_absorbs cs t i ps)
    | inr (next, rest) ↦ absurd (released_stops floats services _ t next i ps)
  ]

  -- What the transaction is after a release that returned.
  pub record IsCertified (t : Transaction floats services) : Type 0 where
    pub verdict : is_certified t.run.final_verdict ≡ true
    pub status : t.run.lifecycle.status ≡ RunStatus.pass_native

  release_returned :
      (target : services.FilePath) (t : Transaction floats services)
      → (attempt floats services (call_release_finalization target) t).0 ≡ true
      → IsCertified (attempt floats services (call_release_finalization target) t).1
  unfolding attempt execute_release_finalization
  release_returned target t h =
      elim (execute_outcome floats services TransactionPhase.release_finalization
        Handler.fail_once_and_wrap_others (finish floats services) t
        (release_finalization_body floats services target)) [
          | inl (e, stopped, same) ↦ absurd (clash (sym (ap (λ x. is_ok x.0) same) ∙ h))
          | inr (next, inl (path, o, result, after)) ↦
              let rel = release_body-IsReleased floats services target t.run path o in
              record {
                verdict =
                    ap (λ u. is_certified u.run.final_verdict) after
                    ∙ ap is_certified rel.same_verdict
                    ∙ rel.certified;
                status = ap (λ u. u.run.lifecycle.status) after ∙ rel.status;
              }
          | inr (next, inr (e, result, failed, kept)) ↦ absurd (clash (sym (ap is_ok result) ∙ h))
        ]
    where
      clash : false ≡ true → ⊥
      clash e = ground arith

  later_release :
      (p : TransactionPhase) (rest : List TransactionPhase)
      → has_phase TransactionPhase.release_finalization (p ∷ rest) ≡ true
      → same_phase TransactionPhase.release_finalization p ≡ false
      → has_phase TransactionPhase.release_finalization rest ≡ true
  later_release p rest h e = ground arith

  ends_with_release :
      (log : List TransactionPhase)
      → has_phase TransactionPhase.release_finalization
          (log ++ TransactionPhase.release_finalization ∷ [])
        ≡ true
  unfolding same_phase TransactionPhase-discrete
  ends_with_release [] = refl
  ends_with_release (p ∷ log) = ground (arith, ends_with_release log)

  closed_by_release :
      (log : List TransactionPhase) (u : Transaction floats services)
      → IsInOrder floats services (log ++ TransactionPhase.release_finalization ∷ []) u
      → (u.current_step_idx ≡ 11)
        × (u.completed_phases ≡ phase_sequence ++ TransactionPhase.completed ∷ [])
  closed_by_release log u (inr (i, l, ps)) = (i, ps)
  closed_by_release log u (inl (bound, l, ps)) = absurd (
      clash (
        sym (ends_with_release log)
        ∙ ap (has_phase TransactionPhase.release_finalization) l
        ∙ release_is_last u.current_step_idx bound))
    where
      clash : true ≡ false → ⊥
      clash e = ground arith

  -- the release that returned, before calls that it makes futile
  release_then :
      (cs : List (PhaseCall floats services)) (target : services.FilePath)
      (log : List TransactionPhase) (t : Transaction floats services)
      → IsInOrder floats services log t
      → (attempt floats services (call_release_finalization target) t).0 ≡ true
      → IsCertified (
          run_calls floats services
            (attempt floats services (call_release_finalization target) t).1
            cs)
  release_then cs target log t w e =
      let (returns, u) = attempt floats services (call_release_finalization target) t in
      let order =
        Ran-InOrder floats services log TransactionPhase.release_finalization t returns u w
          (attempt_outcome floats services (call_release_finalization target) t) in
      let (i, ps) = closed_by_release log u (rw e at order) in
      rw (closed_absorbs cs u i ps) (release_returned target t e)

  release_certifies :
      (cs : List (PhaseCall floats services)) (log : List TransactionPhase)
      (t : Transaction floats services)
      → IsInOrder floats services log t
      → has_phase TransactionPhase.release_finalization (phases_returned floats services t cs)
        ≡ true
      → IsCertified (run_calls floats services t cs)
  unfolding run_calls phases_returned
  release_certifies [] log t w h = absurd (ground arith)
  release_certifies (c ∷ cs) log t w h =
      let (returns, u) = attempt floats services c t in
      let p = phase_of floats services c in
      let order =
        Ran-InOrder floats services log p t returns u w (attempt_outcome floats services c t) in
      elim (Bool-cases returns) [
        | inr e ↦ release_certifies cs _ u order (rw (e, phases_returned) at h)
        | inl e ↦ elim (Bool-cases (same_phase TransactionPhase.release_finalization p)) [
          | inr other ↦ release_certifies cs _ u order (
              later_release p (phases_returned floats services u cs) (rw (e, phases_returned) at h)
                other)
          | inl last ↦
              let (target, is_release) = release_call c last in
              rw is_release (release_then cs target log t w (rw is_release at e))
        ]
      ]

  -- Whatever calls a new transaction is given: once the release has returned, the verdict of the
  -- transaction is PROFILE_B_PASS_NATIVE, and so is the status of its lifecycle PASS_NATIVE.
  pub release-IsCertified :
      (run_id : String) (is_official matches : Bool) (world : services.World)
      (t : Transaction floats services)
      → new_transaction floats services run_id is_official matches world ≡ some t
      → (cs : List (PhaseCall floats services))
      → has_phase TransactionPhase.release_finalization (phases_returned floats services t cs)
        ≡ true
      → IsCertified (run_calls floats services t cs)
  release-IsCertified run_id is_official matches world t created cs h =
      release_certifies cs [] t
        (new_transaction-InOrder floats services run_id is_official matches world t created) h
