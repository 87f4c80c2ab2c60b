-- ===== src/Transaction/Calls/Ordered.antt =====
-- In which order the phases of a transaction can return.
use mathlib.Core.List.{append-nil, append_assoc}
use mesa_e2e_certification.Prelude.{
  ℕ, zero, suc, ◌<◌, String, ◌≡◌, ◌⊎◌, refl, sym, ap, ◌∙◌, subst, inl, inr, Bool, true, false, some,
  List, [], ◌∷◌, ◌++◌, arith, if◌then◌else◌, length, take,
}
use mesa_e2e_certification.Values.{Floats}
use mesa_e2e_certification.Transaction.{
  TransactionPhase, TransactionPhase-discrete, Problem, Services, phase_sequence, same_phase,
  has_phase, add_phase,
}
use mesa_e2e_certification.Transaction.Core.{
  Handler, Run, Transaction, Body, phase_at, require_phase, execute, new_transaction,
}
use mesa_e2e_certification.Transaction.Core.Guarding.{IsNext, Kept, with_run, execute_outcome}
use mesa_e2e_certification.Transaction.Preparing.{
  execute_bootstrap, execute_freeze, execute_raw_execution, execute_raw_sealing,
  execute_oracle_audit,
}
use mesa_e2e_certification.Transaction.Scoring.{execute_scoring}
use mesa_e2e_certification.Transaction.Gating.{execute_gate_evaluation}
use mesa_e2e_certification.Transaction.Closing.{
  execute_verdict_derivation, execute_evidence_index, execute_run_id_consistency,
  execute_health_verification, execute_release_finalization,
}
use mesa_e2e_certification.Transaction.Calls.{
  PhaseCall, call_bootstrap, call_freeze, call_raw_execution, call_raw_sealing, call_oracle_audit,
  call_scoring, call_gate_evaluation, call_verdict_derivation, call_evidence_index,
  call_run_id_consistency, call_health_verification, call_release_finalization, phase_of,
  outcome_of, attempt, run_calls, phases_returned,
}

-- the phases that are completed, and the index, once the phase has returned
abbrev pub completed_after : TransactionPhase → List TransactionPhase → List TransactionPhase
completed_after TransactionPhase.release_finalization ps =
    add_phase TransactionPhase.completed (add_phase TransactionPhase.release_finalization ps)
completed_after p ps = add_phase p ps

abbrev pub index_after : TransactionPhase → ℕ → ℕ
index_after TransactionPhase.release_finalization i = i
index_after p i = suc i

module _ (floats : Floats) (services : Services floats) where
  -- A phase that returned: it is complete, and nothing else is that was not.
  pub record Completed (p : TransactionPhase) (t u : Transaction floats services) : Type 0 where
    pub completed : u.completed_phases ≡ completed_after p t.completed_phases
    pub index : u.current_step_idx ≡ index_after p t.current_step_idx
    pub live : u.failed ≡ t.failed

  -- What a call of the phase has done: it raised since the phase is not the next one, and changed
  -- nothing; or the phase is the next one, and the call returned and completed it, or it raised and
  -- the transaction has failed.
  abbrev pub Ran :
      TransactionPhase → Transaction floats services → Bool × Transaction floats services → Type 0
  Ran p t (returns, u) =
      ((e : Problem) × (require_phase floats services p t ≡ some e) × (returns ≡ false) × (u ≡ t))
      ⊎ (IsNext floats services p t
          × (((returns ≡ true) × Completed p t u)
              ⊎ ((returns ≡ false) × (u.failed ≡ true) × Kept floats services t u)))

  module _ {A : Type 0} (p : TransactionPhase) (handler : Handler)
      (complete : Transaction floats services → Transaction floats services)
      (body : Body (Run floats services) A) (t : Transaction floats services)
      (completes : (r : Run floats services)
        → Completed p t (complete (with_run floats services t r))) where
    execute-Ran :
        Ran p t (outcome_of floats services (execute floats services p handler complete body t))
    execute-Ran = elim (execute_outcome floats services p handler complete t body) [
      | inl (e, stopped, same) ↦ inl (e, stopped, rw same refl, rw same refl)
      | inr (next, inl (a, o, result, after)) ↦
          inr (next, inl (rw result refl, rw after (completes (body t.run).1)))
      | inr (next, inr (e, result, failed, kept)) ↦ inr (next, inr (rw result refl, failed, kept))
    ]

  -- Each of the twelve methods, called at any time with any arguments and whatever the harness
  -- answers, either raises without a change since its phase is not the next one, or returns and
  -- completes its phase, or raises with the transaction failed and the completed phases kept.
  pub attempt_outcome :
      (c : PhaseCall floats services) (t : Transaction floats services)
      → Ran (phase_of floats services c) t (attempt floats services c t)
  unfolding attempt execute_bootstrap execute_freeze execute_raw_execution execute_raw_sealing
      execute_oracle_audit execute_scoring execute_gate_evaluation execute_verdict_derivation
      execute_evidence_index execute_run_id_consistency execute_health_verification
      execute_release_finalization
  attempt_outcome (call_bootstrap layout) t =
      execute-Ran _ _ _ _ t (λ r. record { completed = refl; index = refl; live = refl })
  attempt_outcome (call_freeze freeze checksum root shas) t =
      execute-Ran _ _ _ _ t (λ r. record { completed = refl; index = refl; live = refl })
  attempt_outcome (call_raw_execution builder) t =
      execute-Ran _ _ _ _ t (λ r. record { completed = refl; index = refl; live = refl })
  attempt_outcome call_raw_sealing t =
      execute-Ran _ _ _ _ t (λ r. record { completed = refl; index = refl; live = refl })
  attempt_outcome (call_oracle_audit surfaces values) t =
      execute-Ran _ _ _ _ t (λ r. record { completed = refl; index = refl; live = refl })
  attempt_outcome call_scoring t =
      execute-Ran _ _ _ _ t (λ r. record { completed = refl; index = refl; live = refl })
  attempt_outcome call_gate_evaluation t =
      execute-Ran _ _ _ _ t (λ r. record { completed = refl; index = refl; live = refl })
  attempt_outcome call_verdict_derivation t =
      execute-Ran _ _ _ _ t (λ r. record { completed = refl; index = refl; live = refl })
  attempt_outcome (call_evidence_index records) t =
      execute-Ran _ _ _ _ t (λ r. record { completed = refl; index = refl; live = refl })
  attempt_outcome (call_run_id_consistency reuse) t =
      execute-Ran _ _ _ _ t (λ r. record { completed = refl; index = refl; live = refl })
  attempt_outcome call_health_verification t =
      execute-Ran _ _ _ _ t (λ r. record { completed = refl; index = refl; live = refl })
  attempt_outcome (call_release_finalization target) t =
      execute-Ran _ _ _ _ t (λ r. record { completed = refl; index = refl; live = refl })

-- The phases that returned so far, those that the transaction records as completed, and its index:
-- a part of the sequence from its start, or all of it with the mark COMPLETED.
abbrev pub InOrder : List TransactionPhase → List TransactionPhase → ℕ → Type 0
InOrder log ps i =
    ((i < 12) × (log ≡ take i phase_sequence) × (ps ≡ take i phase_sequence))
    ⊎ ((i ≡ 11) × (log ≡ phase_sequence) × (ps ≡ phase_sequence ++ TransactionPhase.completed ∷ []))

-- What the phase of an index leaves behind.
abbrev NextInOrder : ℕ → TransactionPhase → Type 0
NextInOrder i p =
    InOrder (take i phase_sequence ++ p ∷ []) (completed_after p (take i phase_sequence))
      (index_after p i)

some_inj : {p q : TransactionPhase} → some p ≡ some q → p ≡ q
some_inj h = ground arith

next-InOrder :
    (i : ℕ) (p : TransactionPhase) → i < 12 → phase_at i phase_sequence ≡ some p → NextInOrder i p
unfolding same_phase TransactionPhase-discrete
next-InOrder zero p l h = subst (NextInOrder 0) (some_inj h) (inl (omega arith, refl, refl))
next-InOrder (suc zero) p l h = subst (NextInOrder 1) (some_inj h) (inl (omega arith, refl, refl))
next-InOrder (suc (suc zero)) p l h =
    subst (NextInOrder 2) (some_inj h) (inl (omega arith, refl, refl))
next-InOrder (suc (suc (suc zero))) p l h =
    subst (NextInOrder 3) (some_inj h) (inl (omega arith, refl, refl))
next-InOrder (suc (suc (suc (suc zero)))) p l h =
    subst (NextInOrder 4) (some_inj h) (inl (omega arith, refl, refl))
next-InOrder (suc (suc (suc (suc (suc zero))))) p l h =
    subst (NextInOrder 5) (some_inj h) (inl (omega arith, refl, refl))
next-InOrder (suc (suc (suc (suc (suc (suc zero)))))) p l h =
    subst (NextInOrder 6) (some_inj h) (inl (omega arith, refl, refl))
next-InOrder (suc (suc (suc (suc (suc (suc (suc zero))))))) p l h =
    subst (NextInOrder 7) (some_inj h) (inl (omega arith, refl, refl))
next-InOrder (suc (suc (suc (suc (suc (suc (suc (suc zero)))))))) p l h =
    subst (NextInOrder 8) (some_inj h) (inl (omega arith, refl, refl))
next-InOrder (suc (suc (suc (suc (suc (suc (suc (suc (suc zero))))))))) p l h =
    subst (NextInOrder 9) (some_inj h) (inl (omega arith, refl, refl))
next-InOrder (suc (suc (suc (suc (suc (suc (suc (suc (suc (suc zero)))))))))) p l h =
    subst (NextInOrder 10) (some_inj h) (inl (omega arith, refl, refl))
next-InOrder (suc (suc (suc (suc (suc (suc (suc (suc (suc (suc (suc zero))))))))))) p l h =
    subst (NextInOrder 11) (some_inj h) (inr (refl, refl, refl))
next-InOrder (suc (suc (suc (suc (suc (suc (suc (suc (suc (suc (suc (suc i)))))))))))) p l h =
    absurd (omega (arith, l))

take-length-take : (xs : List TransactionPhase) (i : ℕ) → take (length (take i xs)) xs ≡ take i xs
take-length-take [] zero = refl
take-length-take [] (suc i) = refl
take-length-take (x ∷ xs) zero = refl
take-length-take (x ∷ xs) (suc i) = ap (λ l. x ∷ l) (take-length-take xs i)

pub release_is_last :
    (i : ℕ)
    → i < 12
    → has_phase TransactionPhase.release_finalization (take i phase_sequence) ≡ false
unfolding same_phase TransactionPhase-discrete
release_is_last zero l = refl
release_is_last (suc zero) l = refl
release_is_last (suc (suc zero)) l = refl
release_is_last (suc (suc (suc zero))) l = refl
release_is_last (suc (suc (suc (suc zero)))) l = refl
release_is_last (suc (suc (suc (suc (suc zero))))) l = refl
release_is_last (suc (suc (suc (suc (suc (suc zero)))))) l = refl
release_is_last (suc (suc (suc (suc (suc (suc (suc zero))))))) l = refl
release_is_last (suc (suc (suc (suc (suc (suc (suc (suc zero)))))))) l = refl
release_is_last (suc (suc (suc (suc (suc (suc (suc (suc (suc zero))))))))) l = refl
release_is_last (suc (suc (suc (suc (suc (suc (suc (suc (suc (suc zero)))))))))) l = refl
release_is_last (suc (suc (suc (suc (suc (suc (suc (suc (suc (suc (suc zero))))))))))) l = refl
release_is_last (suc (suc (suc (suc (suc (suc (suc (suc (suc (suc (suc (suc i)))))))))))) l =
    absurd (omega (arith, l))

module _ (floats : Floats) (services : Services floats) where
  abbrev pub IsInOrder : List TransactionPhase → Transaction floats services → Type 0
  IsInOrder log t = InOrder log t.completed_phases t.current_step_idx

  pub released_stops :
      (p : TransactionPhase) (t : Transaction floats services)
      → IsNext floats services p t
      → t.current_step_idx ≡ 11
      → t.completed_phases ≡ phase_sequence ++ TransactionPhase.completed ∷ []
      → ⊥
  unfolding same_phase TransactionPhase-discrete
  released_stops p t next i ps = clash (sym (rw (i, ps) at next.done) ∙ refl)
    where
      clash : true ≡ false → ⊥
      clash e = ground arith

  Completed-InOrder :
      (log : List TransactionPhase) (p : TransactionPhase) (t u : Transaction floats services)
      → IsInOrder log t
      → IsNext floats services p t
      → Completed floats services p t u
      → IsInOrder (log ++ p ∷ []) u
  Completed-InOrder log p t u (inr (i, l, ps)) next done = absurd (released_stops p t next i ps)
  Completed-InOrder log p t u (inl (bound, l, ps)) next done =
      rw (l, done.completed, done.index, ps) (next-InOrder t.current_step_idx p bound next.next)

  pub Ran-InOrder :
      (log : List TransactionPhase) (p : TransactionPhase) (t : Transaction floats services)
      (returns : Bool) (u : Transaction floats services)
      → IsInOrder log t
      → Ran floats services p t (returns, u)
      → IsInOrder (log ++ (if returns then p ∷ [] else [])) u
  Ran-InOrder log p t returns u w (inl (e, stopped, r, same)) = rw (r, same, append-nil log) w
  Ran-InOrder log p t returns u w (inr (next, inl (r, done))) =
      rw r (Completed-InOrder log p t u w next done)
  Ran-InOrder log p t returns u w (inr (next, inr (r, failed, kept))) =
      rw (r, append-nil log, kept.completed, kept.index) w

  joined :
      (returns : Bool) (p : TransactionPhase) (log rest : List TransactionPhase)
      → (log ++ (if returns then p ∷ [] else [])) ++ rest
        ≡ log ++ (if returns then p ∷ rest else rest)
  joined true p log rest = append_assoc log (p ∷ []) rest
  joined false p log rest = ap (λ l. l ++ rest) (append-nil log)

  run_calls-InOrder :
      (cs : List (PhaseCall floats services)) (log : List TransactionPhase)
      (t : Transaction floats services)
      → IsInOrder log t
      → IsInOrder (log ++ phases_returned floats services t cs) (run_calls floats services t cs)
  unfolding run_calls phases_returned
  run_calls-InOrder [] log t w = rw (append-nil log) w
  run_calls-InOrder (c ∷ cs) log t w =
      let (returns, u) = attempt floats services c t in
      subst (λ l. IsInOrder l (run_calls floats services u cs))
        (joined returns (phase_of floats services c) log (phases_returned floats services u cs))
        (run_calls-InOrder cs _ u (
          Ran-InOrder log (phase_of floats services c) t returns u w
            (attempt_outcome floats services c t)))

  new_fields :
      (run_id : String) (is_official matches : Bool) (world : services.World)
      (t : Transaction floats services)
      → new_transaction floats services run_id is_official matches world ≡ some t
      → (t.completed_phases ≡ []) × (t.current_step_idx ≡ 0)
  unfolding new_transaction
  new_fields run_id is_official matches world t h = (ground arith, ground arith)

  pub new_transaction-InOrder :
      (run_id : String) (is_official matches : Bool) (world : services.World)
      (t : Transaction floats services)
      → new_transaction floats services run_id is_official matches world ≡ some t
      → IsInOrder [] t
  new_transaction-InOrder run_id is_official matches world t created =
      let (empty, start) = new_fields run_id is_official matches world t created in
      inl (rw start (omega arith), rw start refl, rw (start, empty) refl)

  module _ (run_id : String) (is_official matches : Bool) (world : services.World)
      (t : Transaction floats services)
      (created : new_transaction floats services run_id is_official matches world ≡ some t)
      (cs : List (PhaseCall floats services)) where
    abbrev returns : List TransactionPhase
    returns = phases_returned floats services t cs

    abbrev after : Transaction floats services
    after = run_calls floats services t cs

    calls-InOrder : IsInOrder returns after
    calls-InOrder =
        run_calls-InOrder cs [] t
          (new_transaction-InOrder run_id is_official matches world t created)

    -- Whatever calls a new transaction is given, in any order and with any answers of the harness,
    -- the phases that return are a part of PHASE_SEQUENCE from its start, each of them once.
    pub phases_in_order : returns ≡ take (length returns) phase_sequence
    phases_in_order = elim calls-InOrder [
      | inl (bound, log, ps) ↦ rw log (sym (take-length-take phase_sequence after.current_step_idx))
      | inr (i, log, ps) ↦ rw log refl
    ]

    -- Once the release has returned, all twelve phases have, in the order of PHASE_SEQUENCE, and
    -- COMPLETED is recorded.
    pub release_needs_all :
        has_phase TransactionPhase.release_finalization returns ≡ true
        → (returns ≡ phase_sequence)
          × (after.completed_phases ≡ phase_sequence ++ TransactionPhase.completed ∷ [])
    release_needs_all h = elim calls-InOrder [
      | inl (bound, log, ps) ↦
          absurd (clash (sym (rw log at h) ∙ release_is_last after.current_step_idx bound))
      | inr (i, log, ps) ↦ (log, ps)
    ]
      where
        clash : true ≡ false → ⊥
        clash e = ground arith

-- A transaction that has failed stays as it is, and no call of any phase returns.
pub failed_absorbs :
    (floats : Floats) (services : Services floats) (cs : List (PhaseCall floats services))
    (t : Transaction floats services)
    → t.failed ≡ true
    → (run_calls floats services t cs ≡ t) × (phases_returned floats services t cs ≡ [])
unfolding run_calls phases_returned
failed_absorbs floats services [] t h = (refl, refl)
failed_absorbs floats services (c ∷ cs) t h = elim (attempt_outcome floats services c t) [
  | inl (e, stopped, r, same) ↦
      let (stays, none_returns) = failed_absorbs floats services cs t h in
      (rw same stays, rw (r, same) none_returns)
  | inr (next, rest) ↦ absurd (clash (sym h ∙ next.live))
]
  where
    clash : true ≡ false → ⊥
    clash e = ground arith
