-- ===== src/Transaction/Core/Guarding.antt =====
-- What the guard and the `try` statement of a phase do, whatever its body is.
use mathlib.Core.Bool.{decide}
use mesa_e2e_certification.Prelude.{
  ◌≡◌, ◌⊎◌, refl, Bool, true, false, not, none, some, inl, inr, arith, if◌then◌else◌, Option-cases,
  take,
}
use mesa_e2e_certification.Models.{RunStatus}
use mesa_e2e_certification.Values.{Floats}
use mesa_e2e_certification.Transaction.{
  TransactionPhase, TransactionPhase-discrete, Problem, Services, phase_sequence, same_phase,
  same_phases, has_failed,
}
use mesa_e2e_certification.Transaction.Core.{
  Result, ok, err, Outcome, returned, raised, refused, Handler, phase_at, Run, Transaction, Body,
  is_lifecycle_valid, require_phase, fail_transaction, fail_as, settle, execute,
}

decide→ : {P : Type 0} (d : Dec P) → decide d ≡ true → P
unfolding decide
decide→ (yes e) h = e
decide→ (no n) h = absurd (ground arith)

same_phase→ : (p q : TransactionPhase) → same_phase p q ≡ true → p ≡ q
unfolding same_phase
same_phase→ p q h = decide→ (TransactionPhase-discrete p q) h

module _ (floats : Floats) (services : Services floats) where
  -- What holds where `_require_phase` does not raise.
  pub record IsNext (phase : TransactionPhase) (t : Transaction floats services) : Type 0 where
    pub live : t.failed ≡ false
    pub next : phase_at t.current_step_idx phase_sequence ≡ some phase
    pub done : same_phases t.completed_phases (take t.current_step_idx phase_sequence) ≡ true
    pub replayed : is_lifecycle_valid floats services t ≡ true

  guard→ :
      (failed in_order valid same : Bool) (a b c d : Problem)
      → (if failed
          then some a
          else if not in_order
          then some b
          else if not valid
          then some c
          else if not same
          then some d
          else none)
        ≡ none
      → (failed ≡ false) × (in_order ≡ true) × (valid ≡ true) × (same ≡ true)
  guard→ failed in_order valid same a b c d h = ground arith

  module _ (phase : TransactionPhase) (t : Transaction floats services) where
    require_phase→ : require_phase floats services phase t ≡ none → IsNext phase t
    unfolding require_phase
    require_phase→ h = elim (Option-cases (phase_at t.current_step_idx phase_sequence)) [
      | inl e ↦ absurd (missing (rw (e, require_phase) at h))
      | inr (expected, e) ↦
          let (live, in_order, valid, same) =
            guard→ t.failed _ _ _ _ _ _ _ (rw (e, require_phase) at h) in
          record {
            live = live;
            next = rw (same_phase→ phase expected same) e;
            done = in_order;
            replayed = valid;
          }
    ]
      where
        missing :
            (if t.failed
                then some (has_failed t.run.failure_reason)
                else some Problem.sequence_corrupted)
              ≡ none
            → ⊥
        missing h = ground arith

  fail_as-Failed :
      (handler : Handler) (problem : Problem) (t : Transaction floats services)
      → (let u = fail_as floats services handler problem t in
          (u.failed ≡ true)
          × (u.completed_phases ≡ t.completed_phases)
          × (u.current_step_idx ≡ t.current_step_idx))
  unfolding fail_as fail_transaction
  fail_as-Failed Handler.fail_and_wrap problem t = (refl, refl, refl)
  fail_as-Failed Handler.fail_once problem t = ground arith
  fail_as-Failed Handler.fail_once_and_wrap problem t = ground arith
  fail_as-Failed Handler.fail_once_and_wrap_others problem t = ground arith

  -- A call that raised: the phases that were completed stay so.
  pub record Kept (t u : Transaction floats services) : Type 0 where
    pub completed : u.completed_phases ≡ t.completed_phases
    pub index : u.current_step_idx ≡ t.current_step_idx

  abbrev pub with_run :
      Transaction floats services → Run floats services → Transaction floats services
  with_run t r = record t { run = r }

  module _ {A : Type 0} (phase : TransactionPhase) (handler : Handler)
      (complete : Transaction floats services → Transaction floats services)
      (t : Transaction floats services) where
    -- The body returned, and the phase is complete.
    abbrev pub Returned :
        Outcome A × Run floats services → Result A × Transaction floats services → Type 0
    Returned (o, r) (result, u) =
        (a : A) × (o ≡ returned a) × (result ≡ ok a) × (u ≡ complete (with_run t r))

    -- The body raised, and the transaction has failed.
    abbrev pub Raised : Result A × Transaction floats services → Type 0
    Raised (result, u) = (e : Problem) × (result ≡ err e) × (u.failed ≡ true) × Kept t u

    settle_outcome :
        (o : Outcome A) (r : Run floats services)
        → (let result = settle floats services phase handler complete o (with_run t r) in
            Returned (o, r) result ⊎ Raised result)
    unfolding settle fail_transaction
    settle_outcome (returned a) r = inl (a, refl, refl, refl)
    settle_outcome (raised e) r =
        let (f, c, i) = fail_as-Failed handler (Problem.in_phase phase e) (with_run t r) in
        inr (_, refl, f, record { completed = c; index = i })
    settle_outcome (refused e) r =
        let (f, c, i) =
          fail_as-Failed handler (Problem.in_phase phase e)
            (fail_transaction floats services e RunStatus.fail (with_run t r)) in
        inr (_, refl, f, record { completed = c; index = i })

    module _ (body : Body (Run floats services) A) where
      abbrev result : Result A × Transaction floats services
      result = execute floats services phase handler complete body t

      -- A phase that is not the next one raises and changes nothing; the next one returns and is
      -- complete, or raises and fails the transaction.
      pub execute_outcome :
          ((e : Problem) × (require_phase floats services phase t ≡ some e) × (result ≡ (err e, t)))
          ⊎ (IsNext phase t × (Returned (body t.run) result ⊎ Raised result))
      unfolding execute
      execute_outcome = elim (Option-cases (require_phase floats services phase t)) [
        | inr (e, stopped) ↦ inl (e, stopped, rw (stopped, execute) refl)
        | inl passes ↦ inr (
          require_phase→ phase t passes,
          rw (passes, execute) (settle_outcome (body t.run).0 (body t.run).1),
        )
      ]
