-- ===== src/Examples/Runs.antt =====
-- Runs of the lifecycle.
use mesa_e2e_certification.Prelude.{◌≡◌, refl, Bool, true, false, none, some, List, [], ◌∷◌, map}
use mesa_e2e_certification.Models.{RunStatus}
use mesa_e2e_certification.Lifecycle.{
  is_allowed, Clock, Event, RunLifecycle, Call, LifecycleError, new, transition, run,
}
use mesa_e2e_certification.Lifecycle.Steps.{Moved, transition_outcome}
use mesa_e2e_certification.Lifecycle.Path.{IsWalk, history-IsWalk, certified_path, InRange}

-- An instant is whether it has a time zone.
abbrev pub clock : Clock
clock = record { Instant = Bool; is_aware = λ t. t; utc_text = λ t. some "2026-01-01T00:00:00Z" }

abbrev pub created_run : RunLifecycle
created_run = record { run_id = "run-1"; status = RunStatus.created; history = [] }

abbrev call : RunStatus → Call clock
call target = record { target = target; at = none; reason = none; now = true }

abbrev naive_call : Call clock
naive_call = record {
  target = RunStatus.bootstrapped;
  at = some false;
  reason = some "too early";
  now = true;
}

-- Two calls of these raise.
abbrev calls : List (Call clock)
calls =
    naive_call
    ∷ call RunStatus.bootstrapped
    ∷ call RunStatus.harness_ready
    ∷ call RunStatus.pass_native
    ∷ call RunStatus.gt_frozen
    ∷ call RunStatus.contract_frozen
    ∷ call RunStatus.test_running
    ∷ call RunStatus.test_completed
    ∷ call RunStatus.finalizing
    ∷ call RunStatus.pass_native
    ∷ []

calls-InRange : InRange clock calls
calls-InRange = (refl, (refl, (refl, (refl, (refl, (refl, (refl, (refl, (refl, (refl, tt))))))))))

naive_call_raises :
    (transition clock created_run naive_call).1 ≡ some LifecycleError.naive_timestamp
unfolding transition is_allowed
naive_call_raises = refl

transition_outcome_example :
    Moved clock created_run
      (call RunStatus.bootstrapped)
      (transition clock created_run (call RunStatus.bootstrapped)).0
unfolding transition is_allowed
transition_outcome_example =
    (transition_outcome clock created_run (call RunStatus.bootstrapped)).1 refl

history-IsWalk_example :
    IsWalk RunStatus.created
      (run clock created_run calls).history
      (run clock created_run calls).status
unfolding new
history-IsWalk_example = history-IsWalk clock "run-1" created_run refl calls calls-InRange

certified_path_example :
    map (λ (e : Event). e.target) (run clock created_run calls).history
    ≡ RunStatus.bootstrapped ∷ RunStatus.harness_ready ∷ RunStatus.gt_frozen
      ∷ RunStatus.contract_frozen ∷ RunStatus.test_running ∷ RunStatus.test_completed
      ∷ RunStatus.finalizing ∷ RunStatus.pass_native ∷ []
unfolding new run transition is_allowed
certified_path_example = certified_path clock "run-1" created_run refl calls calls-InRange refl

-- In an instant at the end of the range of dates the status moves and no event is appended.
abbrev overflowing : Clock
overflowing = record { Instant = Bool; is_aware = λ t. true; utc_text = λ t. none }

overflow_moves :
    (transition overflowing created_run
      (record { target = RunStatus.bootstrapped; at = none; reason = none; now = true })).0
    ≡ record created_run { status = RunStatus.bootstrapped }
unfolding transition is_allowed
overflow_moves = refl
