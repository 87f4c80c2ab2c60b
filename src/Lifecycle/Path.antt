-- ===== src/Lifecycle/Path.antt =====
-- The history of a run: what any sequence of calls of `transition` can leave in it.
use mesa_e2e_certification.Prelude.{
  ℕ, ◌≤◌, String, ◌≡◌, refl, sym, ap, subst, inl, inr, Option, none, some, List, [], ◌∷◌, ◌++◌, map,
  length, arith, Option-cases, ◌+◌, ◌≢◌, All, true, is_some,
}
use mesa_e2e_certification.Models.{RunStatus}
use mesa_e2e_certification.Lifecycle.{
  Clock, Event, RunLifecycle, Call, LifecycleError, time_text, new, event, transition, run,
}
use mesa_e2e_certification.Lifecycle.Steps.{◌⟶◌, bootstrap, transition_outcome}

-- The events lead from one status to another along the diagram, each from where the last ended.
abbrev pub IsWalk : RunStatus → List Event → RunStatus → Type 0
IsWalk a [] b = a ≡ b
IsWalk a (e ∷ es) b = (e.source ≡ a) × (a ⟶ e.target) × IsWalk e.target es b

IsWalk-snoc :
    (a : RunStatus) (es : List Event) {b : RunStatus} (e : Event)
    → IsWalk a es b
    → e.source ≡ b
    → b ⟶ e.target
    → IsWalk a (es ++ e ∷ []) e.target
IsWalk-snoc a [] e w h edge = (ground arith, subst (λ x. x ⟶ e.target) (sym w) edge, refl)
IsWalk-snoc a (x ∷ es) e (from, first, rest) h edge =
    (from, first, IsWalk-snoc x.target es e rest h edge)

module _ (clock : Clock) where
  -- No conversion of a call's timestamp to UTC overflows.
  abbrev pub InRange : List (Call clock) → Type 0
  InRange cs = All (λ c. is_some (time_text clock c) ≡ true) cs

  no_overflow :
      (s : RunLifecycle) (c : Call clock)
      → is_some (time_text clock c) ≡ true
      → (transition clock s c).1 ≢ some LifecycleError.timestamp_overflow
  no_overflow s c h e =
      let (returns, moves, overflows, strays, keeps) = transition_outcome clock s c in
      absent (time_text clock c) h (overflows.0 e).1
    where
      absent : (o : Option String) → is_some o ≡ true → o ≡ none → ⊥
      absent o h e = ground arith

  transition-IsWalk :
      (s : RunLifecycle) (c : Call clock)
      → is_some (time_text clock c) ≡ true
      → IsWalk RunStatus.created s.history s.status
      → (let t = (transition clock s c).0 in IsWalk RunStatus.created t.history t.status)
  transition-IsWalk s c fits w =
      let (returns, moves, overflows, strays, keeps) = transition_outcome clock s c in
      elim (Option-cases (transition clock s c).1) [
        | inl ok ↦
            let m = moves ok in
            rw (m.history, m.status)
              (IsWalk-snoc RunStatus.created s.history (event clock s c m.time) w refl
                (returns.0 ok).0.0)
        | inr (x, raised) ↦ rw (keeps (λ e. cc (raised, e)) (no_overflow s c fits)) w
      ]

  run-IsWalk :
      (cs : List (Call clock)) (s : RunLifecycle)
      → InRange cs
      → IsWalk RunStatus.created s.history s.status
      → (let t = run clock s cs in IsWalk RunStatus.created t.history t.status)
  unfolding run
  run-IsWalk [] s r w = w
  run-IsWalk (c ∷ cs) s r w =
      run-IsWalk cs (transition clock s c).0 r.1 (transition-IsWalk s c r.0 w)

-- The phases that a run in this status has yet to enter in order to be certified.
abbrev phases_left : RunStatus → Option (List RunStatus)
phases_left RunStatus.pass_native = some []
phases_left RunStatus.finalizing = some (RunStatus.pass_native ∷ [])
phases_left RunStatus.test_completed = some (RunStatus.finalizing ∷ RunStatus.pass_native ∷ [])
phases_left RunStatus.test_running =
    some (RunStatus.test_completed ∷ RunStatus.finalizing ∷ RunStatus.pass_native ∷ [])
phases_left RunStatus.contract_frozen = some (
    RunStatus.test_running ∷ RunStatus.test_completed ∷ RunStatus.finalizing ∷ RunStatus.pass_native
    ∷ [])
phases_left RunStatus.gt_frozen = some (
    RunStatus.contract_frozen ∷ RunStatus.test_running ∷ RunStatus.test_completed
    ∷ RunStatus.finalizing ∷ RunStatus.pass_native ∷ [])
phases_left RunStatus.harness_ready = some (
    RunStatus.gt_frozen ∷ RunStatus.contract_frozen ∷ RunStatus.test_running
    ∷ RunStatus.test_completed ∷ RunStatus.finalizing ∷ RunStatus.pass_native ∷ [])
phases_left RunStatus.bootstrapped = some (
    RunStatus.harness_ready ∷ RunStatus.gt_frozen ∷ RunStatus.contract_frozen
    ∷ RunStatus.test_running ∷ RunStatus.test_completed ∷ RunStatus.finalizing
    ∷ RunStatus.pass_native ∷ [])
phases_left RunStatus.created = some (
    RunStatus.bootstrapped ∷ RunStatus.harness_ready ∷ RunStatus.gt_frozen
    ∷ RunStatus.contract_frozen ∷ RunStatus.test_running ∷ RunStatus.test_completed
    ∷ RunStatus.finalizing ∷ RunStatus.pass_native ∷ [])
phases_left _ = none

phases_left-⟶ :
    {s t : RunStatus} (l : List RunStatus)
    → s ⟶ t
    → phases_left t ≡ some l
    → phases_left s ≡ some (t ∷ l)
phases_left-⟶ l bootstrap h = ground arith
phases_left-⟶ l e h = ground arith

phases_left-IsWalk :
    (s : RunStatus) (es : List Event)
    → IsWalk s es RunStatus.pass_native
    → phases_left s ≡ some (map (λ (e : Event). e.target) es)
phases_left-IsWalk s [] w = ap phases_left w
phases_left-IsWalk s (e ∷ es) (from, edge, rest) =
    phases_left-⟶ _ edge (phases_left-IsWalk e.target es rest)

-- The statuses that a run can still enter, at most.
abbrev steps_left : RunStatus → ℕ
steps_left s = elim (phases_left s) [ none ↦ 0 | some l ↦ length l ]

-- The events of a run and the statuses that it can still enter are eight at most.
abbrev IsBounded : RunLifecycle → Type 0
IsBounded s = length s.history + steps_left s.status ≤ 8

new_fields :
    (run_id : String) (s : RunLifecycle)
    → new run_id ≡ some s
    → (s.history ≡ []) × (s.status ≡ RunStatus.created)
unfolding new
new_fields run_id s h = (ground arith, ground arith)

module _ (clock : Clock) (run_id : String) (s : RunLifecycle) (created : new run_id ≡ some s)
    (cs : List (Call clock)) where
  -- Whatever calls a new run is given, as long as no conversion of a timestamp to UTC overflows, its
  -- history is a walk of the transition diagram from CREATED to the run's status, in which each event
  -- starts where the last one ended.
  pub history-IsWalk :
      InRange clock cs → IsWalk RunStatus.created (run clock s cs).history (run clock s cs).status
  history-IsWalk r =
      let (empty, fresh) = new_fields run_id s created in
      run-IsWalk clock cs s r (rw (empty, fresh))

  -- A new run that calls have brought to PASS_NATIVE, none of whose timestamps overflowed in the
  -- conversion to UTC, has entered every phase of the benchmark once, in order, and nothing else.
  pub certified_path :
      InRange clock cs
      → (run clock s cs).status ≡ RunStatus.pass_native
      → map (λ (e : Event). e.target) (run clock s cs).history
        ≡ RunStatus.bootstrapped ∷ RunStatus.harness_ready ∷ RunStatus.gt_frozen
          ∷ RunStatus.contract_frozen ∷ RunStatus.test_running ∷ RunStatus.test_completed
          ∷ RunStatus.finalizing ∷ RunStatus.pass_native ∷ []
  certified_path r h =
      cc (phases_left-IsWalk RunStatus.created (run clock s cs).history (rw h at history-IsWalk r))
