-- ===== src/Lifecycle/Steps.antt =====
-- One call of `RunLifecycle.transition`, against the transition diagram drawn on its own.
use mesa_e2e_certification.Prelude.{
  String, ◌≡◌, refl, inl, inr, true, none, some, is_some, arith, ◌↔◌, ◌≢◌, [], ◌∷◌, ◌++◌,
  Option-cases,
}
use mesa_e2e_certification.Models.{RunStatus}
use mesa_e2e_certification.Lifecycle.{
  Clock, RunLifecycle, Call, is_allowed, is_on_time, time_text, event, LifecycleError, transition,
}

-- The statuses that are left.
pub data IsLive : RunStatus → Type 0 where
  live_created : IsLive RunStatus.created
  live_bootstrapped : IsLive RunStatus.bootstrapped
  live_harness_ready : IsLive RunStatus.harness_ready
  live_gt_frozen : IsLive RunStatus.gt_frozen
  live_contract_frozen : IsLive RunStatus.contract_frozen
  live_test_running : IsLive RunStatus.test_running
  live_test_completed : IsLive RunStatus.test_completed
  live_finalizing : IsLive RunStatus.finalizing

-- The statuses in which frozen material can drift.
pub data IsFrozen : RunStatus → Type 0 where
  frozen_gt : IsFrozen RunStatus.gt_frozen
  frozen_contract : IsFrozen RunStatus.contract_frozen
  frozen_test_running : IsFrozen RunStatus.test_running
  frozen_test_completed : IsFrozen RunStatus.test_completed
  frozen_finalizing : IsFrozen RunStatus.finalizing

infix 40 ◌⟶◌
pub data ◌⟶◌ : RunStatus → RunStatus → Type 0 where
  bootstrap : RunStatus.created ⟶ RunStatus.bootstrapped
  ready : RunStatus.bootstrapped ⟶ RunStatus.harness_ready
  freeze_gt : RunStatus.harness_ready ⟶ RunStatus.gt_frozen
  freeze_contract : RunStatus.gt_frozen ⟶ RunStatus.contract_frozen
  start : RunStatus.contract_frozen ⟶ RunStatus.test_running
  complete : RunStatus.test_running ⟶ RunStatus.test_completed
  finalize : RunStatus.test_completed ⟶ RunStatus.finalizing
  certify : RunStatus.finalizing ⟶ RunStatus.pass_native
  give_up : {s : RunStatus} → IsLive s → s ⟶ RunStatus.fail
  obstruct : {s : RunStatus} → IsLive s → s ⟶ RunStatus.blocked
  drift : {s : RunStatus} → IsFrozen s → s ⟶ RunStatus.invalidated

ruleset diagram = (
  bootstrap, ready, freeze_gt, freeze_contract, start, complete, finalize, certify, give_up,
  obstruct, drift, live_created, live_bootstrapped, live_harness_ready, live_gt_frozen,
  live_contract_frozen, live_test_running, live_test_completed, live_finalizing, frozen_gt,
  frozen_contract, frozen_test_running, frozen_test_completed, frozen_finalizing,
)

is_allowed→⟶ : (s t : RunStatus) → is_allowed s t ≡ true → s ⟶ t
unfolding is_allowed
is_allowed→⟶ RunStatus.created t h = grind (arith, diagram)
is_allowed→⟶ s t h = grind (arith, diagram)

⟶→is_allowed : {s t : RunStatus} → s ⟶ t → is_allowed s t ≡ true
unfolding is_allowed
⟶→is_allowed (give_up live_created) = refl
⟶→is_allowed (obstruct live_created) = refl
⟶→is_allowed (drift frozen_gt) = refl
⟶→is_allowed e = refl

-- What a call that returns has done: the status is the target, and one event is appended.
pub record Moved (clock : Clock) (s : RunLifecycle) (c : Call clock) (t : RunLifecycle)
    : Type 0 where
  pub time : String
  pub in_utc : time_text clock c ≡ some time
  pub same_run : t.run_id ≡ s.run_id
  pub status : t.status ≡ c.target
  pub history : t.history ≡ s.history ++ event clock s c time ∷ []

-- A call gets as far as its event.
abbrev pub IsOpen : (clock : Clock) → RunLifecycle → Call clock → Type 0
IsOpen clock s c = (s.status ⟶ c.target) × (is_on_time clock c ≡ true)

module _ (clock : Clock) (s : RunLifecycle) (c : Call clock) where
  -- A call returns exactly when its target is an edge of the transition diagram away, its timestamp
  -- is timezone-aware and the conversion of it to UTC does not overflow; it then moves to the target
  -- and appends the event. Where only the conversion overflows, the call raises with the status
  -- moved to the target and no event, and every other call that raises leaves the object as it was.
  pub transition_outcome :
      (((transition clock s c).1 ≡ none)
        ↔ (IsOpen clock s c × (is_some (time_text clock c) ≡ true)))
      × ((transition clock s c).1 ≡ none → Moved clock s c (transition clock s c).0)
      × (((transition clock s c).1 ≡ some LifecycleError.timestamp_overflow)
          ↔ (IsOpen clock s c × (time_text clock c ≡ none)))
      × ((transition clock s c).1 ≡ some LifecycleError.timestamp_overflow
          → (transition clock s c).0 ≡ record s { status = c.target })
      × ((transition clock s c).1 ≢ none
          → (transition clock s c).1 ≢ some LifecycleError.timestamp_overflow
          → (transition clock s c).0 ≡ s)
  unfolding transition
  transition_outcome = elim (Option-cases (time_text clock c)) [
    | inl overflow ↦ (
      (λ h. ground arith, λ h. ground arith),
      λ h. ground arith,
      (
        λ h. ((is_allowed→⟶ s.status c.target (ground arith), ground arith), overflow),
        λ h. ground (arith, ⟶→is_allowed h.0.0),
      ),
      λ h. ground arith,
      λ h k. ground arith,
    )
    | inr (time, fits) ↦ (
      (
        λ h. ((is_allowed→⟶ s.status c.target (ground arith), ground arith), ground arith),
        λ h. ground (arith, ⟶→is_allowed h.0.0),
      ),
      λ h. record {
        time = time;
        in_utc = fits;
        same_run = ground arith;
        status = ground arith;
        history = ground arith;
      },
      (λ h. ground arith, λ h. ground arith),
      λ h. ground arith,
      λ h k. ground arith,
    )
  ]
