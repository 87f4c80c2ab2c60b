-- ===== src/Lifecycle.antt =====
-- harness/lifecycle.py: the run lifecycle. A method that changes the object returns the new object
-- with what the call did. `datetime` is the section's parameter.
pub mod Steps
pub mod Path
use mathlib.Core.Bool.{decide}
use mesa_e2e_certification.Prelude.{
  String, ◌==◌, Bool, true, false, Option, none, some, List, [], ◌∷◌, ◌++◌, any, not, if◌then◌else◌,
}
use mesa_e2e_certification.Models.{RunStatus, RunStatus-discrete}

-- What the lifecycle uses of `datetime`.
pub record Clock : Type 1 where
  pub Instant : Type 0
  -- `tzinfo is not None and utcoffset() is not None`
  pub is_aware : Instant → Bool
  -- `astimezone(timezone.utc).isoformat().replace("+00:00", "Z")`; `none` is an OverflowError
  pub utc_text : Instant → Option String

pub data LifecycleError : Type 0 where
  empty_run_id invalid_transition naive_timestamp timestamp_overflow : LifecycleError

pub record Event : Type 0 where
  pub source : RunStatus
  pub target : RunStatus
  pub timestamp_utc : String
  pub reason : Option String

pub record RunLifecycle : Type 0 where
  pub run_id : String
  pub status : RunStatus
  pub history : List Event

-- LINEAR_TRANSITIONS
unfoldable pub linear_transition : RunStatus → Option RunStatus
linear_transition RunStatus.created = some RunStatus.bootstrapped
linear_transition RunStatus.bootstrapped = some RunStatus.harness_ready
linear_transition RunStatus.harness_ready = some RunStatus.gt_frozen
linear_transition RunStatus.gt_frozen = some RunStatus.contract_frozen
linear_transition RunStatus.contract_frozen = some RunStatus.test_running
linear_transition RunStatus.test_running = some RunStatus.test_completed
linear_transition RunStatus.test_completed = some RunStatus.finalizing
linear_transition _ = none

-- TERMINAL_STATUSES
unfoldable pub is_terminal : RunStatus → Bool
is_terminal RunStatus.pass_native = true
is_terminal RunStatus.fail = true
is_terminal RunStatus.blocked = true
is_terminal RunStatus.invalidated = true
is_terminal _ = false

-- the statuses from which a run can be invalidated
unfoldable pub is_invalidatable : RunStatus → Bool
is_invalidatable RunStatus.gt_frozen = true
is_invalidatable RunStatus.contract_frozen = true
is_invalidatable RunStatus.test_running = true
is_invalidatable RunStatus.test_completed = true
is_invalidatable RunStatus.finalizing = true
is_invalidatable _ = false

unfoldable pub same : RunStatus → RunStatus → Bool
unfolding RunStatus-discrete decide
same s t = decide (RunStatus-discrete s t)

abbrev to_list : Option RunStatus → List RunStatus
to_list none = []
to_list (some s) = s ∷ []

unfoldable pub allowed_transitions : RunStatus → List RunStatus
unfolding linear_transition is_terminal is_invalidatable same
allowed_transitions s =
    if is_terminal s
    then []
    else (RunStatus.fail ∷ RunStatus.blocked ∷ [])
      ++ to_list (linear_transition s)
      ++ (if is_invalidatable s then RunStatus.invalidated ∷ [] else [])
      ++ (if same s RunStatus.finalizing then RunStatus.pass_native ∷ [] else [])

unfoldable pub is_allowed : RunStatus → RunStatus → Bool
unfolding allowed_transitions
is_allowed s t = any (same t) (allowed_transitions s)

-- `RunLifecycle(run_id)`
unfoldable pub new : String → Option RunLifecycle
new run_id =
    if run_id == ""
    then none
    else some (record { run_id = run_id; status = RunStatus.created; history = [] })

-- `if reason: event["reason"] = reason`
abbrev non_empty : Option String → Option String
non_empty none = none
non_empty (some r) = if r == "" then none else some r

module _ (clock : Clock) where
  open clock use {Instant, is_aware, utc_text}

  -- the arguments of one call, and what `datetime.now` answers during it
  pub record Call : Type 0 where
    pub target : RunStatus
    pub at : Option Instant
    pub reason : Option String
    pub now : Instant

  abbrev timestamp : Option Instant → Instant → Instant
  timestamp none now = now
  timestamp (some t) now = t

  abbrev pub is_on_time : Call → Bool
  is_on_time c = is_aware (timestamp c.at c.now)

  -- the text of the event's time, where the conversion to UTC does not overflow
  abbrev pub time_text : Call → Option String
  time_text c = utc_text (timestamp c.at c.now)

  abbrev pub event : RunLifecycle → Call → String → Event
  event s c time = record {
    source = s.status;
    target = c.target;
    timestamp_utc = time;
    reason = non_empty c.reason;
  }

  -- `self.status` is assigned before the event is built.
  unfoldable pub transition : RunLifecycle → Call → RunLifecycle × Option LifecycleError
  transition s c =
      if not (is_allowed s.status c.target)
      then (s, some LifecycleError.invalid_transition)
      else if not (is_on_time c)
      then (s, some LifecycleError.naive_timestamp)
      else elim (time_text c) [
        | none ↦ (record s { status = c.target }, some LifecycleError.timestamp_overflow)
        | some time ↦
            (record s { status = c.target; history = s.history ++ event s c time ∷ [] }, none)
      ]

  -- A caller that makes these calls in turn and goes on after an exception.
  unfoldable pub run : RunLifecycle → List Call → RunLifecycle
  run s [] = s
  run s (c ∷ cs) = run (transition s c).0 cs
