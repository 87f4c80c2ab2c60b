-- ===== src/Transaction/Core.antt =====
-- The state of a transaction, the order of its phases, and how a phase fails: `__init__`,
-- `_require_phase` and `_fail_transaction`, and the `try` statement that every phase has.
pub mod Guarding
pub mod Bodies
use mesa_e2e_certification.Prelude.{
  ℕ, zero, suc, String, Bool, true, false, not, ◌&&◌, Option, none, some, List, [], ◌∷◌,
  if◌then◌else◌, take, Dict,
}
use mesa_e2e_certification.Json.{Json}
use mesa_e2e_certification.Models.{RunStatus}
use mesa_e2e_certification.Values.{Floats}
use mesa_e2e_certification.Gates.{GateResult}
use mesa_e2e_certification.Verdict.{FinalVerdict}
use mesa_e2e_certification.Lifecycle.{
  Call, Event, LifecycleError, RunLifecycle, same, is_allowed, new, transition,
}
use mesa_e2e_certification.Transaction.{
  TransactionPhase, Problem, Services, phase_sequence, same_phase, same_phases, add_phase,
  is_transaction_error, has_failed,
}

pub data Result (A : Type 0) : Type 0 where
  ok : A → Result A
  err : Problem → Result A

-- How the body of a phase stops: `raised` is an exception, and `refused` an exception right before
-- which the body has called `_fail_transaction` with the same message.
pub data Outcome (A : Type 0) : Type 0 where
  returned : A → Outcome A
  raised refused : Problem → Outcome A

-- A body: statements that read and change a state, up to an exception.
abbrev pub Body : Type 0 → Type 0 → Type 0
Body S A = S → Outcome A × S

module _ {S : Type 0} where
  abbrev pub pure : {A : Type 0} → A → Body S A
  pure a s = (returned a, s)

  -- what comes after a statement, where it returned
  abbrev pub continued : {A B : Type 0} → Outcome A → S → (A → Body S B) → Outcome B × S
  continued (returned a) s f = f a s
  continued (raised e) s f = (raised e, s)
  continued (refused e) s f = (refused e, s)

  infixl 5 ◌>>=◌ ◌>>◌
  abbrev pub ◌>>=◌ : {A B : Type 0} → Body S A → (A → Body S B) → Body S B
  ◌>>=◌ m f s = continued (m s).0 (m s).1 f

  abbrev pub ◌>>◌ : {B : Type 0} → Body S (Unit {0}) → Body S B → Body S B
  m >> k = m >>= λ _. k

  abbrev pub gets : {A : Type 0} → (S → A) → Body S A
  gets f s = (returned (f s), s)

  abbrev pub modify : (S → S) → Body S (Unit {0})
  modify f s = (returned tt, f s)

  abbrev pub or_raise : {A : Type 0} → Option A → Problem → Body S A
  or_raise none problem s = (raised problem, s)
  or_raise (some a) problem s = (returned a, s)

  abbrev pub raise_if : Bool → Problem → Body S (Unit {0})
  raise_if b problem s = (if b then raised problem else returned tt, s)

  -- `_fail_transaction(problem)` and `raise TransactionError(problem)`, under a test
  abbrev pub refuse_if : Bool → Problem → Body S (Unit {0})
  refuse_if b problem s = (if b then refused problem else returned tt, s)

  abbrev pub only_if : Bool → Body S (Unit {0}) → Body S (Unit {0})
  only_if b m s = if b then m s else (returned tt, s)

-- What the `except` clause of a phase does: it fails the transaction, or does so where the body has
-- not; and it raises its own error, the error of the body, or its own unless the body's is one.
pub data Handler : Type 0 where
  fail_and_wrap fail_once fail_once_and_wrap fail_once_and_wrap_others : Handler

-- The error that the `except` clause raises.
unfoldable pub raised_as : TransactionPhase → Handler → Problem → Problem
raised_as phase Handler.fail_and_wrap e = Problem.in_phase phase e
raised_as phase Handler.fail_once e = e
raised_as phase Handler.fail_once_and_wrap e = Problem.in_phase phase e
raised_as phase Handler.fail_once_and_wrap_others e =
    if is_transaction_error e then e else Problem.in_phase phase e

abbrev or_service : {A : Type 0} → Option A → Outcome A
or_service none = raised Problem.service_raised
or_service (some a) = returned a

abbrev or_lifecycle : Option LifecycleError → Outcome (Unit {0})
or_lifecycle none = returned tt
or_lifecycle (some e) = raised (Problem.lifecycle_raised e)

-- PHASE_SEQUENCE[i]
abbrev pub phase_at : ℕ → List TransactionPhase → Option TransactionPhase
phase_at i [] = none
phase_at zero (p ∷ ps) = some p
phase_at (suc i) (p ∷ ps) = phase_at i ps

-- the status that the lifecycle has before the phase of this index
abbrev pub expected_status : ℕ → RunStatus
expected_status zero = RunStatus.created
expected_status (suc zero) = RunStatus.harness_ready
expected_status (suc (suc zero)) = RunStatus.contract_frozen
expected_status (suc (suc (suc zero))) = RunStatus.test_running
expected_status _ = RunStatus.test_completed

module _ (floats : Floats) (services : Services floats) where
  open services use {World, FilePath, clock, now, describe, is_blank}

  -- What the body of a phase can change.
  pub record Run : Type 0 where
    pub lifecycle : RunLifecycle
    pub failure_reason : Option Problem
    pub has_store : Bool
    pub raw_manifest_hash : Option String
    pub audited_manifest_hash : Option String
    pub gate_results : List (GateResult floats)
    pub final_verdict : Option FinalVerdict
    pub evidence_index : Option Json
    pub freeze_path : Option FilePath
    pub checksum_path : Option FilePath
    pub gate_config_hash : Option String
    pub repository_root : Option FilePath
    pub current_repository_shas : Option (Dict String)
    pub world : World

  pub record Transaction : Type 0 where
    pub run_id : String
    -- `execution_session is not None`
    pub is_official : Bool
    pub run : Run
    pub completed_phases : List TransactionPhase
    pub current_step_idx : ℕ
    pub failed : Bool

  -- `CertificationTransaction(run_id, run_dir, ...)`, where `matches` says that the session has
  -- this run ID and run directory
  unfoldable pub new_transaction : String → Bool → Bool → World → Option Transaction
  new_transaction run_id is_official matches world = elim (new run_id) [
    | none ↦ none
    | some lifecycle ↦
        if is_blank run_id
        then none
        else if is_official && not matches
        then none
        else some (record {
          run_id = run_id;
          is_official = is_official;
          run = record {
            lifecycle = lifecycle;
            failure_reason = none;
            has_store = false;
            raw_manifest_hash = none;
            audited_manifest_hash = none;
            gate_results = [];
            final_verdict = none;
            evidence_index = none;
            freeze_path = none;
            checksum_path = none;
            gate_config_hash = none;
            repository_root = none;
            current_repository_shas = none;
            world = world;
          };
          completed_phases = [];
          current_step_idx = 0;
          failed = false;
        })
  ]

  abbrev pub call_to : RunStatus → World → Option String → Call clock
  call_to target world reason = record {
    target = target;
    at = none;
    reason = reason;
    now = now world;
  }

  -- The replay of a lifecycle: `none` is an exception. Its times are those of `datetime.now`, whose
  -- conversion to UTC does not overflow.
  unfoldable pub replay : World → RunLifecycle → List Event → Option RunLifecycle
  replay world s [] = some s
  replay world s (e ∷ es) =
      let rest = replay world (transition clock s (call_to e.target world none)).0 es in
      if not (same e.source s.status)
      then none
      else elim (transition clock s (call_to e.target world none)).1 [
        | some error ↦ none
        | none ↦ rest
      ]

  unfoldable pub is_lifecycle_valid : Transaction → Bool
  unfolding replay
  is_lifecycle_valid t = elim (new t.run_id) [
    | none ↦ false
    | some fresh ↦ elim (replay t.run.world fresh t.run.lifecycle.history) [
      | none ↦ false
      | some s ↦
          same s.status t.run.lifecycle.status && same s.status (expected_status t.current_step_idx)
    ]
  ]

  -- `_require_phase`: the error that it raises, if any
  unfoldable pub require_phase : TransactionPhase → Transaction → Option Problem
  unfolding is_lifecycle_valid
  require_phase phase t =
      if t.failed
      then some (has_failed t.run.failure_reason)
      else elim (phase_at t.current_step_idx phase_sequence) [
        | none ↦ some Problem.sequence_corrupted
        | some expected ↦
            if not (same_phases t.completed_phases (take t.current_step_idx phase_sequence))
            then some Problem.history_mismatch
            else if not (is_lifecycle_valid t)
            then some Problem.invalid_lifecycle
            else if not (same_phase phase expected)
            then some (Problem.out_of_order phase expected)
            else none
      ]

  -- `_fail_transaction`
  unfoldable pub fail_transaction : Problem → RunStatus → Transaction → Transaction
  fail_transaction problem status t =
      let r = t.run in
      record t {
        failed = true;
        run = record r {
          failure_reason = some problem;
          lifecycle =
              if is_allowed r.lifecycle.status status
              then (transition clock r.lifecycle
                  (call_to status r.world (some (describe problem)))).0
              else r.lifecycle;
        };
      }

  -- How the `except` clause of a phase fails the transaction.
  unfoldable pub fail_as : Handler → Problem → Transaction → Transaction
  unfolding fail_transaction
  fail_as Handler.fail_and_wrap problem t = fail_transaction problem RunStatus.fail t
  fail_as _ problem t = if t.failed then t else fail_transaction problem RunStatus.fail t

  -- The `try` statement of a phase, after the outcome of its body.
  unfoldable pub settle :
      {A : Type 0}
      → TransactionPhase
      → Handler
      → (Transaction → Transaction)
      → Outcome A
      → Transaction
      → Result A × Transaction
  unfolding fail_as
  settle phase handler complete (returned a) t = (ok a, complete t)
  settle phase handler complete (raised e) t =
      (err (raised_as phase handler e), fail_as handler (Problem.in_phase phase e) t)
  settle phase handler complete (refused e) t = (
    err (raised_as phase handler e),
    fail_as handler (Problem.in_phase phase e) (fail_transaction e RunStatus.fail t),
  )

  -- A phase: its guard, its body in a `try` statement, and what completes it.
  unfoldable pub execute :
      {A : Type 0}
      → TransactionPhase
      → Handler
      → (Transaction → Transaction)
      → Body Run A
      → Transaction
      → Result A × Transaction
  unfolding require_phase settle
  execute phase handler complete body t = elim (require_phase phase t) [
    | some problem ↦ (err problem, t)
    | none ↦ let (o, r) = body t.run in settle phase handler complete o (record t { run = r })
  ]

  -- `completed_phases.add(phase)` and `current_step_idx += 1`
  abbrev pub advance : TransactionPhase → Transaction → Transaction
  advance phase t = record t {
    completed_phases = add_phase phase t.completed_phases;
    current_step_idx = suc t.current_step_idx;
  }

module _ {floats : Floats} {services : Services floats} where
  -- a call of the rest of the harness
  abbrev pub service :
      {A : Type 0} → (services.World → Option A × services.World) → Body (Run floats services) A
  service f r = let (a, w) = f r.world in (or_service a, record r { world = w })

  -- `self.lifecycle.transition(status)`
  unfoldable pub move : RunStatus → Body (Run floats services) (Unit {0})
  move status r =
      let (s, e) =
        transition services.clock r.lifecycle (call_to floats services status r.world none) in
      (or_lifecycle e, record r { lifecycle = s })
