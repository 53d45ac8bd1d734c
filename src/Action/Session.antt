-- ===== src/Action/Session.antt =====
-- src/controller/action/phase-session.ts: every method of `ActionPhaseSession`. The injected clock
-- `now` is the argument `now` of each method that reads it; a thrown `ActionPhaseInvariantError` is
-- a value of `Fault`, one for each message.
pub mod Invariant
pub mod Replay
pub mod Errors
pub mod Completion
use stage5_browser.Base.{
  ℕ, ◌+◌, ◌-◌, ◌≡◌, refl, Bool, true, false, not, ◌&&◌, ◌||◌, Option, none, some, List, [], ◌∷◌,
  ◌++◌, leb, ◌==◌, if◌then◌else◌,
}
use stage5_browser.Effect.{Outcome, ok, err, Exec, pure, throw, gets, modify, guard, ◌>>=◌, ◌>>◌}
use stage5_browser.Action.{
  ActionPhase, observe, plan, preflight, prepare, dispatch, reconcile, finalize,
  ActionDispatchState, not_attempted, not_dispatched, possibly_dispatched, dispatched,
  ActionTerminalOutcome, failed, succeeded, NoDispatchRecoveryReason, ActionPhaseTransition,
  NoDispatchRecovery, DispatchConclusion, was_dispatched, was_not_dispatched, unknown,
  ViewportPreparation, phase_index, is_phase, is_not_attempted, is_not_dispatched,
}

pub record Session : Type 0 where
  pub action : List ℕ
  pub action_id : List ℕ
  pub started_at_ms : ℕ
  pub deadline_at_ms : ℕ
  pub current_phase : Option ActionPhase
  pub transitions : List ActionPhaseTransition
  pub dispatch_state : ActionDispatchState
  pub dispatch_attempts : ℕ
  pub recovery : Option NoDispatchRecovery
  pub viewport_preparation : Option ViewportPreparation
  pub terminal_outcome : Option ActionTerminalOutcome
  pub completed_at_ms : Option ℕ

pub data Fault : Type 0 where
  needs_positive_timeout already_complete unexpected_phase follows_finalization : Fault
  moves_backwards needs_preparation dispatch_gate_closed not_in_dispatch : Fault
  needs_proof_of_no_input recovery_spent recovery_too_late not_in_prepare : Fault
  needs_finalization : Fault

-- The `timeoutMs` argument: whole milliseconds, or a number that the constructor refuses.
pub data Timeout : Type 0 where
  millis : ℕ → Timeout
  negative_or_not_finite : Timeout

-- `constructor`
unfoldable pub construct : List ℕ → Timeout → ℕ → List ℕ → Outcome Fault Session
construct action negative_or_not_finite now id = err needs_positive_timeout
construct action (millis timeout) now id =
    if timeout == 0
    then err needs_positive_timeout
    else ok (record {
      action = action;
      action_id = id;
      started_at_ms = now;
      deadline_at_ms = now + timeout;
      current_phase = none;
      transitions = [];
      dispatch_state = not_attempted;
      dispatch_attempts = 0;
      recovery = none;
      viewport_preparation = none;
      terminal_outcome = none;
      completed_at_ms = none;
    })

abbrev pub is_none {ℓ} : {A : Type ℓ} → Option A → Bool
is_none none = true
is_none (some a) = false

-- `expectedNextPhase`
unfoldable pub expected_next_phase : Option ActionPhase → Option ActionPhase
expected_next_phase none = some observe
expected_next_phase (some observe) = some plan
expected_next_phase (some plan) = some preflight
expected_next_phase (some preflight) = some prepare
expected_next_phase (some dispatch) = some reconcile
expected_next_phase (some _) = none

abbrev pub Method : Type 0
Method = Exec Session Fault (Unit {0})

unfoldable pub assert_active : Method
unfolding ◌>>=◌
assert_active s = guard (is_none s.terminal_outcome) already_complete s

-- The phase is not after the one that the session is in.
unfoldable pub is_backwards : ActionPhase → Option ActionPhase → Bool
unfolding phase_index is_phase
is_backwards p none = false
is_backwards p (some q) = not (is_phase finalize (some p)) && leb (phase_index p) (phase_index q)

-- The `attempt` of a transition.
unfoldable pub attempt_of : ActionPhase → ℕ → ℕ
attempt_of prepare attempts = attempts + 1
attempt_of dispatch attempts = attempts
attempt_of _ attempts = 1

abbrev pub entered : ActionPhase → ℕ → Session → Session
entered p now s = record s {
  current_phase = some p;
  transitions =
      s.transitions
      ++ record { phase = p; entered_at_ms = now; attempt = attempt_of p s.dispatch_attempts } ∷ [];
}

unfoldable pub record_transition : ActionPhase → ℕ → Method
unfolding ◌>>=◌ is_phase is_backwards attempt_of
record_transition p now = do
  s ← gets (λ s. s)
  guard (not (is_phase finalize s.current_phase)) follows_finalization
  guard (not (is_backwards p s.current_phase)) moves_backwards
  modify (entered p now)

unfoldable pub enter : ActionPhase → ℕ → Method
unfolding ◌>>=◌ assert_active record_transition expected_next_phase is_phase
enter p now = do
  assert_active
  s ← gets (λ s. s)
  guard (is_phase p (expected_next_phase s.current_phase)) unexpected_phase
  record_transition p now

unfoldable pub begin_dispatch : ℕ → Method
unfolding ◌>>=◌ assert_active record_transition is_phase is_not_attempted
begin_dispatch now = do
  assert_active
  s ← gets (λ s. s)
  guard (is_phase prepare s.current_phase) needs_preparation
  guard (is_not_attempted s.dispatch_state) dispatch_gate_closed
  modify (λ s. record s { dispatch_attempts = s.dispatch_attempts + 1 })
  record_transition dispatch now

unfoldable pub concluded : DispatchConclusion → ActionDispatchState
concluded was_dispatched = dispatched
concluded was_not_dispatched = not_dispatched
concluded unknown = possibly_dispatched

unfoldable pub conclude_dispatch : DispatchConclusion → Method
unfolding ◌>>=◌ assert_active concluded is_phase
conclude_dispatch c = do
  assert_active
  s ← gets (λ s. s)
  guard (is_phase dispatch s.current_phase) not_in_dispatch
  modify (λ s. record s { dispatch_state = concluded c })

unfoldable pub recover_before_dispatch : NoDispatchRecoveryReason → ℕ → Method
unfolding ◌>>=◌ assert_active is_phase is_not_dispatched
recover_before_dispatch reason now = do
  assert_active
  s ← gets (λ s. s)
  guard (is_phase dispatch s.current_phase && is_not_dispatched s.dispatch_state)
      needs_proof_of_no_input
  guard (is_none s.recovery) recovery_spent
  modify λ s. record s {
    recovery = some (record {
      reason = reason;
      authorized_at_ms = now;
      completed_dispatch_attempts = s.dispatch_attempts;
    });
    dispatch_state = not_attempted;
    current_phase = some plan;
  }

unfoldable pub is_before_preparation : Option ActionPhase → Bool
is_before_preparation (some observe) = true
is_before_preparation (some plan) = true
is_before_preparation (some preflight) = true
is_before_preparation _ = false

unfoldable pub record_pre_dispatch_recovery : NoDispatchRecoveryReason → ℕ → Method
unfolding ◌>>=◌ assert_active is_before_preparation is_not_attempted
record_pre_dispatch_recovery reason now = do
  assert_active
  s ← gets (λ s. s)
  guard
      (is_before_preparation s.current_phase
        && is_not_attempted s.dispatch_state
        && s.dispatch_attempts == 0)
      recovery_too_late
  guard (is_none s.recovery) recovery_spent
  modify λ s. record s {
    recovery =
        some (record { reason = reason; authorized_at_ms = now; completed_dispatch_attempts = 0 });
  }

unfoldable pub begin_finalization : ℕ → Method
unfolding ◌>>=◌ assert_active record_transition is_phase
begin_finalization now = do
  assert_active
  s ← gets (λ s. s)
  if is_phase finalize s.current_phase then pure tt else record_transition finalize now

unfoldable pub merged : Option ViewportPreparation → ViewportPreparation → ViewportPreparation
merged none e = e
merged (some p) e = record {
  attempts = p.attempts + e.attempts;
  movements = p.movements + e.movements;
  horizontal_movement = p.horizontal_movement || e.horizontal_movement;
  vertical_movement = p.vertical_movement || e.vertical_movement;
  nested_surface_movement = p.nested_surface_movement || e.nested_surface_movement;
  document_movement = p.document_movement || e.document_movement;
  composed_boundary_traversed = p.composed_boundary_traversed || e.composed_boundary_traversed;
  pointer_contact_recovery = p.pointer_contact_recovery || e.pointer_contact_recovery;
  completed_in_viewport = e.completed_in_viewport;
  reach_strategy = e.reach_strategy;
}

unfoldable pub record_viewport_preparation : ViewportPreparation → Method
unfolding ◌>>=◌ assert_active is_phase
record_viewport_preparation e = do
  assert_active
  s ← gets (λ s. s)
  guard (is_phase prepare s.current_phase) not_in_prepare
  modify (λ s. record s { viewport_preparation = some (merged s.viewport_preparation e) })

unfoldable pub complete : ActionTerminalOutcome → ℕ → Method
unfolding ◌>>=◌ assert_active is_phase
complete outcome now = do
  assert_active
  s ← gets (λ s. s)
  guard (is_phase finalize s.current_phase) needs_finalization
  modify (λ s. record s { terminal_outcome = some outcome; completed_at_ms = some now })

-- The two readings of the clock are those of `beginFinalization` and of `complete`.
unfoldable pub ensure_failed : ℕ → ℕ → Method
unfolding ◌>>=◌ begin_finalization complete
ensure_failed now then' = do
  s ← gets (λ s. s)
  if not (is_none s.terminal_outcome)
      then pure tt
      else (begin_finalization now >> complete failed then')

-- `Math.max(0, deadline - now)`: `-` on ℕ stops at 0.
unfoldable pub remaining_ms : Session → ℕ → ℕ
remaining_ms s now = s.deadline_at_ms - now

-- A call of one of the methods that may change the session.
pub data Call : Type 0 where
  enters : ActionPhase → ℕ → Call
  begins_dispatch : ℕ → Call
  concludes_dispatch : DispatchConclusion → Call
  recovers_before_dispatch : NoDispatchRecoveryReason → ℕ → Call
  records_pre_dispatch_recovery : NoDispatchRecoveryReason → ℕ → Call
  begins_finalization : ℕ → Call
  records_viewport_preparation : ViewportPreparation → Call
  completes : ActionTerminalOutcome → ℕ → Call
  ensures_failed : ℕ → ℕ → Call

unfoldable pub call : Call → Method
call (enters p now) = enter p now
call (begins_dispatch now) = begin_dispatch now
call (concludes_dispatch c) = conclude_dispatch c
call (recovers_before_dispatch r now) = recover_before_dispatch r now
call (records_pre_dispatch_recovery r now) = record_pre_dispatch_recovery r now
call (begins_finalization now) = begin_finalization now
call (records_viewport_preparation e) = record_viewport_preparation e
call (completes outcome now) = complete outcome now
call (ensures_failed now then') = ensure_failed now then'

-- Any client: it goes on after a call that threw, from the state that the call left.
unfoldable pub run : Session → List Call → Session
run s [] = s
run s (c ∷ cs) = run (call c s).0 cs
