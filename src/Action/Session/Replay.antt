-- ===== src/Action/Session/Replay.antt =====
-- What a session of src/controller/action/phase-session.ts allows once input is possible.
use stage5_browser.Base.{
  ℕ, ◌+◌, ◌≡◌, ◌≢◌, refl, ap, ◌∙◌, ◌⊎◌, none, some, List, [], ◌∷◌, arith, All,
}
use stage5_browser.Action.{
  ActionPhase, DispatchConclusion, NoDispatchRecoveryReason, ViewportPreparation,
  ActionTerminalOutcome, preflight, prepare, dispatch, possibly_dispatched, dispatched,
  was_not_dispatched,
}
use stage5_browser.Action.Session.{
  Session, Call, enters, begins_dispatch, concludes_dispatch, recovers_before_dispatch,
  records_pre_dispatch_recovery, begins_finalization, records_viewport_preparation, completes,
  ensures_failed, call, run, enter, begin_dispatch, conclude_dispatch, recover_before_dispatch,
  record_pre_dispatch_recovery, begin_finalization, record_viewport_preparation, complete,
  ensure_failed,
}

-- Input was put in, or may have been.
abbrev pub IsPossible : Session → Type 0
IsPossible s = (s.dispatch_state ≡ dispatched) ⊎ (s.dispatch_state ≡ possibly_dispatched)

-- The call does not say that nothing was put in.
abbrev pub NoRetraction : Call → Type 0
NoRetraction c = c ≢ concludes_dispatch was_not_dispatched

abbrev SameInput : Session → Session → Type 0
SameInput s t = IsPossible t × (t.dispatch_attempts ≡ s.dispatch_attempts)

enter-SameInput :
    (p : ActionPhase) (now : ℕ) (s : Session) → IsPossible s → SameInput s (enter p now s).0
unfolding enter
enter-SameInput p now s h = ground arith

begin_dispatch-SameInput :
    (now : ℕ) (s : Session) → IsPossible s → SameInput s (begin_dispatch now s).0
unfolding begin_dispatch
begin_dispatch-SameInput now s h = ground arith

conclude_dispatch-SameInput :
    (c : DispatchConclusion) (s : Session)
    → c ≢ was_not_dispatched
    → IsPossible s
    → SameInput s (conclude_dispatch c s).0
unfolding conclude_dispatch
conclude_dispatch-SameInput c s k h = ground arith

recover_before_dispatch-SameInput :
    (r : NoDispatchRecoveryReason) (now : ℕ) (s : Session)
    → IsPossible s
    → SameInput s (recover_before_dispatch r now s).0
unfolding recover_before_dispatch
recover_before_dispatch-SameInput r now s h = ground arith

record_pre_dispatch_recovery-SameInput :
    (r : NoDispatchRecoveryReason) (now : ℕ) (s : Session)
    → IsPossible s
    → SameInput s (record_pre_dispatch_recovery r now s).0
unfolding record_pre_dispatch_recovery
record_pre_dispatch_recovery-SameInput r now s h = ground arith

begin_finalization-SameInput :
    (now : ℕ) (s : Session) → IsPossible s → SameInput s (begin_finalization now s).0
unfolding begin_finalization
begin_finalization-SameInput now s h = ground arith

record_viewport_preparation-SameInput :
    (v : ViewportPreparation) (s : Session)
    → IsPossible s
    → SameInput s (record_viewport_preparation v s).0
unfolding record_viewport_preparation
record_viewport_preparation-SameInput v s h = ground arith

complete-SameInput :
    (o : ActionTerminalOutcome) (now : ℕ) (s : Session)
    → IsPossible s
    → SameInput s (complete o now s).0
unfolding complete
complete-SameInput o now s h = ground arith

ensure_failed-SameInput :
    (now then' : ℕ) (s : Session) → IsPossible s → SameInput s (ensure_failed now then' s).0
unfolding ensure_failed
ensure_failed-SameInput now then' s h = ground arith

call-SameInput : (c : Call) (s : Session) → NoRetraction c → IsPossible s → SameInput s (call c s).0
unfolding call
call-SameInput (enters p now) s k h = enter-SameInput p now s h
call-SameInput (begins_dispatch now) s k h = begin_dispatch-SameInput now s h
call-SameInput (concludes_dispatch c) s k h =
    conclude_dispatch-SameInput c s (λ e. k (ap concludes_dispatch e)) h
call-SameInput (recovers_before_dispatch r now) s k h = recover_before_dispatch-SameInput r now s h
call-SameInput (records_pre_dispatch_recovery r now) s k h =
    record_pre_dispatch_recovery-SameInput r now s h
call-SameInput (begins_finalization now) s k h = begin_finalization-SameInput now s h
call-SameInput (records_viewport_preparation v) s k h = record_viewport_preparation-SameInput v s h
call-SameInput (completes o now) s k h = complete-SameInput o now s h
call-SameInput (ensures_failed now then') s k h = ensure_failed-SameInput now then' s h

-- Once input is possible or confirmed, no sequence of calls starts another attempt, as long as no
-- call takes the conclusion back.
pub no_replay :
    (s : Session) (cs : List Call)
    → All NoRetraction cs
    → IsPossible s
    → IsPossible (run s cs) × ((run s cs).dispatch_attempts ≡ s.dispatch_attempts)
unfolding run
no_replay s [] k h = (h, refl)
no_replay s (c ∷ cs) k h =
    let (h', e) = call-SameInput c s k.0 h in
    let (h'', e') = no_replay (call c s).0 cs k.1 h' in (h'', e' ∙ e)

-- The gate does not stop a client that takes its conclusion back: after possible or confirmed
-- input, a second conclusion that nothing was put in opens a recovery and a further attempt.
pub retraction_replays :
    (s : Session) (r : NoDispatchRecoveryReason) (t u v w : ℕ)
    → IsPossible s
    → s.terminal_outcome ≡ none
    → s.current_phase ≡ some dispatch
    → s.recovery ≡ none
    → (run s (
        concludes_dispatch was_not_dispatched
        ∷ recovers_before_dispatch r t
        ∷ enters preflight u
        ∷ enters prepare v
        ∷ begins_dispatch w
        ∷ [])).dispatch_attempts
      ≡ s.dispatch_attempts + 1
unfolding run call conclude_dispatch recover_before_dispatch enter begin_dispatch
retraction_replays s r t u v w h active phase fresh = ground arith
