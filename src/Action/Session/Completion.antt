-- ===== src/Action/Session/Completion.antt =====
-- Sessions of src/controller/action/phase-session.ts that have an outcome, and how one is reached.
use stage5_browser.Base.{
  ℕ, ◌≡◌, refl, ap, Option, none, some, List, [], ◌∷◌, Bool, true, false, arith, if◌then◌else◌,
}
use stage5_browser.Effect.{ok, err}
use stage5_browser.Action.{
  ActionPhase, DispatchConclusion, NoDispatchRecoveryReason, ViewportPreparation,
  ActionTerminalOutcome, failed,
}
use stage5_browser.Action.Session.{
  Session, is_none, already_complete, Call, enters, begins_dispatch, concludes_dispatch,
  recovers_before_dispatch, records_pre_dispatch_recovery, begins_finalization,
  records_viewport_preparation, completes, ensures_failed, call, run, enter, begin_dispatch,
  conclude_dispatch, recover_before_dispatch, record_pre_dispatch_recovery, begin_finalization,
  record_viewport_preparation, complete, ensure_failed,
}

enter_complete :
    (p : ActionPhase) (now : ℕ) (s : Session) {x : ActionTerminalOutcome}
    → s.terminal_outcome ≡ some x
    → enter p now s ≡ (s, err already_complete)
unfolding enter
enter_complete p now s h = ground arith

begin_dispatch_complete :
    (now : ℕ) (s : Session) {x : ActionTerminalOutcome}
    → s.terminal_outcome ≡ some x
    → begin_dispatch now s ≡ (s, err already_complete)
unfolding begin_dispatch
begin_dispatch_complete now s h = ground arith

conclude_dispatch_complete :
    (c : DispatchConclusion) (s : Session) {x : ActionTerminalOutcome}
    → s.terminal_outcome ≡ some x
    → conclude_dispatch c s ≡ (s, err already_complete)
unfolding conclude_dispatch
conclude_dispatch_complete c s h = ground arith

recover_before_dispatch_complete :
    (r : NoDispatchRecoveryReason) (now : ℕ) (s : Session) {x : ActionTerminalOutcome}
    → s.terminal_outcome ≡ some x
    → recover_before_dispatch r now s ≡ (s, err already_complete)
unfolding recover_before_dispatch
recover_before_dispatch_complete r now s h = ground arith

record_pre_dispatch_recovery_complete :
    (r : NoDispatchRecoveryReason) (now : ℕ) (s : Session) {x : ActionTerminalOutcome}
    → s.terminal_outcome ≡ some x
    → record_pre_dispatch_recovery r now s ≡ (s, err already_complete)
unfolding record_pre_dispatch_recovery
record_pre_dispatch_recovery_complete r now s h = ground arith

begin_finalization_complete :
    (now : ℕ) (s : Session) {x : ActionTerminalOutcome}
    → s.terminal_outcome ≡ some x
    → begin_finalization now s ≡ (s, err already_complete)
unfolding begin_finalization
begin_finalization_complete now s h = ground arith

record_viewport_preparation_complete :
    (v : ViewportPreparation) (s : Session) {x : ActionTerminalOutcome}
    → s.terminal_outcome ≡ some x
    → record_viewport_preparation v s ≡ (s, err already_complete)
unfolding record_viewport_preparation
record_viewport_preparation_complete v s h = ground arith

complete-complete :
    (o : ActionTerminalOutcome) (now : ℕ) (s : Session) {x : ActionTerminalOutcome}
    → s.terminal_outcome ≡ some x
    → complete o now s ≡ (s, err already_complete)
unfolding complete
complete-complete o now s h = ground arith

ensure_failed_complete :
    (now then' : ℕ) (s : Session) (o : ActionTerminalOutcome)
    → s.terminal_outcome ≡ some o
    → ensure_failed now then' s ≡ (s, ok tt)
unfolding ensure_failed
ensure_failed_complete now then' s o h = ground arith

-- A call of any method but `ensureFailed`.
abbrev pub is_ensure_failed : Call → Bool
is_ensure_failed (ensures_failed now then') = true
is_ensure_failed _ = false

call-complete_throws :
    (c : Call) (s : Session) {x : ActionTerminalOutcome}
    → is_ensure_failed c ≡ false
    → s.terminal_outcome ≡ some x
    → call c s ≡ (s, err already_complete)
unfolding call
call-complete_throws (enters p now) s k h = enter_complete p now s h
call-complete_throws (begins_dispatch now) s k h = begin_dispatch_complete now s h
call-complete_throws (concludes_dispatch c) s k h = conclude_dispatch_complete c s h
call-complete_throws (recovers_before_dispatch r now) s k h =
    recover_before_dispatch_complete r now s h
call-complete_throws (records_pre_dispatch_recovery r now) s k h =
    record_pre_dispatch_recovery_complete r now s h
call-complete_throws (begins_finalization now) s k h = begin_finalization_complete now s h
call-complete_throws (records_viewport_preparation v) s k h =
    record_viewport_preparation_complete v s h
call-complete_throws (completes o now) s k h = complete-complete o now s h
call-complete_throws (ensures_failed now then') s k h = cc

call-complete_same :
    (c : Call) (s : Session) {x : ActionTerminalOutcome}
    → s.terminal_outcome ≡ some x
    → (call c s).0 ≡ s
unfolding call
call-complete_same (ensures_failed now then') s h =
    ap (λ r. r.0) (ensure_failed_complete now then' s _ h)
call-complete_same (enters p now) s h = ap (λ r. r.0) (enter_complete p now s h)
call-complete_same (begins_dispatch now) s h = ap (λ r. r.0) (begin_dispatch_complete now s h)
call-complete_same (concludes_dispatch c) s h = ap (λ r. r.0) (conclude_dispatch_complete c s h)
call-complete_same (recovers_before_dispatch r now) s h =
    ap (λ r. r.0) (recover_before_dispatch_complete r now s h)
call-complete_same (records_pre_dispatch_recovery r now) s h =
    ap (λ r. r.0) (record_pre_dispatch_recovery_complete r now s h)
call-complete_same (begins_finalization now) s h =
    ap (λ r. r.0) (begin_finalization_complete now s h)
call-complete_same (records_viewport_preparation v) s h =
    ap (λ r. r.0) (record_viewport_preparation_complete v s h)
call-complete_same (completes o now) s h = ap (λ r. r.0) (complete-complete o now s h)

run_complete :
    (s : Session) (cs : List Call) {x : ActionTerminalOutcome}
    → s.terminal_outcome ≡ some x
    → run s cs ≡ s
unfolding run
run_complete s [] h = refl
run_complete s (c ∷ cs) h = rw (call-complete_same c s h) (run_complete s cs h)

-- A session with an outcome is final: no sequence of calls changes anything of it, and a call of any
-- method but `ensureFailed` throws that the session is already complete.
pub completed_absorbs :
    (s : Session) (cs : List Call) (c : Call) (x : ActionTerminalOutcome)
    → s.terminal_outcome ≡ some x
    → is_ensure_failed c ≡ false
    → (run s cs ≡ s) × (call c s ≡ (s, err already_complete))
completed_absorbs s cs c x h k = (run_complete s cs h, call-complete_throws c s k h)

abbrev pub outcome_or_failed : Option ActionTerminalOutcome → ActionTerminalOutcome
outcome_or_failed none = failed
outcome_or_failed (some x) = x

-- `ensureFailed` never throws and always leaves an outcome: the one that the session had, with its
-- time, or `failed` with the time of completion. It makes no attempt to put input in.
pub ensure_failed_total :
    (s : Session) (now then' : ℕ)
    → ((ensure_failed now then' s).1 ≡ ok tt)
      × ((ensure_failed now then' s).0.terminal_outcome
          ≡ some (outcome_or_failed s.terminal_outcome))
      × ((ensure_failed now then' s).0.completed_at_ms
          ≡ (if is_none s.terminal_outcome then some then' else s.completed_at_ms))
      × ((ensure_failed now then' s).0.dispatch_attempts ≡ s.dispatch_attempts)
unfolding ensure_failed
ensure_failed_total s now then' = (ground arith, ground arith, ground arith, ground arith)
