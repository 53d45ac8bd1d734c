-- ===== src/Action/Session/Errors.antt =====
-- What a method of src/controller/action/phase-session.ts that throws has done.
use stage5_browser.Base.{ℕ, ◌≡◌, arith}
use stage5_browser.Effect.{err}
use stage5_browser.Effect.Rules.{IsAtomic}
use stage5_browser.Action.{
  ActionPhase, DispatchConclusion, NoDispatchRecoveryReason, ViewportPreparation,
  ActionTerminalOutcome,
}
use stage5_browser.Action.Session.{
  Session, Fault, Call, enters, begins_dispatch, concludes_dispatch, recovers_before_dispatch,
  records_pre_dispatch_recovery, begins_finalization, records_viewport_preparation, completes,
  ensures_failed, call, enter, begin_dispatch, conclude_dispatch, recover_before_dispatch,
  record_pre_dispatch_recovery, begin_finalization, record_viewport_preparation, complete,
  ensure_failed,
}

enter-IsAtomic : (p : ActionPhase) (now : ℕ) → IsAtomic (enter p now)
unfolding enter
enter-IsAtomic p now = record { at = λ s e h. ground arith }

begin_dispatch-IsAtomic : (now : ℕ) → IsAtomic (begin_dispatch now)
unfolding begin_dispatch
begin_dispatch-IsAtomic now = record { at = λ s e h. ground arith }

conclude_dispatch-IsAtomic : (c : DispatchConclusion) → IsAtomic (conclude_dispatch c)
unfolding conclude_dispatch
conclude_dispatch-IsAtomic c = record { at = λ s e h. ground arith }

recover_before_dispatch-IsAtomic :
    (r : NoDispatchRecoveryReason) (now : ℕ) → IsAtomic (recover_before_dispatch r now)
unfolding recover_before_dispatch
recover_before_dispatch-IsAtomic r now = record { at = λ s e h. ground arith }

record_pre_dispatch_recovery-IsAtomic :
    (r : NoDispatchRecoveryReason) (now : ℕ) → IsAtomic (record_pre_dispatch_recovery r now)
unfolding record_pre_dispatch_recovery
record_pre_dispatch_recovery-IsAtomic r now = record { at = λ s e h. ground arith }

begin_finalization-IsAtomic : (now : ℕ) → IsAtomic (begin_finalization now)
unfolding begin_finalization
begin_finalization-IsAtomic now = record { at = λ s e h. ground arith }

record_viewport_preparation-IsAtomic :
    (v : ViewportPreparation) → IsAtomic (record_viewport_preparation v)
unfolding record_viewport_preparation
record_viewport_preparation-IsAtomic v = record { at = λ s e h. ground arith }

complete-IsAtomic : (o : ActionTerminalOutcome) (now : ℕ) → IsAtomic (complete o now)
unfolding complete
complete-IsAtomic o now = record { at = λ s e h. ground arith }

ensure_failed-IsAtomic : (now then' : ℕ) → IsAtomic (ensure_failed now then')
unfolding ensure_failed
ensure_failed-IsAtomic now then' = record { at = λ s e h. ground arith }

pub call-IsAtomic : (c : Call) → IsAtomic (call c)
unfolding call
call-IsAtomic (enters p now) = enter-IsAtomic p now
call-IsAtomic (begins_dispatch now) = begin_dispatch-IsAtomic now
call-IsAtomic (concludes_dispatch c) = conclude_dispatch-IsAtomic c
call-IsAtomic (recovers_before_dispatch r now) = recover_before_dispatch-IsAtomic r now
call-IsAtomic (records_pre_dispatch_recovery r now) = record_pre_dispatch_recovery-IsAtomic r now
call-IsAtomic (begins_finalization now) = begin_finalization-IsAtomic now
call-IsAtomic (records_viewport_preparation v) = record_viewport_preparation-IsAtomic v
call-IsAtomic (completes o now) = complete-IsAtomic o now
call-IsAtomic (ensures_failed now then') = ensure_failed-IsAtomic now then'

-- A call that throws has changed nothing of the session, whichever method it is of.
pub call_error_unchanged :
    (c : Call) (s : Session) (e : Fault) → (call c s).1 ≡ err e → (call c s).0 ≡ s
call_error_unchanged c = (call-IsAtomic c).at
