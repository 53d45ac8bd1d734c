-- ===== src/Action/Session/Invariant.antt =====
-- The invariant of an action phase session, and the bound on the attempts to put input in.
use stage5_browser.Base.{
  ℕ, ◌+◌, ◌≤◌, ◌≡◌, Option, none, some, List, [], ◌∷◌, ◌++◌, ◌≢◌, ◌<◌, Bool, true, false, arith,
}
use stage5_browser.Effect.{ok}
use stage5_browser.Effect.Rules.{Keeps}
use stage5_browser.Action.{
  ActionPhase, DispatchConclusion, NoDispatchRecoveryReason, ViewportPreparation,
  ActionPhaseTransition, NoDispatchRecovery, ActionTerminalOutcome, dispatch, reconcile, finalize,
  not_attempted,
}
use stage5_browser.Action.Session.{
  Session, Timeout, Call, enters, begins_dispatch, concludes_dispatch, recovers_before_dispatch,
  records_pre_dispatch_recovery, begins_finalization, records_viewport_preparation, completes,
  ensures_failed, construct, call, run, enter, begin_dispatch, conclude_dispatch,
  recover_before_dispatch, record_pre_dispatch_recovery, begin_finalization,
  record_viewport_preparation, complete, ensure_failed, call, run, entered,
}

-- The dispatch attempts that were proved to have put in nothing.
abbrev pub excused : Option NoDispatchRecovery → ℕ
excused none = 0
excused (some r) = r.completed_dispatch_attempts

abbrev pub is_dispatch : ActionPhase → ℕ
is_dispatch dispatch = 1
is_dispatch _ = 0

abbrev pub dispatches : List ActionPhaseTransition → ℕ
dispatches [] = 0
dispatches (t ∷ ts) = is_dispatch t.phase + dispatches ts

dispatches-snoc :
    (ts : List ActionPhaseTransition) (p : ActionPhase) (now n : ℕ)
    → dispatches (ts ++ record { phase = p; entered_at_ms = now; attempt = n } ∷ [])
      ≡ dispatches ts + is_dispatch p
dispatches-snoc [] p now n = omega arith
dispatches-snoc (u ∷ ts) p now n = omega (arith, dispatches-snoc ts p now n)

dispatches-entered :
    (p : ActionPhase) (now : ℕ) (s : Session)
    → dispatches (entered p now s).transitions ≡ dispatches s.transitions + is_dispatch p
dispatches-entered p now s = dispatches-snoc s.transitions p now _

abbrev pub precedes_dispatch : Option ActionPhase → Bool
precedes_dispatch (some dispatch) = false
precedes_dispatch (some reconcile) = false
precedes_dispatch (some finalize) = false
precedes_dispatch _ = true

abbrev pub is_under_way : Option ActionPhase → Bool
is_under_way (some dispatch) = true
is_under_way (some reconcile) = true
is_under_way _ = false

abbrev pub before_finalize : Option ActionPhase → Bool
before_finalize (some finalize) = false
before_finalize _ = true

pub record Inv (s : Session) : Type 0 where
  pub logged : dispatches s.transitions ≡ s.dispatch_attempts
  pub excused_once : excused s.recovery ≤ 1
  pub attempted : s.dispatch_attempts ≤ excused s.recovery + 1
  pub none_pending :
      precedes_dispatch s.current_phase ≡ true → s.dispatch_attempts ≡ excused s.recovery
  pub gate : precedes_dispatch s.current_phase ≡ true → s.dispatch_state ≡ not_attempted
  pub evidence : s.dispatch_state ≢ not_attempted → 0 < s.dispatch_attempts
  pub under_way : is_under_way s.current_phase ≡ true → 0 < s.dispatch_attempts
  pub finished : before_finalize s.current_phase ≡ true → s.terminal_outcome ≡ none

enter-Inv : (p : ActionPhase) (now : ℕ) → Keeps Inv (enter p now)
unfolding enter
enter-Inv p now = record { at = λ s h. ground (arith, dispatches-entered p now s) }

begin_dispatch-Inv : (now : ℕ) → Keeps Inv (begin_dispatch now)
unfolding begin_dispatch
begin_dispatch-Inv now = record {
  at = λ s h. ground (
    arith,
    dispatches-entered dispatch now (record s { dispatch_attempts = s.dispatch_attempts + 1 }),
  );
}

conclude_dispatch-Inv : (c : DispatchConclusion) → Keeps Inv (conclude_dispatch c)
unfolding conclude_dispatch
conclude_dispatch-Inv c = record { at = λ s h. ground arith }

recover_before_dispatch-Inv :
    (r : NoDispatchRecoveryReason) (now : ℕ) → Keeps Inv (recover_before_dispatch r now)
unfolding recover_before_dispatch
recover_before_dispatch-Inv r now = record { at = λ s h. ground arith }

record_pre_dispatch_recovery-Inv :
    (r : NoDispatchRecoveryReason) (now : ℕ) → Keeps Inv (record_pre_dispatch_recovery r now)
unfolding record_pre_dispatch_recovery
record_pre_dispatch_recovery-Inv r now = record { at = λ s h. ground arith }

begin_finalization-Inv : (now : ℕ) → Keeps Inv (begin_finalization now)
unfolding begin_finalization
begin_finalization-Inv now = record {
  at = λ s h. ground (arith, dispatches-entered finalize now s);
}

record_viewport_preparation-Inv :
    (v : ViewportPreparation) → Keeps Inv (record_viewport_preparation v)
unfolding record_viewport_preparation
record_viewport_preparation-Inv v = record { at = λ s h. ground arith }

complete-Inv : (o : ActionTerminalOutcome) (now : ℕ) → Keeps Inv (complete o now)
unfolding complete
complete-Inv o now = record { at = λ s h. ground arith }

ensure_failed-Inv : (now then' : ℕ) → Keeps Inv (ensure_failed now then')
unfolding ensure_failed
ensure_failed-Inv now then' = record {
  at = λ s h. ground (arith, dispatches-entered finalize now s);
}

pub call-Inv : (c : Call) → Keeps Inv (call c)
unfolding call
call-Inv (enters p now) = enter-Inv p now
call-Inv (begins_dispatch now) = begin_dispatch-Inv now
call-Inv (concludes_dispatch c) = conclude_dispatch-Inv c
call-Inv (recovers_before_dispatch r now) = recover_before_dispatch-Inv r now
call-Inv (records_pre_dispatch_recovery r now) = record_pre_dispatch_recovery-Inv r now
call-Inv (begins_finalization now) = begin_finalization-Inv now
call-Inv (records_viewport_preparation v) = record_viewport_preparation-Inv v
call-Inv (completes o now) = complete-Inv o now
call-Inv (ensures_failed now then') = ensure_failed-Inv now then'

pub run-Inv : (s : Session) (cs : List Call) → Inv s → Inv (run s cs)
unfolding run
run-Inv s [] h = h
run-Inv s (c ∷ cs) h = run-Inv (call c s).0 cs ((call-Inv c).at s h)

pub construct-Inv :
    (action id : List ℕ) (t : Timeout) (now : ℕ) (s : Session)
    → construct action t now id ≡ ok s
    → Inv s
unfolding construct
construct-Inv action id t now s h = ground arith

-- However a client calls the methods of a new session, and whatever they throw: every attempt to
-- put input in is in the transition log, there is at most one attempt more than were proved to
-- have put in nothing, and at most one was so proved. So there are at most two.
pub dispatch_at_most_twice :
    (action id : List ℕ) (t : Timeout) (now : ℕ) (s : Session) (cs : List Call)
    → construct action t now id ≡ ok s
    → (dispatches (run s cs).transitions ≡ (run s cs).dispatch_attempts)
      × ((run s cs).dispatch_attempts ≤ excused (run s cs).recovery + 1)
      × (excused (run s cs).recovery ≤ 1)
      × ((run s cs).dispatch_attempts ≤ 2)
dispatch_at_most_twice action id t now s cs h =
    let v = run-Inv s cs (construct-Inv action id t now s h) in
    (v.logged, v.attempted, v.excused_once, omega arith)
