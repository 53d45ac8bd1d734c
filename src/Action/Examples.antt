-- ===== src/Action/Examples.antt =====
-- Runs of an action phase session, and its theorems at them.
use stage5_browser.Base.{length, All}
use stage5_browser.Action.Session.{ensures_failed}
use stage5_browser.Action.Manager.{
  Manager, no_sessions, Step, begins, performs, finishes, run_steps, finish, not_owned,
}
use stage5_browser.Action.Manager.Reports.{IsSoundReport, finish_once, run_steps-IsSoundReport}
use stage5_browser.Base.{◌+◌, ◌≤◌, ◌≡◌, refl, inl, none, some, List, [], ◌∷◌, ◌++◌}
use stage5_browser.Text.{text_eq, text}
use stage5_browser.Effect.{ok, err}
use stage5_browser.Action.{
  observe, plan, preflight, prepare, reconcile, was_dispatched, was_not_dispatched, not_attempted,
  dispatched, succeeded, activation_lost_before_input,
}
use stage5_browser.Action.Session.{
  Session, Call, millis, enters, begins_dispatch, concludes_dispatch, recovers_before_dispatch,
  begins_finalization, completes, construct, call, run, enter, begin_dispatch, conclude_dispatch,
  recover_before_dispatch, begin_finalization, complete, ensure_failed, needs_preparation,
  already_complete,
}
use stage5_browser.Action.Session.Invariant.{dispatch_at_most_twice}
use stage5_browser.Action.Session.Errors.{call_error_unchanged}
use stage5_browser.Action.Session.Replay.{no_replay, retraction_replays}
use stage5_browser.Action.Session.Completion.{completed_absorbs, ensure_failed_total}

abbrev fresh : Session
fresh = record {
  action = text "click";
  action_id = text "a1";
  started_at_ms = 0;
  deadline_at_ms = 5000;
  current_phase = none;
  transitions = [];
  dispatch_state = not_attempted;
  dispatch_attempts = 0;
  recovery = none;
  viewport_preparation = none;
  terminal_outcome = none;
  completed_at_ms = none;
}

fresh_constructed : construct (text "click") (millis 5000) 0 (text "a1") ≡ ok fresh
unfolding construct
fresh_constructed = refl

abbrev to_dispatch : List Call
to_dispatch =
    enters observe 1
    ∷ enters plan 2
    ∷ enters preflight 3
    ∷ enters prepare 4
    ∷ begins_dispatch 5
    ∷ []

abbrev retry : List Call
retry =
    concludes_dispatch was_not_dispatched
    ∷ recovers_before_dispatch activation_lost_before_input 6
    ∷ enters preflight 7
    ∷ enters prepare 8
    ∷ begins_dispatch 9
    ∷ concludes_dispatch was_dispatched
    ∷ enters reconcile 10
    ∷ begins_finalization 11
    ∷ completes succeeded 12
    ∷ []

-- The session with its input gate passed once.
under_way : Session
unfolding run call enter begin_dispatch
under_way = run fresh to_dispatch

finished : Session
unfolding under_way run call enter begin_dispatch conclude_dispatch recover_before_dispatch
    begin_finalization complete
finished = run under_way retry

-- The whole path with one recovery ends in success after two attempts.
finished_succeeds : (finished.terminal_outcome ≡ some succeeded) × (finished.dispatch_attempts ≡ 2)
unfolding finished
finished_succeeds = (refl, refl)

dispatch_at_most_twice_example : (run fresh to_dispatch).dispatch_attempts ≤ 2
dispatch_at_most_twice_example =
    (dispatch_at_most_twice (text "click") (text "a1") (millis 5000) 0 fresh to_dispatch
      fresh_constructed).3

call_error_unchanged_example : (call (begins_dispatch 1) fresh).0 ≡ fresh
unfolding call begin_dispatch
call_error_unchanged_example = call_error_unchanged (begins_dispatch 1) fresh needs_preparation refl

abbrev put_in : Session
put_in = record under_way { dispatch_state = dispatched }

no_replay_example :
    (run put_in (enters reconcile 6 ∷ begins_dispatch 7 ∷ [])).dispatch_attempts
    ≡ put_in.dispatch_attempts
no_replay_example =
    (no_replay put_in (enters reconcile 6 ∷ begins_dispatch 7 ∷ []) ((λ e. cc), ((λ e. cc), tt))
      (inl refl)).1

completed_absorbs_example :
    (run finished retry ≡ finished)
    × (call (begins_dispatch 20) finished ≡ (finished, err already_complete))
unfolding finished
completed_absorbs_example =
    completed_absorbs finished retry (begins_dispatch 20) succeeded refl refl

ensure_failed_total_example : (ensure_failed 6 7 under_way).1 ≡ ok tt
ensure_failed_total_example = (ensure_failed_total under_way 6 7).0

retraction_replays_example :
    (run put_in (
      concludes_dispatch was_not_dispatched
      ∷ recovers_before_dispatch activation_lost_before_input 6
      ∷ enters preflight 7
      ∷ enters prepare 8
      ∷ begins_dispatch 9
      ∷ [])).dispatch_attempts
    ≡ put_in.dispatch_attempts + 1
unfolding under_way
retraction_replays_example =
    retraction_replays put_in activation_lost_before_input 6 7 8 9 (inl refl) refl refl refl

-- A manager with one session that failed.
abbrev steps : List Step
steps =
    begins (text "click") (millis 5000) 0 (text "a1")
    ∷ performs (text "a1") (ensures_failed 5 6)
    ∷ []

under_management : Manager
unfolding run_steps
under_management = run_steps no_sessions steps

finish_once_example :
    finish (text "a1") (finish (text "a1") under_management).0
    ≡ ((finish (text "a1") under_management).0, err not_owned)
unfolding under_management finish construct text_eq call ensure_failed
finish_once_example = finish_once (text "a1") under_management refl

-- A session that puts input in twice, with a recovery in between, and is finished.
abbrev performed : List Call → List Step
performed [] = []
performed (c ∷ cs) = performs (text "a1") c ∷ performed cs

abbrev reported_steps : List Step
reported_steps =
    begins (text "click") (millis 5000) 0 (text "a1")
    ∷ (performed to_dispatch ++ (performed retry ++ finishes (text "a1") ∷ []))

reported_twice :
    (report : Session) × ((run_steps no_sessions reported_steps).completed ≡ report ∷ [])
    × (report.dispatch_attempts ≡ 2)
    × (report.terminal_outcome ≡ some succeeded)
unfolding run_steps construct text_eq call enter begin_dispatch conclude_dispatch
    recover_before_dispatch begin_finalization complete
reported_twice = (_, refl, refl, refl)

run_steps-IsSoundReport_example :
    (length (run_steps no_sessions reported_steps).completed ≤ 100)
    × All IsSoundReport (run_steps no_sessions reported_steps).completed
run_steps-IsSoundReport_example = run_steps-IsSoundReport reported_steps
