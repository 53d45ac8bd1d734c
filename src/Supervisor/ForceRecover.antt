-- ===== src/Supervisor/ForceRecover.antt =====
-- `forceRecover` of src/supervisor/execute.ts: a recovery of the worker that the agent asks for.
use stage5_browser.Base.{◌+◌, Bool, true, false, Option, none, some, [], ◌∷◌, if◌then◌else◌}
use stage5_browser.Text.{Text, text, text_eq}
use stage5_browser.Effect.{Exec, pure, gets, modify, attempt, ◌>>=◌, ◌>>◌}
use stage5_browser.Errors.{auth_handoff_required, SerializedError}
use stage5_browser.Protocol.{open_url, status}
use stage5_browser.Operations.{
  worker_preflight, worker_request_sent, worker_result_received, succeeded, not_needed, recovered,
  unrecovered, LiveRecord,
}
use stage5_browser.Operations.Registry.{begin, transition, succeed, timing}
use stage5_browser.Supervisor.{
  Supervisor, Host, Answer, OperationResult, of_recovery, RecoveryResult, Thrown,
}
use stage5_browser.Supervisor.Policy.{
  capture_selected_browser, capture_browser_connection, safe_journal_diagnostic,
  serialize_unknown_error, on_registry, append_journal, product_name,
}
use stage5_browser.Supervisor.Worker.{request, replace_worker, terminate_worker}
use stage5_browser.Supervisor.AgentContext.{
  apply_pending_agent_context, note_agent_context_result, is_true,
}
use stage5_browser.Supervisor.Execute.{ended_record, settle_phase, end_failed, if_failed}

abbrev recover_name : Text
recover_name = text "recover"

abbrev pub human_authentication : SerializedError
human_authentication = record {
  code = auth_handoff_required;
  message =
      text
        "Worker recovery is disabled while the private human authentication browser owns the profile.";
  recoverable = true;
  details = (text "reason", text "human_authentication_in_progress") ∷ [];
}

abbrev to_reopen : Option Text → Option Text
to_reopen none = none
to_reopen (some u) = if text_eq u (text "about:blank") then none else some u

-- The last URL is opened again, where there is one.
reopen : Option Text → Exec Supervisor Thrown (Option Text)
unfolding ◌>>=◌ request
reopen none = pure none
reopen (some u) = do
  timeout_ms ← gets (λ s. s.config.navigation_timeout_ms)
  opened ← request open_url (timeout_ms + 2000)
  modify (λ s. record s { last_known_url = opened.page_url })
  pure opened.page_url

unfoldable pub conclude_recovery :
    Host → LiveRecord OperationResult → Option Text → Answer → Exec Supervisor Thrown RecoveryResult
unfolding ◌>>=◌ on_registry succeed timing append_journal
conclude_recovery host operation reopened_url answer = do
  let result : RecoveryResult = record {
    operation_id = operation.operation_id;
    browser_recovered = is_true answer.browser_connected;
    reopened_url = reopened_url;
    status = answer;
  }
  on_registry (succeed host.ended_at operation.operation_id (of_recovery result) recovered)
  times ← on_registry (timing operation.operation_id)
  current_url ← gets (λ s. s.last_known_url)
  append_journal host
      (record (ended_record operation.operation_id operation.started_at_ms host.ended_at times
        recover_name succeeded recovered none (none, answer.browser) current_url) {
          browser_state = answer.state;
        })
  pure result

-- The `try` of `forceRecover`.
unfoldable pub replace_and_reopen :
    Host → LiveRecord OperationResult → Option Text → Exec Supervisor Thrown RecoveryResult
unfolding ◌>>=◌ apply_pending_agent_context on_registry transition replace_worker reopen request
    capture_selected_browser capture_browser_connection note_agent_context_result conclude_recovery
    text_eq
replace_and_reopen host operation candidate_url = do
  apply_pending_agent_context host
  on_registry (transition host.sent_at operation.operation_id worker_request_sent)
  replace_worker host
  reopened_url ← reopen (to_reopen candidate_url)
  timeout_ms ← gets (λ s. s.config.operation_timeout_ms)
  answer ← request status timeout_ms
  on_registry (transition host.received_at operation.operation_id worker_result_received)
  modify (capture_selected_browser answer)
  modify (capture_browser_connection answer)
  note_agent_context_result host none false answer
  conclude_recovery host operation reopened_url answer

-- The `catch` of `forceRecover`.
unfoldable pub abandon_recovery :
    Host → LiveRecord OperationResult → Thrown → Exec Supervisor Thrown RecoveryResult
unfolding ◌>>=◌ settle_phase serialize_unknown_error terminate_worker end_failed
    safe_journal_diagnostic
abandon_recovery host operation thrown = do
  settle_phase host operation.operation_id
  let error = serialize_unknown_error thrown
  modify terminate_worker
  end_failed host operation recover_name error unrecovered (safe_journal_diagnostic error) none

unfoldable pub attempt_recovery :
    Host → LiveRecord OperationResult → Option Text → Exec Supervisor Thrown RecoveryResult
unfolding ◌>>=◌ attempt replace_and_reopen abandon_recovery
attempt_recovery host operation candidate_url = do
  outcome ← attempt (replace_and_reopen host operation candidate_url)
  if_failed outcome (abandon_recovery host operation)

-- What `forceRecover` runs in the queue: nothing is done to the worker while a person authenticates.
unfoldable pub recover_queued :
    Host → LiveRecord OperationResult → Bool → Exec Supervisor Thrown RecoveryResult
unfolding ◌>>=◌ on_registry transition end_failed attempt_recovery
recover_queued host operation reopen_last_url = do
  candidate_url ← gets (λ s. if reopen_last_url then s.last_known_url else none)
  on_registry (transition host.preflight_at operation.operation_id worker_preflight)
  is_human ← gets (λ s. s.human_authentication_in_progress)
  selected ← gets (λ s. product_name s.selected_browser)
  if is_human
      then end_failed host operation recover_name human_authentication not_needed
          (none, some selected) none
      else attempt_recovery host operation candidate_url

unfoldable pub force_recover : Host → Bool → Option Text → Exec Supervisor Thrown RecoveryResult
unfolding ◌>>=◌ on_registry begin recover_queued
force_recover host reopen_last_url requested_id = do
  operation ← on_registry (begin host.at host.queued_at host.uuid recover_name requested_id)
  recover_queued host operation reopen_last_url
