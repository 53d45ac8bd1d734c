-- ===== src/Supervisor/Execute.antt =====
-- src/supervisor/execute.ts. The trace of an execution is not modelled: it has no part in the outcome.
use stage5_browser.Base.{ℕ, ◌-◌, Bool, true, false, not, Option, none, some, [], if◌then◌else◌}
use stage5_browser.Text.{Text, text, text_eq}
use stage5_browser.Effect.{
  Exec, Outcome, ok, err, pure, throw, gets, modify, guard, attempt, ◌>>=◌, ◌>>◌,
}
use stage5_browser.Errors.{ErrorCode, operation_failed, SerializedError}
use stage5_browser.Protocol.{Command, command_name, initialize}
use stage5_browser.Operations.{
  Phase, worker_preflight, worker_request_sent, worker_result_received, OperationOutcome, succeeded,
  Recovery, not_needed, recovered, unrecovered, OperationTiming, JournalRecord, LiveRecord,
  OperationStatus,
}
use stage5_browser.Operations.Registry.{
  reserve, begin, transition, succeed, fail, timing, phase, outcome_of, mark_response_created,
}
use stage5_browser.Supervisor.{
  Supervisor, Await, agent_context, runtime_reload, worker_start, worker_reply, context_note,
  worker_replacement, Host, Answer, OperationResult, of_command, RuntimeTransition, Thrown, stage5,
  supervised,
}
use stage5_browser.Supervisor.Policy.{
  deadline_for, requires_hard_recovery, capture, safe_journal_diagnostic, serialize_unknown_error,
  on_registry, append_journal,
}
use stage5_browser.Supervisor.Worker.{
  request, ensure_worker, replace_worker, terminate_worker, reload_compatible_runtime_if_needed,
}
use stage5_browser.Supervisor.AgentContext.{apply_pending_agent_context, note_agent_context_result}

-- `SupervisedResult`
pub record SupervisedResult : Type 0 where
  pub operation_id : Text
  pub result : Answer
  pub recovery : Recovery
  pub runtime_transition : Option RuntimeTransition

abbrev or_else_at : Option ℕ → ℕ → ℕ
or_else_at none now = now
or_else_at (some at) now = at

-- The record that an ended operation leaves in the journal.
abbrev pub ended_record :
    Text
    → ℕ
    → ℕ
    → OperationTiming
    → Text
    → OperationOutcome
    → Recovery
    → Option ErrorCode
    → Option Text × Option Text
    → Option Text
    → JournalRecord
ended_record id started_at now times command outcome ended_by code diagnostic current_url =
    let at = or_else_at times.terminal_at_ms now in
    record {
      operation_id = id;
      command = command;
      started_at_ms = started_at;
      duration_ms = at - started_at;
      outcome = outcome;
      recovery = ended_by;
      error_code = code;
      diagnostic_cause = diagnostic.0;
      browser = diagnostic.1;
      browser_state = none;
      current_url = current_url;
      completed_at_ms = some at;
      timing = some (record times { terminal_at_ms = some at });
    }

-- Something that is awaited. Meanwhile others use the registry.
unfoldable pub awaited :
    {A : Type 0} → Host → Await → Exec Supervisor Thrown A → Exec Supervisor Thrown A
awaited host w m s = (record (m s).0 { operations = host.others w (m s).0.operations }, (m s).1)

-- The `try` of `execute`, up to the request: the transition that it reports is kept if it fails later.
unfoldable pub prepare : Host → Text → Exec Supervisor Thrown (Option RuntimeTransition)
unfolding ◌>>=◌ awaited apply_pending_agent_context on_registry transition
    reload_compatible_runtime_if_needed
prepare host id = do
  awaited host agent_context (apply_pending_agent_context host)
  on_registry (transition host.preflight_at id worker_preflight)
  awaited host runtime_reload (reload_compatible_runtime_if_needed host)

-- The end of the `try`, once there is a result.
unfoldable pub conclude_success :
    Host
    → LiveRecord OperationResult
    → Command
    → Option RuntimeTransition
    → Answer
    → Exec Supervisor Thrown SupervisedResult
unfolding ◌>>=◌ on_registry succeed timing append_journal
conclude_success host operation command moved_to result = do
  on_registry (succeed host.ended_at operation.operation_id (of_command result) not_needed)
  times ← on_registry (timing operation.operation_id)
  current_url ← gets (λ s. s.last_known_url)
  append_journal host (
      ended_record operation.operation_id operation.started_at_ms host.ended_at times
        (command_name command) succeeded not_needed none (none, none) current_url)
  pure (record {
    operation_id = operation.operation_id;
    result = result;
    recovery = not_needed;
    runtime_transition = moved_to;
  })

abbrev pub chosen_timeout : Option ℕ → ℕ → ℕ
chosen_timeout none deadline = deadline
chosen_timeout (some hard) deadline = hard

-- The rest of the `try`.
unfoldable pub dispatch :
    Host
    → LiveRecord OperationResult
    → Command
    → Option ℕ
    → Option ℕ
    → Bool
    → Option RuntimeTransition
    → Exec Supervisor Thrown SupervisedResult
unfolding ◌>>=◌ awaited ensure_worker on_registry transition deadline_for request capture
    note_agent_context_result conclude_success
dispatch host operation command timeout_ms hard_timeout_ms was_connected moved_to = do
  awaited host worker_start ensure_worker
  on_registry (transition host.sent_at operation.operation_id worker_request_sent)
  deadline ← gets (λ s. deadline_for s.config command timeout_ms)
  result ← awaited host worker_reply (request command (chosen_timeout hard_timeout_ms deadline))
  on_registry (transition host.received_at operation.operation_id worker_result_received)
  modify (capture result)
  awaited host context_note (note_agent_context_result host (some command) was_connected result)
  conclude_success host operation command moved_to result

abbrev pub is_sent : Option Phase → Bool
is_sent (some worker_request_sent) = true
is_sent _ = false

-- A request that was sent has ended.
unfoldable pub settle_phase : Host → Text → Exec Supervisor Thrown (Unit {0})
unfolding ◌>>=◌ phase on_registry transition
settle_phase host id = do
  reached ← gets (λ s. phase id s.operations)
  if is_sent reached
      then on_registry (transition host.received_at id worker_result_received)
      else pure tt

abbrev pub recovery_of : Outcome Thrown (Unit {0}) → Recovery
recovery_of (ok u) = recovered
recovery_of (err e) = unrecovered

-- The hard recovery of a failed command.
unfoldable pub recover_worker : Host → ErrorCode → Exec Supervisor Thrown Recovery
unfolding ◌>>=◌ awaited requires_hard_recovery attempt replace_worker
recover_worker host code =
    if requires_hard_recovery code
    then (do
      outcome ← awaited host worker_replacement (attempt (replace_worker host))
      pure (recovery_of outcome))
    else pure not_needed

-- How an operation that failed ends: in the registry, in the journal, and with the error.
unfoldable pub end_failed :
    {A : Type 0}
    → Host
    → LiveRecord OperationResult
    → Text
    → SerializedError
    → Recovery
    → Option Text × Option Text
    → Option RuntimeTransition
    → Exec Supervisor Thrown A
unfolding ◌>>=◌ on_registry fail timing append_journal
end_failed host operation command error ended_by diagnostic moved_to = do
  on_registry (fail host.ended_at operation.operation_id error ended_by)
  times ← on_registry (timing operation.operation_id)
  current_url ← gets (λ s. s.last_known_url)
  append_journal host (
      ended_record operation.operation_id operation.started_at_ms host.ended_at times command
        (outcome_of error.code) ended_by (some error.code) diagnostic current_url)
  throw (supervised error operation.operation_id ended_by moved_to)

-- The `catch` of `execute`.
unfoldable pub conclude_failure :
    Host
    → LiveRecord OperationResult
    → Command
    → Option RuntimeTransition
    → Thrown
    → Exec Supervisor Thrown SupervisedResult
unfolding ◌>>=◌ settle_phase serialize_unknown_error recover_worker end_failed
    safe_journal_diagnostic
conclude_failure host operation command moved_to thrown = do
  settle_phase host operation.operation_id
  let error = serialize_unknown_error thrown
  ended_by ← recover_worker host error.code
  end_failed host operation (command_name command) error ended_by (safe_journal_diagnostic error)
      moved_to

abbrev pub if_failed :
    {A : Type 0} → Outcome Thrown A → (Thrown → Exec Supervisor Thrown A) → Exec Supervisor Thrown A
if_failed (ok a) handler = pure a
if_failed (err e) handler = handler e

-- What `execute` runs in the queue.
unfoldable pub execute_queued :
    Host
    → LiveRecord OperationResult
    → Command
    → Option ℕ
    → Option ℕ
    → Exec Supervisor Thrown SupervisedResult
unfolding ◌>>=◌ attempt prepare dispatch conclude_failure
execute_queued host operation command timeout_ms hard_timeout_ms = do
  was_connected ← gets (λ s. s.browser_was_connected)
  prepared ← attempt (prepare host operation.operation_id)
  elim prepared [
    | err e ↦ conclude_failure host operation command none e
    | ok moved_to ↦ do
      outcome ←
          attempt
            (dispatch host operation command timeout_ms hard_timeout_ms was_connected moved_to)
      if_failed outcome (conclude_failure host operation command moved_to)
  ]

abbrev is_initialize : Command → Bool
is_initialize initialize = true
is_initialize _ = false

abbrev pub supervisor_owned : Thrown
supervisor_owned = stage5 (record {
  code = operation_failed;
  message = text "Worker initialization is supervisor-owned.";
  recoverable = false;
  details = [];
})

-- `execute`. `timeout_ms` is that of the payload.
unfoldable pub execute :
    Host → Command → Option ℕ → Option ℕ → Option Text → Exec Supervisor Thrown SupervisedResult
unfolding ◌>>=◌ on_registry begin execute_queued
execute host command timeout_ms hard_timeout_ms requested_id = do
  guard (not (is_initialize command)) supervisor_owned
  operation ←
      on_registry (begin host.at host.queued_at host.uuid (command_name command) requested_id)
  execute_queued host operation command timeout_ms hard_timeout_ms

unfoldable pub reserve_operation :
    Host → Text → Exec Supervisor Thrown (OperationStatus OperationResult)
unfolding ◌>>=◌ on_registry reserve text_eq
reserve_operation host command = do
  guard (not (text_eq command (text "initialize"))) supervisor_owned
  on_registry (reserve host.at host.queued_at host.uuid command)

-- `markOperationResponseCreated`: a failure is ignored.
unfoldable pub mark_operation_response_created : Host → Text → Exec Supervisor Thrown (Unit {0})
unfolding ◌>>=◌ attempt on_registry mark_response_created
mark_operation_response_created host id = do
  attempt (
      on_registry
        (mark_response_created host.at host.codec host.journal_write host.journal_size id))
  pure tt

-- `close`
unfoldable pub close : Exec Supervisor Thrown (Unit {0})
unfolding ◌>>=◌ terminate_worker
close = do modify (λ s. record s { closing = true }); modify terminate_worker
