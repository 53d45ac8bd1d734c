-- ===== src/Supervisor/Examples.antt =====
-- Commands that the supervisor runs, and their theorems at them.
use stage5_browser.Base.{
  ◌≡◌, refl, true, false, Option, none, some, [], ◌∷◌, ℕ, ◌+◌, ◌≤◌, ◌⊎◌, List,
}
use stage5_browser.Text.{Text, text, text_eq}
use stage5_browser.Table.{find}
use stage5_browser.Effect.{ok, err}
use stage5_browser.Errors.{SerializedError, operation_timeout, worker_disconnected}
use stage5_browser.Protocol.{snapshot, normal}
use stage5_browser.Operations.{LiveRecord, queued, Recovery, not_needed, recovered}
use stage5_browser.Operations.Journal.{Codec, written}
use stage5_browser.Operations.Registry.{Registry, fresh_record}
use stage5_browser.Supervisor.{
  Supervisor, Host, Answer, absent, chromium, OperationResult, WorkerRuntime, answers, stays_silent,
  RuntimeTransition, stage5, plain, supervised,
}
use stage5_browser.Supervisor.Reports.{workers, execute_queued_reports}
use stage5_browser.Supervisor.Transport
use stage5_browser.Supervisor.Transport.{
  Event, forks, requests, ends, expires, rejected, no_requests,
}
use stage5_browser.Supervisor.Transport.Settlement.{
  settlements, still_open, requests_made, settled_at_most_once,
}
use stage5_browser.Supervisor.Policy.{serialize_unknown_error}
use stage5_browser.Supervisor.Worker.{worker_protocol_version}
use stage5_browser.Supervisor.Execute.{SupervisedResult, conclude_failure, execute_queued}
use stage5_browser.Supervisor.ForceRecover.{recover_queued, human_authentication}
use stage5_browser.Supervisor.Conclusions.{
  HasRecord, IsSuccess, IsFailure, execute_queued_concluded,
}
use stage5_browser.Supervisor.HardRecovery.{LosesWorker, Recovers, Reports, failure_replaces_worker}
use stage5_browser.Supervisor.Authentication.{recover_queued-human}

abbrev no_json : Codec
no_json = record { encode = λ r. r.operation_id; decode = λ l. none; sanitize = λ url. url }

abbrev calm : Host
calm = record {
  at = 0;
  queued_at = 0;
  preflight_at = 1;
  sent_at = 2;
  received_at = 3;
  ended_at = 4;
  persisted_at = 5;
  written_at = 6;
  uuid = text "u1";
  runtime_info = none;
  retains_private_handoff = some false;
  native_control = some none;
  writes_context = true;
  codec = no_json;
  journal_write = written;
  journal_size = 0;
  others = λ w m. m;
}

abbrev operation : LiveRecord OperationResult
operation = fresh_record (text "u1") (text "snapshot") queued 0

abbrev page_answer : Answer
page_answer = record {
  has_page = true;
  page_url = some (text "https://a.example/");
  last_known_url = absent;
  last_page_url = none;
  browser = none;
  browser_connected = none;
  control_mode = none;
  state = none;
  mode = none;
}

abbrev this_protocol : WorkerRuntime
this_protocol = record {
  protocol_version = worker_protocol_version;
  loaded_artifact_fingerprint = none;
  artifact_fingerprint = none;
}

-- A supervisor without a worker, whose workers initialize, with one operation that is queued.
abbrev idle : Supervisor
idle = record {
  config = record {
    operation_timeout_ms = 30000;
    worker_startup_timeout_ms = 10000;
    navigation_timeout_ms = 20000;
  };
  operations = record {
    records = operation ∷ [];
    durable_records = [];
    journal = record { contents = none };
  };
  child = none;
  worker_runtime = none;
  expected_build_fingerprint = none;
  selected_browser = chromium;
  last_known_url = none;
  browser_was_connected = false;
  human_authentication_in_progress = false;
  action_policy_mode = normal;
  agent_context_id = none;
  agent_context_browser_known = false;
  agent_context_policy_known = false;
  pending_agent_browser = none;
  pending_agent_policy_mode = none;
  stored_contexts = [];
  closing = false;
  replies = answers page_answer ∷ [];
  initializations = answers this_protocol ∷ answers this_protocol ∷ [];
  sent = [];
  forked = 0;
  terminated = [];
}

-- The same supervisor with a worker that does not answer.
abbrev hanging : Supervisor
hanging = record idle { replies = stays_silent ∷ [] }

-- A command that is answered succeeds.
snapshot_succeeds :
    (execute_queued calm operation snapshot none none idle).1
    ≡ ok (record {
      operation_id = text "u1";
      result = page_answer;
      recovery = not_needed;
      runtime_transition = none;
    })
unfolding execute_queued text_eq
snapshot_succeeds = refl

abbrev late : SerializedError
late = record {
  code = operation_timeout;
  message = text "The operation exceeded its hard deadline.";
  recoverable = true;
  details = [];
}

-- A command that is not answered times out, and its worker is replaced.
snapshot_times_out :
    (execute_queued calm operation snapshot none none hanging).1
    ≡ err (supervised late (text "u1") recovered none)
unfolding execute_queued text_eq
snapshot_times_out = refl

first_worker_terminated :
    ((execute_queued calm operation snapshot none none hanging).0.terminated ≡ 0 ∷ [])
    × ((execute_queued calm operation snapshot none none hanging).0.forked ≡ 2)
unfolding execute_queued text_eq
first_worker_terminated = (refl, refl)

execute_queued_concluded_example :
    ((res : SupervisedResult)
      → (execute_queued calm operation snapshot none none hanging).1 ≡ ok res
      → HasRecord
          (text "u1")
          (IsSuccess res)
          (execute_queued calm operation snapshot none none hanging).0)
    × ((e : SerializedError) (id : Text) (ended_by : Recovery) (moved_to : Option RuntimeTransition)
        → (execute_queued calm operation snapshot none none hanging).1
          ≡ err (supervised e id ended_by moved_to)
        → (id ≡ text "u1")
          × HasRecord
              (text "u1")
              (IsFailure e ended_by)
              (execute_queued calm operation snapshot none none hanging).0)
execute_queued_concluded_example =
    execute_queued_concluded calm operation snapshot none none hanging

-- A supervisor whose worker is alive.
abbrev with_worker : Supervisor
with_worker = record idle { child = some (record { number = 0; is_live = true }); forked = 1 }

failure_replaces_worker_example :
    let out = conclude_failure calm operation snapshot none (stage5 late) with_worker in
    (LosesWorker operation_timeout × Recovers late operation none with_worker out)
    ⊎ ((¬ LosesWorker operation_timeout)
        × Reports late operation none not_needed out.1
        × (workers out.0 ≡ workers with_worker))
unfolding find text_eq serialize_unknown_error
failure_replaces_worker_example =
    failure_replaces_worker calm operation snapshot none (stage5 late) with_worker operation
      (λ w m h. h) refl

-- If others make the registry lose the operation, the command ends with a plain error.
abbrev evicting : Host
evicting = record calm { others = λ w m. record m { records = [] } }

evicted_ends_plainly :
    (execute_queued evicting operation snapshot none none hanging).1
    ≡ err (plain (some (text "Error")))
unfolding execute_queued text_eq
evicted_ends_plainly = refl

abbrev authenticating : Supervisor
authenticating = record idle { human_authentication_in_progress = true }

recover_queued-human_example :
    (operations : Registry OperationResult) × (recover_queued calm operation true authenticating ≡ (
      record authenticating { operations = operations },
      err (supervised human_authentication (text "u1") not_needed none),
    ))
unfolding find text_eq
recover_queued-human_example =
    recover_queued-human calm operation true authenticating operation refl refl

execute_queued_reports_example :
    ((res : SupervisedResult) × ((execute_queued calm operation snapshot none none hanging).1
        ≡ ok res))
    ⊎ ((e : SerializedError) × (ended_by : Recovery) × (moved_to : Option RuntimeTransition)
        × ((execute_queued calm operation snapshot none none hanging).1
            ≡ err (supervised e (text "u1") ended_by moved_to)))
unfolding find text_eq
execute_queued_reports_example =
    execute_queued_reports calm operation snapshot none none hanging operation (λ w m h. h) refl

-- The worker ends while a request is open, and then its deadline passes.
abbrev ends_before_deadline : List (Event ℕ)
ends_before_deadline = forks 1 ∷ requests (text "q1") none ∷ ends 1 ∷ expires (text "q1") ∷ []

settled_once :
    (Transport.run ends_before_deadline no_requests).settled
    ≡ (text "q1", rejected worker_disconnected) ∷ []
unfolding Transport.run text_eq
settled_once = refl

settled_at_most_once_example :
    settlements (text "q1") (Transport.run ends_before_deadline no_requests)
      + still_open (text "q1") (Transport.run ends_before_deadline no_requests)
    ≤ requests_made (text "q1") ends_before_deadline
settled_at_most_once_example = settled_at_most_once (text "q1") ends_before_deadline
