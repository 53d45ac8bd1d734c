-- ===== src/Supervisor/Worker.antt =====
-- src/supervisor/worker-lifecycle.ts, and src/supervisor/transport.ts as the serial queue uses it: one
-- request is open at a time, and what becomes of it is its reply. A signal that cannot be sent is not
-- modelled.
use stage5_browser.Base.{
  ℕ, ◌+◌, Bool, true, false, not, ◌&&◌, ◌||◌, Option, none, some, List, [], ◌∷◌, ◌++◌, ◌==◌,
  if◌then◌else◌,
}
use stage5_browser.Text.{Text, text, text_eq}
use stage5_browser.Effect.{
  Exec, ok, err, pure, throw, gets, modify, guard, or_throw, attempt, ◌>>=◌, ◌>>◌,
}
use stage5_browser.Errors.{
  ErrorCode, worker_disconnected, worker_start_failed, operation_timeout, mcp_restart_required,
  SerializedError,
}
use stage5_browser.Protocol.{Command, initialize, start}
use stage5_browser.Supervisor.{
  Supervisor, Host, Answer, WorkerRuntime, RuntimeInfo, Reply, answers, rejects, stays_silent,
  exits, unsendable, Child, RuntimeTransition, Thrown, stage5, plain,
}
use stage5_browser.Supervisor.Policy.{
  serialize_unknown_error, capture_last_known_url, capture_browser_connection,
}

-- `WORKER_PROTOCOL_VERSION`
abbrev pub worker_protocol_version : ℕ
worker_protocol_version = 21

abbrev disconnected : Text → Thrown
disconnected message =
    stage5
      (record { code = worker_disconnected; message = message; recoverable = true; details = [] })

abbrev pub timed_out : Thrown
timed_out = stage5 (record {
  code = operation_timeout;
  message = text "The operation exceeded its hard deadline.";
  recoverable = true;
  details = [];
})

abbrev is_connected : Option Child → Bool
is_connected none = false
is_connected (some c) = c.is_live

-- `handleWorkerFailure` of the current worker.
unfoldable pub handle_worker_failure : Supervisor → Supervisor
handle_worker_failure s = record s { child = none; worker_runtime = none }

-- What a reply is to the request.
unfoldable pub settle_request : {A : Type 0} → Reply A → Exec Supervisor Thrown A
unfolding ◌>>=◌ handle_worker_failure
settle_request (answers a) = pure a
settle_request (rejects e) = throw (stage5 e)
settle_request stays_silent = throw timed_out
settle_request exits = do
  modify handle_worker_failure
  throw (disconnected (text "The browser worker exited during an operation."))
settle_request unsendable =
    throw (disconnected (text "The operation could not be sent to the browser worker."))

-- A worker that has no reply left stays silent.
abbrev pub next_reply : {A : Type 0} → List (Reply A) → Reply A
next_reply [] = stays_silent
next_reply (r ∷ rs) = r

abbrev later_replies : {A : Type 0} → List A → List A
later_replies [] = []
later_replies (r ∷ rs) = rs

unfoldable pub request : Command → ℕ → Exec Supervisor Thrown Answer
unfolding ◌>>=◌ settle_request
request command timeout_ms = do
  child ← gets (λ s. s.child)
  guard (is_connected child) (disconnected (text "The browser worker is not connected."))
  reply ← gets (λ s. next_reply s.replies)
  modify (λ s. record s {
    replies = later_replies s.replies;
    sent = s.sent ++ record { command = command; timeout_ms = timeout_ms } ∷ [];
  })
  settle_request reply

-- The request of `initialize`.
unfoldable pub request_initialize : Exec Supervisor Thrown WorkerRuntime
unfolding ◌>>=◌ settle_request
request_initialize = do
  reply ← gets (λ s. next_reply s.initializations)
  modify (λ s. record s {
    initializations = later_replies s.initializations;
    sent =
        s.sent
        ++ record { command = initialize; timeout_ms = s.config.worker_startup_timeout_ms } ∷ [];
  })
  settle_request reply

-- The workers that get a signal: the current one, unless it has exited.
abbrev pub signalled : Option Child → List ℕ → List ℕ
signalled none ns = ns
signalled (some c) ns = if c.is_live then ns ++ c.number ∷ [] else ns

unfoldable pub terminate_worker : Supervisor → Supervisor
unfolding handle_worker_failure
terminate_worker s = record (handle_worker_failure s) {
  terminated = signalled s.child s.terminated;
}

abbrev pub fork : Supervisor → Supervisor
fork s = record s {
  child = some (record { number = s.forked; is_live = true });
  forked = s.forked + 1;
}

abbrev or_artifact : Option Text → Option Text → Option Text
or_artifact none artifact = artifact
or_artifact (some loaded) artifact = some loaded

abbrev adopt : WorkerRuntime → Supervisor → Supervisor
adopt runtime s = record s {
  expected_build_fingerprint =
      or_artifact runtime.loaded_artifact_fingerprint runtime.artifact_fingerprint;
  worker_runtime = some runtime;
}

unfoldable pub initialize_worker : Exec Supervisor Thrown (Unit {0})
unfolding ◌>>=◌ request_initialize
initialize_worker = do
  runtime ← request_initialize
  guard (runtime.protocol_version == worker_protocol_version) (
      stage5 (record {
        code = mcp_restart_required;
        message = text "The browser worker reported an incompatible worker protocol contract.";
        recoverable = false;
        details = (text "reason", text "worker_protocol_mismatch") ∷ [];
      }))
  modify (adopt runtime)

abbrev is_restart_required : ErrorCode → Bool
is_restart_required mcp_restart_required = true
is_restart_required _ = false

-- What `ensureWorker` throws when a worker does not initialize.
abbrev start_failure : SerializedError → Thrown
start_failure e =
    if is_restart_required e.code
    then stage5 e
    else stage5 (record {
      code = worker_start_failed;
      message = text "The browser worker did not initialize.";
      recoverable = true;
      details = [];
    })

unfoldable pub start_worker : Exec Supervisor Thrown (Unit {0})
unfolding ◌>>=◌ attempt initialize_worker terminate_worker serialize_unknown_error
start_worker = do
  modify fork
  outcome ← attempt initialize_worker
  elim outcome [
    | ok u ↦ pure tt
    | err e ↦ do modify terminate_worker; throw (start_failure (serialize_unknown_error e))
  ]

unfoldable pub ensure_worker : Exec Supervisor Thrown (Unit {0})
unfolding ◌>>=◌ start_worker
ensure_worker = do
  closing ← gets (λ s. s.closing)
  guard (not closing) (
      stage5 (record {
        code = worker_disconnected;
        message = text "The browser supervisor is shutting down.";
        recoverable = false;
        details = [];
      }))
  child ← gets (λ s. s.child)
  if is_connected child then pure tt else start_worker

-- The fingerprint of a compatible update that is installed.
abbrev pub compatible_update : Option RuntimeInfo → Option Text
compatible_update none = none
compatible_update (some r) =
    if not r.restart_required && r.compatible_update_available
    then r.current_artifact_fingerprint
    else none

unfoldable pub adopt_compatible_fingerprint : Host → Supervisor → Supervisor
adopt_compatible_fingerprint host s = elim (compatible_update host.runtime_info) [
  | none ↦ s
  | some f ↦ record s { expected_build_fingerprint = some f }
]

unfoldable pub replace_worker : Host → Exec Supervisor Thrown (Unit {0})
unfolding ◌>>=◌ terminate_worker adopt_compatible_fingerprint ensure_worker
replace_worker host = do
  modify terminate_worker
  modify (adopt_compatible_fingerprint host)
  ensure_worker

abbrev is_fingerprint : Text → Option Text → Bool
is_fingerprint f none = false
is_fingerprint f (some g) = text_eq f g

abbrev is_controlled : Option Bool → Bool
is_controlled none = false
is_controlled (some b) = b

abbrev pub is_there : {A : Type 0} → Option A → Bool
is_there none = false
is_there (some a) = true

-- What a file that cannot be read makes of its reader.
abbrev unreadable : Thrown
unreadable = plain (some (text "Error"))

unfoldable pub reattach : Bool → Exec Supervisor Thrown (Unit {0})
unfolding ◌>>=◌ request capture_last_known_url capture_browser_connection
reattach false = pure tt
reattach true = do
  timeout_ms ← gets (λ s. s.config.worker_startup_timeout_ms)
  status ← request start timeout_ms
  modify (capture_last_known_url status)
  modify (capture_browser_connection status)

-- The record of a native browser, which is read for a connected browser alone.
unfoldable pub read_native_control : Host → Bool → Exec Supervisor Thrown (Option Bool)
read_native_control host connected =
    if connected then or_throw host.native_control unreadable else pure none

-- The worker is replaced by one of the update, and attached to the native browser if there is one.
unfoldable pub reload_with : Text → Option Bool → Exec Supervisor Thrown (Option RuntimeTransition)
unfolding ◌>>=◌ terminate_worker ensure_worker reattach
reload_with f native = do
  modify terminate_worker
  modify (λ s. record s { expected_build_fingerprint = some f })
  ensure_worker
  reattach (is_there native)
  pure (some (record { page_state_preserved = is_there native }))

-- With a connected browser, only if that browser is attached natively.
unfoldable pub reload_unless_connected :
    Host → Text → Exec Supervisor Thrown (Option RuntimeTransition)
unfolding ◌>>=◌ read_native_control reload_with
reload_unless_connected host f = do
  connected ← gets (λ s. s.browser_was_connected)
  native ← read_native_control host connected
  if connected && not (is_controlled native) then pure none else reload_with f native

-- Never while a person authenticates, nor with a profile that keeps a private handoff.
unfoldable pub reload_unless_private :
    Host → Text → Exec Supervisor Thrown (Option RuntimeTransition)
unfolding ◌>>=◌ reload_unless_connected
reload_unless_private host f = do
  retains ← or_throw host.retains_private_handoff unreadable
  is_human ← gets (λ s. s.human_authentication_in_progress)
  if is_human || retains then pure none else reload_unless_connected host f

unfoldable pub reload_for : Host → Text → Exec Supervisor Thrown (Option RuntimeTransition)
unfolding ◌>>=◌ text_eq reload_unless_private
reload_for host f = do
  expected ← gets (λ s. s.expected_build_fingerprint)
  if is_fingerprint f expected then pure none else reload_unless_private host f

unfoldable pub reload_compatible_runtime_if_needed :
    Host → Exec Supervisor Thrown (Option RuntimeTransition)
unfolding reload_for
reload_compatible_runtime_if_needed host = elim (compatible_update host.runtime_info) [
  | none ↦ pure none
  | some f ↦ reload_for host f
]
