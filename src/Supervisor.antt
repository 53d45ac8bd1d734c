-- ===== src/Supervisor.antt =====
-- src/supervisor: the process that runs browser commands in a worker, one at a time. What the worker
-- answers, what the clock reads and what the files hold are inputs.
pub mod Policy
pub mod Worker
pub mod AgentContext
pub mod Execute
pub mod Conclusions
pub mod ForceRecover
pub mod Authentication
pub mod Replacement
pub mod HardRecovery
pub mod Registered
pub mod Reports
pub mod Transport
mod Examples
use stage5_browser.Base.{ℕ, Bool, Option, List}
use stage5_browser.Text.{Text}
use stage5_browser.Errors.{SerializedError}
use stage5_browser.Protocol.{Command, PolicyMode}
use stage5_browser.Operations.{Recovery}
use stage5_browser.Operations.Journal.{Codec, Write}
use stage5_browser.Operations.Registry.{Registry}

-- `SUPPORTED_BROWSER_PRODUCTS`
pub data BrowserProduct : Type 0 where
  chromium chrome brave edge firefox webkit : BrowserProduct

-- A field of a result that is not there, that is null, or that is a text.
pub data UrlField : Type 0 where
  absent null : UrlField
  url : Text → UrlField

-- What the supervisor reads of a result, which is an object: `page` and `page.url`, `lastKnownUrl`,
-- the URL of the last of `pages`, `browser`, `browserConnected`, `controlMode`, `state` and `mode`,
-- where they have the type that it tests for.
pub record Answer : Type 0 where
  pub has_page : Bool
  pub page_url : Option Text
  pub last_known_url : UrlField
  pub last_page_url : Option Text
  pub browser : Option Text
  pub browser_connected : Option Bool
  pub control_mode : Option Text
  pub state : Option Text
  pub mode : Option Text

-- `RecoveryResult`
pub record RecoveryResult : Type 0 where
  pub operation_id : Text
  pub browser_recovered : Bool
  pub reopened_url : Option Text
  pub status : Answer

-- What the registry keeps of an operation that succeeded.
pub data OperationResult : Type 0 where
  of_command : Answer → OperationResult
  of_recovery : RecoveryResult → OperationResult

-- `initialized.runtime`
pub record WorkerRuntime : Type 0 where
  pub protocol_version : ℕ
  pub loaded_artifact_fingerprint : Option Text
  pub artifact_fingerprint : Option Text

-- `runtimeInfoProvider()`
pub record RuntimeInfo : Type 0 where
  pub restart_required : Bool
  pub compatible_update_available : Bool
  pub current_artifact_fingerprint : Option Text

-- What becomes of a request: an answer, an error, no answer before the deadline, the exit of the
-- worker, or a message that cannot be sent.
pub data Reply (A : Type 0) : Type 0 where
  answers : A → Reply A
  rejects : SerializedError → Reply A
  stays_silent exits unsendable : Reply A

-- A request that was sent, with its deadline.
pub record Sent : Type 0 where
  pub command : Command
  pub timeout_ms : ℕ

pub record Child : Type 0 where
  pub number : ℕ
  pub is_live : Bool

-- What the store keeps for an agent.
pub record StoredContext : Type 0 where
  pub browser : Option BrowserProduct
  pub action_policy_mode : Option PolicyMode

pub record Config : Type 0 where
  pub operation_timeout_ms : ℕ
  pub worker_startup_timeout_ms : ℕ
  pub navigation_timeout_ms : ℕ

-- `BrowserSupervisor`. `answers` and `initializations` are the replies that are still to come, `sent`
-- the requests that were sent, `forked` the number of workers that were started, and `terminated` the
-- workers that were sent a signal.
pub record Supervisor : Type 0 where
  pub config : Config
  pub operations : Registry OperationResult
  pub child : Option Child
  pub worker_runtime : Option WorkerRuntime
  pub expected_build_fingerprint : Option Text
  pub selected_browser : BrowserProduct
  pub last_known_url : Option Text
  pub browser_was_connected : Bool
  pub human_authentication_in_progress : Bool
  pub action_policy_mode : PolicyMode
  pub agent_context_id : Option Text
  pub agent_context_browser_known : Bool
  pub agent_context_policy_known : Bool
  pub pending_agent_browser : Option BrowserProduct
  pub pending_agent_policy_mode : Option PolicyMode
  pub stored_contexts : List (Text × StoredContext)
  pub closing : Bool
  pub replies : List (Reply Answer)
  pub initializations : List (Reply WorkerRuntime)
  pub sent : List Sent
  pub forked : ℕ
  pub terminated : List ℕ

-- Where `execute` awaits something other than its journal.
pub data Await : Type 0 where
  agent_context runtime_reload worker_start worker_reply context_note worker_replacement : Await

-- What one operation reads of its surroundings: the clock at each of its phases, the registry's
-- reading of the clock, a fresh id, the runtime that is installed, the lease of the profile, the record
-- of a native browser (whether it is `controlled`), each none if its file cannot be read, and what
-- becomes of its writes; and what the calls of the registry that others make while it awaits do to it.
pub record Host : Type 0 where
  pub at : ℕ
  pub queued_at : ℕ
  pub preflight_at : ℕ
  pub sent_at : ℕ
  pub received_at : ℕ
  pub ended_at : ℕ
  pub persisted_at : ℕ
  pub written_at : ℕ
  pub uuid : Text
  pub runtime_info : Option RuntimeInfo
  pub retains_private_handoff : Option Bool
  pub native_control : Option (Option Bool)
  pub writes_context : Bool
  pub codec : Codec
  pub journal_write : Write
  pub journal_size : ℕ
  pub others : Await → Registry OperationResult → Registry OperationResult

pub record RuntimeTransition : Type 0 where
  pub page_state_preserved : Bool

-- What is thrown: an error of the program; another value, with its name if it is an `Error`; or the
-- error that `execute` reports.
pub data Thrown : Type 0 where
  stage5 : SerializedError → Thrown
  plain : Option Text → Thrown
  supervised : SerializedError → Text → Recovery → Option RuntimeTransition → Thrown
