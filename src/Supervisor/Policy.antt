-- ===== src/Supervisor/Policy.antt =====
-- src/supervisor/policy.ts, with what it uses of src/diagnostics.ts and src/errors.ts.
use stage5_browser.Base.{
  ℕ, ◌+◌, Bool, true, false, ◌&&◌, ◌||◌, Option, none, some, List, [], ◌∷◌, ◌++◌, if◌then◌else◌,
}
use stage5_browser.Text.{Text, text, text_eq}
use stage5_browser.Table.{exists}
use stage5_browser.Effect.{Exec, Outcome, ok, err, pure, attempt, ◌>>=◌, ◌>>◌}
use stage5_browser.Errors.{
  ErrorCode, operation_timeout, worker_disconnected, worker_start_failed, operation_failed,
  SerializedError,
}
use stage5_browser.Protocol.{Command, initialize, PolicyMode, normal, review_only}
use stage5_browser.Operations.{JournalRecord}
use stage5_browser.Operations.Registry.{RegistryFault, Registry, reservation_unavailable, persist}
use stage5_browser.Supervisor.{
  Supervisor, Config, Host, Answer, OperationResult, absent, null, url, BrowserProduct, chromium,
  chrome, brave, edge, firefox, webkit, Thrown, stage5, plain, supervised,
}

unfoldable pub deadline_for : Config → Command → Option ℕ → ℕ
deadline_for config initialize timeout_ms = config.worker_startup_timeout_ms
deadline_for config _ none = config.operation_timeout_ms
deadline_for config _ (some timeout_ms) = timeout_ms + 2000

unfoldable pub requires_hard_recovery : ErrorCode → Bool
requires_hard_recovery operation_timeout = true
requires_hard_recovery worker_disconnected = true
requires_hard_recovery worker_start_failed = true
requires_hard_recovery _ = false

-- `captureLastKnownUrl`
abbrev captured_url : Answer → Option Text → Option Text
captured_url a kept = elim a.page_url [
  | some u ↦ some u
  | none ↦ elim a.last_known_url [
    | null ↦ none
    | url u ↦ some u
    | absent ↦ elim a.last_page_url [ none ↦ kept | some u ↦ some u ]
  ]
]

unfoldable pub capture_last_known_url : Answer → Supervisor → Supervisor
capture_last_known_url a s = record s { last_known_url = captured_url a s.last_known_url }

-- `isBrowserProduct`, with the product that it finds.
unfoldable pub product_named : Text → Option BrowserProduct
unfolding text_eq
product_named name =
    if text_eq name (text "chromium")
    then some chromium
    else if text_eq name (text "chrome")
    then some chrome
    else if text_eq name (text "brave")
    then some brave
    else if text_eq name (text "edge")
    then some edge
    else if text_eq name (text "firefox")
    then some firefox
    else if text_eq name (text "webkit")
    then some webkit
    else none

abbrev pub or_kept : {A : Type 0} → Option A → A → A
or_kept none kept = kept
or_kept (some a) kept = a

abbrev pub named_product : Option Text → Option BrowserProduct
named_product none = none
named_product (some name) = product_named name

unfoldable pub capture_selected_browser : Answer → Supervisor → Supervisor
unfolding product_named
capture_selected_browser a s = record s {
  selected_browser = or_kept (named_product a.browser) s.selected_browser;
}

unfoldable pub capture_browser_connection : Answer → Supervisor → Supervisor
capture_browser_connection a s = record s {
  browser_was_connected = or_kept a.browser_connected (a.has_page || s.browser_was_connected);
}

abbrev is_awaiting : Text → Text → Bool
is_awaiting mode state =
    (text_eq mode (text "human_bootstrap") || text_eq mode (text "private_field"))
    && text_eq state (text "awaiting_user")

abbrev authentication_of : Option Text → Option Text → Bool → Bool
authentication_of (some mode) (some state) kept = is_awaiting mode state
authentication_of _ _ kept = kept

unfoldable pub capture_authentication_state : Answer → Supervisor → Supervisor
unfolding text_eq
capture_authentication_state a s = record s {
  human_authentication_in_progress =
      authentication_of a.control_mode a.state s.human_authentication_in_progress;
}

abbrev mode_of : Option Text → PolicyMode → PolicyMode
mode_of none kept = kept
mode_of (some m) kept =
    if text_eq m (text "normal")
    then normal
    else if text_eq m (text "review_only")
    then review_only
    else kept

unfoldable pub capture_action_policy_state : Answer → Supervisor → Supervisor
unfolding text_eq
capture_action_policy_state a s = record s {
  action_policy_mode = mode_of a.mode s.action_policy_mode;
}

-- The captures of `execute`, in its order.
unfoldable pub capture : Answer → Supervisor → Supervisor
unfolding capture_last_known_url capture_selected_browser capture_browser_connection
    capture_authentication_state capture_action_policy_state
capture a s = capture_action_policy_state a (
    capture_authentication_state a
      (capture_browser_connection a (capture_last_known_url a (capture_selected_browser a s))))

-- `LAUNCH_FAILURE_REASONS`
abbrev launch_failure_reasons : List Text
launch_failure_reasons =
    text "browser_executable_missing"
    ∷ text "browser_process_exited"
    ∷ text "bundled_browser_missing"
    ∷ text "display_unavailable"
    ∷ text "installation_not_found"
    ∷ text "launch_timeout"
    ∷ text "ownership_unverified"
    ∷ text "path_not_absolute"
    ∷ text "path_not_executable"
    ∷ text "permission_denied"
    ∷ text "profile_locked"
    ∷ text "unknown_launch_failure"
    ∷ text "worker_protocol_mismatch"
    ∷ []

-- An entry of the details.
abbrev detail : Text → List (Text × Text) → Option Text
detail name [] = none
detail name ((key, value) ∷ rest) =
    let later = detail name rest in if text_eq key name then some value else later

abbrev pub if_listed : List Text → Option Text → Option Text
if_listed names none = none
if_listed names (some name) = if exists (text_eq name) names then some name else none

abbrev pub product_name : BrowserProduct → Text
product_name chromium = text "chromium"
product_name chrome = text "chrome"
product_name brave = text "brave"
product_name edge = text "edge"
product_name firefox = text "firefox"
product_name webkit = text "webkit"

abbrev product_names : List Text
product_names =
    text "chromium"
    ∷ text "chrome"
    ∷ text "brave"
    ∷ text "edge"
    ∷ text "firefox"
    ∷ text "webkit"
    ∷ []

-- `safeJournalDiagnostic`: the cause and the browser that the journal may name.
unfoldable pub safe_journal_diagnostic : SerializedError → Option Text × Option Text
unfolding text_eq exists
safe_journal_diagnostic error = (
  if_listed launch_failure_reasons (detail (text "reason") error.details),
  if_listed product_names (detail (text "browser") error.details),
)

-- What a fault of the registry is to its caller.
abbrev pub thrown_by : RegistryFault → Thrown
thrown_by (reservation_unavailable id) = stage5 (record {
  code = operation_failed;
  message = text "The requested operation reservation is unavailable.";
  recoverable = true;
  details =
      (text "reason", text "operation_reservation_unavailable") ∷ (text "operationId", id) ∷ [];
})
thrown_by _ = plain (some (text "Error"))

-- An error that is none of the program's, by its name.
unfoldable pub foreign_error : Text → SerializedError
unfolding text_eq
foreign_error name =
    if text_eq name (text "TimeoutError")
    then record {
      code = operation_timeout;
      message = text "The browser operation exceeded its Playwright deadline.";
      recoverable = true;
      details = [];
    }
    else record {
      code = operation_failed;
      message = text "Browser operation failed (" ++ (name ++ text ").");
      recoverable = false;
      details = [];
    }

-- `serializeUnknownError`
unfoldable pub serialize_unknown_error : Thrown → SerializedError
unfolding foreign_error
serialize_unknown_error (stage5 e) = e
serialize_unknown_error (supervised e id ended_by transition) = e
serialize_unknown_error (plain (some name)) = foreign_error name
serialize_unknown_error (plain none) = record {
  code = operation_failed;
  message = text "Browser operation failed.";
  recoverable = false;
  details = [];
}

abbrev translated : {A : Type 0} → Outcome RegistryFault A → Outcome Thrown A
translated (ok a) = ok a
translated (err e) = err (thrown_by e)

-- A call of `this.operations`.
unfoldable pub on_registry :
    {A : Type 0} → Exec (Registry OperationResult) RegistryFault A → Exec Supervisor Thrown A
on_registry m s = (record s { operations = (m s.operations).0 }, translated (m s.operations).1)

-- `appendJournal`: a failure is ignored.
unfoldable pub append_journal : Host → JournalRecord → Exec Supervisor Thrown (Unit {0})
unfolding ◌>>=◌ on_registry attempt persist
append_journal host r = do
  attempt (
      on_registry (
        persist host.persisted_at host.written_at host.codec host.journal_write host.journal_size
          r))
  pure tt
