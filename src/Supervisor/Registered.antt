-- ===== src/Supervisor/Registered.antt =====
-- A command of src/supervisor/execute.ts keeps the record of its operation until it ends it.
use stage5_browser.Base.{
  ℕ, ◌≡◌, refl, sym, subst, inl, inr, Bool, true, false, Option, none, some, if◌then◌else◌,
  Option-cases,
}
use stage5_browser.Text.{Text}
use stage5_browser.Effect.{Exec, modify, attempt}
use stage5_browser.Effect.Rules.{Keeps, Keeps-modify, keeps_rules}
use stage5_browser.Effect.Ensures.{Outcome-cases}
use stage5_browser.Protocol.{Command}
use stage5_browser.Operations.Registry.{Registry}
use stage5_browser.Supervisor.{
  Supervisor, Host, Answer, OperationResult, Reply, answers, rejects, stays_silent, exits,
  unsendable, StoredContext, Thrown,
}
use stage5_browser.Supervisor.Policy.{capture_last_known_url, capture_browser_connection}
use stage5_browser.Supervisor.Worker.{
  fork, compatible_update, settle_request, request, request_initialize, handle_worker_failure,
  initialize_worker, terminate_worker, start_worker, ensure_worker, adopt_compatible_fingerprint,
  replace_worker, reattach, read_native_control, reload_with, reload_unless_connected,
  reload_unless_private, reload_for, reload_compatible_runtime_if_needed,
}
use stage5_browser.Supervisor.AgentContext.{
  write_if, write_context, write_agent_context, persist_agent_context, note_agent_context_result,
  reconcile, apply_context, apply_pending_agent_context,
}

-- What is kept depends on the registry alone.
module _ (P : Registry OperationResult → Type 0) where
  abbrev pub Holds : Supervisor → Type 0
  Holds s = P s.operations

  -- A change of the supervisor's own fields.
  pub Keeps-fields :
      (f : Supervisor → Supervisor)
      → ((s : Supervisor) → (f s).operations ≡ s.operations)
      → Keeps {E = Thrown} Holds (modify f)
  Keeps-fields f h = Keeps-modify f (λ s p. subst P (sym (h s)) p)

  pub settle_request-Keeps : {A : Type 0} (r : Reply A) → Keeps Holds (settle_request r)
  unfolding settle_request handle_worker_failure
  settle_request-Keeps (answers a) = search keeps_rules
  settle_request-Keeps (rejects e) = search keeps_rules
  settle_request-Keeps stays_silent = search keeps_rules
  settle_request-Keeps exits = record { at = λ s p. p }
  settle_request-Keeps unsendable = search keeps_rules

  pub request-Keeps :
      (command : Command) (timeout_ms : ℕ) → Keeps Holds (request command timeout_ms)
  unfolding request
  request-Keeps command timeout_ms =
      search (keeps_rules, Keeps-fields, settle_request-Keeps) depth 20

  pub Keeps-attempt :
      {A : Type 0} (m : Exec Supervisor Thrown A)
      → Keeps Holds m
      → Keeps {E = Thrown} Holds (attempt m)
  unfolding attempt
  Keeps-attempt m h = record { at = h.at }

  pub Keeps-if :
      {A : Type 0} (b : Bool) (m n : Exec Supervisor Thrown A)
      → Keeps Holds m
      → Keeps Holds n
      → Keeps Holds (if b then m else n)
  Keeps-if true m n h k = h
  Keeps-if false m n h k = k

  pub initialize_worker-Keeps : Keeps Holds initialize_worker
  unfolding initialize_worker request_initialize
  initialize_worker-Keeps = search (keeps_rules, Keeps-fields, settle_request-Keeps) depth 20

  pub start_worker-Keeps : Keeps Holds start_worker
  unfolding start_worker terminate_worker handle_worker_failure
  start_worker-Keeps = record {
    at = λ s p. elim (Outcome-cases (initialize_worker (fork s)).1) [
      | inl (u, e) ↦ rw (e, start_worker) (initialize_worker-Keeps.at (fork s) p)
      | inr (x, e) ↦ rw (e, start_worker) (initialize_worker-Keeps.at (fork s) p)
    ];
  }

  pub ensure_worker-Keeps : Keeps Holds ensure_worker
  unfolding ensure_worker
  ensure_worker-Keeps = search (keeps_rules, Keeps-if, start_worker-Keeps) depth 20

  adopt-fields :
      (host : Host) (s : Supervisor)
      → (adopt_compatible_fingerprint host s).operations ≡ s.operations
  unfolding adopt_compatible_fingerprint
  adopt-fields host s = elim (Option-cases (compatible_update host.runtime_info)) [
    | inl e ↦ rw (e, adopt_compatible_fingerprint) refl
    | inr (f, e) ↦ rw (e, adopt_compatible_fingerprint) refl
  ]

  pub replace_worker-Keeps : (host : Host) → Keeps Holds (replace_worker host)
  unfolding replace_worker terminate_worker handle_worker_failure
  replace_worker-Keeps host =
      search (keeps_rules, Keeps-fields, ensure_worker-Keeps, adopt-fields) depth 20

  pub reattach-Keeps : (b : Bool) → Keeps Holds (reattach b)
  unfolding reattach capture_last_known_url capture_browser_connection
  reattach-Keeps false = search keeps_rules
  reattach-Keeps true = search (keeps_rules, Keeps-fields, request-Keeps) depth 20

  reload_with-Keeps : (f : Text) (native : Option Bool) → Keeps Holds (reload_with f native)
  unfolding reload_with terminate_worker handle_worker_failure
  reload_with-Keeps f native =
      search (keeps_rules, Keeps-fields, ensure_worker-Keeps, reattach-Keeps) depth 30

  reload_unless_connected-Keeps :
      (host : Host) (f : Text) → Keeps Holds (reload_unless_connected host f)
  unfolding reload_unless_connected read_native_control
  reload_unless_connected-Keeps host f = search (keeps_rules, Keeps-if, reload_with-Keeps) depth 30

  pub reload_for-Keeps : (host : Host) (f : Text) → Keeps Holds (reload_for host f)
  unfolding reload_for reload_unless_private
  reload_for-Keeps host f = search (keeps_rules, Keeps-if, reload_unless_connected-Keeps) depth 30

  pub reload-Keeps : (host : Host) → Keeps Holds (reload_compatible_runtime_if_needed host)
  unfolding reload_compatible_runtime_if_needed
  reload-Keeps host = elim (Option-cases (compatible_update host.runtime_info)) [
    | inl e ↦ rw (e, reload_compatible_runtime_if_needed) (search keeps_rules)
    | inr (f, e) ↦ rw (e, reload_compatible_runtime_if_needed) (reload_for-Keeps host f)
  ]

  pub write_context-Keeps :
      (host : Host) (id : Text) (c : StoredContext) → Keeps Holds (write_context host id c)
  unfolding write_context
  write_context-Keeps host id c = search (keeps_rules, Keeps-fields) depth 20

  pub write_if-Keeps :
      (host : Host) (o : Option Text) (c : StoredContext) → Keeps Holds (write_if host o c)
  write_if-Keeps host none c = search keeps_rules
  write_if-Keeps host (some id) c = write_context-Keeps host id c

  pub persist_agent_context-Keeps : (host : Host) → Keeps Holds (persist_agent_context host)
  unfolding persist_agent_context write_agent_context
  persist_agent_context-Keeps host = search (keeps_rules, Keeps-if, write_if-Keeps) depth 20

  pub note-Keeps :
      (host : Host) (command : Option Command) (was_connected : Bool) (answer : Answer)
      → Keeps Holds (note_agent_context_result host command was_connected answer)
  unfolding note_agent_context_result
  note-Keeps host command was_connected answer =
      search (keeps_rules, Keeps-fields, Keeps-if, Keeps-attempt, persist_agent_context-Keeps) depth
        20

  pub reconcile-Keeps : (b c : Bool) → Keeps Holds (reconcile b c)
  unfolding reconcile terminate_worker handle_worker_failure
  reconcile-Keeps b c = search (keeps_rules, Keeps-fields, Keeps-if, request-Keeps) depth 20

  pub apply_pending-Keeps : (host : Host) → Keeps Holds (apply_pending_agent_context host)
  unfolding apply_pending_agent_context apply_context
  apply_pending-Keeps host =
      search (keeps_rules, Keeps-fields, Keeps-if, reconcile-Keeps, persist_agent_context-Keeps)
        depth 30
