-- ===== src/Supervisor/AgentContext.antt =====
-- src/supervisor/agent-context.ts: the browser and the policy that belong to a durable agent. The store
-- of contexts is a list by the agent's id, and a write of it may fail.
use stage5_browser.Base.{
  Bool, true, false, not, ◌&&◌, ◌||◌, Option, none, some, [], ◌∷◌, if◌then◌else◌,
}
use stage5_browser.Text.{Text, text, text_eq}
use stage5_browser.Table.{find, upsert}
use stage5_browser.Effect.{Exec, pure, throw, gets, modify, guard, attempt, ◌>>=◌, ◌>>◌}
use stage5_browser.Errors.{operation_failed}
use stage5_browser.Protocol.{
  Command, set_policy, start, switch_browser, stop, request_login_handoff, resume_after_login,
  PolicyMode, normal, review_only,
}
use stage5_browser.Supervisor.{
  Supervisor, Host, Answer, StoredContext, BrowserProduct, chromium, chrome, brave, edge, firefox,
  webkit, Thrown, stage5, plain,
}
use stage5_browser.Supervisor.Policy.{or_kept}
use stage5_browser.Supervisor.Worker.{request, terminate_worker, is_there}

pub data BindingState : Type 0 where
  bound pending_reconcile restored : BindingState

pub data ContextSource : Type 0 where
  current_live_context configured_default durable_agent_context : ContextSource

-- `BrowserAgentContextBinding`
pub record AgentContextBinding : Type 0 where
  pub state : BindingState
  pub browser : BrowserProduct
  pub browser_source : ContextSource
  pub action_policy_mode : PolicyMode
  pub policy_source : ContextSource

abbrev is_context_of : Text → Text × StoredContext → Bool
is_context_of id c = text_eq c.0 id

abbrev read_context : Text → Supervisor → Option StoredContext
read_context id s = elim (find (is_context_of id) s.stored_contexts) [
  | none ↦ none
  | some c ↦ some c.1
]

-- `agentContextStore.write`
unfoldable pub write_context : Host → Text → StoredContext → Exec Supervisor Thrown (Unit {0})
unfolding ◌>>=◌ upsert text_eq
write_context host id c = do
  guard host.writes_context (plain (some (text "Error")))
  modify (λ s. record s {
    stored_contexts = upsert (is_context_of id) (λ _. (id, c)) (id, c) s.stored_contexts;
  })

abbrev pub agent_context_binding : Supervisor → AgentContextBinding
agent_context_binding s = record {
  state =
      if is_there s.pending_agent_browser || is_there s.pending_agent_policy_mode
      then pending_reconcile
      else if s.agent_context_browser_known || s.agent_context_policy_known
      then restored
      else bound;
  browser = or_kept s.pending_agent_browser s.selected_browser;
  browser_source =
      if s.agent_context_browser_known then durable_agent_context else configured_default;
  action_policy_mode = or_kept s.pending_agent_policy_mode s.action_policy_mode;
  policy_source =
      if s.agent_context_policy_known then durable_agent_context else configured_default;
}

abbrev is_live_context : Supervisor → Bool
is_live_context s = s.browser_was_connected || s.human_authentication_in_progress

abbrev known : {A : Type 0} → Bool → A → Option A
known b a = if b then some a else none

abbrev pub write_if : Host → Option Text → StoredContext → Exec Supervisor Thrown (Unit {0})
write_if host none context = pure tt
write_if host (some agent_id) context = write_context host agent_id context

-- `writeAgentContext`
unfoldable pub write_agent_context : Host → Exec Supervisor Thrown (Unit {0})
unfolding ◌>>=◌ write_context
write_agent_context host = do
  id ← gets (λ s. s.agent_context_id)
  context ← gets (λ s. record {
    browser = known s.agent_context_browser_known s.selected_browser;
    action_policy_mode = known s.agent_context_policy_known s.action_policy_mode;
  })
  write_if host id context

unfoldable pub persist_agent_context : Host → Exec Supervisor Thrown (Unit {0})
unfolding ◌>>=◌ write_agent_context
persist_agent_context host = do
  writes ← gets (λ s.
      is_there s.agent_context_id
      && (s.agent_context_browser_known || s.agent_context_policy_known))
  if writes then write_agent_context host else pure tt

-- The commands after which the browser is the agent's.
makes_browser_known : Command → Bool
makes_browser_known start = true
makes_browser_known switch_browser = true
makes_browser_known stop = true
makes_browser_known request_login_handoff = true
makes_browser_known resume_after_login = true
makes_browser_known _ = false

is_set_policy : Command → Bool
is_set_policy set_policy = true
is_set_policy _ = false

abbrev of_command : (Command → Bool) → Option Command → Bool
of_command p none = false
of_command p (some c) = p c

abbrev pub is_true : Option Bool → Bool
is_true none = false
is_true (some b) = b

-- `noteAgentContextResult`. The command is none for `recover`.
unfoldable pub note_agent_context_result :
    Host → Option Command → Bool → Answer → Exec Supervisor Thrown (Unit {0})
unfolding ◌>>=◌ attempt persist_agent_context makes_browser_known is_set_policy
note_agent_context_result host command was_connected answer = do
  bound_agent ← gets (λ s. is_there s.agent_context_id)
  let browser_known =
      was_connected || is_true answer.browser_connected || of_command makes_browser_known command
  let policy_known = of_command is_set_policy command
  if bound_agent
      then (do
        modify (λ s. record s {
          agent_context_browser_known = browser_known || s.agent_context_browser_known;
          agent_context_policy_known = policy_known || s.agent_context_policy_known;
        })
        attempt (persist_agent_context host)
        pure tt)
      else pure tt

same_product : BrowserProduct → BrowserProduct → Bool
same_product chromium chromium = true
same_product chrome chrome = true
same_product brave brave = true
same_product edge edge = true
same_product firefox firefox = true
same_product webkit webkit = true
same_product _ _ = false

same_mode : PolicyMode → PolicyMode → Bool
same_mode normal normal = true
same_mode review_only review_only = true
same_mode _ _ = false

abbrev differs : {A : Type 0} → (A → A → Bool) → Option A → A → Bool
differs same none kept = false
differs same (some a) kept = not (same a kept)

-- The worker is told what changed: it ends, so that the next one starts with the browser, or it is
-- asked to change the policy.
unfoldable pub reconcile : Bool → Bool → Exec Supervisor Thrown (Unit {0})
unfolding ◌>>=◌ request terminate_worker
reconcile browser_changed policy_changed = do
  has_child ← gets (λ s. is_there s.child)
  timeout_ms ← gets (λ s. s.config.operation_timeout_ms)
  if browser_changed && has_child
      then modify terminate_worker
      else if policy_changed && has_child
      then request set_policy timeout_ms >> pure tt
      else pure tt

-- The rest of `applyPendingAgentContext`, when there is something pending.
unfoldable pub apply_context :
    Host → Option BrowserProduct → Option PolicyMode → Exec Supervisor Thrown (Unit {0})
unfolding ◌>>=◌ same_product same_mode reconcile persist_agent_context
apply_context host browser mode = do
  live ← gets is_live_context
  browser_changed ← gets (λ s. differs same_product browser s.selected_browser)
  policy_changed ← gets (λ s. differs same_mode mode s.action_policy_mode)
  modify (λ s. record s {
    selected_browser = if live then s.selected_browser else or_kept browser s.selected_browser;
    action_policy_mode = or_kept mode s.action_policy_mode;
  })
  reconcile (not live && browser_changed) policy_changed
  modify (λ s. record s {
    agent_context_browser_known = (live && is_there browser) || s.agent_context_browser_known;
  })
  persist_agent_context host

unfoldable pub apply_pending_agent_context : Host → Exec Supervisor Thrown (Unit {0})
unfolding ◌>>=◌ apply_context
apply_pending_agent_context host = do
  browser ← gets (λ s. s.pending_agent_browser)
  mode ← gets (λ s. s.pending_agent_policy_mode)
  modify (λ s. record s { pending_agent_browser = none; pending_agent_policy_mode = none })
  if is_there browser || is_there mode then apply_context host browser mode else pure tt

abbrev stored_browser : Option StoredContext → Option BrowserProduct
stored_browser none = none
stored_browser (some c) = c.browser

abbrev stored_mode : Option StoredContext → Option PolicyMode
stored_mode none = none
stored_mode (some c) = c.action_policy_mode

-- The browser of a binding: the live one, the stored one, which waits if there is a worker, or the
-- configured one.
bind_browser : Option StoredContext → Supervisor → Supervisor
bind_browser stored s =
    if is_live_context s
    then record s { agent_context_browser_known = true }
    else elim (stored_browser stored) [
      | none ↦ s
      | some b ↦
          if is_there s.child
          then record s { agent_context_browser_known = true; pending_agent_browser = some b }
          else record s { agent_context_browser_known = true; selected_browser = b }
    ]

abbrev browser_source_of : Option StoredContext → Supervisor → ContextSource
browser_source_of stored s =
    if is_live_context s
    then current_live_context
    else if is_there (stored_browser stored)
    then durable_agent_context
    else configured_default

bind_policy : Option StoredContext → Supervisor → Supervisor
bind_policy stored s = if s.agent_context_policy_known then s else elim (stored_mode stored) [
  | none ↦ s
  | some m ↦
      if is_there s.child
      then record s { agent_context_policy_known = true; pending_agent_policy_mode = some m }
      else record s { agent_context_policy_known = true; action_policy_mode = m }
]

abbrev policy_source_of : Option StoredContext → Supervisor → ContextSource
policy_source_of stored s =
    if s.agent_context_policy_known
    then current_live_context
    else if is_there (stored_mode stored)
    then durable_agent_context
    else configured_default

-- What is written for a live context.
write_live : Host → Text → Exec Supervisor Thrown (Unit {0})
unfolding ◌>>=◌ write_context
write_live host agent_id = do
  live ← gets is_live_context
  context ← gets (λ s. record {
    browser = some s.selected_browser;
    action_policy_mode = elim s.pending_agent_policy_mode [
      | some m ↦ some m
      | none ↦ known s.agent_context_policy_known s.action_policy_mode
    ];
  })
  if live then write_context host agent_id context else pure tt

-- `bindAgentContext` of an agent that is not bound yet.
bind_new : Host → Text → Exec Supervisor Thrown AgentContextBinding
unfolding ◌>>=◌ bind_browser bind_policy write_live find text_eq
bind_new host agent_id = do
  stored ← gets (read_context agent_id)
  browser_source ← gets (browser_source_of stored)
  policy_source ← gets (policy_source_of stored)
  modify (λ s. record s { agent_context_id = some agent_id })
  modify (bind_browser stored)
  modify (bind_policy stored)
  write_live host agent_id
  gets (λ s. record (agent_context_binding s) {
    state =
        if is_there s.pending_agent_browser || is_there s.pending_agent_policy_mode
        then pending_reconcile
        else if is_there stored
        then restored
        else bound;
    browser_source = browser_source;
    policy_source = policy_source;
  })

unfoldable pub bind_agent_context : Host → Text → Exec Supervisor Thrown AgentContextBinding
unfolding ◌>>=◌ bind_new text_eq
bind_agent_context host agent_id = do
  current ← gets (λ s. s.agent_context_id)
  elim current [
    | none ↦ bind_new host agent_id
    | some id ↦
        if text_eq id agent_id
        then gets agent_context_binding
        else throw (
            stage5 (record {
              code = operation_failed;
              message = text "This MCP host is already bound to a different durable agent context.";
              recoverable = false;
              details = (text "reason", text "agent_context_already_bound") ∷ [];
            }))
  ]
