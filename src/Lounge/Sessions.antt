-- ===== src/Lounge/Sessions.antt =====
-- src/lounge/store/sessions.ts and authorization.ts: joining a room, heartbeats, closing, and the
-- checks that every other operation begins with.
use stage5_browser.Base.{
  ℕ, ◌+◌, Bool, true, false, not, ◌&&◌, Option, none, some, [], ◌∷◌, ◌++◌, ◌==◌,
}
use stage5_browser.Text.{Text, text_eq, trim}
use stage5_browser.Table.{find, update, matches, exists, upsert}
use stage5_browser.Effect.{pure, gets, or_throw, modify, guard, transaction, ◌>>=◌, ◌>>◌}
use stage5_browser.Lounge.{
  Store, StoreExec, invalid_argument, session_not_found, session_closed, manager_access_required,
  store_failure, Number, Host, Setup, SessionRow, SessionState, connected_non_wakeable, listening,
  processing, offline, lounge_id, agent_id, display_name, provider, client_instance_id, session_id,
  now_ms, lease_ms,
}
use stage5_browser.Lounge.Model.{
  is_identifier, is_bounded_text, operation_time, session_lease, holds,
}

abbrev pub is_null {ℓ} : {A : Type ℓ} → Option A → Bool
is_null none = true
is_null (some a) = false

-- `WHERE id = ?` of sessions.
abbrev pub has_id : Text → SessionRow → Bool
has_id id r = text_eq id r.id

-- `requireSession`
unfoldable pub require_session : Text → StoreExec SessionRow
unfolding ◌>>=◌ find
require_session id = do
  s ← gets (λ s. s)
  session ← or_throw (find (has_id id) s.sessions) session_not_found
  guard (is_null session.closed_at_ms) session_closed
  pure session

-- `requireManagerSession`
unfoldable pub require_manager_session : Setup → Text → StoreExec SessionRow
unfolding ◌>>=◌ require_session exists
require_manager_session setup id = do
  session ← require_session id
  guard (holds setup.managers session.agent_id) manager_access_required
  pure session

pub record JoinInput : Type 0 where
  pub lounge_id : Text
  pub agent_id : Text
  pub display_name : Text
  pub provider : Text
  pub client_instance_id : Text
  pub now_ms : Option Number
  pub lease_ms : Option Number

pub record JoinResult : Type 0 where
  pub lounge_id : Text
  pub agent_id : Text
  pub session_id : Text
  pub state : SessionState
  pub joined_at_ms : ℕ
  pub lease_until_ms : ℕ
  pub superseded_session_count : ℕ

-- INSERT INTO lounges … ON CONFLICT DO NOTHING
abbrev pub add_lounge : JoinInput → ℕ → Store → Store
add_lounge i now s = record s {
  lounges =
      upsert (λ r. text_eq i.lounge_id r.id) (λ r. r)
        (record { id = i.lounge_id; display_name = i.lounge_id; created_at_ms = now }) s.lounges;
}

-- INSERT INTO agents … ON CONFLICT DO UPDATE
abbrev pub add_agent : JoinInput → ℕ → Store → Store
add_agent i now s = record s {
  agents =
      upsert (λ r. text_eq i.agent_id r.id)
        (λ r. record r {
          display_name = trim i.display_name;
          provider = trim i.provider;
          updated_at_ms = now;
        })
        (record {
          id = i.agent_id;
          display_name = trim i.display_name;
          provider = trim i.provider;
          created_at_ms = now;
          updated_at_ms = now;
        })
        s.agents;
}

-- INSERT INTO memberships … ON CONFLICT DO UPDATE SET left_at_ms = NULL
abbrev pub add_membership : JoinInput → ℕ → Store → Store
add_membership i now s = record s {
  memberships =
      upsert (λ r. text_eq i.lounge_id r.lounge_id && text_eq i.agent_id r.agent_id)
        (λ r. record r { left_at_ms = none })
        (record {
          lounge_id = i.lounge_id;
          agent_id = i.agent_id;
          joined_at_ms = now;
          left_at_ms = none;
        })
        s.memberships;
}

-- `WHERE lounge_id = ? AND agent_id = ? AND closed_at_ms IS NULL`
abbrev pub is_open_for : Text → Text → SessionRow → Bool
is_open_for lounge agent r =
    text_eq lounge r.lounge_id && text_eq agent r.agent_id && is_null r.closed_at_ms

abbrev pub superseded : ℕ → SessionRow → SessionRow
superseded now r = record r { state = offline; lease_until_ms = now; closed_at_ms = some now }

-- The UPDATE of the sessions that a join supersedes.
abbrev pub supersede : Text → Text → ℕ → Store → Store
supersede lounge agent now s = record s {
  sessions = update (is_open_for lounge agent) (superseded now) s.sessions;
}

abbrev pub new_session : JoinInput → Host → ℕ → ℕ → SessionRow
new_session i host now lease = record {
  id = host.uuid;
  lounge_id = i.lounge_id;
  agent_id = i.agent_id;
  client_instance_id = i.client_instance_id;
  state = connected_non_wakeable;
  started_at_ms = now;
  heartbeat_at_ms = now;
  lease_until_ms = now + lease;
  closed_at_ms = none;
}

-- The body of the transaction of `join`. The insertion fails on an id that is taken.
unfoldable pub join_rows : JoinInput → Host → ℕ → ℕ → StoreExec JoinResult
unfolding ◌>>=◌
join_rows i host now lease = do
  modify (add_lounge i now)
  modify (add_agent i now)
  modify (add_membership i now)
  changes ← gets (λ s. matches (is_open_for i.lounge_id i.agent_id) s.sessions)
  modify (supersede i.lounge_id i.agent_id now)
  s ← gets (λ s. s)
  guard (not (exists (has_id host.uuid) s.sessions)) store_failure
  modify (λ s. record s { sessions = s.sessions ++ new_session i host now lease ∷ [] })
  pure (record {
    lounge_id = i.lounge_id;
    agent_id = i.agent_id;
    session_id = host.uuid;
    state = connected_non_wakeable;
    joined_at_ms = now;
    lease_until_ms = now + lease;
    superseded_session_count = changes;
  })

unfoldable pub join : Host → JoinInput → StoreExec JoinResult
unfolding ◌>>=◌ transaction
join host i = do
  guard (is_identifier i.lounge_id) (invalid_argument lounge_id)
  guard (is_identifier i.agent_id) (invalid_argument agent_id)
  guard (is_bounded_text i.display_name 100) (invalid_argument display_name)
  guard (is_bounded_text i.provider 50) (invalid_argument provider)
  guard (is_identifier i.client_instance_id) (invalid_argument client_instance_id)
  now ← or_throw (operation_time i.now_ms host.clock) (invalid_argument now_ms)
  lease ← or_throw (session_lease i.lease_ms) (invalid_argument lease_ms)
  transaction (join_rows i host now lease)

-- The states that a heartbeat can ask for: all but `offline`.
pub data HeartbeatState : Type 0 where
  wait_over listens processes : HeartbeatState

abbrev pub session_state : HeartbeatState → SessionState
session_state wait_over = connected_non_wakeable
session_state listens = listening
session_state processes = processing

pub record HeartbeatInput : Type 0 where
  pub session_id : Text
  pub state : HeartbeatState
  pub now_ms : Option Number
  pub lease_ms : Option Number

pub record HeartbeatResult : Type 0 where
  pub session_id : Text
  pub state : SessionState
  pub heartbeat_at_ms : ℕ
  pub lease_until_ms : ℕ

-- `WHERE id = ? AND closed_at_ms IS NULL`
abbrev pub is_open_with : Text → SessionRow → Bool
is_open_with id r = text_eq id r.id && is_null r.closed_at_ms

abbrev pub beaten : SessionState → ℕ → ℕ → SessionRow → SessionRow
beaten state now lease r = record r {
  state = state;
  heartbeat_at_ms = now;
  lease_until_ms = now + lease;
}

-- The UPDATE of `heartbeat`, and the check of the rows that it changed.
unfoldable pub beat : HeartbeatInput → ℕ → ℕ → StoreExec HeartbeatResult
unfolding ◌>>=◌
beat i now lease = do
  changes ← gets (λ s. matches (is_open_with i.session_id) s.sessions)
  modify (λ s. record s {
    sessions =
        update (is_open_with i.session_id) (beaten (session_state i.state) now lease) s.sessions;
  })
  guard (changes == 1) session_closed
  pure (record {
    session_id = i.session_id;
    state = session_state i.state;
    heartbeat_at_ms = now;
    lease_until_ms = now + lease;
  })

unfoldable pub heartbeat : Host → HeartbeatInput → StoreExec HeartbeatResult
unfolding ◌>>=◌ require_session beat
heartbeat host i = do
  guard (is_identifier i.session_id) (invalid_argument session_id)
  now ← or_throw (operation_time i.now_ms host.clock) (invalid_argument now_ms)
  lease ← or_throw (session_lease i.lease_ms) (invalid_argument lease_ms)
  require_session i.session_id
  beat i now lease

pub record CloseSessionInput : Type 0 where
  pub session_id : Text
  pub now_ms : Option Number

pub record CloseSessionResult : Type 0 where
  pub session_id : Text
  pub closed : Bool

abbrev pub closed_at : ℕ → SessionRow → SessionRow
closed_at now r = record r {
  state = offline;
  heartbeat_at_ms = now;
  lease_until_ms = now;
  closed_at_ms = some now;
}

unfoldable pub close_session : Host → CloseSessionInput → StoreExec CloseSessionResult
unfolding ◌>>=◌
close_session host i = do
  guard (is_identifier i.session_id) (invalid_argument session_id)
  now ← or_throw (operation_time i.now_ms host.clock) (invalid_argument now_ms)
  changes ← gets (λ s. matches (is_open_with i.session_id) s.sessions)
  modify
      (λ s. record s { sessions = update (is_open_with i.session_id) (closed_at now) s.sessions })
  pure (record { session_id = i.session_id; closed = changes == 1 })
