-- ===== src/Lounge/Status.antt =====
-- src/lounge/store/status.ts: presence of the members and delivery states of the sent messages.
use stage5_browser.Base.{ℕ, true, ◌&&◌, Option, none, some, List, map, leb, if◌then◌else◌, take}
use stage5_browser.Text.{Text, text_eq, text_le}
use stage5_browser.Table.{find, rows, matches, exists, sort_by}
use stage5_browser.Effect.{gets, or_throw, guard, ◌>>=◌, ◌>>◌}
use stage5_browser.Lounge.{
  Store, StoreExec, invalid_argument, Number, Host, Setup, SessionRow, AgentRow, MessageRow,
  SessionState, DeliveryState, pending, delivered, MessageKind, session_id, now_ms,
}
use stage5_browser.Lounge.Model.{
  is_identifier, operation_time, presence_for, holds, max_recent_sent_messages,
}
use stage5_browser.Lounge.Sessions.{require_session, is_open_for, is_null}
use stage5_browser.Lounge.Messages.Ack.{same_state, is_message_of}
use stage5_browser.Lounge.Notices.{NoticeState, current_notice}
use stage5_browser.Lounge.WorkNotes.{WorkNote, WorkNoteState, current_work_note, member_work_notes}

pub record StatusInput : Type 0 where
  pub session_id : Text
  pub now_ms : Option Number

pub record MemberStatus : Type 0 where
  pub agent_id : Text
  pub display_name : Text
  pub provider : Text
  pub presence : SessionState
  pub last_heartbeat_at_ms : Option ℕ
  pub lease_until_ms : Option ℕ
  pub pending_messages : ℕ
  pub delivered_messages : ℕ

pub record SentRecipient : Type 0 where
  pub agent_id : Text
  pub state : DeliveryState
  pub updated_at_ms : ℕ

pub record SentMessageStatus : Type 0 where
  pub message_id : Text
  pub sequence : ℕ
  pub kind : MessageKind
  pub task_key : Option Text
  pub created_at_ms : ℕ
  pub recipients : List SentRecipient

pub record StatusResult : Type 0 where
  pub requesting_agent_id : Text
  pub members : List MemberStatus
  pub recent_sent_messages : List SentMessageStatus
  pub work_note_revision : ℕ
  pub work_note : Option WorkNote
  pub member_work_notes : Option (List WorkNoteState)
  pub notice : NoticeState

-- The open session of a member that started last: ORDER BY started_at_ms DESC LIMIT 1.
unfoldable pub latest_session : Text → Text → Store → Option SessionRow
unfolding find rows sort_by
latest_session lounge agent s =
    find (λ r. true)
      (sort_by (λ a b. leb b.started_at_ms a.started_at_ms)
        (rows (is_open_for lounge agent) s.sessions))

-- SUM(CASE …): the deliveries of the room's messages to an agent that are in one state.
unfoldable pub deliveries_in : DeliveryState → Text → Text → Store → ℕ
unfolding matches exists same_state
deliveries_in state lounge agent s =
    matches
      (λ d.
        text_eq agent d.recipient_agent_id
        && same_state state d.state
        && exists (is_message_of d.message_id lounge) s.messages)
      s.deliveries

abbrev pub heartbeat_of : Option SessionRow → Option ℕ
heartbeat_of none = none
heartbeat_of (some r) = some r.heartbeat_at_ms

abbrev pub lease_of : Option SessionRow → Option ℕ
lease_of none = none
lease_of (some r) = some r.lease_until_ms

abbrev pub state_of : Option SessionRow → Option SessionState
state_of none = none
state_of (some r) = some r.state

unfoldable pub member_status : Text → ℕ → Store → AgentRow → MemberStatus
unfolding latest_session deliveries_in presence_for
member_status lounge now s a =
    let latest = latest_session lounge a.id s in
    record {
      agent_id = a.id;
      display_name = a.display_name;
      provider = a.provider;
      presence = presence_for (state_of latest) (lease_of latest) now;
      last_heartbeat_at_ms = heartbeat_of latest;
      lease_until_ms = lease_of latest;
      pending_messages = deliveries_in pending lounge a.id s;
      delivered_messages = deliveries_in delivered lounge a.id s;
    }

-- The agents of the present members, in order. (The join drops no member: an agent is there for
-- each by a foreign key.)
unfoldable pub present_agents : Text → Store → List AgentRow
unfolding rows exists sort_by text_le
present_agents lounge s =
    sort_by (λ a b. text_le a.id b.id)
      (rows
        (λ a.
          exists
            (λ m. text_eq lounge m.lounge_id && is_null m.left_at_ms && text_eq a.id m.agent_id)
            s.memberships)
        s.agents)

unfoldable pub sent_status : Store → MessageRow → SentMessageStatus
unfolding rows sort_by text_le
sent_status s m = record {
  message_id = m.id;
  sequence = m.sequence;
  kind = m.kind;
  task_key = m.task_key;
  created_at_ms = m.created_at_ms;
  recipients =
      map
        (λ d. record {
          agent_id = d.recipient_agent_id;
          state = d.state;
          updated_at_ms = d.updated_at_ms;
        })
        (sort_by (λ a b. text_le a.recipient_agent_id b.recipient_agent_id)
          (rows (λ d. text_eq m.id d.message_id) s.deliveries));
}

-- `WITH recent_messages …`, newest first. Ids are unique, so the Map of the source has one entry
-- for each.
unfoldable pub recent_sent : SessionRow → Store → List MessageRow
unfolding rows sort_by
recent_sent session s = take max_recent_sent_messages (
    sort_by (λ a b. leb b.sequence a.sequence)
      (rows
        (λ m. text_eq session.lounge_id m.lounge_id && text_eq session.agent_id m.sender_agent_id)
        s.messages))

unfoldable pub status_of : Setup → SessionRow → ℕ → Store → StatusResult
unfolding member_status present_agents sent_status recent_sent current_work_note member_work_notes
    current_notice
status_of setup session now s =
    let own = current_work_note session.lounge_id session.agent_id s in
    record {
      requesting_agent_id = session.agent_id;
      members = map (member_status session.lounge_id now s) (present_agents session.lounge_id s);
      recent_sent_messages = map (sent_status s) (recent_sent session s);
      work_note_revision = own.work_note_revision;
      work_note = own.work_note;
      member_work_notes =
          if holds setup.managers session.agent_id
          then some (member_work_notes session.lounge_id s)
          else none;
      notice = current_notice session.lounge_id s;
    }

unfoldable pub status : Setup → Host → StatusInput → StoreExec StatusResult
unfolding ◌>>=◌ status_of
status setup host i = do
  guard (is_identifier i.session_id) (invalid_argument session_id)
  now ← or_throw (operation_time i.now_ms host.clock) (invalid_argument now_ms)
  session ← require_session i.session_id
  gets (status_of setup session now)
