-- ===== src/Lounge/History.antt =====
-- src/lounge/store/history.ts: a manager's pages of all messages of the room, audited.
use stage5_browser.Base.{
  ℕ, Bool, false, not, ◌&&◌, ◌||◌, Option, none, some, List, [], ◌∷◌, ◌++◌, map, reverse, leb, ltb,
  length, take,
}
use stage5_browser.Text.{Text, text_eq, text_le}
use stage5_browser.Table.{find, rows, exists, sort_by}
use stage5_browser.Effect.{pure, gets, or_throw, modify, guard, transaction, ◌>>=◌, ◌>>◌}
use stage5_browser.Lounge.{
  Store, StoreExec, invalid_argument, store_failure, Number, Host, Setup, SessionRow, MessageRow,
  DeliveryRow, DeliveryState, HistoryAuditRow, session_id, now_ms, limit, before_sequence,
  after_sequence, both_cursors,
}
use stage5_browser.Lounge.Model.{
  is_identifier, operation_time, nat_between, or_default, optional_sequence, max_history_messages,
}
use stage5_browser.Lounge.Sessions.{require_manager_session, is_null}

pub record HistoryInput : Type 0 where
  pub session_id : Text
  pub before_sequence : Option Number
  pub after_sequence : Option Number
  pub limit : Option Number
  pub now_ms : Option Number

pub record HistoryRecipient : Type 0 where
  pub agent_id : Text
  pub state : DeliveryState
  pub delivered_at_ms : Option ℕ
  pub seen_at_ms : Option ℕ
  pub acted_at_ms : Option ℕ
  pub updated_at_ms : ℕ

pub record HistoryMessage : Type 0 where
  pub message : MessageRow
  pub sender_display_name : Text
  pub recipients : List HistoryRecipient

pub record HistoryPage : Type 0 where
  pub limit : ℕ
  pub before_sequence : Option ℕ
  pub after_sequence : Option ℕ
  pub oldest_sequence : Option ℕ
  pub newest_sequence : Option ℕ
  pub has_older : Bool
  pub has_newer : Bool

pub record HistoryResult : Type 0 where
  pub lounge_id : Text
  pub requesting_agent_id : Text
  pub audit_id : Text
  pub audited_at_ms : ℕ
  pub messages : List HistoryMessage
  pub page : HistoryPage

-- The room and cursor condition of the three SELECTs.
abbrev pub in_page : Text → Option ℕ → Option ℕ → MessageRow → Bool
in_page lounge before (some a) m = text_eq lounge m.lounge_id && ltb a m.sequence
in_page lounge (some b) none m = text_eq lounge m.lounge_id && ltb m.sequence b
in_page lounge none none m = text_eq lounge m.lounge_id

-- ORDER BY m.sequence ASC, or DESC.
abbrev pub ascending : MessageRow → MessageRow → Bool
ascending a b = leb a.sequence b.sequence

abbrev pub descending : MessageRow → MessageRow → Bool
descending a b = leb b.sequence a.sequence

-- The page: upwards from `afterSequence`, else downwards and reversed. (The join with `agents`
-- drops nothing: the sender's agent is there by a foreign key.)
unfoldable pub page_rows : Text → Option ℕ → Option ℕ → ℕ → Store → List MessageRow
unfolding rows sort_by
page_rows lounge before (some a) n s =
    take n (sort_by ascending (rows (in_page lounge before (some a)) s.messages))
page_rows lounge before none n s =
    reverse (take n (sort_by descending (rows (in_page lounge before none) s.messages)))

abbrev pub recipient : DeliveryRow → HistoryRecipient
recipient d = record {
  agent_id = d.recipient_agent_id;
  state = d.state;
  delivered_at_ms = d.delivered_at_ms;
  seen_at_ms = d.seen_at_ms;
  acted_at_ms = d.acted_at_ms;
  updated_at_ms = d.updated_at_ms;
}

abbrev pub display_name_of : Text → Store → Text
display_name_of id s = elim (find (λ a. text_eq id a.id) s.agents) [
  | none ↦ []
  | some a ↦ a.display_name
]

unfoldable pub history_message : Store → MessageRow → HistoryMessage
unfolding rows sort_by text_le find
history_message s m = record {
  message = m;
  sender_display_name = display_name_of m.sender_agent_id s;
  recipients = map recipient (
      sort_by (λ a b. text_le a.recipient_agent_id b.recipient_agent_id)
        (rows (λ d. text_eq m.id d.message_id) s.deliveries));
}

abbrev pub first_sequence : List MessageRow → Option ℕ
first_sequence [] = none
first_sequence (m ∷ ms) = some m.sequence

abbrev pub last_sequence_of : List MessageRow → Option ℕ
last_sequence_of [] = none
last_sequence_of (m ∷ []) = some m.sequence
last_sequence_of (m ∷ n ∷ ms) = last_sequence_of (n ∷ ms)

-- `exists` of the source: a message of the room on that side of a sequence number.
abbrev pub room_has : Text → (ℕ → Bool) → Store → Bool
room_has lounge p s = exists (λ m. text_eq lounge m.lounge_id && p m.sequence) s.messages

unfoldable pub has_older : Text → Option ℕ → Option ℕ → Store → Bool
unfolding exists
has_older lounge (some oldest) after s = room_has lounge (λ k. ltb k oldest) s
has_older lounge none none s = false
has_older lounge none (some a) s = room_has lounge (λ k. leb k a) s

unfoldable pub has_newer : Text → Option ℕ → Option ℕ → Store → Bool
unfolding exists
has_newer lounge (some newest) before s = room_has lounge (λ k. ltb newest k) s
has_newer lounge none none s = false
has_newer lounge none (some b) s = room_has lounge (λ k. leb b k) s

abbrev pub audit_row :
    SessionRow → Text → Option ℕ → Option ℕ → ℕ → List MessageRow → ℕ → HistoryAuditRow
audit_row session id before after n ms now = record {
  id = id;
  lounge_id = session.lounge_id;
  manager_agent_id = session.agent_id;
  session_id = session.id;
  before_sequence = before;
  after_sequence = after;
  requested_limit = n;
  result_count = length ms;
  oldest_sequence = first_sequence ms;
  newest_sequence = last_sequence_of ms;
  created_at_ms = now;
}

unfoldable pub history_rows :
    SessionRow → Text → Option ℕ → Option ℕ → ℕ → ℕ → StoreExec HistoryResult
unfolding ◌>>=◌ exists page_rows history_message has_older has_newer
history_rows session id before after n now = do
  s ← gets (λ s. s)
  let ms = page_rows session.lounge_id before after n s
  guard (not (exists (λ r. text_eq id r.id) s.history_audits)) store_failure
  modify (λ s. record s {
    history_audits = s.history_audits ++ audit_row session id before after n ms now ∷ [];
  })
  pure (record {
    lounge_id = session.lounge_id;
    requesting_agent_id = session.agent_id;
    audit_id = id;
    audited_at_ms = now;
    messages = map (history_message s) ms;
    page = record {
      limit = n;
      before_sequence = before;
      after_sequence = after;
      oldest_sequence = first_sequence ms;
      newest_sequence = last_sequence_of ms;
      has_older = has_older session.lounge_id (first_sequence ms) after s;
      has_newer = has_newer session.lounge_id (last_sequence_of ms) before s;
    };
  })

unfoldable pub history : Setup → Host → HistoryInput → StoreExec HistoryResult
unfolding ◌>>=◌ transaction
history setup host i = do
  guard (is_identifier i.session_id) (invalid_argument session_id)
  now ← or_throw (operation_time i.now_ms host.clock) (invalid_argument now_ms)
  n ← or_throw (nat_between 1 max_history_messages (or_default i.limit 50)) (invalid_argument limit)
  before ← or_throw (optional_sequence i.before_sequence) (invalid_argument before_sequence)
  after ← or_throw (optional_sequence i.after_sequence) (invalid_argument after_sequence)
  guard (is_null before || is_null after) (invalid_argument both_cursors)
  session ← require_manager_session setup i.session_id
  transaction (history_rows session host.uuid before after n now)
