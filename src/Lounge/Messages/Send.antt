-- ===== src/Lounge/Messages/Send.antt =====
-- `send` of src/lounge/store/messages.ts.
use stage5_browser.Base.{
  ℕ, suc, Bool, true, false, not, ◌&&◌, Option, none, some, List, [], ◌∷◌, ◌++◌, map, leb, ltb,
  if◌then◌else◌, length,
}
use stage5_browser.Text.{Text, text_eq, text_le, utf8_length}
use stage5_browser.Table.{find, rows, exists, sort_by}
use stage5_browser.Effect.{pure, throw, gets, or_throw, modify, guard, transaction, ◌>>=◌, ◌>>◌}
use stage5_browser.Lounge.{
  Store, StoreExec, invalid_argument, reply_target_not_found, idempotency_conflict, store_failure,
  recipient_not_in_lounge, Number, Host, Setup, MembershipRow, SessionRow, MessageRow, DeliveryRow,
  MessageKind, pending, MessagePayload, session_id, body, body_bytes, idempotency_key,
  reply_to_message_id, task_key, now_ms, recipient_agent_id, no_other_recipient,
}
use stage5_browser.Lounge.Model.{
  is_identifier, is_bounded_text, operation_time, normalized_recipients, max_message_body_bytes,
}
use stage5_browser.Lounge.Sessions.{require_session, is_null}
use stage5_browser.Lounge.Messages.{is_delivery}

pub record SendInput : Type 0 where
  pub session_id : Text
  pub kind : MessageKind
  pub body : Text
  pub to_agent_ids : Option (List Text)
  pub reply_to_message_id : Option Text
  pub task_key : Option Text
  pub idempotency_key : Text
  pub now_ms : Option Number

pub record SendResult : Type 0 where
  pub message_id : Text
  pub sequence : ℕ
  pub lounge_id : Text
  pub sender_agent_id : Text
  pub recipient_agent_ids : List Text
  pub duplicate : Bool
  pub created_at_ms : ℕ

abbrev pub is_present_member : Text → MembershipRow → Bool
is_present_member lounge r = text_eq lounge r.lounge_id && is_null r.left_at_ms

-- SELECT agent_id … WHERE lounge_id = ? AND left_at_ms IS NULL AND agent_id <> ? ORDER BY agent_id
unfoldable pub room_recipients : SessionRow → Store → List Text
unfolding rows sort_by text_le
room_recipients session s =
    map (λ r. r.agent_id)
      (sort_by (λ a b. text_le a.agent_id b.agent_id)
        (rows
          (λ r. is_present_member session.lounge_id r && not (text_eq session.agent_id r.agent_id))
          s.memberships))

-- The first named recipient that is no member of the room.
unfoldable pub first_outsider : Text → Store → List Text → Option Text
unfolding exists
first_outsider lounge s [] = none
first_outsider lounge s (a ∷ rest) =
    if exists (λ r. is_present_member lounge r && text_eq a r.agent_id) s.memberships
    then first_outsider lounge s rest
    else some a

abbrev pub fail_if_outsider : Option Text → StoreExec (Unit {0})
fail_if_outsider none = pure tt
fail_if_outsider (some a) = throw (recipient_not_in_lounge a)

-- The recipients: the whole room, or the named ones without the sender.
unfoldable pub recipients_of : SessionRow → Option (List Text) → StoreExec (List Text)
unfolding ◌>>=◌ room_recipients first_outsider rows
recipients_of session none = gets (room_recipients session)
recipients_of session (some requested) = do
  let others = rows (λ a. not (text_eq a session.agent_id)) requested
  guard (ltb 0 (length others)) (invalid_argument no_other_recipient)
  outsider ← gets (λ s. first_outsider session.lounge_id s others)
  fail_if_outsider outsider
  pure others

abbrev pub same_key : SessionRow → Text → MessageRow → Bool
same_key session key r =
    text_eq session.lounge_id r.lounge_id
    && text_eq session.agent_id r.sender_agent_id
    && text_eq key r.idempotency_key

-- `SELECT lounge_id FROM messages WHERE id = ?` gives a message of the session's room.
unfoldable pub is_reply_target : SessionRow → Option Text → Store → Bool
unfolding find
is_reply_target session none s = true
is_reply_target session (some id) s = elim (find (λ r. text_eq id r.id) s.messages) [
  | none ↦ false
  | some r ↦ text_eq r.lounge_id session.lounge_id
]

abbrev pub payload_of : SendInput → List Text → MessagePayload
payload_of i recipients = record {
  kind = i.kind;
  body = i.body;
  recipients = recipients;
  reply_to_message_id = i.reply_to_message_id;
  task_key = i.task_key;
}

-- The recipients that the first send of a message had.
unfoldable pub original_recipients : Text → Store → List Text
unfolding rows sort_by text_le
original_recipients id s =
    map (λ d. d.recipient_agent_id)
      (sort_by (λ a b. text_le a.recipient_agent_id b.recipient_agent_id)
        (rows (λ d. text_eq id d.message_id) s.deliveries))

abbrev pub duplicate_of : MessageRow → Store → SendResult
duplicate_of r s = record {
  message_id = r.id;
  sequence = r.sequence;
  lounge_id = r.lounge_id;
  sender_agent_id = r.sender_agent_id;
  recipient_agent_ids = original_recipients r.id s;
  duplicate = true;
  created_at_ms = r.created_at_ms;
}

abbrev pub new_message : SessionRow → SendInput → Text → Text → ℕ → ℕ → MessageRow
new_message session i hash id sequence now = record {
  sequence = sequence;
  id = id;
  lounge_id = session.lounge_id;
  sender_agent_id = session.agent_id;
  kind = i.kind;
  body = i.body;
  reply_to_message_id = i.reply_to_message_id;
  task_key = i.task_key;
  idempotency_key = i.idempotency_key;
  payload_hash = hash;
  created_at_ms = now;
}

abbrev pub new_delivery : Text → ℕ → Text → DeliveryRow
new_delivery id now agent = record {
  message_id = id;
  recipient_agent_id = agent;
  state = pending;
  delivery_attempts = 0;
  delivered_at_ms = none;
  seen_at_ms = none;
  acted_at_ms = none;
  updated_at_ms = now;
}

-- The loop of `addDelivery`. It fails on a pair that is there already.
unfoldable pub add_deliveries : Text → ℕ → List Text → StoreExec (Unit {0})
unfolding ◌>>=◌ exists
add_deliveries id now [] = pure tt
add_deliveries id now (a ∷ others) =
    let rest = add_deliveries id now others in
    do
      s ← gets (λ s. s)
      guard (not (exists (is_delivery id a) s.deliveries)) store_failure
      modify (λ s. record s { deliveries = s.deliveries ++ new_delivery id now a ∷ [] })
      rest

-- The insertion of a new message with its deliveries. It fails on an id that is taken.
unfoldable pub insert_message :
    SessionRow → SendInput → Text → Text → ℕ → List Text → StoreExec SendResult
unfolding ◌>>=◌ exists
insert_message session i hash id now recipients = do
  s ← gets (λ s. s)
  guard (not (exists (λ r. text_eq id r.id) s.messages)) store_failure
  modify (λ s. record s {
    messages = s.messages ++ new_message session i hash id (suc s.last_sequence) now ∷ [];
    last_sequence = suc s.last_sequence;
  })
  add_deliveries id now recipients
  pure (record {
    message_id = id;
    sequence = suc s.last_sequence;
    lounge_id = session.lounge_id;
    sender_agent_id = session.agent_id;
    recipient_agent_ids = recipients;
    duplicate = false;
    created_at_ms = now;
  })

-- What `send` does once it knows whether the key was used before.
unfoldable pub send_or_repeat :
    Option MessageRow → SessionRow → SendInput → Text → Text → ℕ → List Text → StoreExec SendResult
unfolding ◌>>=◌ text_eq original_recipients
send_or_repeat (some r) session i hash id now recipients = do
  guard (text_eq r.payload_hash hash) idempotency_conflict
  gets (duplicate_of r)
send_or_repeat none session i hash id now recipients =
    insert_message session i hash id now recipients

-- The body of the transaction of `send`.
unfoldable pub send_rows :
    Setup → SessionRow → SendInput → Text → ℕ → Option (List Text) → StoreExec SendResult
unfolding ◌>>=◌ is_reply_target find
send_rows setup session i id now requested = do
  target ← gets (is_reply_target session i.reply_to_message_id)
  guard target reply_target_not_found
  recipients ← recipients_of session requested
  let hash = setup.message_hash (payload_of i recipients)
  existing ← gets (λ s. find (same_key session i.idempotency_key) s.messages)
  send_or_repeat existing session i hash id now recipients

abbrev pub is_optional {ℓ} : {A : Type ℓ} → (A → Bool) → Option A → Bool
is_optional p none = true
is_optional p (some a) = p a

abbrev pub requested_recipients : Option (List Text) → Option (Option (List Text))
requested_recipients none = some none
requested_recipients (some values) = elim (normalized_recipients values) [
  | none ↦ none
  | some r ↦ some (some r)
]

unfoldable pub send : Setup → Host → SendInput → StoreExec SendResult
unfolding ◌>>=◌ transaction
send setup host i = do
  guard (is_identifier i.session_id) (invalid_argument session_id)
  guard (is_bounded_text i.body max_message_body_bytes) (invalid_argument body)
  guard (leb (utf8_length i.body) max_message_body_bytes) (invalid_argument body_bytes)
  guard (is_bounded_text i.idempotency_key 120) (invalid_argument idempotency_key)
  guard (is_optional is_identifier i.reply_to_message_id) (invalid_argument reply_to_message_id)
  guard (is_optional (λ t. is_bounded_text t 100) i.task_key) (invalid_argument task_key)
  now ← or_throw (operation_time i.now_ms host.clock) (invalid_argument now_ms)
  requested ← or_throw (requested_recipients i.to_agent_ids) (invalid_argument recipient_agent_id)
  session ← require_session i.session_id
  transaction (send_rows setup session i host.uuid now requested)
