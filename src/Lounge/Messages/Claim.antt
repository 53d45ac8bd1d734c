-- ===== src/Lounge/Messages/Claim.antt =====
-- `claimInbox` of src/lounge/store/messages.ts.
use stage5_browser.Base.{
  ℕ, ◌+◌, Bool, true, false, ◌&&◌, Option, none, some, List, [], ◌∷◌, leb, ◌==◌, if◌then◌else◌,
  take,
}
use stage5_browser.Text.{Text, text_eq}
use stage5_browser.Table.{find, update, matches, sort_by}
use stage5_browser.Effect.{pure, gets, or_throw, modify, guard, transaction, ◌>>=◌, ◌>>◌}
use stage5_browser.Lounge.{
  Store, StoreExec, invalid_argument, Number, Host, SessionRow, MessageRow, DeliveryRow,
  MessageKind, DeliveryState, pending, delivered, session_id, now_ms, limit,
}
use stage5_browser.Lounge.Model.{
  is_identifier, operation_time, nat_between, or_default, max_inbox_claim,
}
use stage5_browser.Lounge.Sessions.{require_session}
use stage5_browser.Lounge.Messages.{is_delivery, coalesce}

pub record ClaimInboxInput : Type 0 where
  pub session_id : Text
  pub limit : Option Number
  pub now_ms : Option Number

pub record InboxMessage : Type 0 where
  pub message_id : Text
  pub sequence : ℕ
  pub lounge_id : Text
  pub sender_agent_id : Text
  pub sender_display_name : Text
  pub kind : MessageKind
  pub body : Text
  pub reply_to_message_id : Option Text
  pub task_key : Option Text
  pub created_at_ms : ℕ
  pub delivery_state : DeliveryState
  pub delivery_attempt : ℕ

pub record ClaimInboxResult : Type 0 where
  pub session_id : Text
  pub agent_id : Text
  pub lounge_id : Text
  pub messages : List InboxMessage

-- `d.state IN ('pending', 'delivered')`
unfoldable pub is_claimable : DeliveryState → Bool
is_claimable pending = true
is_claimable delivered = true
is_claimable _ = false

-- A row of the join of deliveries, messages and agents.
pub record InboxRow : Type 0 where
  pub delivery : DeliveryRow
  pub message : MessageRow
  pub sender_display_name : Text

-- The rows that one delivery gives in the join: ids are unique in `messages` and `agents`.
unfoldable pub inbox_row : SessionRow → Store → DeliveryRow → Option InboxRow
unfolding find is_claimable
inbox_row session s d =
    if text_eq session.agent_id d.recipient_agent_id && is_claimable d.state
    then elim (find (λ m. text_eq d.message_id m.id) s.messages) [
      | none ↦ none
      | some m ↦
          if text_eq session.lounge_id m.lounge_id
          then elim (find (λ a. text_eq m.sender_agent_id a.id) s.agents) [
            | none ↦ none
            | some a ↦
                some (record { delivery = d; message = m; sender_display_name = a.display_name })
          ]
          else none
    ]
    else none

unfoldable pub join_rows : SessionRow → Store → List DeliveryRow → List InboxRow
unfolding inbox_row
join_rows session s [] = []
join_rows session s (d ∷ ds) =
    let rest = join_rows session s ds in
    elim (inbox_row session s d) [ none ↦ rest | some r ↦ r ∷ rest ]

-- The SELECT of `claimInbox`, with its ORDER BY and its LIMIT.
unfoldable pub inbox_rows : SessionRow → ℕ → Store → List InboxRow
unfolding join_rows sort_by
inbox_rows session n s =
    take n (
      sort_by (λ a b. leb a.message.sequence b.message.sequence) (join_rows session s s.deliveries))

-- `WHERE message_id = ? AND recipient_agent_id = ? AND state IN ('pending', 'delivered')`
abbrev pub is_claimable_delivery : Text → Text → DeliveryRow → Bool
is_claimable_delivery id agent d = is_delivery id agent d && is_claimable d.state

abbrev pub marked_delivered : ℕ → DeliveryRow → DeliveryRow
marked_delivered now d = record d {
  state = delivered;
  delivery_attempts = d.delivery_attempts + 1;
  delivered_at_ms = coalesce d.delivered_at_ms now;
  updated_at_ms = now;
}

abbrev pub inbox_message : InboxRow → InboxMessage
inbox_message r = record {
  message_id = r.message.id;
  sequence = r.message.sequence;
  lounge_id = r.message.lounge_id;
  sender_agent_id = r.message.sender_agent_id;
  sender_display_name = r.sender_display_name;
  kind = r.message.kind;
  body = r.message.body;
  reply_to_message_id = r.message.reply_to_message_id;
  task_key = r.message.task_key;
  created_at_ms = r.message.created_at_ms;
  delivery_state = delivered;
  delivery_attempt = r.delivery.delivery_attempts + 1;
}

-- The loop of `claimInbox`: `continue` where the UPDATE changed no row.
unfoldable pub mark_delivered : Text → ℕ → List InboxRow → StoreExec (List InboxMessage)
unfolding ◌>>=◌ matches update is_claimable
mark_delivered agent now [] = pure []
mark_delivered agent now (r ∷ rs) = do
  changes ← gets (λ s. matches (is_claimable_delivery r.message.id agent) s.deliveries)
  modify (λ s. record s {
    deliveries =
        update (is_claimable_delivery r.message.id agent) (marked_delivered now) s.deliveries;
  })
  messages ← mark_delivered agent now rs
  pure (if changes == 1 then inbox_message r ∷ messages else messages)

unfoldable pub claim_rows : SessionRow → Text → ℕ → ℕ → StoreExec ClaimInboxResult
unfolding ◌>>=◌ inbox_rows mark_delivered
claim_rows session id n now = do
  found ← gets (inbox_rows session n)
  messages ← mark_delivered session.agent_id now found
  pure (record {
    session_id = id;
    agent_id = session.agent_id;
    lounge_id = session.lounge_id;
    messages = messages;
  })

unfoldable pub claim_inbox : Host → ClaimInboxInput → StoreExec ClaimInboxResult
unfolding ◌>>=◌ transaction
claim_inbox host i = do
  guard (is_identifier i.session_id) (invalid_argument session_id)
  now ← or_throw (operation_time i.now_ms host.clock) (invalid_argument now_ms)
  n ← or_throw (nat_between 1 max_inbox_claim (or_default i.limit 20)) (invalid_argument limit)
  session ← require_session i.session_id
  transaction (claim_rows session i.session_id n now)
