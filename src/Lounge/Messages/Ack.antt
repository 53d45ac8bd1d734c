-- ===== src/Lounge/Messages/Ack.antt =====
-- `ack` of src/lounge/store/messages.ts.
use stage5_browser.Base.{
  ℕ, Bool, not, ◌&&◌, Option, none, List, [], ◌∷◌, leb, ltb, ◌==◌, if◌then◌else◌, length,
}
use stage5_browser.Text.{Text, text_eq}
use stage5_browser.Table.{find, update, exists}
use stage5_browser.Effect.{pure, gets, or_throw, modify, guard, transaction, ◌>>=◌, ◌>>◌}
use stage5_browser.Lounge.{
  Store, StoreExec, invalid_argument, delivery_not_found, Number, Host, SessionRow, MessageRow,
  DeliveryRow, DeliveryState, seen, acted, session_id, now_ms, message_ids, message_id,
}
use stage5_browser.Lounge.Model.{
  is_identifier, operation_time, unique, all_identifiers, delivery_rank, max_inbox_claim,
}
use stage5_browser.Lounge.Sessions.{require_session}
use stage5_browser.Lounge.Messages.{is_delivery, coalesce}

-- `LoungeAcknowledgementState`
pub data AckState : Type 0 where
  acks_seen acks_acted : AckState

abbrev pub ack_state : AckState → DeliveryState
ack_state acks_seen = seen
ack_state acks_acted = acted

pub record AckInput : Type 0 where
  pub session_id : Text
  pub message_ids : List Text
  pub state : AckState
  pub now_ms : Option Number

pub record AckItemResult : Type 0 where
  pub message_id : Text
  pub previous_state : DeliveryState
  pub state : DeliveryState
  pub changed : Bool

pub record AckResult : Type 0 where
  pub session_id : Text
  pub agent_id : Text
  pub lounge_id : Text
  pub acknowledgements : List AckItemResult

abbrev pub is_message_of : Text → Text → MessageRow → Bool
is_message_of id lounge m = text_eq id m.id && text_eq lounge m.lounge_id

-- `selectDelivery`: the delivery of a message of this room to this agent.
unfoldable pub select_delivery : Text → SessionRow → Store → Option DeliveryRow
unfolding find exists
select_delivery id session s =
    if exists (is_message_of id session.lounge_id) s.messages
    then find (is_delivery id session.agent_id) s.deliveries
    else none

-- `nextState`
unfoldable pub next_state : AckState → DeliveryState → DeliveryState
unfolding delivery_rank
next_state requested previous =
    if ltb (delivery_rank previous) (delivery_rank (ack_state requested))
    then ack_state requested
    else previous

unfoldable pub same_state : DeliveryState → DeliveryState → Bool
unfolding delivery_rank
same_state a b = delivery_rank a == delivery_rank b

abbrev pub marked_seen : ℕ → DeliveryRow → DeliveryRow
marked_seen now d = record d {
  state = seen;
  delivered_at_ms = coalesce d.delivered_at_ms now;
  seen_at_ms = coalesce d.seen_at_ms now;
  updated_at_ms = now;
}

abbrev pub marked_acted : ℕ → DeliveryRow → DeliveryRow
marked_acted now d = record d {
  state = acted;
  delivered_at_ms = coalesce d.delivered_at_ms now;
  seen_at_ms = coalesce d.seen_at_ms now;
  acted_at_ms = coalesce d.acted_at_ms now;
  updated_at_ms = now;
}

-- `markActed` or `markSeen`, by the state that the delivery changes to.
unfoldable pub marked : DeliveryState → ℕ → DeliveryRow → DeliveryRow
marked acted now d = marked_acted now d
marked seen now d = marked_seen now d
marked _ now d = d

-- One round of the loop of `ack`.
unfoldable pub ack_one : SessionRow → AckState → ℕ → Text → StoreExec AckItemResult
unfolding ◌>>=◌ select_delivery next_state same_state marked update
ack_one session requested now id = do
  found ← gets (select_delivery id session)
  delivery ← or_throw found (delivery_not_found id)
  let next = next_state requested delivery.state
  let changed = not (same_state next delivery.state)
  modify (λ s.
      if changed
      then record s {
        deliveries = update (is_delivery id session.agent_id) (marked next now) s.deliveries;
      }
      else s)
  pure
      (record { message_id = id; previous_state = delivery.state; state = next; changed = changed })

unfoldable pub ack_all : SessionRow → AckState → ℕ → List Text → StoreExec (List AckItemResult)
unfolding ◌>>=◌ ack_one
ack_all session requested now [] = pure []
ack_all session requested now (id ∷ ids) = do
  item ← ack_one session requested now id
  items ← ack_all session requested now ids
  pure (item ∷ items)

unfoldable pub ack_rows : SessionRow → AckInput → List Text → ℕ → StoreExec AckResult
unfolding ◌>>=◌ ack_all
ack_rows session i ids now = do
  items ← ack_all session i.state now ids
  pure (record {
    session_id = i.session_id;
    agent_id = session.agent_id;
    lounge_id = session.lounge_id;
    acknowledgements = items;
  })

unfoldable pub ack : Host → AckInput → StoreExec AckResult
unfolding ◌>>=◌ transaction
ack host i = do
  guard (is_identifier i.session_id) (invalid_argument session_id)
  let ids = unique i.message_ids
  guard (ltb 0 (length ids) && leb (length ids) max_inbox_claim) (invalid_argument message_ids)
  guard (all_identifiers ids) (invalid_argument message_id)
  now ← or_throw (operation_time i.now_ms host.clock) (invalid_argument now_ms)
  session ← require_session i.session_id
  transaction (ack_rows session i ids now)
