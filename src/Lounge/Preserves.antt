-- ===== src/Lounge/Preserves.antt =====
-- A rule for invariants of the store: a property that each change of the tables keeps holds after
-- any requests, whatever they throw.
pub mod Sessions
pub mod Messages
pub mod Boards
pub mod Requests
use stage5_browser.Base.{
  ℕ, suc, ◌+◌, ◌≡◌, refl, Bool, true, false, Option, none, some, List, [], ◌∷◌, ◌++◌, if◌then◌else◌,
  arith, Bool-cases, Option-cases, inl, inr, ◌==◌,
}
use stage5_browser.Text.{Text, text_eq}
use stage5_browser.Table.{find, update, matches, exists}
use stage5_browser.Effect.{ok, pure, or_throw, guard}
use stage5_browser.Effect.Rules.{
  Keeps, Keeps-commit, Keeps-modify, Keeps-bind, Keeps-pure, Keeps-transaction, keeps_rules,
}
use stage5_browser.Lounge.{
  Store, StoreError, Host, Setup, SessionRow, SessionState, DeliveryRow, MessageRow,
  NoticeMutationRow, WorkNoteMutationRow, WorkNoteFields,
}
use stage5_browser.Lounge.Sessions.{
  JoinInput, JoinResult, HeartbeatInput, CloseSessionInput, join, join_rows, heartbeat,
  close_session, require_session, require_manager_session, is_open_for, is_open_with, has_id,
  superseded, supersede, add_lounge, add_agent, add_membership, new_session, beaten, closed_at,
  session_state,
}
use stage5_browser.Lounge.Messages.{is_delivery}
use stage5_browser.Lounge.Messages.Send.{
  SendInput, send, send_rows, send_or_repeat, insert_message, add_deliveries, recipients_of,
  new_message, new_delivery, fail_if_outsider,
}
use stage5_browser.Lounge.Messages.Claim.{
  ClaimInboxInput, InboxRow, claim_inbox, claim_rows, mark_delivered, inbox_message,
  is_claimable_delivery, marked_delivered,
}
use stage5_browser.Lounge.Messages.Ack.{
  AckInput, AckState, ack, ack_rows, ack_all, ack_one, select_delivery, next_state, same_state,
  marked,
}
use stage5_browser.Lounge.Notices.{
  PinInput, PinResult, notice, pin, pin_rows, pin_or_repeat, put_notice, mutation_row, has_revision,
  current_notice, is_mutation_of,
}
use stage5_browser.Lounge.WorkNotes.{
  SetWorkNoteInput, SetWorkNoteResult, work_note, set_work_note, set_rows, set_or_repeat, put_note,
  note_mutation, forget_old, has_note_revision, current_work_note, has_key,
}
use stage5_browser.Lounge.History.{HistoryInput, history, history_rows, audit_row, page_rows}
use stage5_browser.Lounge.Status.{StatusInput, status}
use stage5_browser.Lounge.Service.{
  Request, joins, heartbeats, sends, claims, acks, asks_status, asks_notice, pins, asks_work_note,
  sets_work_note, asks_history, closes, handle_request, serve,
}

-- The store after the rows of a join.
abbrev pub after_join : JoinInput → Host → ℕ → ℕ → Store → Store
after_join i host now lease s =
    let t =
      supersede i.lounge_id i.agent_id now
        (add_membership i now (add_agent i now (add_lounge i now s))) in
    record t { sessions = t.sessions ++ new_session i host now lease ∷ [] }

abbrev pub after_message : SessionRow → SendInput → Text → Text → ℕ → Store → Store
after_message session i hash id now s = record s {
  messages = s.messages ++ new_message session i hash id (suc s.last_sequence) now ∷ [];
  last_sequence = suc s.last_sequence;
}

abbrev pub after_delivery : Text → ℕ → Text → Store → Store
after_delivery id now a s = record s { deliveries = s.deliveries ++ new_delivery id now a ∷ [] }

abbrev pub after_pin : SessionRow → Text → Text → Option Text → ℕ → ℕ → Store → Store
after_pin session key hash content revision now s =
    let t = put_notice session content revision now s in
    record t {
      notice_mutations =
          t.notice_mutations ++ mutation_row session key hash content revision now ∷ [];
    }

abbrev pub after_note : SessionRow → Text → Text → WorkNoteFields → ℕ → ℕ → Store → Store
after_note session key hash note revision now s =
    let t = put_note session note revision now s in
    record t {
      work_note_mutations =
          forget_old session revision
            (t.work_note_mutations ++ note_mutation session key hash note revision now ∷ []);
    }

-- What an invariant `P` has to show: one case for each change of the tables, under the conditions
-- that the code has checked when it makes the change.
pub record Preserved (P : Store → Type 0) : Type 0 where
  pub on_join :
      (i : JoinInput) (host : Host) (now lease : ℕ) (s : Store)
      → P s
      → exists
          (has_id host.uuid)
          (update (is_open_for i.lounge_id i.agent_id) (superseded now) s.sessions)
        ≡ false
      → P (after_join i host now lease s)
  pub on_heartbeat :
      (id : Text) (state : SessionState) (now lease : ℕ) (s : Store)
      → P s
      → P (record s { sessions = update (is_open_with id) (beaten state now lease) s.sessions })
  pub on_close :
      (id : Text) (now : ℕ) (s : Store)
      → P s
      → P (record s { sessions = update (is_open_with id) (closed_at now) s.sessions })
  pub on_message :
      (session : SessionRow) (i : SendInput) (hash id : Text) (now : ℕ) (s : Store)
      → P s
      → exists (λ r. text_eq id r.id) s.messages ≡ false
      → P (after_message session i hash id now s)
  pub on_delivery :
      (id : Text) (now : ℕ) (a : Text) (s : Store)
      → P s
      → exists (is_delivery id a) s.deliveries ≡ false
      → P (after_delivery id now a s)
  pub on_claim :
      (id agent : Text) (now : ℕ) (s : Store)
      → P s
      → P (record s {
        deliveries = update (is_claimable_delivery id agent) (marked_delivered now) s.deliveries;
      })
  pub on_ack :
      (id : Text) (session : SessionRow) (requested : AckState) (d : DeliveryRow) (now : ℕ)
      (s : Store)
      → P s
      → select_delivery id session s ≡ some d
      → same_state (next_state requested d.state) d.state ≡ false
      → P (record s {
        deliveries =
            update
              (is_delivery id session.agent_id)
              (marked (next_state requested d.state) now)
              s.deliveries;
      })
  pub on_pin :
      (session : SessionRow) (key hash : Text) (content : Option Text) (now : ℕ) (s : Store)
      → P s
      → exists
          (has_revision session.lounge_id
            ((current_notice session.lounge_id s).notice_revision + 1))
          s.notice_mutations
        ≡ false
      → P (
          after_pin session key hash content
            ((current_notice session.lounge_id s).notice_revision + 1)
            now
            s)
  pub on_note :
      (session : SessionRow) (key hash : Text) (note : WorkNoteFields) (now : ℕ) (s : Store)
      → P s
      → exists
          (has_note_revision session
            ((current_work_note session.lounge_id session.agent_id s).work_note_revision + 1))
          s.work_note_mutations
        ≡ false
      → P (
          after_note session key hash note
            ((current_work_note session.lounge_id session.agent_id s).work_note_revision + 1)
            now
            s)
  pub on_audit :
      (session : SessionRow) (id : Text) (before after : Option ℕ) (n now : ℕ) (s : Store)
      → P s
      → P (record s {
        history_audits =
            s.history_audits
            ++ audit_row session id before after n
                (page_rows session.lounge_id before after n s)
                now
              ∷ [];
      })
