-- ===== src/Lounge/Retries.antt =====
-- Idempotency keys of src/lounge/store/messages.ts: a retried send sends nothing again.
pub mod Resend
use stage5_browser.Base.{
  ℕ, suc, ◌≡◌, refl, sym, ap, subst, true, false, Option, none, some, List, [], ◌∷◌, ◌++◌, arith,
  ltb, length, not, Bool-cases, Option-cases, inl, inr,
}
use stage5_browser.Text.{Text, text_eq, text_eq_refl}
use stage5_browser.Table.{find, rows, exists}
use stage5_browser.Table.Laws.{find-append_some, find-append_none}
use stage5_browser.Effect.{ok, gets, guard, transaction, ◌>>=◌}
use stage5_browser.Effect.Rules.{Keeps, keeps_rules, IsReader, reader_rules}
use stage5_browser.Effect.Ensures.{
  then_pure, reader_cases, Outcome-cases, transaction_commits, transaction_rolls_back,
}
use stage5_browser.Effect.Again.{Again, Again-guard, Again-value, Again-other_value}
use stage5_browser.Lounge.{Store, StoreExec, StoreError, Host, Setup, SessionRow, MessageRow}
use stage5_browser.Lounge.Model.{operation_time}
use stage5_browser.Lounge.Sessions.{require_session}
use stage5_browser.Lounge.Fencing.Joins.{require_session-open}
use stage5_browser.Lounge.Errors.{require_session-found, require_session-IsReader}
use stage5_browser.Lounge.Messages.{is_delivery}
use stage5_browser.Lounge.Messages.Send.{
  SendInput, SendResult, send, send_rows, send_or_repeat, insert_message, add_deliveries,
  recipients_of, same_key, is_reply_target, fail_if_outsider, first_outsider, room_recipients,
  new_message, payload_of, duplicate_of,
}

-- The tables that a send of one message leaves alone, and the row that it adds.
record Grown (m : MessageRow) (s t : Store) : Type 0 where
  sessions : t.sessions ≡ s.sessions
  memberships : t.memberships ≡ s.memberships
  messages : t.messages ≡ s.messages ++ m ∷ []

add_deliveries-Grown :
    (m : MessageRow) (s : Store) (id : Text) (now : ℕ) (rs : List Text)
    → Keeps (Grown m s) (add_deliveries id now rs)
unfolding add_deliveries
add_deliveries-Grown m s id now [] = search keeps_rules
add_deliveries-Grown m s id now (a ∷ others) = record {
  at = λ t g. elim (Bool-cases (exists (is_delivery id a) t.deliveries)) [
    | inl e ↦ rw (e, guard) g
    | inr e ↦
        rw (e, guard)
          ((add_deliveries-Grown m s id now others).at _
            (record { sessions = g.sessions; memberships = g.memberships; messages = g.messages }))
  ];
}

-- The value that a send returns when it inserts.
abbrev sent_result : SessionRow → Text → ℕ → ℕ → List Text → SendResult
sent_result session id sequence now rs = record {
  message_id = id;
  sequence = sequence;
  lounge_id = session.lounge_id;
  sender_agent_id = session.agent_id;
  recipient_agent_ids = rs;
  duplicate = false;
  created_at_ms = now;
}

insert_message-Grown :
    (session : SessionRow) (i : SendInput) (hash id : Text) (now : ℕ) (rs : List Text) (s : Store)
    (r : SendResult)
    → (insert_message session i hash id now rs s).1 ≡ ok r
    → Grown
        (new_message session i hash id (suc s.last_sequence) now)
        s
        (insert_message session i hash id now rs s).0
      × (r.message_id ≡ id)
      × (r.sequence ≡ suc s.last_sequence)
unfolding insert_message
insert_message-Grown session i hash id now rs s r =
    elim (Bool-cases (exists (λ x. text_eq id x.id) s.messages)) [
      | inl e ↦ rw (e, guard) (λ h. absurd (ground arith))
      | inr e ↦
          rw (e, guard)
            (λ h.
              let m = new_message session i hash id (suc s.last_sequence) now in
              let t = record s {
                messages = s.messages ++ m ∷ [];
                last_sequence = suc s.last_sequence;
              } in
              let (same, at) =
                then_pure (add_deliveries id now rs)
                  (sent_result session id (suc s.last_sequence) now rs) r t h in
              (
                rw at (
                    (add_deliveries-Grown m s id now rs).at t
                      (record { sessions = refl; memberships = refl; messages = refl })),
                ap (λ x. x.message_id) same,
                ap (λ x. x.sequence) same,
              ))
    ]

find-new_message :
    (session : SessionRow) (i : SendInput) (hash id : Text) (n now : ℕ)
    → find (same_key session i.idempotency_key) (new_message session i hash id n now ∷ [])
      ≡ some (new_message session i hash id n now)
unfolding find
find-new_message session i hash id n now =
    rw (text_eq_refl session.lounge_id)
      (rw (text_eq_refl session.agent_id) (rw (text_eq_refl i.idempotency_key) refl))

-- The recipients depend on the members alone.
first_outsider-same :
    (lounge : Text) (s t : Store) (rs : List Text)
    → t.memberships ≡ s.memberships
    → first_outsider lounge t rs ≡ first_outsider lounge s rs
unfolding first_outsider
first_outsider-same lounge s t [] h = refl
first_outsider-same lounge s t (a ∷ rest) h =
    let same = first_outsider-same lounge s t rest h in ground arith

room_recipients-same :
    (session : SessionRow) (s t : Store)
    → t.memberships ≡ s.memberships
    → room_recipients session t ≡ room_recipients session s
unfolding room_recipients
room_recipients-same session s t h = rw h refl

recipients_of-same :
    (session : SessionRow) (requested : Option (List Text)) (s t : Store) (rs : List Text)
    → t.memberships ≡ s.memberships
    → (recipients_of session requested s).1 ≡ ok rs
    → recipients_of session requested t ≡ (t, ok rs)
unfolding recipients_of
recipients_of-same session none s t rs h =
    let same = room_recipients-same session s t h in rw (gets, same) (λ k. ap (λ x. (t, x)) k)
recipients_of-same session (some requested) s t rs h =
    let others = rows (λ a. not (text_eq a session.agent_id)) requested in
    let same = first_outsider-same session.lounge_id s t others h in
    elim (Bool-cases (ltb 0 (length others))) [
      | inr e ↦ rw (e, guard) (λ k. absurd (ground arith))
      | inl e ↦ elim (Option-cases (first_outsider session.lounge_id s others)) [
        | inl f ↦ rw (e, guard) (rw same (rw (f, fail_if_outsider) (λ k. ap (λ x. (t, x)) k)))
        | inr (a, f) ↦
            rw (e, guard) (rw same (rw (f, fail_if_outsider) (λ k. absurd (ground arith))))
      ]
    ]

reply_target-grown :
    (session : SessionRow) (o : Option Text) (m : MessageRow) (s t : Store)
    → t.messages ≡ s.messages ++ m ∷ []
    → is_reply_target session o s ≡ true
    → is_reply_target session o t ≡ true
unfolding is_reply_target
reply_target-grown session none m s t h k = refl
reply_target-grown session (some id) m s t h k =
    elim (Option-cases (find (λ r. text_eq id r.id) s.messages)) [
      | inl f ↦ absurd (ground arith)
      | inr (x, f) ↦
          let found : find (λ r. text_eq id r.id) t.messages ≡ some x =
            rw h (find-append_some (λ r. text_eq id r.id) s.messages (m ∷ []) x f) in
          ground arith
    ]

-- The rows of a send whose key is taken by a message with the same content.
send_rows-repeat :
    (setup : Setup) (session : SessionRow) (i : SendInput) (id : Text) (now : ℕ)
    (requested : Option (List Text)) (rs : List Text) (m : MessageRow) (t : Store)
    → is_reply_target session i.reply_to_message_id t ≡ true
    → recipients_of session requested t ≡ (t, ok rs)
    → find (same_key session i.idempotency_key) t.messages ≡ some m
    → text_eq m.payload_hash (setup.message_hash (payload_of i rs)) ≡ true
    → send_rows setup session i id now requested t ≡ (t, ok (duplicate_of m t))
unfolding send_rows send_or_repeat
send_rows-repeat setup session i id now requested rs m t a b c d =
    rw (a, guard) (rw b (rw c (rw (d, guard) refl)))

fail_if_outsider-IsReader : (o : Option Text) → IsReader (fail_if_outsider o)
fail_if_outsider-IsReader none = search reader_rules
fail_if_outsider-IsReader (some a) = search reader_rules

recipients_of-IsReader :
    (session : SessionRow) (o : Option (List Text)) → IsReader (recipients_of session o)
unfolding recipients_of
recipients_of-IsReader session none = search reader_rules
recipients_of-IsReader session (some rs) = search (reader_rules, fail_if_outsider-IsReader) depth 20

-- What the retry of a send answers: the same message, marked as a duplicate.
pub record IsRepeatOf (r b : SendResult) : Type 0 where
  pub message : b.message_id ≡ r.message_id
  pub sequence : b.sequence ≡ r.sequence
  pub duplicate : b.duplicate ≡ true

-- The rows of a send that returned, as a retry finds them.
module _ (setup : Setup) (session : SessionRow) (i : SendInput)
    (requested : Option (List Text)) where
  record Repeats (s : Store) (r : SendResult) (t : Store) : Type 0 where
    same_sessions : t.sessions ≡ s.sessions
    again :
        (id : Text) (now : ℕ)
        → (b : SendResult) × (send_rows setup session i id now requested t ≡ (t, ok b))
          × IsRepeatOf r b

  send_or_repeat-Repeats :
      (o : Option MessageRow) (id : Text) (now : ℕ) (rs : List Text) (s : Store) (r : SendResult)
      → find (same_key session i.idempotency_key) s.messages ≡ o
      → is_reply_target session i.reply_to_message_id s ≡ true
      → (recipients_of session requested s).1 ≡ ok rs
      → (send_or_repeat o session i (setup.message_hash (payload_of i rs)) id now rs s).1 ≡ ok r
      → Repeats s r
          (send_or_repeat o session i (setup.message_hash (payload_of i rs)) id now rs s).0
  unfolding send_or_repeat
  send_or_repeat-Repeats (some m) id now rs s r f a b =
      elim (Bool-cases (text_eq m.payload_hash (setup.message_hash (payload_of i rs)))) [
        | inr e ↦ rw (e, guard) (λ h. absurd (ground arith))
        | inl e ↦
            rw (e, guard)
              (λ h.
                let same : duplicate_of m s ≡ r = ground arith in
                record {
                  same_sessions = refl;
                  again = λ id' now'. (
                    duplicate_of m s,
                    send_rows-repeat setup session i id' now' requested rs m s a
                        (recipients_of-same session requested s s rs refl b) f e,
                    record {
                      message = ap (λ x. x.message_id) same;
                      sequence = ap (λ x. x.sequence) same;
                      duplicate = refl;
                    },
                  );
                })
      ]
  send_or_repeat-Repeats none id now rs s r f a b = λ h.
      let hash = setup.message_hash (payload_of i rs) in
      let m = new_message session i hash id (suc s.last_sequence) now in
      let (g, same_id, same_sequence) = insert_message-Grown session i hash id now rs s r h in
      let t = (insert_message session i hash id now rs s).0 in
      let found : find (same_key session i.idempotency_key) t.messages ≡ some m = rw g.messages (
        rw (find-append_none (same_key session i.idempotency_key) s.messages (m ∷ []) f)
          (find-new_message session i hash id (suc s.last_sequence) now)) in
      record {
        same_sessions = g.sessions;
        again = λ id' now'. (
          duplicate_of m t,
          send_rows-repeat setup session i id' now' requested rs m t
              (reply_target-grown session i.reply_to_message_id m s t g.messages a)
              (recipients_of-same session requested s t rs g.memberships b) found
              (text_eq_refl hash),
          record { message = sym same_id; sequence = sym same_sequence; duplicate = refl },
        );
      }

  send_rows-Repeats :
      (id : Text) (now : ℕ) (s : Store) (r : SendResult)
      → (send_rows setup session i id now requested s).1 ≡ ok r
      → Repeats s r (send_rows setup session i id now requested s).0
  unfolding send_rows
  send_rows-Repeats id now s r =
      elim (Bool-cases (is_reply_target session i.reply_to_message_id s)) [
        | inr a ↦ rw (a, guard) (λ h. absurd (ground arith))
        | inl a ↦
            elim (reader_cases (recipients_of session requested) s
              (recipients_of-IsReader session requested)) [
                | inr (e, b) ↦ rw (a, guard) (rw b (λ h. absurd (ground arith)))
                | inl (rs, b) ↦
                    rw (a, guard)
                      (rw b (
                        send_or_repeat-Repeats
                          (find (same_key session i.idempotency_key) s.messages) id now rs s r refl
                          a (ap (λ x. x.1) b)))
              ]
      ]
