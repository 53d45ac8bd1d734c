-- ===== src/Lounge/Preserves/Messages.antt =====
-- The operations on messages and deliveries keep what their changes of the tables keep.
use stage5_browser.Base.{
  ℕ, ◌≡◌, Option, none, some, List, [], ◌∷◌, if◌then◌else◌, Bool-cases, Option-cases, inl, inr,
  ◌==◌,
}
use stage5_browser.Text.{Text, text_eq}
use stage5_browser.Table.{matches, exists}
use stage5_browser.Effect.{pure, or_throw, guard}
use stage5_browser.Effect.Rules.{Keeps, Keeps-bind, Keeps-pure, Keeps-transaction, keeps_rules}
use stage5_browser.Lounge.{Store, Host, Setup, SessionRow, DeliveryRow, MessageRow}
use stage5_browser.Lounge.Messages.{is_delivery}
use stage5_browser.Lounge.Messages.Send.{
  SendInput, send, send_rows, send_or_repeat, insert_message, add_deliveries, recipients_of,
  fail_if_outsider,
}
use stage5_browser.Lounge.Messages.Claim.{
  ClaimInboxInput, InboxRow, claim_inbox, claim_rows, mark_delivered, inbox_message,
  is_claimable_delivery,
}
use stage5_browser.Lounge.Messages.Ack.{
  AckInput, AckState, ack, ack_rows, ack_all, ack_one, select_delivery, next_state, same_state,
}
use stage5_browser.Lounge.Preserves.{Preserved}
use stage5_browser.Lounge.Preserves.Sessions.{require_session-Keeps}

module _ (P : Store → Type 0) (k : Preserved P) where
  add_deliveries-at :
      (id : Text) (now : ℕ) (rs : List Text) (s : Store) → P s → P (add_deliveries id now rs s).0
  unfolding add_deliveries
  add_deliveries-at id now [] s p = p
  add_deliveries-at id now (a ∷ others) s p =
      elim (Bool-cases (exists (is_delivery id a) s.deliveries)) [
        | inl e ↦ rw (e, guard) p
        | inr e ↦ rw (e, guard) (add_deliveries-at id now others _ (k.on_delivery id now a s p e))
      ]

  insert_message-at :
      (session : SessionRow) (i : SendInput) (hash id : Text) (now : ℕ) (rs : List Text) (s : Store)
      → P s
      → P (insert_message session i hash id now rs s).0
  unfolding insert_message
  insert_message-at session i hash id now rs s p =
      elim (Bool-cases (exists (λ r. text_eq id r.id) s.messages)) [
        | inl e ↦ rw (e, guard) p
        | inr e ↦
            rw (e, guard)
              ((Keeps-bind (add_deliveries id now rs) _
                  (record { at = add_deliveries-at id now rs }) (λ _. Keeps-pure _)).at
                _ (k.on_message session i hash id now s p e))
      ]

  insert_message-Keeps :
      (session : SessionRow) (i : SendInput) (hash id : Text) (now : ℕ) (rs : List Text)
      → Keeps P (insert_message session i hash id now rs)
  insert_message-Keeps session i hash id now rs = record {
    at = insert_message-at session i hash id now rs;
  }

  send_or_repeat-Keeps :
      (o : Option MessageRow) (session : SessionRow) (i : SendInput) (hash id : Text) (now : ℕ)
      (rs : List Text)
      → Keeps P (send_or_repeat o session i hash id now rs)
  unfolding send_or_repeat
  send_or_repeat-Keeps (some r) session i hash id now rs = search keeps_rules depth 20
  send_or_repeat-Keeps none session i hash id now rs = insert_message-Keeps session i hash id now rs

  fail_if_outsider-Keeps : (o : Option Text) → Keeps P (fail_if_outsider o)
  fail_if_outsider-Keeps none = search keeps_rules
  fail_if_outsider-Keeps (some a) = search keeps_rules

  recipients_of-Keeps :
      (session : SessionRow) (o : Option (List Text)) → Keeps P (recipients_of session o)
  unfolding recipients_of
  recipients_of-Keeps session none = search keeps_rules
  recipients_of-Keeps session (some rs) = search (keeps_rules, fail_if_outsider-Keeps) depth 20

  pub send-Keeps : (setup : Setup) (host : Host) (i : SendInput) → Keeps P (send setup host i)
  unfolding send send_rows
  send-Keeps setup host i =
      search
        (
          keeps_rules,
          require_session-Keeps P k,
          Keeps-transaction,
          recipients_of-Keeps,
          send_or_repeat-Keeps,
        )
        depth 30

  mark_delivered-Keeps :
      (agent : Text) (now : ℕ) (rs : List InboxRow) → Keeps P (mark_delivered agent now rs)
  unfolding mark_delivered
  mark_delivered-Keeps agent now [] = search keeps_rules
  mark_delivered-Keeps agent now (r ∷ rs) = record {
    at = λ s p.
        let changes = matches (is_claimable_delivery r.message.id agent) s.deliveries in
        (Keeps-bind (mark_delivered agent now rs)
            (λ ms. pure (if changes == 1 then inbox_message r ∷ ms else ms))
            (mark_delivered-Keeps agent now rs) (λ ms. Keeps-pure _)).at
          _ (k.on_claim r.message.id agent now s p);
  }

  pub claim_inbox-Keeps : (host : Host) (i : ClaimInboxInput) → Keeps P (claim_inbox host i)
  unfolding claim_inbox claim_rows
  claim_inbox-Keeps host i =
      search (keeps_rules, require_session-Keeps P k, Keeps-transaction, mark_delivered-Keeps) depth
        30

  ack_one-some :
      (session : SessionRow) (requested : AckState) (now : ℕ) (id : Text) (s : Store)
      (d : DeliveryRow)
      → select_delivery id session s ≡ some d
      → P s
      → P (ack_one session requested now id s).0
  unfolding ack_one
  ack_one-some session requested now id s d f p =
      elim (Bool-cases (same_state (next_state requested d.state) d.state)) [
        | inl e ↦ rw (f, or_throw) (rw e p)
        | inr e ↦ rw (f, or_throw) (rw e (k.on_ack id session requested d now s p f e))
      ]

  ack_one-Keeps :
      (session : SessionRow) (requested : AckState) (now : ℕ) (id : Text)
      → Keeps P (ack_one session requested now id)
  unfolding ack_one
  ack_one-Keeps session requested now id = record {
    at = λ s p. elim (Option-cases (select_delivery id session s)) [
      | inl f ↦ rw (f, or_throw) p
      | inr (d, f) ↦ ack_one-some session requested now id s d f p
    ];
  }

  ack_all-Keeps :
      (session : SessionRow) (requested : AckState) (now : ℕ) (ids : List Text)
      → Keeps P (ack_all session requested now ids)
  unfolding ack_all
  ack_all-Keeps session requested now [] = search keeps_rules
  ack_all-Keeps session requested now (id ∷ ids) =
      Keeps-bind (ack_one session requested now id) _ (ack_one-Keeps session requested now id)
        λ item.
          Keeps-bind (ack_all session requested now ids) _ (ack_all-Keeps session requested now ids)
            (λ items. Keeps-pure _)

  pub ack-Keeps : (host : Host) (i : AckInput) → Keeps P (ack host i)
  unfolding ack ack_rows
  ack-Keeps host i =
      search (keeps_rules, require_session-Keeps P k, Keeps-transaction, ack_all-Keeps) depth 30
