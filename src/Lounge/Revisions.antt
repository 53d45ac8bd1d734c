-- ===== src/Lounge/Revisions.antt =====
-- The compare-and-set of src/lounge/store/notices.ts: the revision of a room's notice.
pub mod Race
use stage5_browser.Base.{
  ℕ, suc, ◌+◌, ◌≤◌, ◌≡◌, refl, sym, ap, subst, ◌∙◌, Bool, true, false, Option, none, some, List, [],
  ◌∷◌, ◌==◌, ==_iff, arith, Bool-cases, inl, inr,
}
use stage5_browser.Text.{Text, text_eq, text_eq_refl, text_eq_iff, text_eq-false}
use stage5_browser.Table.{find, exists, upsert}
use stage5_browser.Table.Upserts.{find-upsert, find-upsert_other, left_by}
use stage5_browser.Effect.{ok, err, gets, guard, or_throw, transaction, ◌>>=◌}
use stage5_browser.Effect.Rules.{IsReader, reader_rules}
use stage5_browser.Effect.Ensures.{
  Ensures, Ensures-read, Ensures-known, Ensures-value, Ensures-transaction, reader_cases,
}
use stage5_browser.Lounge.{Store, Host, Setup, SessionRow, NoticeRow, NoticeMutationRow}
use stage5_browser.Lounge.Model.{safe_nat, holds}
use stage5_browser.Lounge.Sessions.{require_session, require_manager_session}
use stage5_browser.Lounge.Notices.{
  PinInput, PinResult, NoticeState, pin, pin_rows, pin_or_repeat, pinned, repeated, current_notice,
  notice_state, is_notice_of, is_mutation_of, has_revision, notice_row, put_notice, renewed,
  when_set,
}
use stage5_browser.Lounge.Errors.{require_session-IsReader, require_manager_session-IsReader}
use stage5_browser.Lounge.Preserves.{Preserved, after_pin}
use stage5_browser.Lounge.Preserves.Requests.{serve_induction}
use stage5_browser.Lounge.Service.{Request, serve}

pinned-when_set :
    (n : ℕ) (content : Option Text) (agent : Text) (now : ℕ)
    → pinned n content (when_set content agent) (when_set content now)
      ≡ pinned n content (some agent) (some now)
unfolding pinned
pinned-when_set n none agent now = refl
pinned-when_set n (some c) agent now = refl

-- The row that is left has the content that was pinned, whether it was there before or not.
left-notice :
    (session : SessionRow) (content : Option Text) (n now : ℕ) (o : Option NoticeRow)
    → notice_state session.lounge_id (
        some (
          left_by
            (is_notice_of session.lounge_id)
            (renewed session content n now)
            (notice_row session content n now)
            o))
      ≡ (record {
        lounge_id = session.lounge_id;
        notice_revision = n;
        pinned_notice = pinned n content (some session.agent_id) (some now);
      })
left-notice session content n now none = rw (pinned-when_set n content session.agent_id now) refl
left-notice session content n now (some r) =
    rw (pinned-when_set n content session.agent_id now) refl

-- After a pin its room has the new revision and the content that was pinned.
pub current_notice-pin :
    (session : SessionRow) (key hash : Text) (content : Option Text) (n now : ℕ) (s : Store)
    → current_notice session.lounge_id (after_pin session key hash content n now s) ≡ (record {
      lounge_id = session.lounge_id;
      notice_revision = n;
      pinned_notice = pinned n content (some session.agent_id) (some now);
    })
unfolding current_notice
current_notice-pin session key hash content n now s =
    rw
      (find-upsert (is_notice_of session.lounge_id) (renewed session content n now)
        (notice_row session content n now) s.notices (text_eq_refl session.lounge_id) (λ r. refl))
      (left-notice session content n now (find (is_notice_of session.lounge_id) s.notices))

-- Another room keeps its notice.
pub current_notice-pin_other :
    (lounge : Text) (session : SessionRow) (key hash : Text) (content : Option Text) (n now : ℕ)
    (s : Store)
    → text_eq lounge session.lounge_id ≡ false
    → current_notice lounge (after_pin session key hash content n now s) ≡ current_notice lounge s
unfolding current_notice
current_notice-pin_other lounge session key hash content n now s h =
    let apart : (r : NoticeRow)
        → is_notice_of lounge r ≡ true
        → is_notice_of session.lounge_id r ≡ false =
      λ r k. text_eq-false session.lounge_id r.lounge_id (λ e.
        let both =
          (text_eq_iff lounge session.lounge_id).1 ((text_eq_iff lounge r.lounge_id).0 k ∙ sym e) in
        ground arith) in
    rw
      (find-upsert_other (is_notice_of session.lounge_id) (renewed session content n now)
        (notice_row session content n now) (is_notice_of lounge) s.notices h (λ r. refl) apart)
      refl

-- What a pin that was applied has done: it was by a manager, it named the revision that the room had,
-- and the room has the next revision and the content that the result shows.
pub record Applied (setup : Setup) (i : PinInput) (s : Store) (r : PinResult) (t : Store)
    : Type 0 where
  pub authorized : holds setup.managers r.requesting_agent_id ≡ true
  pub expected : safe_nat i.expected_revision ≡ some (current_notice r.lounge_id s).notice_revision
  pub advanced :
      (current_notice r.lounge_id t).notice_revision
      ≡ suc (current_notice r.lounge_id s).notice_revision
  pub returned : r.notice_revision ≡ (current_notice r.lounge_id t).notice_revision
  pub shown : r.pinned_notice ≡ (current_notice r.lounge_id t).pinned_notice

-- The same of the rows of a pin, for the room and the agent of its session.
record RowsApplied (session : SessionRow) (expected : ℕ) (s : Store) (r : PinResult) (t : Store)
    : Type 0 where
  lounge : r.lounge_id ≡ session.lounge_id
  agent : r.requesting_agent_id ≡ session.agent_id
  named : (current_notice session.lounge_id s).notice_revision ≡ expected
  now_is : current_notice session.lounge_id t ≡ (record {
    lounge_id = session.lounge_id;
    notice_revision = suc expected;
    pinned_notice = r.pinned_notice;
  })
  result : r.notice_revision ≡ suc expected

pin_or_repeat-RowsApplied :
    (o : Option NoticeMutationRow) (session : SessionRow) (key hash : Text) (content : Option Text)
    (expected now : ℕ) (s : Store) (r : PinResult)
    → (pin_or_repeat o session key hash content expected now s).1 ≡ ok r
    → r.duplicate ≡ false
    → RowsApplied session expected s r (pin_or_repeat o session key hash content expected now s).0
unfolding pin_or_repeat
pin_or_repeat-RowsApplied (some m) session key hash content expected now s r =
    elim (Bool-cases (text_eq m.payload_hash hash)) [
      | inl e ↦ rw (e, guard) (λ h d. absurd (ground arith))
      | inr e ↦ rw (e, guard) (λ h d. absurd (ground arith))
    ]
pin_or_repeat-RowsApplied none session key hash content expected now s r =
    elim (Bool-cases ((current_notice session.lounge_id s).notice_revision == expected)) [
      | inr e ↦ rw (e, guard) (λ h d. absurd (ground arith))
      | inl e ↦
          elim (Bool-cases (
            exists
              (has_revision session.lounge_id
                ((current_notice session.lounge_id s).notice_revision + 1))
              s.notice_mutations)) [
                | inl f ↦ rw (e, guard) (rw (f, guard) (λ h d. absurd (ground arith)))
                | inr f ↦
                    rw (e, guard)
                      (rw (f, guard)
                        (λ h d.
                          let cur = (current_notice session.lounge_id s).notice_revision in
                          let named : cur ≡ expected = ground arith in
                          let next : cur + 1 ≡ suc expected = omega arith in
                          let shown : pinned (cur + 1) content (some session.agent_id) (some now)
                              ≡ r.pinned_notice =
                            ground arith in
                          record {
                            lounge = ground arith;
                            agent = ground arith;
                            named = named;
                            now_is =
                                current_notice-pin session key hash content (cur + 1) now s ∙ (λ j.
                                  record {
                                    lounge_id = session.lounge_id;
                                    notice_revision = next j;
                                    pinned_notice = shown j;
                                  });
                            result = ground arith;
                          }))
              ]
    ]

Pins : Setup → PinInput → Store → PinResult → Store → Type 0
Pins setup i s r t = r.duplicate ≡ false → Applied setup i s r t

require_manager_session-authorized :
    (setup : Setup) (id : Text) (s : Store) (session : SessionRow)
    → (require_manager_session setup id s).1 ≡ ok session
    → holds setup.managers session.agent_id ≡ true
unfolding require_manager_session
require_manager_session-authorized setup id s session =
    elim (reader_cases (require_session id) s (require_session-IsReader id)) [
      | inr (e, k) ↦ rw k (λ h. absurd (ground arith))
      | inl (x, k) ↦ elim (Bool-cases (holds setup.managers x.agent_id)) [
        | inl m ↦ rw k (
            rw (m, guard)
              (λ h.
                let same : x ≡ session = ground arith in
                subst (λ y. holds setup.managers y.agent_id ≡ true) same m))
        | inr m ↦ rw k (rw (m, guard) (λ h. absurd (ground arith)))
      ]
    ]

RowsPins : SessionRow → ℕ → Store → PinResult → Store → Type 0
RowsPins session expected s r t = r.duplicate ≡ false → RowsApplied session expected s r t

pin_rows-RowsPins :
    (session : SessionRow) (key hash : Text) (content : Option Text) (expected now : ℕ)
    → Ensures (RowsPins session expected) (pin_rows session key hash content expected now)
unfolding pin_rows RowsPins
pin_rows-RowsPins session key hash content expected now = record {
  at = λ s r h.
      pin_or_repeat-RowsApplied (find (is_mutation_of session key) s.notice_mutations) session key
        hash content expected now s r h;
}

rows_applied :
    (setup : Setup) (i : PinInput) (session : SessionRow) (expected : ℕ) (s : Store) (r : PinResult)
    (t : Store)
    → holds setup.managers session.agent_id ≡ true
    → safe_nat i.expected_revision ≡ some expected
    → RowsApplied session expected s r t
    → Applied setup i s r t
rows_applied setup i session expected s r t m g v =
    let before : current_notice r.lounge_id s ≡ current_notice session.lounge_id s =
      ap (λ l. current_notice l s) v.lounge in
    let after : current_notice r.lounge_id t ≡ current_notice session.lounge_id t =
      ap (λ l. current_notice l t) v.lounge in
    let named = v.named in
    let at = after ∙ v.now_is in
    let revision = ap (λ n. n.notice_revision) at in
    record {
      authorized = rw v.agent m;
      expected = g ∙ ap some (sym named ∙ ap (λ n. n.notice_revision) (sym before));
      advanced = revision ∙ ap suc (sym named ∙ ap (λ n. n.notice_revision) (sym before));
      returned = v.result ∙ sym revision;
      shown = sym (ap (λ n. n.pinned_notice) at);
    }

pin_rows-Pins :
    (setup : Setup) (i : PinInput) (expected : ℕ) (hash : Text) (content : Option Text) (now : ℕ)
    → safe_nat i.expected_revision ≡ some expected
    → Ensures (Pins setup i) (
        require_manager_session setup i.session_id >>= λ session.
        transaction (pin_rows session i.idempotency_key hash content expected now))
unfolding Pins RowsPins
pin_rows-Pins setup i expected hash content now g =
    Ensures-known (require_manager_session setup i.session_id)
      (λ session. transaction (pin_rows session i.idempotency_key hash content expected now))
      (require_manager_session-IsReader setup i.session_id)
      λ s session r a h. λ d.
        rows_applied setup i session expected s r _
          (require_manager_session-authorized setup i.session_id s session a) g
          ((Ensures-transaction (pin_rows session i.idempotency_key hash content expected now)
              (pin_rows-RowsPins session i.idempotency_key hash content expected now)).at
            s r h d)

pin-Pins : (setup : Setup) (host : Host) (i : PinInput) → Ensures (Pins setup i) (pin setup host i)
unfolding pin
pin-Pins setup host i = search (Ensures-read, Ensures-value, reader_rules, pin_rows-Pins) depth 30

-- A pin that is applied is by a manager and names the revision that its room had; the room then has
-- the next revision and the notice that the result shows.
pub pin_applies :
    (setup : Setup) (host : Host) (i : PinInput) (s : Store) (r : PinResult)
    → (pin setup host i s).1 ≡ ok r
    → r.duplicate ≡ false
    → Applied setup i s r (pin setup host i s).0
unfolding Pins
pin_applies setup host i s r h d = (pin-Pins setup host i).at s r h d
