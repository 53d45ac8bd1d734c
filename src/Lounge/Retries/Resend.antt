-- ===== src/Lounge/Retries/Resend.antt =====
-- `send` of src/lounge/store/messages.ts that is called again.
use stage5_browser.Base.{ℕ, ◌≡◌, ap, subst, Option, some, List, arith, inl, inr}
use stage5_browser.Text.{Text}
use stage5_browser.Effect.{ok, transaction, ◌>>=◌}
use stage5_browser.Effect.Ensures.{
  reader_cases, Outcome-cases, transaction_commits, transaction_rolls_back,
}
use stage5_browser.Effect.Again.{Again, Again-guard, Again-value, Again-other_value}
use stage5_browser.Lounge.{Store, StoreExec, StoreError, Host, Setup, SessionRow}
use stage5_browser.Lounge.Model.{operation_time}
use stage5_browser.Lounge.Sessions.{require_session}
use stage5_browser.Lounge.Fencing.Joins.{require_session-open}
use stage5_browser.Lounge.Errors.{require_session-found, require_session-IsReader}
use stage5_browser.Lounge.Messages.Send.{SendInput, SendResult, send, send_rows}
use stage5_browser.Lounge.Retries.{IsRepeatOf, send_rows-Repeats}

require_session-same :
    (id : Text) (s t : Store) (r : SessionRow)
    → t.sessions ≡ s.sessions
    → require_session id s ≡ (s, ok r)
    → require_session id t ≡ (t, ok r)
require_session-same id s t r h k =
    let (f, c) = require_session-found id s r (ap (λ x. x.1) k) in
    require_session-open id t r (rw h f) c

retry_rows :
    (setup : Setup) (i : SendInput) (id id' : Text) (now now' : ℕ) (requested : Option (List Text))
    → Again IsRepeatOf
        (require_session i.session_id >>= λ session.
          transaction (send_rows setup session i id now requested))
        (require_session i.session_id >>= λ session.
          transaction (send_rows setup session i id' now' requested))
unfolding ◌>>=◌
retry_rows setup i id id' now now' requested = record {
  at = λ s r.
      elim (reader_cases (require_session i.session_id) s (require_session-IsReader i.session_id)) [
        | inr (e, k) ↦ rw k (λ h. absurd (ground arith))
        | inl (session, k) ↦ elim (Outcome-cases (send_rows setup session i id now requested s).1) [
          | inr (e, o) ↦ rw k (
              rw (transaction_rolls_back (send_rows setup session i id now requested) s e o)
                (λ h. absurd (ground arith)))
          | inl (x, o) ↦
              let t = (send_rows setup session i id now requested s).0 in
              let v = send_rows-Repeats setup session i requested id now s x o in
              let (b, e, q) = v.again id' now' in
              rw k (
                rw
                  (transaction_commits (send_rows setup session i id now requested) s t x
                    (λ j. (t, o j)))
                  (λ h. (
                    b,
                    rw (require_session-same i.session_id s t session v.same_sessions k) (
                        transaction_commits (send_rows setup session i id' now' requested) t t b e),
                    subst (λ y. IsRepeatOf y b) (ground arith) q,
                  )))
        ]
      ];
}

send-Again :
    (setup : Setup) (host host' : Host) (i : SendInput) (now' : ℕ)
    → operation_time i.now_ms host'.clock ≡ some now'
    → Again IsRepeatOf (send setup host i) (send setup host' i)
unfolding send
send-Again setup host host' i now' h =
    let at_time = λ (e : StoreError) (f g : ℕ → StoreExec SendResult).
      Again-other_value {Q = IsRepeatOf} (operation_time i.now_ms host.clock)
        (operation_time i.now_ms host'.clock) now' e f g h in
    let rows = λ (now : ℕ). retry_rows setup i host.uuid host'.uuid now now' in
    search (Again-guard, Again-value, at_time, rows) depth 20

-- A send that returned is safe to retry: the same call at once, at any time that is valid and with
-- any fresh id, changes nothing and returns the message that the first call sent, as a duplicate.
pub send_retry :
    (setup : Setup) (host host' : Host) (i : SendInput) (now' : ℕ) (s : Store) (r : SendResult)
    → operation_time i.now_ms host'.clock ≡ some now'
    → (send setup host i s).1 ≡ ok r
    → (b : SendResult) × (send setup host' i (send setup host i s).0
        ≡ ((send setup host i s).0, ok b))
      × IsRepeatOf r b
send_retry setup host host' i now' s r h k = (send-Again setup host host' i now' h).at s r k
