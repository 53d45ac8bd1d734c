-- ===== src/Lounge/Errors.antt =====
-- What the store is after a request that threw: no operation leaves a change behind.
use stage5_browser.Base.{
  ℕ, ◌<◌, ◌≡◌, ◌≢◌, refl, none, some, List, arith, Option-cases, inl, inr, &&-eq-true,
}
use stage5_browser.Text.{Text}
use stage5_browser.Table.{find, matches}
use stage5_browser.Table.Laws.{find-matches_positive, matches-weaken, find-holds}
use stage5_browser.Effect.{ok, err, or_throw, guard, ◌>>=◌}
use stage5_browser.Effect.Rules.{
  IsReader, IsAtomic, IsAtomic-bind, IsAtomic-map, IsAtomic-modify, IsAtomic-reader,
  IsAtomic-transaction, reader_rules,
}
use stage5_browser.Effect.Ensures.{Fails, Fails-known, Fails-read, Fails-map}
use stage5_browser.Lounge.{Store, StoreError, Host, Setup, SessionRow, empty, session_not_found}
use stage5_browser.Lounge.Sessions.{
  JoinInput, HeartbeatInput, CloseSessionInput, join, beat, heartbeat, close_session,
  require_session, require_manager_session, is_open_with, has_id,
}
use stage5_browser.Lounge.Messages.Send.{SendInput, send}
use stage5_browser.Lounge.Messages.Claim.{ClaimInboxInput, claim_inbox}
use stage5_browser.Lounge.Messages.Ack.{AckInput, ack}
use stage5_browser.Lounge.Notices.{PinInput, pin, notice}
use stage5_browser.Lounge.WorkNotes.{SetWorkNoteInput, set_work_note, work_note}
use stage5_browser.Lounge.History.{HistoryInput, history}
use stage5_browser.Lounge.Status.{StatusInput, status}
use stage5_browser.Lounge.Fencing.{AreFenced, serve-AreFenced}
use stage5_browser.Lounge.Fencing.Joins.{require_session-open, require_session-closed}
use stage5_browser.Lounge.Service.{
  Request, joins, heartbeats, sends, claims, acks, asks_status, asks_notice, pins, asks_work_note,
  sets_work_note, asks_history, closes, handle_request, serve,
}

pub require_session-IsReader : (id : Text) → IsReader (require_session id)
unfolding require_session
require_session-IsReader id = search reader_rules depth 20

pub require_manager_session-IsReader :
    (setup : Setup) (id : Text) → IsReader (require_manager_session setup id)
unfolding require_manager_session
require_manager_session-IsReader setup id = search (reader_rules, require_session-IsReader) depth 20

ruleset atomic_rules = (
  IsAtomic-bind, IsAtomic-transaction, reader_rules, require_session-IsReader,
  require_manager_session-IsReader,
)

join-IsAtomic : (host : Host) (i : JoinInput) → IsAtomic (join host i)
unfolding join
join-IsAtomic host i = search atomic_rules depth 30

close_session-IsAtomic : (host : Host) (i : CloseSessionInput) → IsAtomic (close_session host i)
unfolding close_session
close_session-IsAtomic host i = search (atomic_rules, IsAtomic-map, IsAtomic-modify) depth 30

send-IsAtomic : (setup : Setup) (host : Host) (i : SendInput) → IsAtomic (send setup host i)
unfolding send
send-IsAtomic setup host i = search atomic_rules depth 30

claim_inbox-IsAtomic : (host : Host) (i : ClaimInboxInput) → IsAtomic (claim_inbox host i)
unfolding claim_inbox
claim_inbox-IsAtomic host i = search atomic_rules depth 30

ack-IsAtomic : (host : Host) (i : AckInput) → IsAtomic (ack host i)
unfolding ack
ack-IsAtomic host i = search atomic_rules depth 30

pin-IsAtomic : (setup : Setup) (host : Host) (i : PinInput) → IsAtomic (pin setup host i)
unfolding pin
pin-IsAtomic setup host i = search atomic_rules depth 30

set_work_note-IsAtomic :
    (setup : Setup) (host : Host) (i : SetWorkNoteInput) → IsAtomic (set_work_note setup host i)
unfolding set_work_note
set_work_note-IsAtomic setup host i = search atomic_rules depth 40

history-IsAtomic :
    (setup : Setup) (host : Host) (i : HistoryInput) → IsAtomic (history setup host i)
unfolding history
history-IsAtomic setup host i = search atomic_rules depth 40

require_session-missing :
    (id : Text) (s : Store)
    → find (has_id id) s.sessions ≡ none
    → require_session id s ≡ (s, err session_not_found)
unfolding require_session
require_session-missing id s f = rw (f, or_throw) refl

-- A session that is accepted is the row of its id, and open.
pub require_session-found :
    (id : Text) (s : Store) (r : SessionRow)
    → (require_session id s).1 ≡ ok r
    → (find (has_id id) s.sessions ≡ some r) × (r.closed_at_ms ≡ none)
require_session-found id s r h = elim (Option-cases (find (has_id id) s.sessions)) [
  | inl f ↦ let e = require_session-missing id s f in absurd (ground arith)
  | inr (x, f) ↦ elim (Option-cases x.closed_at_ms) [
    | inl c ↦
        let e = require_session-open id s x f c in
        let same : x ≡ r = ground arith in (ground arith, ground arith)
    | inr (t, c) ↦ let e = require_session-closed id s x t f c in absurd (ground arith)
  ]
]

matches-open_with :
    (id : Text) (s : Store) (r : SessionRow)
    → AreFenced s.sessions
    → (require_session id s).1 ≡ ok r
    → matches (is_open_with id) s.sessions ≡ 1
matches-open_with id s r v h =
    let (f, c) = require_session-found id s r h in
    let holds = find-holds (has_id id) s.sessions r f in
    let positive : 0 < matches (is_open_with id) s.sessions =
      find-matches_positive (has_id id) (is_open_with id) s.sessions r f (ground arith) in
    let bound =
      matches-weaken (is_open_with id) (has_id id) s.sessions (λ x k. (&&-eq-true _ _ k).0) in
    let once = v.id_once id in omega arith

status-IsReader : (setup : Setup) (host : Host) (i : StatusInput) → IsReader (status setup host i)
unfolding status
status-IsReader setup host i = search (reader_rules, require_session-IsReader) depth 30

notice-IsReader : (id : Text) → IsReader (notice id)
unfolding notice
notice-IsReader id = search (reader_rules, require_session-IsReader) depth 30

work_note-IsReader : (id : Text) → IsReader (work_note id)
unfolding work_note
work_note-IsReader id = search (reader_rules, require_session-IsReader) depth 30

-- A request that throws leaves a fenced store as it was.
Untouched : Store → StoreError → Store → Type 0
Untouched s e t = AreFenced s.sessions → t ≡ s

beat-succeeds :
    (i : HeartbeatInput) (now lease : ℕ) (s : Store) (e : StoreError)
    → matches (is_open_with i.session_id) s.sessions ≡ 1
    → (beat i now lease s).1 ≢ err e
unfolding beat
beat-succeeds i now lease s e m = rw (m, guard) (λ h. ground arith)

Untouched-same : (s : Store) (e : StoreError) → Untouched s e s
unfolding Untouched
Untouched-same s e v = refl

beat-Untouched :
    (i : HeartbeatInput) (now lease : ℕ)
    → Fails Untouched (require_session i.session_id >>= λ _. beat i now lease)
unfolding Untouched
beat-Untouched i now lease =
    Fails-known (require_session i.session_id) (λ _. beat i now lease)
      (require_session-IsReader i.session_id) Untouched-same
      λ s r e h k v.
        absurd (beat-succeeds i now lease s e (matches-open_with i.session_id s r v h) k)

heartbeat-Untouched : (host : Host) (i : HeartbeatInput) → Fails Untouched (heartbeat host i)
unfolding heartbeat
heartbeat-Untouched host i =
    search (Fails-read, Untouched-same, reader_rules, beat-Untouched) depth 30

-- A request that throws leaves the store as it was, whichever operation it is of, in every store
-- that requests can lead to: each operation checks before it writes, or writes in a transaction.
pub request_error_unchanged :
    (setup : Setup) (rs : List (Host × Request)) (host : Host) (r : Request) (e : StoreError)
    → (handle_request setup host r (serve setup empty rs)).1 ≡ err e
    → (handle_request setup host r (serve setup empty rs)).0 ≡ serve setup empty rs
unfolding handle_request Untouched
request_error_unchanged setup rs host (joins i) e h =
    (IsAtomic-map _ _ (join-IsAtomic host i)).at _ e h
request_error_unchanged setup rs host (heartbeats i) e h =
    (Fails-map _ _ (heartbeat-Untouched host i)).at _ e h (serve-AreFenced setup rs)
request_error_unchanged setup rs host (sends i) e h =
    (IsAtomic-map _ _ (send-IsAtomic setup host i)).at _ e h
request_error_unchanged setup rs host (claims i) e h =
    (IsAtomic-map _ _ (claim_inbox-IsAtomic host i)).at _ e h
request_error_unchanged setup rs host (acks i) e h =
    (IsAtomic-map _ _ (ack-IsAtomic host i)).at _ e h
request_error_unchanged setup rs host (asks_status i) e h =
    (IsAtomic-map _ _ (IsAtomic-reader _ (status-IsReader setup host i))).at _ e h
request_error_unchanged setup rs host (asks_notice id) e h =
    (IsAtomic-map _ _ (IsAtomic-reader _ (notice-IsReader id))).at _ e h
request_error_unchanged setup rs host (pins i) e h =
    (IsAtomic-map _ _ (pin-IsAtomic setup host i)).at _ e h
request_error_unchanged setup rs host (asks_work_note id) e h =
    (IsAtomic-map _ _ (IsAtomic-reader _ (work_note-IsReader id))).at _ e h
request_error_unchanged setup rs host (sets_work_note i) e h =
    (IsAtomic-map _ _ (set_work_note-IsAtomic setup host i)).at _ e h
request_error_unchanged setup rs host (asks_history i) e h =
    (IsAtomic-map _ _ (history-IsAtomic setup host i)).at _ e h
request_error_unchanged setup rs host (closes i) e h =
    (IsAtomic-map _ _ (close_session-IsAtomic host i)).at _ e h
