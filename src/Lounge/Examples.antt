-- ===== src/Lounge/Examples.antt =====
-- Runs of the Lounge store, and its theorems at them.
mod Pins
use stage5_browser.Base.{true, false, ◌++◌, ℕ, ◌≡◌, refl, none, some, List, [], ◌∷◌, length, map}
use Prim.Native.String.{String}
use stage5_browser.Text.{Text, text, text_eq, trim, utf8_length}
use stage5_browser.Table.{find, matches, upsert, exists}
use stage5_browser.Effect.{ok, err}
use stage5_browser.Lounge.{
  Store, DeliveryRow, Host, Setup, nat, empty, task, session_closed, idempotency_conflict,
  delivered, connected_non_wakeable,
}
use stage5_browser.Lounge.Model.{is_identifier, is_bounded_text, operation_time, session_lease}
use stage5_browser.Lounge.Sessions.{
  JoinInput, JoinResult, join, join_rows, require_session, is_open_for,
}
use stage5_browser.Lounge.Messages.{is_delivery}
use stage5_browser.Lounge.Messages.Send.{
  SendInput, SendResult, send, send_rows, send_or_repeat, insert_message, add_deliveries,
  recipients_of,
}
use stage5_browser.Lounge.Messages.Claim.{claim_inbox, claim_rows}
use stage5_browser.Lounge.Messages.Ack.{acks_seen}
use stage5_browser.Lounge.Fencing.{AreFenced, serve-AreFenced}
use stage5_browser.Lounge.Fencing.Joins.{join_fences, join_opens_one}
use stage5_browser.Lounge.Notices.{
  PinInput, PinResult, pin, pin_rows, pin_or_repeat, current_notice,
}
use stage5_browser.Lounge.Revisions.{Applied, pin_applies}
use stage5_browser.Lounge.Revisions.Race.{pins_race}
use stage5_browser.Lounge.Retries.{IsRepeatOf}
use stage5_browser.Lounge.Retries.Resend.{send_retry}
use stage5_browser.Lounge.Errors.{request_error_unchanged}
use stage5_browser.Lounge.Progress.{Follows, serve-Follows}
use stage5_browser.Lounge.Service.{Request, joins, sends, claims, acks, handle_request, serve}

joined_texts : List Text → Text
joined_texts [] = []
joined_texts (t ∷ ts) = t ++ joined_texts ts

abbrev setup : Setup
setup = record {
  managers = text "boss" ∷ [];
  message_hash = λ p. joined_texts p.recipients ++ p.body;
  notice_hash = λ p. [];
  work_note_hash = λ p. p.note.role;
  work_note_bytes = λ n. length n.role;
}

abbrev host : String → ℕ → Host
host id now = record { clock = now; uuid = text id }

abbrev joining : String → JoinInput
joining agent = record {
  lounge_id = text "room";
  agent_id = text agent;
  display_name = text agent;
  provider = text "codex";
  client_instance_id = text "client";
  now_ms = none;
  lease_ms = some (nat 1000);
}

abbrev sending : String → String → String → SendInput
sending session key message = record {
  session_id = text session;
  kind = task;
  body = text message;
  to_agent_ids = none;
  reply_to_message_id = none;
  task_key = none;
  idempotency_key = text key;
  now_ms = none;
}

abbrev script : List (Host × Request)
script =
    (host "s1" 10, joins (joining "ann"))
    ∷ (host "s2" 20, joins (joining "bob"))
    ∷ (host "m1" 30, sends (sending "s1" "k1" "hello"))
    ∷ (host "c1" 40, claims (record { session_id = text "s2"; limit = none; now_ms = none }))
    ∷ (host "s3" 50, joins (joining "ann"))
    ∷ []

room : Store
unfolding serve handle_request join join_rows send send_rows insert_message add_deliveries
    claim_inbox claim_rows is_identifier is_bounded_text trim operation_time session_lease
    require_session utf8_length text_eq recipients_of send_or_repeat upsert
room = serve setup empty script

-- The message is delivered to the other member, once.
room_deliveries : map (λ d. d.state) room.deliveries ≡ delivered ∷ []
unfolding room
room_deliveries = refl

serve-AreFenced_example : AreFenced (serve setup empty script).sessions
serve-AreFenced_example = serve-AreFenced setup script

abbrev later : List (Host × Request)
later =
    (
      host "a" 60,
      acks (record {
        session_id = text "s2";
        message_ids = text "m1" ∷ [];
        state = acks_seen;
        now_ms = none;
      }),
    )
    ∷ []

abbrev first_delivery : DeliveryRow
first_delivery = record {
  message_id = text "m1";
  recipient_agent_id = text "bob";
  state = delivered;
  delivery_attempts = 1;
  delivered_at_ms = some 40;
  seen_at_ms = none;
  acted_at_ms = none;
  updated_at_ms = 40;
}

serve-Follows_example :
    (e : DeliveryRow) × (find
        (is_delivery (text "m1") (text "bob"))
        (serve setup room later).deliveries
      ≡ some e)
    × Follows first_delivery e
unfolding room find
serve-Follows_example = serve-Follows setup room later (text "m1") (text "bob") first_delivery refl

abbrev rejoined : JoinResult
rejoined = record {
  lounge_id = text "room";
  agent_id = text "ann";
  session_id = text "s4";
  state = connected_non_wakeable;
  joined_at_ms = 60;
  lease_until_ms = 1060;
  superseded_session_count = 1;
}

rejoins : (join (host "s4" 60) (joining "ann") room).1 ≡ ok rejoined
unfolding room join join_rows matches exists
rejoins = refl

join_opens_one_example :
    matches
      (is_open_for (text "room") (text "ann"))
      (join (host "s4" 60) (joining "ann") room).0.sessions
    ≡ 1
join_opens_one_example = (join_opens_one (host "s4" 60) (joining "ann") room rejoined rejoins).0

join_fences_example :
    require_session (text "s3") (join (host "s4" 60) (joining "ann") room).0
    ≡ ((join (host "s4" 60) (joining "ann") room).0, err session_closed)
unfolding room find
join_fences_example =
    join_fences (host "s4" 60) (joining "ann") room rejoined (text "s3") _ rejoins refl refl

-- A message of a session that a later join fenced.
late_fails :
    (handle_request setup (host "m2" 70) (sends (sending "s1" "k2" "late")) room).1
    ≡ err session_closed
unfolding room handle_request send
late_fails = refl

request_error_unchanged_example :
    (handle_request setup
      (host "m2" 70)
      (sends (sending "s1" "k2" "late"))
      (serve setup empty script)).0
    ≡ serve setup empty script
unfolding room
request_error_unchanged_example =
    request_error_unchanged setup script (host "m2" 70) (sends (sending "s1" "k2" "late"))
      session_closed late_fails

abbrev again : SendResult
again = record {
  message_id = text "m3";
  sequence = 2;
  lounge_id = text "room";
  sender_agent_id = text "ann";
  recipient_agent_ids = text "bob" ∷ [];
  duplicate = false;
  created_at_ms = 80;
}

sends_again : (send setup (host "m3" 80) (sending "s3" "k3" "again") room).1 ≡ ok again
unfolding room send
sends_again = refl

send_retry_example :
    (b : SendResult) × (send setup
        (host "m4" 90)
        (sending "s3" "k3" "again")
        (send setup (host "m3" 80) (sending "s3" "k3" "again") room).0
      ≡ ((send setup (host "m3" 80) (sending "s3" "k3" "again") room).0, ok b))
    × IsRepeatOf again b
unfolding operation_time
send_retry_example =
    send_retry setup (host "m3" 80) (host "m4" 90) (sending "s3" "k3" "again") 90 room again refl
      sends_again
