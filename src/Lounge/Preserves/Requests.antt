-- ===== src/Lounge/Preserves/Requests.antt =====
-- Every request keeps what the changes of the tables keep, and so do any requests.
use stage5_browser.Base.{List, [], ◌∷◌}
use stage5_browser.Effect.Rules.{Keeps, keeps_rules}
use stage5_browser.Lounge.{Store, Host, Setup}
use stage5_browser.Lounge.Service.{
  Request, joins, heartbeats, sends, claims, acks, asks_status, asks_notice, pins, asks_work_note,
  sets_work_note, asks_history, closes, handle_request, serve,
}
use stage5_browser.Lounge.Preserves.{Preserved}
use stage5_browser.Lounge.Preserves.Sessions.{join-Keeps, heartbeat-Keeps, close_session-Keeps}
use stage5_browser.Lounge.Preserves.Messages.{send-Keeps, claim_inbox-Keeps, ack-Keeps}
use stage5_browser.Lounge.Preserves.Boards.{
  pin-Keeps, set_work_note-Keeps, history-Keeps, status-Keeps, notice-Keeps, work_note-Keeps,
}

module _ (P : Store → Type 0) (k : Preserved P) where
  pub handle_request-Keeps :
      (setup : Setup) (host : Host) (r : Request) → Keeps P (handle_request setup host r)
  unfolding handle_request
  handle_request-Keeps setup host (joins i) = search (keeps_rules, join-Keeps P k)
  handle_request-Keeps setup host (heartbeats i) = search (keeps_rules, heartbeat-Keeps P k)
  handle_request-Keeps setup host (sends i) = search (keeps_rules, send-Keeps P k)
  handle_request-Keeps setup host (claims i) = search (keeps_rules, claim_inbox-Keeps P k)
  handle_request-Keeps setup host (acks i) = search (keeps_rules, ack-Keeps P k)
  handle_request-Keeps setup host (asks_status i) = search (keeps_rules, status-Keeps P k)
  handle_request-Keeps setup host (asks_notice id) = search (keeps_rules, notice-Keeps P k)
  handle_request-Keeps setup host (pins i) = search (keeps_rules, pin-Keeps P k)
  handle_request-Keeps setup host (asks_work_note id) = search (keeps_rules, work_note-Keeps P k)
  handle_request-Keeps setup host (sets_work_note i) = search (keeps_rules, set_work_note-Keeps P k)
  handle_request-Keeps setup host (asks_history i) = search (keeps_rules, history-Keeps P k)
  handle_request-Keeps setup host (closes i) = search (keeps_rules, close_session-Keeps P k)

  pub serve_induction :
      (setup : Setup) (s : Store) (rs : List (Host × Request)) → P s → P (serve setup s rs)
  unfolding serve
  serve_induction setup s [] p = p
  serve_induction setup s ((host, r) ∷ rs) p =
      serve_induction setup (handle_request setup host r s).0 rs
        ((handle_request-Keeps setup host r).at s p)
