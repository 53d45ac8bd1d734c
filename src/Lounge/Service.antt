-- ===== src/Lounge/Service.antt =====
-- `handleRequest` of src/lounge-store-worker.ts: one request to the store, and the requests of any
-- clients in the order in which the worker takes them.
use stage5_browser.Base.{List, [], ◌∷◌}
use stage5_browser.Text.{Text}
use stage5_browser.Effect.{pure, ◌>>=◌}
use stage5_browser.Lounge.{Store, StoreExec, Host, Setup}
use stage5_browser.Lounge.Sessions.{
  JoinInput, JoinResult, HeartbeatInput, HeartbeatResult, CloseSessionInput, CloseSessionResult,
  join, heartbeat, close_session,
}
use stage5_browser.Lounge.Messages.Send.{SendInput, SendResult, send}
use stage5_browser.Lounge.Messages.Claim.{ClaimInboxInput, ClaimInboxResult, claim_inbox}
use stage5_browser.Lounge.Messages.Ack.{AckInput, AckResult, ack}
use stage5_browser.Lounge.Notices.{PinInput, PinResult, NoticeState, notice, pin}
use stage5_browser.Lounge.WorkNotes.{
  SetWorkNoteInput, SetWorkNoteResult, WorkNoteState, work_note, set_work_note,
}
use stage5_browser.Lounge.History.{HistoryInput, HistoryResult, history}
use stage5_browser.Lounge.Status.{StatusInput, StatusResult, status}

pub data Request : Type 0 where
  joins : JoinInput → Request
  heartbeats : HeartbeatInput → Request
  sends : SendInput → Request
  claims : ClaimInboxInput → Request
  acks : AckInput → Request
  asks_status : StatusInput → Request
  asks_notice : Text → Request
  pins : PinInput → Request
  asks_work_note : Text → Request
  sets_work_note : SetWorkNoteInput → Request
  asks_history : HistoryInput → Request
  closes : CloseSessionInput → Request

pub data Response : Type 0 where
  joined : JoinResult → Response
  heard : HeartbeatResult → Response
  sent : SendResult → Response
  claimed : ClaimInboxResult → Response
  acked : AckResult → Response
  status_is : StatusResult → Response
  notice_is : NoticeState → Response
  pinned : PinResult → Response
  work_note_is : WorkNoteState → Response
  work_note_set : SetWorkNoteResult → Response
  history_is : HistoryResult → Response
  closed : CloseSessionResult → Response

abbrev pub answer : {A : Type 0} → (A → Response) → StoreExec A → StoreExec Response
answer f m = m >>= λ a. pure (f a)

unfoldable pub handle_request : Setup → Host → Request → StoreExec Response
handle_request setup host (joins i) = answer joined (join host i)
handle_request setup host (heartbeats i) = answer heard (heartbeat host i)
handle_request setup host (sends i) = answer sent (send setup host i)
handle_request setup host (claims i) = answer claimed (claim_inbox host i)
handle_request setup host (acks i) = answer acked (ack host i)
handle_request setup host (asks_status i) = answer status_is (status setup host i)
handle_request setup host (asks_notice id) = answer notice_is (notice id)
handle_request setup host (pins i) = answer pinned (pin setup host i)
handle_request setup host (asks_work_note id) = answer work_note_is (work_note id)
handle_request setup host (sets_work_note i) = answer work_note_set (set_work_note setup host i)
handle_request setup host (asks_history i) = answer history_is (history setup host i)
handle_request setup host (closes i) = answer closed (close_session host i)

-- The worker answers a request that threw and goes on.
unfoldable pub serve : Setup → Store → List (Host × Request) → Store
serve setup s [] = s
serve setup s ((host, r) ∷ rest) = serve setup (handle_request setup host r s).0 rest
