-- ===== src/Lounge/Examples/Pins.antt =====
-- Runs of the pinned notice, and its theorems at them.
use stage5_browser.Base.{true, false, ◌≡◌, refl, none, some, List, [], ◌∷◌}
use Prim.Native.String.{String}
use stage5_browser.Text.{text}
use stage5_browser.Effect.{ok, err}
use stage5_browser.Lounge.{Store, Host, nat, idempotency_conflict}
use stage5_browser.Lounge.Sessions.{require_manager_session}
use stage5_browser.Lounge.Messages.Send.{send}
use stage5_browser.Lounge.Notices.{PinInput, PinResult, pin, pin_rows}
use stage5_browser.Lounge.Revisions.{Applied, pin_applies}
use stage5_browser.Lounge.Revisions.Race.{pins_race}
use stage5_browser.Lounge.Service.{Request, joins, serve}
use stage5_browser.Lounge.Examples.{joined_texts, setup, host, joining, sending, room}

-- A manager joins and pins a notice.
abbrev boss : List (Host × Request)
boss = (host "s9" 100, joins (joining "boss")) ∷ []

managed : Store
unfolding room serve
managed = serve setup room boss

abbrev pinning : String → String → PinInput
pinning key body = record {
  session_id = text "s9";
  body = some (text body);
  expected_revision = nat 0;
  idempotency_key = text key;
  now_ms = none;
}

abbrev first_pin : PinResult
first_pin = record {
  lounge_id = text "room";
  requesting_agent_id = text "boss";
  notice_revision = 1;
  pinned_notice = some (record {
    revision = 1;
    body = text "rules";
    pinned_by_agent_id = text "boss";
    pinned_at_ms = 110;
  });
  duplicate = false;
}

pins_first : (pin setup (host "x" 110) (pinning "p1" "rules") managed).1 ≡ ok first_pin
unfolding managed pin require_manager_session pin_rows
pins_first = refl

pin_applies_example :
    Applied setup
      (pinning "p1" "rules")
      managed
      first_pin
      (pin setup (host "x" 110) (pinning "p1" "rules") managed).0
pin_applies_example =
    pin_applies setup (host "x" 110) (pinning "p1" "rules") managed first_pin pins_first refl

-- The same pin once more is told that it was applied before.
abbrev repeated_pin : PinResult
repeated_pin = record first_pin { duplicate = true }

pins_again :
    (pin setup
      (host "y" 120)
      (pinning "p1" "rules")
      (serve setup (pin setup (host "x" 110) (pinning "p1" "rules") managed).0 [])).1
    ≡ ok repeated_pin
unfolding managed pin require_manager_session pin_rows
pins_again = refl

pins_race_example : repeated_pin.duplicate ≡ true
pins_race_example =
    pins_race setup (host "x" 110) (host "y" 120) (pinning "p1" "rules") (pinning "p1" "rules") []
      managed first_pin repeated_pin pins_first refl pins_again refl refl

-- Once another member joined, the retry of a message to the whole room is a conflict: the hash that
-- is compared has the recipients of the retry.
retry_after_join :
    (send setup (host "m4" 120) (sending "s3" "k1" "hello") managed).1 ≡ err idempotency_conflict
unfolding managed send joined_texts
retry_after_join = refl
