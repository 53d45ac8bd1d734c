-- ===== src/Lounge/Messages.antt =====
-- src/lounge/store/messages.ts: what its three operations share. `send`, `claimInbox` and `ack` are
-- in the modules below.
pub mod Send
pub mod Claim
pub mod Ack
use stage5_browser.Base.{Option, none, some, Bool, ◌&&◌}
use stage5_browser.Text.{Text, text_eq}
use stage5_browser.Lounge.{DeliveryRow}

abbrev pub is_delivery : Text → Text → DeliveryRow → Bool
is_delivery id agent d = text_eq id d.message_id && text_eq agent d.recipient_agent_id

-- `COALESCE(value, ?)`
abbrev pub coalesce {ℓ} : {A : Type ℓ} → Option A → A → Option A
coalesce none a = some a
coalesce (some b) a = some b
