-- ===== src/Lounge.antt =====
-- The Agent Lounge store: the tables of src/lounge/store/schema.ts, the rows of
-- src/lounge/store/model.ts and the enumerations of src/lounge-types.ts.
pub mod Model
pub mod Sessions
pub mod Messages
pub mod Notices
pub mod WorkNotes
pub mod History
pub mod Status
pub mod Service
pub mod Preserves
pub mod Fencing
pub mod Progress
pub mod Errors
pub mod Retries
pub mod Revisions
mod Examples
use stage5_browser.Base.{ℕ, Bool, true, false, Option, none, some, List, [], ◌∷◌, ◌==◌}
use stage5_browser.Text.{Text}
use stage5_browser.Effect.{Exec}

pub data MessageKind : Type 0 where
  message task blocker completion finding : MessageKind
  dependency_resolved question answer handoff : MessageKind

pub data SessionState : Type 0 where
  connected_non_wakeable listening processing offline : SessionState

pub data DeliveryState : Type 0 where
  pending delivered seen acted : DeliveryState

-- A number that a caller sends: a natural number, or one that is negative or no integer.
pub data Number : Type 0 where
  nat : ℕ → Number
  negative : ℕ → Number
  not_integer : Number

-- The argument that a message of `INVALID_ARGUMENT` names.
pub data Argument : Type 0 where
  lounge_id agent_id display_name provider client_instance_id session_id : Argument
  now_ms lease_ms kind body body_bytes idempotency_key reply_to_message_id : Argument
  task_key recipient_agent_id no_other_recipient limit message_ids message_id : Argument
  expected_revision note_role note_current_state note_last_completed : Argument
  note_blocker note_next_safe_action note_bytes before_sequence : Argument
  after_sequence both_cursors : Argument

-- `LoungeStoreError`, by its code; `store_failure` is any other error, such as a constraint of SQLite.
pub data StoreError : Type 0 where
  invalid_argument : Argument → StoreError
  session_not_found session_closed manager_access_required : StoreError
  reply_target_not_found idempotency_conflict store_failure : StoreError
  recipient_not_in_lounge : Text → StoreError
  delivery_not_found : Text → StoreError
  notice_revision_conflict : ℕ → StoreError
  work_note_revision_conflict : ℕ → StoreError

pub record LoungeRow : Type 0 where
  pub id : Text
  pub display_name : Text
  pub created_at_ms : ℕ

pub record AgentRow : Type 0 where
  pub id : Text
  pub display_name : Text
  pub provider : Text
  pub created_at_ms : ℕ
  pub updated_at_ms : ℕ

pub record MembershipRow : Type 0 where
  pub lounge_id : Text
  pub agent_id : Text
  pub joined_at_ms : ℕ
  pub left_at_ms : Option ℕ

pub record SessionRow : Type 0 where
  pub id : Text
  pub lounge_id : Text
  pub agent_id : Text
  pub client_instance_id : Text
  pub state : SessionState
  pub started_at_ms : ℕ
  pub heartbeat_at_ms : ℕ
  pub lease_until_ms : ℕ
  pub closed_at_ms : Option ℕ

pub record MessageRow : Type 0 where
  pub sequence : ℕ
  pub id : Text
  pub lounge_id : Text
  pub sender_agent_id : Text
  pub kind : MessageKind
  pub body : Text
  pub reply_to_message_id : Option Text
  pub task_key : Option Text
  pub idempotency_key : Text
  pub payload_hash : Text
  pub created_at_ms : ℕ

pub record DeliveryRow : Type 0 where
  pub message_id : Text
  pub recipient_agent_id : Text
  pub state : DeliveryState
  pub delivery_attempts : ℕ
  pub delivered_at_ms : Option ℕ
  pub seen_at_ms : Option ℕ
  pub acted_at_ms : Option ℕ
  pub updated_at_ms : ℕ

pub record NoticeRow : Type 0 where
  pub lounge_id : Text
  pub revision : ℕ
  pub body : Option Text
  pub pinned_by_agent_id : Option Text
  pub pinned_at_ms : Option ℕ

pub record NoticeMutationRow : Type 0 where
  pub lounge_id : Text
  pub actor_agent_id : Text
  pub idempotency_key : Text
  pub payload_hash : Text
  pub revision : ℕ
  pub body : Option Text
  pub created_at_ms : ℕ

pub record WorkNoteFields : Type 0 where
  pub role : Text
  pub current_state : Text
  pub last_completed : Option Text
  pub blocker : Option Text
  pub next_safe_action : Text

pub record WorkNoteRow : Type 0 where
  pub lounge_id : Text
  pub agent_id : Text
  pub revision : ℕ
  pub fields : WorkNoteFields
  pub updated_at_ms : ℕ

pub record WorkNoteMutationRow : Type 0 where
  pub lounge_id : Text
  pub agent_id : Text
  pub idempotency_key : Text
  pub payload_hash : Text
  pub revision : ℕ
  pub fields : WorkNoteFields
  pub created_at_ms : ℕ

pub record HistoryAuditRow : Type 0 where
  pub id : Text
  pub lounge_id : Text
  pub manager_agent_id : Text
  pub session_id : Text
  pub before_sequence : Option ℕ
  pub after_sequence : Option ℕ
  pub requested_limit : ℕ
  pub result_count : ℕ
  pub oldest_sequence : Option ℕ
  pub newest_sequence : Option ℕ
  pub created_at_ms : ℕ

-- The database. `last_sequence` is the AUTOINCREMENT counter of `messages`.
pub record Store : Type 0 where
  pub lounges : List LoungeRow
  pub agents : List AgentRow
  pub memberships : List MembershipRow
  pub sessions : List SessionRow
  pub messages : List MessageRow
  pub last_sequence : ℕ
  pub deliveries : List DeliveryRow
  pub notices : List NoticeRow
  pub notice_mutations : List NoticeMutationRow
  pub work_notes : List WorkNoteRow
  pub work_note_mutations : List WorkNoteMutationRow
  pub history_audits : List HistoryAuditRow

-- The tables as `migrate` creates them.
abbrev pub empty : Store
empty = record {
  lounges = [];
  agents = [];
  memberships = [];
  sessions = [];
  messages = [];
  last_sequence = 0;
  deliveries = [];
  notices = [];
  notice_mutations = [];
  work_notes = [];
  work_note_mutations = [];
  history_audits = [];
}

abbrev pub StoreExec : Type 0 → Type 0
StoreExec A = Exec Store StoreError A

-- What an operation takes from its host: `Date.now()` and `randomUUID()`.
pub record Host : Type 0 where
  pub clock : ℕ
  pub uuid : Text

-- What the store relies on beyond its own code: the managers that it was configured with, and the
-- SHA-256 of the JSON text of each kind of payload, and the UTF-8 bytes of a work note's JSON text.
pub record MessagePayload : Type 0 where
  pub kind : MessageKind
  pub body : Text
  pub recipients : List Text
  pub reply_to_message_id : Option Text
  pub task_key : Option Text

pub record NoticePayload : Type 0 where
  pub body : Option Text
  pub expected_revision : ℕ

pub record WorkNotePayload : Type 0 where
  pub note : WorkNoteFields
  pub expected_revision : ℕ

pub record Setup : Type 0 where
  pub managers : List Text
  pub message_hash : MessagePayload → Text
  pub notice_hash : NoticePayload → Text
  pub work_note_hash : WorkNotePayload → Text
  pub work_note_bytes : WorkNoteFields → ℕ
