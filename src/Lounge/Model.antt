-- ===== src/Lounge/Model.antt =====
-- src/lounge/store/model.ts: the checks of arguments, delivery ranks and presence. A check that
-- throws is a test here; the operations throw by `guard` and `or_throw`.
use stage5_browser.Base.{
  ℕ, ◌*◌, Bool, true, false, ◌&&◌, ◌||◌, Option, none, some, List, [], ◌∷◌, ltb, leb, ◌==◌,
  if◌then◌else◌, length,
}
use stage5_browser.Text.{Text, trim, text_eq, text_le}
use stage5_browser.Table.{exists, sort_by}
use stage5_browser.Lounge.{
  Number, nat, negative, not_integer, SessionState, offline, DeliveryState, pending, delivered,
  seen, acted, WorkNoteFields,
}

abbrev pub default_session_lease_ms : ℕ
default_session_lease_ms = 120000

abbrev pub min_session_lease_ms : ℕ
min_session_lease_ms = 1000

abbrev pub max_session_lease_ms : ℕ
max_session_lease_ms = 300000

abbrev pub max_message_body_bytes : ℕ
max_message_body_bytes = 16 * 1024

abbrev pub max_inbox_claim : ℕ
max_inbox_claim = 50

abbrev pub max_recent_sent_messages : ℕ
max_recent_sent_messages = 50

abbrev pub max_work_note_mutations_per_identity : ℕ
max_work_note_mutations_per_identity = 256

abbrev pub max_history_messages : ℕ
max_history_messages = 100

abbrev pub max_pinned_notice_characters : ℕ
max_pinned_notice_characters = 4000

abbrev pub max_pinned_notice_bytes : ℕ
max_pinned_notice_bytes = 8 * 1024

abbrev pub max_safe_integer : ℕ
max_safe_integer = 9007199254740991

-- `Number.isSafeInteger(value) && value >= 0`
unfoldable pub safe_nat : Number → Option ℕ
safe_nat (nat n) = if leb n max_safe_integer then some n else none
safe_nat (negative n) = none
safe_nat not_integer = none

-- A natural number from `lo` to `hi`, if the caller sent one.
unfoldable pub nat_between : ℕ → ℕ → Number → Option ℕ
nat_between lo hi (nat n) = if leb lo n && leb n hi then some n else none
nat_between lo hi (negative n) = none
nat_between lo hi not_integer = none

abbrev pub or_default : Option Number → ℕ → Number
or_default none d = nat d
or_default (some n) d = n

is_alphanumeric : ℕ → Bool
is_alphanumeric c =
    (leb b'A' c && leb c b'Z') || (leb b'a' c && leb c b'z') || (leb b'0' c && leb c b'9')

is_identifier_rest : Text → Bool
is_identifier_rest [] = true
is_identifier_rest (c ∷ cs) =
    (is_alphanumeric c || c == b'.' || c == b'_' || c == b'-') && is_identifier_rest cs

-- `IDENTIFIER_PATTERN.test(value)`
unfoldable pub is_identifier : Text → Bool
unfolding is_alphanumeric is_identifier_rest
is_identifier [] = false
is_identifier (c ∷ cs) = is_alphanumeric c && is_identifier_rest cs && leb (length cs) 63

-- `assertBoundedText`
unfoldable pub is_bounded_text : Text → ℕ → Bool
is_bounded_text s maximum = ltb 0 (length (trim s)) && leb (length s) maximum

-- `operationTime`: `clock` is `Date.now()`.
unfoldable pub operation_time : Option Number → ℕ → Option ℕ
unfolding safe_nat
operation_time value clock = safe_nat (or_default value clock)

-- `sessionLease`
unfoldable pub session_lease : Option Number → Option ℕ
unfolding nat_between
session_lease value =
    nat_between min_session_lease_ms max_session_lease_ms
      (or_default value default_session_lease_ms)

unfoldable pub delivery_rank : DeliveryState → ℕ
delivery_rank pending = 0
delivery_rank delivered = 1
delivery_rank seen = 2
delivery_rank acted = 3

-- `presenceFor`, of the row's `session_state` and `lease_until_ms`.
unfoldable pub presence_for : Option SessionState → Option ℕ → ℕ → SessionState
presence_for none lease now = offline
presence_for (some offline) lease now = offline
presence_for (some state) none now = offline
presence_for (some state) (some lease) now = if leb lease now then offline else state

abbrev pub holds : List Text → Text → Bool
holds xs a = exists (text_eq a) xs

-- `[...new Set(values)]` keeps the first of each value.
unique_from : List Text → List Text → List Text
unique_from known [] = []
unique_from known (x ∷ xs) =
    let rest = unique_from (x ∷ known) xs in
    let skipped = unique_from known xs in if holds known x then skipped else x ∷ rest

unfoldable pub unique : List Text → List Text
unfolding unique_from exists text_eq
unique xs = unique_from [] xs

unfoldable pub all_identifiers : List Text → Bool
unfolding is_identifier
all_identifiers [] = true
all_identifiers (x ∷ xs) = is_identifier x && all_identifiers xs

-- `normalizedRecipients` of a list that was given: `none` if a value is no identifier.
unfoldable pub normalized_recipients : List Text → Option (List Text)
unfolding unique all_identifiers sort_by text_le
normalized_recipients values =
    let recipients = unique values in
    if all_identifiers recipients then some (sort_by text_le recipients) else none

-- `optionalSequence`
unfoldable pub optional_sequence : Option Number → Option (Option ℕ)
unfolding nat_between
optional_sequence none = some none
optional_sequence (some n) = elim (nat_between 1 max_safe_integer n) [
  | none ↦ none
  | some k ↦ some (some k)
]

abbrev trim_optional : Option Text → Option Text
trim_optional none = none
trim_optional (some t) = some (trim t)

-- The trimmed fields of `normalizedWorkNote`.
unfoldable pub trimmed_work_note : WorkNoteFields → WorkNoteFields
unfolding trim
trimmed_work_note note = record {
  role = trim note.role;
  current_state = trim note.current_state;
  last_completed = trim_optional note.last_completed;
  blocker = trim_optional note.blocker;
  next_safe_action = trim note.next_safe_action;
}

unfoldable pub is_bounded_optional : Option Text → ℕ → Bool
unfolding is_bounded_text
is_bounded_optional none maximum = true
is_bounded_optional (some t) maximum = is_bounded_text t maximum
