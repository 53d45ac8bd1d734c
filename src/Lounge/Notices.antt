-- ===== src/Lounge/Notices.antt =====
-- src/lounge/store/notices.ts: the pinned notice of a room, changed by compare-and-set.
use stage5_browser.Base.{
  ℕ, ◌+◌, Bool, true, false, not, ◌&&◌, Option, none, some, [], ◌∷◌, ◌++◌, leb, ◌==◌,
}
use stage5_browser.Text.{Text, text_eq, trim, utf8_length}
use stage5_browser.Table.{find, exists, upsert}
use stage5_browser.Effect.{pure, gets, or_throw, modify, guard, transaction, ◌>>=◌, ◌>>◌}
use stage5_browser.Lounge.{
  Store, StoreExec, invalid_argument, idempotency_conflict, store_failure, notice_revision_conflict,
  Number, Host, Setup, SessionRow, NoticeRow, NoticeMutationRow, session_id, idempotency_key,
  expected_revision, body, body_bytes, now_ms,
}
use stage5_browser.Lounge.Model.{
  is_identifier, is_bounded_text, operation_time, safe_nat, max_pinned_notice_characters,
  max_pinned_notice_bytes,
}
use stage5_browser.Lounge.Sessions.{require_session, require_manager_session}

pub record PinnedNotice : Type 0 where
  pub revision : ℕ
  pub body : Text
  pub pinned_by_agent_id : Text
  pub pinned_at_ms : ℕ

pub record NoticeState : Type 0 where
  pub lounge_id : Text
  pub notice_revision : ℕ
  pub pinned_notice : Option PinnedNotice

-- The notice of a row: null if the body, the agent or the time is.
unfoldable pub pinned : ℕ → Option Text → Option Text → Option ℕ → Option PinnedNotice
pinned revision (some content) (some agent) (some at) =
    some (record {
      revision = revision;
      body = content;
      pinned_by_agent_id = agent;
      pinned_at_ms = at;
    })
pinned revision none agent at = none
pinned revision (some content) none at = none
pinned revision (some content) (some agent) none = none

abbrev pub notice_state : Text → Option NoticeRow → NoticeState
notice_state lounge none = record { lounge_id = lounge; notice_revision = 0; pinned_notice = none }
notice_state lounge (some r) = record {
  lounge_id = lounge;
  notice_revision = r.revision;
  pinned_notice = pinned r.revision r.body r.pinned_by_agent_id r.pinned_at_ms;
}

abbrev pub is_notice_of : Text → NoticeRow → Bool
is_notice_of lounge r = text_eq lounge r.lounge_id

-- `currentNotice`
unfoldable pub current_notice : Text → Store → NoticeState
unfolding find
current_notice lounge s = notice_state lounge (find (is_notice_of lounge) s.notices)

unfoldable pub notice : Text → StoreExec NoticeState
unfolding ◌>>=◌ current_notice
notice id = do
  guard (is_identifier id) (invalid_argument session_id)
  session ← require_session id
  gets (current_notice session.lounge_id)

pub record PinInput : Type 0 where
  pub session_id : Text
  pub body : Option Text
  pub expected_revision : Number
  pub idempotency_key : Text
  pub now_ms : Option Number

pub record PinResult : Type 0 where
  pub lounge_id : Text
  pub requesting_agent_id : Text
  pub notice_revision : ℕ
  pub pinned_notice : Option PinnedNotice
  pub duplicate : Bool

abbrev pub is_mutation_of : SessionRow → Text → NoticeMutationRow → Bool
is_mutation_of session key r =
    text_eq session.lounge_id r.lounge_id
    && text_eq session.agent_id r.actor_agent_id
    && text_eq key r.idempotency_key

-- UNIQUE (lounge_id, revision)
abbrev pub has_revision : Text → ℕ → NoticeMutationRow → Bool
has_revision lounge revision r = text_eq lounge r.lounge_id && revision == r.revision

-- The result of a mutation with its key, its content and its revision.
abbrev pub repeated : SessionRow → NoticeMutationRow → PinResult
repeated session r = record {
  lounge_id = session.lounge_id;
  requesting_agent_id = session.agent_id;
  notice_revision = r.revision;
  pinned_notice = pinned r.revision r.body (some r.actor_agent_id) (some r.created_at_ms);
  duplicate = true;
}

abbrev pub when_set {ℓ} : {A : Type ℓ} → Option Text → A → Option A
when_set none a = none
when_set (some b) a = some a

abbrev pub notice_row : SessionRow → Option Text → ℕ → ℕ → NoticeRow
notice_row session content revision now = record {
  lounge_id = session.lounge_id;
  revision = revision;
  body = content;
  pinned_by_agent_id = when_set content session.agent_id;
  pinned_at_ms = when_set content now;
}

abbrev pub renewed : SessionRow → Option Text → ℕ → ℕ → NoticeRow → NoticeRow
renewed session content revision now r = record r {
  revision = revision;
  body = content;
  pinned_by_agent_id = when_set content session.agent_id;
  pinned_at_ms = when_set content now;
}

abbrev pub put_notice : SessionRow → Option Text → ℕ → ℕ → Store → Store
put_notice session content revision now s = record s {
  notices =
      upsert (is_notice_of session.lounge_id) (renewed session content revision now)
        (notice_row session content revision now) s.notices;
}

abbrev pub mutation_row : SessionRow → Text → Text → Option Text → ℕ → ℕ → NoticeMutationRow
mutation_row session key hash content revision now = record {
  lounge_id = session.lounge_id;
  actor_agent_id = session.agent_id;
  idempotency_key = key;
  payload_hash = hash;
  revision = revision;
  body = content;
  created_at_ms = now;
}

-- What `pin` does once it knows whether the key was used before.
unfoldable pub pin_or_repeat :
    Option NoticeMutationRow → SessionRow → Text → Text → Option Text → ℕ → ℕ → StoreExec PinResult
unfolding ◌>>=◌ current_notice pinned text_eq upsert exists
pin_or_repeat (some r) session key hash content expected now = do
  guard (text_eq r.payload_hash hash) idempotency_conflict
  pure (repeated session r)
pin_or_repeat none session key hash content expected now = do
  current ← gets (λ s. (current_notice session.lounge_id s).notice_revision)
  guard (current == expected) (notice_revision_conflict current)
  modify (put_notice session content (current + 1) now)
  s ← gets (λ s. s)
  guard (not (exists (has_revision session.lounge_id (current + 1)) s.notice_mutations))
      store_failure
  modify (λ s. record s {
    notice_mutations =
        s.notice_mutations ++ mutation_row session key hash content (current + 1) now ∷ [];
  })
  pure (record {
    lounge_id = session.lounge_id;
    requesting_agent_id = session.agent_id;
    notice_revision = current + 1;
    pinned_notice = pinned (current + 1) content (some session.agent_id) (some now);
    duplicate = false;
  })

unfoldable pub pin_rows : SessionRow → Text → Text → Option Text → ℕ → ℕ → StoreExec PinResult
unfolding ◌>>=◌ find pin_or_repeat
pin_rows session key hash content expected now = do
  existing ← gets (λ s. find (is_mutation_of session key) s.notice_mutations)
  pin_or_repeat existing session key hash content expected now

abbrev pub trimmed_body : Option Text → Option Text
trimmed_body none = none
trimmed_body (some t) = some (trim t)

abbrev pub if_set : (Text → Bool) → Option Text → Bool
if_set p none = true
if_set p (some t) = p t

unfoldable pub pin : Setup → Host → PinInput → StoreExec PinResult
unfolding ◌>>=◌ transaction
pin setup host i = do
  guard (is_identifier i.session_id) (invalid_argument session_id)
  guard (is_bounded_text i.idempotency_key 120) (invalid_argument idempotency_key)
  expected ← or_throw (safe_nat i.expected_revision) (invalid_argument expected_revision)
  let b = trimmed_body i.body
  guard (if_set (λ t. is_bounded_text t max_pinned_notice_characters) b) (invalid_argument body)
  guard (if_set (λ t. leb (utf8_length t) max_pinned_notice_bytes) b) (invalid_argument body_bytes)
  now ← or_throw (operation_time i.now_ms host.clock) (invalid_argument now_ms)
  session ← require_manager_session setup i.session_id
  let hash = setup.notice_hash (record { body = b; expected_revision = expected })
  transaction (pin_rows session i.idempotency_key hash b expected now)
