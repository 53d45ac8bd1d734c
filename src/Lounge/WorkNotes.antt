-- ===== src/Lounge/WorkNotes.antt =====
-- src/lounge/store/work-notes.ts: the work note of an identity, changed by compare-and-set.
use stage5_browser.Base.{
  ℕ, ◌+◌, ◌-◌, Bool, true, false, not, ◌&&◌, Option, none, some, List, [], ◌∷◌, ◌++◌, map, leb, ltb,
  ◌==◌, if◌then◌else◌,
}
use stage5_browser.Text.{Text, text_eq, text_le}
use stage5_browser.Table.{find, rows, exists, upsert, sort_by}
use stage5_browser.Effect.{pure, gets, or_throw, modify, guard, transaction, ◌>>=◌, ◌>>◌}
use stage5_browser.Lounge.{
  Store, StoreExec, invalid_argument, idempotency_conflict, store_failure,
  work_note_revision_conflict, Number, Host, Setup, SessionRow, WorkNoteFields, WorkNoteRow,
  WorkNoteMutationRow, session_id, idempotency_key, expected_revision, now_ms, note_role,
  note_current_state, note_last_completed, note_blocker, note_next_safe_action, note_bytes,
}
use stage5_browser.Lounge.Model.{
  is_identifier, is_bounded_text, is_bounded_optional, trimmed_work_note, operation_time, safe_nat,
  max_work_note_mutations_per_identity,
}
use stage5_browser.Lounge.Sessions.{require_session, is_null}

pub record WorkNote : Type 0 where
  pub revision : ℕ
  pub fields : WorkNoteFields
  pub updated_at_ms : ℕ

pub record WorkNoteState : Type 0 where
  pub lounge_id : Text
  pub agent_id : Text
  pub work_note_revision : ℕ
  pub work_note : Option WorkNote

-- `noteFromRow`
abbrev pub note_from_row : WorkNoteRow → WorkNote
note_from_row r = record {
  revision = r.revision;
  fields = r.fields;
  updated_at_ms = r.updated_at_ms;
}

abbrev pub work_note_state : Text → Text → Option WorkNoteRow → WorkNoteState
work_note_state lounge agent none = record {
  lounge_id = lounge;
  agent_id = agent;
  work_note_revision = 0;
  work_note = none;
}
work_note_state lounge agent (some r) = record {
  lounge_id = lounge;
  agent_id = agent;
  work_note_revision = r.revision;
  work_note = some (note_from_row r);
}

abbrev pub is_note_of : Text → Text → WorkNoteRow → Bool
is_note_of lounge agent r = text_eq lounge r.lounge_id && text_eq agent r.agent_id

-- `currentWorkNote`
unfoldable pub current_work_note : Text → Text → Store → WorkNoteState
unfolding find
current_work_note lounge agent s =
    work_note_state lounge agent (find (is_note_of lounge agent) s.work_notes)

unfoldable pub work_note : Text → StoreExec WorkNoteState
unfolding ◌>>=◌ current_work_note
work_note id = do
  guard (is_identifier id) (invalid_argument session_id)
  session ← require_session id
  gets (current_work_note session.lounge_id session.agent_id)

-- `memberWorkNotes`: the members of a room in order, each with its note if it has one. A row of
-- `lounge_work_notes` has no null in a required column, so `noteFromMemberRow` does not throw.
unfoldable pub member_work_notes : Text → Store → List WorkNoteState
unfolding rows sort_by text_le current_work_note
member_work_notes lounge s =
    map (λ m. current_work_note lounge m.agent_id s)
      (sort_by (λ a b. text_le a.agent_id b.agent_id)
        (rows (λ m. text_eq lounge m.lounge_id && is_null m.left_at_ms) s.memberships))

pub record SetWorkNoteInput : Type 0 where
  pub session_id : Text
  pub note : WorkNoteFields
  pub expected_revision : Number
  pub idempotency_key : Text
  pub now_ms : Option Number

pub record SetWorkNoteResult : Type 0 where
  pub lounge_id : Text
  pub agent_id : Text
  pub work_note_revision : ℕ
  pub work_note : WorkNote
  pub duplicate : Bool

-- `WHERE lounge_id = ? AND agent_id = ?` of the mutations.
abbrev pub is_own_mutation : SessionRow → WorkNoteMutationRow → Bool
is_own_mutation session r =
    text_eq session.lounge_id r.lounge_id && text_eq session.agent_id r.agent_id

abbrev pub has_key : SessionRow → Text → WorkNoteMutationRow → Bool
has_key session key r = is_own_mutation session r && text_eq key r.idempotency_key

-- UNIQUE (lounge_id, agent_id, revision)
abbrev pub has_note_revision : SessionRow → ℕ → WorkNoteMutationRow → Bool
has_note_revision session revision r = is_own_mutation session r && revision == r.revision

abbrev pub repeated_note : SessionRow → WorkNoteMutationRow → SetWorkNoteResult
repeated_note session r = record {
  lounge_id = session.lounge_id;
  agent_id = session.agent_id;
  work_note_revision = r.revision;
  work_note = record { revision = r.revision; fields = r.fields; updated_at_ms = r.created_at_ms };
  duplicate = true;
}

abbrev pub put_note : SessionRow → WorkNoteFields → ℕ → ℕ → Store → Store
put_note session note revision now s = record s {
  work_notes =
      upsert (is_note_of session.lounge_id session.agent_id)
        (λ r. record r { revision = revision; fields = note; updated_at_ms = now })
        (record {
          lounge_id = session.lounge_id;
          agent_id = session.agent_id;
          revision = revision;
          fields = note;
          updated_at_ms = now;
        })
        s.work_notes;
}

abbrev pub note_mutation : SessionRow → Text → Text → WorkNoteFields → ℕ → ℕ → WorkNoteMutationRow
note_mutation session key hash note revision now = record {
  lounge_id = session.lounge_id;
  agent_id = session.agent_id;
  idempotency_key = key;
  payload_hash = hash;
  revision = revision;
  fields = note;
  created_at_ms = now;
}

-- DELETE … WHERE lounge_id = ? AND agent_id = ? AND revision <= ?, if the revision passed the limit.
unfoldable pub forget_old : SessionRow → ℕ → List WorkNoteMutationRow → List WorkNoteMutationRow
unfolding rows
forget_old session revision ms =
    if ltb max_work_note_mutations_per_identity revision
    then rows
        (λ r. not (
          is_own_mutation session r
          && leb r.revision (revision - max_work_note_mutations_per_identity)))
        ms
    else ms

-- What `setWorkNote` does once it knows whether the key was used before.
unfoldable pub set_or_repeat :
    Option WorkNoteMutationRow
    → SessionRow
    → Text
    → Text
    → WorkNoteFields
    → ℕ
    → ℕ
    → StoreExec SetWorkNoteResult
unfolding ◌>>=◌ current_work_note text_eq upsert exists forget_old
set_or_repeat (some r) session key hash note expected now = do
  guard (text_eq r.payload_hash hash) idempotency_conflict
  pure (repeated_note session r)
set_or_repeat none session key hash note expected now = do
  current ← gets (λ s. (current_work_note session.lounge_id session.agent_id s).work_note_revision)
  guard (current == expected) (work_note_revision_conflict current)
  modify (put_note session note (current + 1) now)
  s ← gets (λ s. s)
  guard (not (exists (has_note_revision session (current + 1)) s.work_note_mutations)) store_failure
  modify (λ s. record s {
    work_note_mutations =
        forget_old session (current + 1)
          (s.work_note_mutations ++ note_mutation session key hash note (current + 1) now ∷ []);
  })
  pure (record {
    lounge_id = session.lounge_id;
    agent_id = session.agent_id;
    work_note_revision = current + 1;
    work_note = record { revision = current + 1; fields = note; updated_at_ms = now };
    duplicate = false;
  })

unfoldable pub set_rows :
    SessionRow → Text → Text → WorkNoteFields → ℕ → ℕ → StoreExec SetWorkNoteResult
unfolding ◌>>=◌ find set_or_repeat
set_rows session key hash note expected now = do
  existing ← gets (λ s. find (has_key session key) s.work_note_mutations)
  set_or_repeat existing session key hash note expected now

-- `setWorkNote`, with the checks of `normalizedWorkNote`.
unfoldable pub set_work_note : Setup → Host → SetWorkNoteInput → StoreExec SetWorkNoteResult
unfolding ◌>>=◌ transaction
set_work_note setup host i = do
  guard (is_identifier i.session_id) (invalid_argument session_id)
  guard (is_bounded_text i.idempotency_key 120) (invalid_argument idempotency_key)
  expected ← or_throw (safe_nat i.expected_revision) (invalid_argument expected_revision)
  let note = trimmed_work_note i.note
  guard (is_bounded_text note.role 200) (invalid_argument note_role)
  guard (is_bounded_text note.current_state 1000) (invalid_argument note_current_state)
  guard (is_bounded_optional note.last_completed 1000) (invalid_argument note_last_completed)
  guard (is_bounded_optional note.blocker 1000) (invalid_argument note_blocker)
  guard (is_bounded_text note.next_safe_action 1000) (invalid_argument note_next_safe_action)
  guard (leb (setup.work_note_bytes note) 8192) (invalid_argument note_bytes)
  now ← or_throw (operation_time i.now_ms host.clock) (invalid_argument now_ms)
  session ← require_session i.session_id
  let hash = setup.work_note_hash (record { note = note; expected_revision = expected })
  transaction (set_rows session i.idempotency_key hash note expected now)
