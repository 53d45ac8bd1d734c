-- ===== src/Operations/Registry.antt =====
-- src/operations/registry.ts: every method of `OperationRegistry`. `at` is the clock as `prune` reads
-- it and `now` as the method does; `uuid` is what `randomUUID()` returns.
pub mod Steps
pub mod Preserves
pub mod Reservation
pub mod Bounds
pub mod Status
use stage5_browser.Base.{
  ℕ, ◌-◌, ◌*◌, Bool, true, false, not, ◌&&◌, ◌||◌, Option, none, some, List, [], ◌∷◌, ltb,
  if◌then◌else◌, length, drop,
}
use stage5_browser.Text.{Text, text_eq}
use stage5_browser.Table.{find, rows, update, upsert}
use stage5_browser.Effect.{
  Outcome, ok, err, Exec, pure, throw, gets, or_throw, modify, guard, ◌>>=◌, ◌>>◌,
}
use stage5_browser.Errors.{ErrorCode, operation_timeout, SerializedError}
use stage5_browser.Operations.{
  Phase, reserved, queued, worker_preflight, worker_request_sent, worker_result_received,
  terminal_result_created, persistence_complete, response_created, OperationOutcome, succeeded,
  failed, timed_out, Recovery, OperationTiming, JournalRecord, LiveRecord, OperationStatus, durable,
  memory,
}
use stage5_browser.Operations.Journal.{Codec, JournalFile, Write, append, find_record}

pub record Registry (R : Type 0) : Type 0 where
  pub records : List (LiveRecord R)
  pub durable_records : List JournalRecord
  pub journal : JournalFile

pub data RegistryFault : Type 0 where
  reservation_unavailable : Text → RegistryFault
  unknown_operation : Text → RegistryFault
  journal_failed : RegistryFault

abbrev pub max_memory_records : ℕ
max_memory_records = 200

abbrev pub terminal_retention_ms : ℕ
terminal_retention_ms = 15 * 60000

abbrev pub reservation_retention_ms : ℕ
reservation_retention_ms = 5 * 60000

abbrev pub empty_timing : ℕ → OperationTiming
empty_timing now = record {
  queued_at_ms = now;
  worker_request_at_ms = none;
  worker_response_at_ms = none;
  terminal_at_ms = none;
  persisted_at_ms = none;
  response_created_at_ms = none;
}

abbrev pub is_reserved : Phase → Bool
is_reserved reserved = true
is_reserved _ = false

abbrev pub is_some {ℓ} : {A : Type ℓ} → Option A → Bool
is_some none = false
is_some (some a) = true

abbrev pub has_journal_id : Text → JournalRecord → Bool
has_journal_id id r = text_eq id r.operation_id

-- The time that a transition stamps.
abbrev pub stamped : Phase → ℕ → OperationTiming → OperationTiming
stamped worker_request_sent now t = record t { worker_request_at_ms = some now }
stamped worker_result_received now t = record t { worker_response_at_ms = some now }
stamped persistence_complete now t = record t { persisted_at_ms = some now }
stamped response_created now t = record t { response_created_at_ms = some now }
stamped _ now t = t

abbrev pub outcome_of : ErrorCode → OperationOutcome
outcome_of operation_timeout = timed_out
outcome_of _ = failed

-- The journal's record with the time at which it is written.
abbrev pub persisted : ℕ → Option OperationTiming → Option OperationTiming
persisted now none = none
persisted now (some t) = some (record t { persisted_at_ms = some now })

abbrev pub responded : ℕ → OperationTiming → JournalRecord → JournalRecord
responded now t r = record r { timing = some (record t { response_created_at_ms = some now }) }

-- The message that stands for the details that are not kept.
abbrev pub durable_timing : JournalRecord → OperationTiming
durable_timing r = elim r.timing [ none ↦ empty_timing r.started_at_ms | some t ↦ t ]

abbrev pub durable_error : Text → Option ErrorCode → Option SerializedError
durable_error message none = none
durable_error message (some code) =
    some (record { code = code; message = message; recoverable = false; details = [] })

module _ {R : Type 0} where
  abbrev pub has_id : Text → LiveRecord R → Bool
  has_id id r = text_eq id r.operation_id

  abbrev pub retention : LiveRecord R → ℕ
  retention r = if is_reserved r.phase then reservation_retention_ms else terminal_retention_ms

  -- A record that `prune` deletes because of its age.
  unfoldable pub is_expired : ℕ → LiveRecord R → Bool
  is_expired at r =
      (is_reserved r.phase || is_some r.outcome) && ltb (retention r) (at - r.updated_at_ms)

  -- The oldest records go until two hundred are left.
  unfoldable pub newest : List (LiveRecord R) → List (LiveRecord R)
  newest rs = drop (length rs - max_memory_records) rs

  unfoldable pub prune : ℕ → Registry R → Registry R
  unfolding is_expired newest rows
  prune at m = record m { records = newest (rows (λ r. not (is_expired at r)) m.records) }

  -- A new record, in the phase that it begins with.
  abbrev pub fresh_record : Text → Text → Phase → ℕ → LiveRecord R
  fresh_record uuid command phase now = record {
    operation_id = uuid;
    command = command;
    phase = phase;
    started_at_ms = now;
    updated_at_ms = now;
    timing = empty_timing now;
    outcome = none;
    recovery = none;
    error = none;
    result = none;
  }

  -- `records.set(operationId, record)`
  abbrev pub put : LiveRecord R → Registry R → Registry R
  put r m = record m { records = upsert (has_id r.operation_id) (λ _. r) r m.records }

  -- `publicStatus`
  abbrev pub public_status : LiveRecord R → Bool → OperationStatus R
  public_status r include_result = record {
    operation_id = r.operation_id;
    command = r.command;
    phase = some r.phase;
    source = memory;
    started_at_ms = r.started_at_ms;
    updated_at_ms = some r.updated_at_ms;
    timing = r.timing;
    terminal = is_some r.outcome;
    outcome = r.outcome;
    recovery = r.recovery;
    error = r.error;
    result_available = is_some r.result;
    result = if include_result then r.result else none;
  }

  unfoldable pub reserve : ℕ → ℕ → Text → Text → Exec (Registry R) RegistryFault (OperationStatus R)
  unfolding ◌>>=◌ prune upsert text_eq
  reserve at now uuid command = do
    modify (prune at)
    modify (put (fresh_record uuid command reserved now))
    pure (public_status (fresh_record uuid command reserved now) false)

  -- The reservation that `begin` takes: it is of this command, and not begun.
  abbrev pub is_available : Text → LiveRecord R → Bool
  is_available command r = is_reserved r.phase && text_eq r.command command

  abbrev pub begun : ℕ → LiveRecord R → LiveRecord R
  begun now r = record r {
    phase = queued;
    updated_at_ms = now;
    timing = record r.timing { queued_at_ms = now };
  }

  -- `begin`, with the id that it is asked to use.
  unfoldable pub begin :
      ℕ → ℕ → Text → Text → Option Text → Exec (Registry R) RegistryFault (LiveRecord R)
  unfolding ◌>>=◌ prune upsert update find text_eq
  begin at now uuid command none = do
    modify (prune at)
    modify (put (fresh_record uuid command queued now))
    pure (fresh_record uuid command queued now)
  begin at now uuid command (some id) = do
    modify (prune at)
    found ← gets (λ m. find (has_id id) m.records)
    r ← or_throw found (reservation_unavailable id)
    guard (is_available command r) (reservation_unavailable id)
    modify (λ m. record m { records = update (has_id id) (begun now) m.records })
    pure (begun now r)

  -- `require`, followed by a change of the record that was found.
  unfoldable pub amend :
      Text → (LiveRecord R → LiveRecord R) → Exec (Registry R) RegistryFault (Unit {0})
  unfolding ◌>>=◌ find update
  amend id f = do
    found ← gets (λ m. find (has_id id) m.records)
    or_throw found (unknown_operation id)
    modify (λ m. record m { records = update (has_id id) f m.records })

  abbrev pub moved : Phase → ℕ → LiveRecord R → LiveRecord R
  moved phase now r = record r {
    phase = phase;
    updated_at_ms = now;
    timing = stamped phase now r.timing;
  }

  unfoldable pub transition : ℕ → Text → Phase → Exec (Registry R) RegistryFault (Unit {0})
  unfolding amend
  transition now id phase = amend id (moved phase now)

  abbrev pub ended : ℕ → OperationOutcome → Recovery → LiveRecord R → LiveRecord R
  ended now outcome recovery r = record r {
    phase = terminal_result_created;
    updated_at_ms = now;
    timing = record r.timing { terminal_at_ms = some now };
    outcome = some outcome;
    recovery = some recovery;
  }

  unfoldable pub succeed : ℕ → Text → R → Recovery → Exec (Registry R) RegistryFault (Unit {0})
  unfolding amend
  succeed now id result recovery =
      amend id (λ r. record (ended now succeeded recovery r) { result = some result })

  unfoldable pub fail :
      ℕ → Text → SerializedError → Recovery → Exec (Registry R) RegistryFault (Unit {0})
  unfolding amend
  fail now id error recovery =
      amend id (λ r. record (ended now (outcome_of error.code) recovery r) { error = some error })

  -- `durableRecords.set`
  abbrev pub remember : JournalRecord → Registry R → Registry R
  remember r m = record m {
    durable_records = upsert (has_journal_id r.operation_id) (λ _. r) r m.durable_records;
  }

  -- `journal.append`
  unfoldable pub write_journal :
      Codec → Write → ℕ → JournalRecord → Exec (Registry R) RegistryFault (Unit {0})
  unfolding append
  write_journal codec w size r m = (
    record m { journal = (append codec w size r m.journal).0 },
    elim (append codec w size r m.journal).1 [ ok u ↦ ok u | err e ↦ err journal_failed ],
  )

  abbrev pub kept : ℕ → ℕ → LiveRecord R → LiveRecord R
  kept at now r = record r {
    phase = persistence_complete;
    updated_at_ms = now;
    timing = record r.timing { persisted_at_ms = some at };
  }

  -- `at` is when the record is persisted, and `now` is after the file was written.
  unfoldable pub persist :
      ℕ → ℕ → Codec → Write → ℕ → JournalRecord → Exec (Registry R) RegistryFault (Unit {0})
  unfolding ◌>>=◌ write_journal upsert update
  persist at now codec w size r = do
    let durable_record = record r { timing = persisted at r.timing }
    write_journal codec w size durable_record
    modify (remember durable_record)
    modify (λ m. record m { records = update (has_id r.operation_id) (kept at now) m.records })

  -- The journal's part of `markResponseCreated`: nothing if the record or its timing is missing.
  unfoldable pub mark_durable :
      ℕ → Codec → Write → ℕ → Option JournalRecord → Exec (Registry R) RegistryFault (Unit {0})
  unfolding ◌>>=◌ write_journal upsert
  mark_durable now codec w size none = pure tt
  mark_durable now codec w size (some r) = elim r.timing [
    | none ↦ pure tt
    | some t ↦ do
      write_journal codec w size (responded now t r)
      modify (remember (responded now t r))
  ]

  unfoldable pub mark_ended :
      ℕ
      → Codec
      → Write
      → ℕ
      → Text
      → Option (LiveRecord R)
      → Exec (Registry R) RegistryFault (Unit {0})
  unfolding ◌>>=◌ transition mark_durable find
  mark_ended now codec w size id none = pure tt
  mark_ended now codec w size id (some r) =
      if is_some r.outcome
      then (do
        transition now id response_created
        found ← gets (λ m. find (has_journal_id id) m.durable_records)
        mark_durable now codec w size found)
      else pure tt

  unfoldable pub mark_response_created :
      ℕ → Codec → Write → ℕ → Text → Exec (Registry R) RegistryFault (Unit {0})
  unfolding ◌>>=◌ mark_ended find
  mark_response_created now codec w size id = do
    found ← gets (λ m. find (has_id id) m.records)
    mark_ended now codec w size id found

  unfoldable pub phase : Text → Registry R → Option Phase
  unfolding find
  phase id m = elim (find (has_id id) m.records) [ none ↦ none | some r ↦ some r.phase ]

  unfoldable pub timing : Text → Exec (Registry R) RegistryFault OperationTiming
  unfolding ◌>>=◌ find
  timing id = do
    found ← gets (λ m. find (has_id id) m.records)
    r ← or_throw found (unknown_operation id)
    pure r.timing

  -- The status of an operation that is in the journal alone.
  abbrev pub durable_status : Text → JournalRecord → OperationStatus R
  durable_status message r = record {
    operation_id = r.operation_id;
    command = r.command;
    phase = none;
    source = durable;
    started_at_ms = r.started_at_ms;
    updated_at_ms = none;
    timing = durable_timing r;
    terminal = true;
    outcome = some r.outcome;
    recovery = some r.recovery;
    error = durable_error message r.error_code;
    result_available = false;
    result = none;
  }

  -- `status` once it has looked in memory. The journal may be unreadable.
  unfoldable pub status_from :
      Codec
      → Bool
      → Text
      → Text
      → Bool
      → Option (LiveRecord R)
      → Exec (Registry R) RegistryFault (Option (OperationStatus R))
  unfolding ◌>>=◌ find_record
  status_from codec is_readable message id include_result (some r) =
      pure (some (public_status r include_result))
  status_from codec is_readable message id include_result none = do
    guard is_readable journal_failed
    gets λ m. elim (find_record codec id m.journal) [
      | none ↦ none
      | some r ↦ some (durable_status message r)
    ]

  -- `status`. `message` is the text that the source gives to a durable failure.
  unfoldable pub status :
      ℕ
      → Codec
      → Bool
      → Text
      → Text
      → Bool
      → Exec (Registry R) RegistryFault (Option (OperationStatus R))
  unfolding ◌>>=◌ prune find status_from
  status at codec is_readable message id include_result = do
    modify (prune at)
    live ← gets (λ m. find (has_id id) m.records)
    status_from codec is_readable message id include_result live
