-- ===== src/Operations/Examples.antt =====
-- Runs of the registry and the journal, and their theorems at them.
use stage5_browser.Base.{
  ℕ, zero, suc, ◌≡◌, ◌≢◌, ◌⊎◌, ◌≤◌, refl, true, none, some, List, [], ◌∷◌, length, arith,
}
use stage5_browser.Text.{Text, text, text_eq}
use stage5_browser.Table.{find}
use stage5_browser.Effect.{ok, err}
use stage5_browser.Errors.{operation_timeout, SerializedError}
use stage5_browser.Operations.{
  JournalRecord, LiveRecord, queued, reserved, succeeded, failed, timed_out, not_needed,
  unrecovered,
}
use stage5_browser.Operations.Journal.{Codec, compacted, max_journal_bytes}
use stage5_browser.Operations.Registry.{
  Registry, reservation_unavailable, unknown_operation, fresh_record, begun, prune, begin, succeed,
  fail, status,
}
use stage5_browser.Operations.Registry.Steps.{run, reserves, succeeds, reads}
use stage5_browser.Operations.Registry.Reservation.{reservation_taken_once}
use stage5_browser.Operations.Registry.Bounds.{run-IsBounded}
use stage5_browser.Operations.Registry.Status.{told, TellsFailure, succeed_reported, fail_reported}

-- A record of an operation, by its id.
abbrev entry : Text → JournalRecord
entry id = record {
  operation_id = id;
  command = text "click";
  started_at_ms = 5;
  duration_ms = 10;
  outcome = succeeded;
  recovery = not_needed;
  error_code = none;
  diagnostic_cause = none;
  browser = none;
  browser_state = none;
  current_url = none;
  completed_at_ms = none;
  timing = none;
}

-- A format for such records: a line is the id.
abbrev by_id : Codec
by_id = record { encode = λ r. r.operation_id; decode = λ l. some (entry l); sanitize = λ url. url }

abbrev earlier_entries : List (ℕ × JournalRecord)
earlier_entries = (0, entry (text "a1")) ∷ (3, entry (text "b2")) ∷ []

abbrev later_entries : List (ℕ × JournalRecord)
later_entries = (9, entry (text "c3")) ∷ []

-- A short text that is past the limit by its bytes is dropped whole.
wide_text_dropped : compacted max_journal_bytes (text "one\ntwo\n") ≡ []
unfolding compacted
wide_text_dropped = refl

abbrev no_operations : Registry ℕ
no_operations = record { records = []; durable_records = []; journal = record { contents = none } }

-- A registry with one reservation.
abbrev one_reserved : Registry ℕ
one_reserved = record no_operations {
  records = fresh_record (text "r1") (text "click") reserved 0 ∷ [];
}

abbrev one_running : Registry ℕ
one_running = record no_operations {
  records = fresh_record (text "r1") (text "click") queued 0 ∷ [];
}

reservation_taken_once_example :
    (begin 9 9 (text "u2") (text "click") (some (text "r1")) (
      run by_id
        (succeeds 5 (text "r1") 7 not_needed ∷ reserves 6 6 (text "r2") (text "click") ∷ [])
        (begin 1 1 (text "u1") (text "click") (some (text "r1")) one_reserved).0)).1
    ≡ err (reservation_unavailable (text "r1"))
unfolding begin
reservation_taken_once_example =
    reservation_taken_once (text "r1") by_id 1 1 (text "u1") (text "click") one_reserved
      (begun 1 (fresh_record (text "r1") (text "click") reserved 0))
      (succeeds 5 (text "r1") 7 not_needed ∷ reserves 6 6 (text "r2") (text "click") ∷ []) 9 9
      (text "u2") (text "click") refl (tt, ((λ e. absurd (ground (arith, e))), tt))

run-IsBounded_example :
    length
      (run by_id
        (reserves 1 1 (text "r2") (text "click") ∷ reads 2 true (text "") (text "r1") true ∷ [])
        one_reserved).records
    ≤ 201
run-IsBounded_example =
    run-IsBounded by_id
      (reserves 1 1 (text "r2") (text "click") ∷ reads 2 true (text "") (text "r1") true ∷ [])
      one_reserved (omega arith)

abbrev running : LiveRecord ℕ
running = fresh_record (text "r1") (text "click") queued 0

succeed_reported_example :
    (status 20 by_id true
      (text "")
      (text "r1")
      true
      (succeed 10 (text "r1") 7 not_needed one_running).0).1
    ≡ ok (some (told 10 running succeeded not_needed none (some 7)))
unfolding find text_eq
succeed_reported_example =
    succeed_reported 20 10 by_id true (text "") (text "r1") 7 not_needed one_running running refl
      (omega arith) (omega arith)

abbrev timeout : SerializedError
timeout = record {
  code = operation_timeout;
  message = text "late";
  recoverable = true;
  details = [];
}

fail_reported_example :
    let out =
      (status 20 by_id true
        (text "")
        (text "r1")
        true
        (fail 10 (text "r1") timeout unrecovered one_running).0).1 in
    ((operation_timeout ≡ operation_timeout)
      × TellsFailure 10 running unrecovered timeout timed_out out)
    ⊎ ((operation_timeout ≢ operation_timeout)
        × TellsFailure 10 running unrecovered timeout failed out)
unfolding find text_eq
fail_reported_example =
    fail_reported 20 10 by_id true (text "") (text "r1") timeout unrecovered one_running running
      refl (omega arith) (omega arith)

-- `count` operations in progress, the first the oldest.
abbrev in_progress : ℕ → List (LiveRecord ℕ)
in_progress zero = []
in_progress (suc n) = record running { operation_id = n ∷ [] } ∷ in_progress n

-- The limit evicts the oldest operation although it has not ended: it cannot end any more.
running_evicted :
    (succeed 2
      (200 ∷ [])
      7
      not_needed
      (prune 1 (record no_operations { records = in_progress 201 }))).1
    ≡ err (unknown_operation (200 ∷ []))
unfolding succeed prune text_eq
running_evicted = refl
