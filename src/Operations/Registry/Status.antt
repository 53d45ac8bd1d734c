-- ===== src/Operations/Registry/Status.antt =====
-- What src/operations/registry.ts tells of an operation that ended.
use stage5_browser.Base.{
  ℕ, ◌-◌, ◌≤◌, ◌≡◌, ◌≢◌, ◌∙◌, ◌⊎◌, Option, ap, refl, Bool, true, false, some, List, [], ◌∷◌, not,
  length, arith, Bool-cases, inl, inr, ltb,
}
use stage5_browser.Text.{Text, text_eq}
use stage5_browser.Table.{find, rows, update}
use stage5_browser.Table.Laws.{find-update-some, find-holds}
use stage5_browser.Effect.{Outcome, ok}
use stage5_browser.Operations.{
  LiveRecord, Recovery, OperationOutcome, OperationStatus, memory, failed, timed_out, succeeded,
  terminal_result_created,
}
use stage5_browser.Operations.Journal.{Codec}
use stage5_browser.Operations.Registry.{
  Registry, RegistryFault, is_some, max_memory_records, terminal_retention_ms, retention, has_id,
  prune, newest, is_expired, ended, public_status, amend, succeed, fail, outcome_of, status,
  status_from,
}
use stage5_browser.Operations.Registry.Bounds.{length-rows, length-update}
use stage5_browser.Errors.{
  ErrorCode, operation_timeout, SerializedError, ambiguous_target, auth_handoff_required,
  auth_handoff_unavailable, auth_not_persisted, browser_not_ready, invalid_file, invalid_url,
  mcp_restart_required, no_active_page, operation_failed, postcondition_failed, target_not_found,
  worker_disconnected, worker_start_failed,
}

module _ {A : Type 0} where
  -- A selection that keeps what a lookup finds does not change what it finds.
  find-rows :
      (p q : A → Bool) (xs : List A) (a : A)
      → find p xs ≡ some a
      → q a ≡ true
      → find p (rows q xs) ≡ some a
  unfolding find rows
  find-rows p q [] a h k = absurd (ground arith)
  find-rows p q (x ∷ xs) a h k = elim (Bool-cases (p x)) [
    | inl e ↦ let same : x ≡ a = ground arith in rw (same, k) (ground arith)
    | inr e ↦ elim (Bool-cases (q x)) [
      | inl f ↦ rw f (rw e (find-rows p q xs a (ground arith) k))
      | inr f ↦ rw f (find-rows p q xs a (ground arith) k)
    ]
  ]

-- A code asks for the outcome of a timeout, or of another failure.
outcome_of-cases :
    (code : ErrorCode)
    → ((code ≡ operation_timeout) × (outcome_of code ≡ timed_out))
      ⊎ ((code ≢ operation_timeout) × (outcome_of code ≡ failed))
outcome_of-cases operation_timeout = inl (refl, refl)
outcome_of-cases ambiguous_target = inr ((λ h. ground (arith, h)), refl)
outcome_of-cases auth_handoff_required = inr ((λ h. ground (arith, h)), refl)
outcome_of-cases auth_handoff_unavailable = inr ((λ h. ground (arith, h)), refl)
outcome_of-cases auth_not_persisted = inr ((λ h. ground (arith, h)), refl)
outcome_of-cases browser_not_ready = inr ((λ h. ground (arith, h)), refl)
outcome_of-cases invalid_file = inr ((λ h. ground (arith, h)), refl)
outcome_of-cases invalid_url = inr ((λ h. ground (arith, h)), refl)
outcome_of-cases mcp_restart_required = inr ((λ h. ground (arith, h)), refl)
outcome_of-cases no_active_page = inr ((λ h. ground (arith, h)), refl)
outcome_of-cases operation_failed = inr ((λ h. ground (arith, h)), refl)
outcome_of-cases postcondition_failed = inr ((λ h. ground (arith, h)), refl)
outcome_of-cases target_not_found = inr ((λ h. ground (arith, h)), refl)
outcome_of-cases worker_disconnected = inr ((λ h. ground (arith, h)), refl)
outcome_of-cases worker_start_failed = inr ((λ h. ground (arith, h)), refl)

module _ {R : Type 0} where
  find-prune :
      (at : ℕ) (id : Text) (m : Registry R) (r : LiveRecord R)
      → find (has_id id) m.records ≡ some r
      → is_expired at r ≡ false
      → length m.records ≤ max_memory_records
      → find (has_id id) (prune at m).records ≡ some r
  unfolding prune newest
  find-prune at id m r h k l =
      let kept = rows (λ r. not (is_expired at r)) m.records in
      let fits : length kept - max_memory_records ≡ 0 =
        omega (arith, length-rows (λ r. not (is_expired at r)) m.records) in
      rw fits (find-rows (has_id id) (λ r. not (is_expired at r)) m.records r h (rw k refl))

  -- The change that is made to the record of an id.
  pub find-amend :
      (id : Text) (f : LiveRecord R → LiveRecord R) (m : Registry R) (r : LiveRecord R)
      → ((x : LiveRecord R) → (f x).operation_id ≡ x.operation_id)
      → find (has_id id) m.records ≡ some r
      → (amend id f m ≡ (record m { records = update (has_id id) f m.records }, ok tt))
        × (find (has_id id) (update (has_id id) f m.records) ≡ some (f r))
  unfolding amend
  find-amend id f m r k h = (
    rw h refl,
    find-update-some (has_id id) f (has_id id) m.records r (λ x. ap (text_eq id) (k x)) h
        ∙ rw (find-holds (has_id id) m.records r h) refl,
  )

  -- A record that is terminal is kept for a quarter of an hour.
  is_expired-terminal :
      (at : ℕ) (r : LiveRecord R)
      → r.phase ≡ terminal_result_created
      → at - r.updated_at_ms ≤ terminal_retention_ms
      → is_expired at r ≡ false
  unfolding is_expired
  is_expired-terminal at r h k = elim (Bool-cases (ltb (retention r) (at - r.updated_at_ms))) [
    | inl e ↦ absurd (ground (arith, e))
    | inr e ↦ rw e (ground arith)
  ]

  amend-status :
      (at : ℕ) (codec : Codec) (is_readable : Bool) (message id : Text)
      (f : LiveRecord R → LiveRecord R) (m : Registry R) (r : LiveRecord R)
      → ((x : LiveRecord R) → (f x).operation_id ≡ x.operation_id)
      → find (has_id id) m.records ≡ some r
      → length m.records ≤ max_memory_records
      → (f r).phase ≡ terminal_result_created
      → at - (f r).updated_at_ms ≤ terminal_retention_ms
      → (status at codec is_readable message id true (amend id f m).0).1
        ≡ ok (some (public_status (f r) true))
  unfolding status status_from
  amend-status at codec is_readable message id f m r k h l p q =
      let changed = find-amend id f m r k h in
      rw (changed.0) (
        rw
          (find-prune at id (record m { records = update (has_id id) f m.records }) (f r) changed.1
            (is_expired-terminal at (f r) p q)
            (omega (arith, length-update (has_id id) f m.records)))
          refl)

  -- What a status tells of an operation that ended: the fields of its record that do not change when it
  -- ends, the end of it, and its result or its error.
  abbrev pub told :
      ℕ
      → LiveRecord R
      → OperationOutcome
      → Recovery
      → Option SerializedError
      → Option R
      → OperationStatus R
  told now r outcome ended_by error result = record {
    operation_id = r.operation_id;
    command = r.command;
    phase = some terminal_result_created;
    source = memory;
    started_at_ms = r.started_at_ms;
    updated_at_ms = some now;
    timing = record {
      queued_at_ms = r.timing.queued_at_ms;
      worker_request_at_ms = r.timing.worker_request_at_ms;
      worker_response_at_ms = r.timing.worker_response_at_ms;
      terminal_at_ms = some now;
      persisted_at_ms = r.timing.persisted_at_ms;
      response_created_at_ms = r.timing.response_created_at_ms;
    };
    terminal = true;
    outcome = some outcome;
    recovery = some ended_by;
    error = error;
    result_available = is_some result;
    result = result;
  }

  -- In a registry of at most two hundred records, a status that asks for the result, and is the next call
  -- after an operation succeeded and within a quarter of an hour, returns it: the operation is terminal, succeeded, with
  -- the recovery that was named, the time of its end, and the result, which is available; its id,
  -- command, start, other times and error are those of the record before.
  pub succeed_reported :
      (at now : ℕ) (codec : Codec) (is_readable : Bool) (message id : Text) (result : R)
      (ended_by : Recovery) (m : Registry R) (r : LiveRecord R)
      → find (has_id id) m.records ≡ some r
      → length m.records ≤ max_memory_records
      → at - now ≤ terminal_retention_ms
      → (status at codec is_readable message id true (succeed now id result ended_by m).0).1
        ≡ ok (some (told now r succeeded ended_by r.error (some result)))
  unfolding succeed
  succeed_reported at now codec is_readable message id result ended_by m r h l q =
      amend-status at codec is_readable message id
        (λ x. record (ended now succeeded ended_by x) { result = some result }) m r (λ x. refl) h l
        refl q

  -- The status after an end with an error: the record's other fields, the outcome, and the error.
  abbrev pub TellsFailure :
      ℕ
      → LiveRecord R
      → Recovery
      → SerializedError
      → OperationOutcome
      → Outcome RegistryFault (Option (OperationStatus R))
      → Type 0
  TellsFailure now r ended_by error outcome out =
      out ≡ ok (some (told now r outcome ended_by (some error) r.result))

  -- In a registry of at most two hundred records, a status that asks for the result, and is the next call
  -- after an operation failed and within a quarter of an hour, returns the error: the operation is terminal, timed out if the error's code is
  -- OPERATION_TIMEOUT and failed for every other code, with the recovery that was named, the time of
  -- its end, and the error; its id, command, start, other times and result are those of the record
  -- before.
  pub fail_reported :
      (at now : ℕ) (codec : Codec) (is_readable : Bool) (message id : Text)
      (error : SerializedError) (ended_by : Recovery) (m : Registry R) (r : LiveRecord R)
      → find (has_id id) m.records ≡ some r
      → length m.records ≤ max_memory_records
      → at - now ≤ terminal_retention_ms
      → ((error.code ≡ operation_timeout)
          × TellsFailure now r ended_by error timed_out
              (status at codec is_readable message id true (fail now id error ended_by m).0).1)
        ⊎ ((error.code ≢ operation_timeout)
            × TellsFailure now r ended_by error failed
                (status at codec is_readable message id true (fail now id error ended_by m).0).1)
  unfolding fail
  fail_reported at now codec is_readable message id error ended_by m r h l q =
      let told_of =
        amend-status at codec is_readable message id
          (λ x. record (ended now (outcome_of error.code) ended_by x) { error = some error }) m r
          (λ x. refl) h l refl q in
      let same = λ (o : OperationOutcome) (k : outcome_of error.code ≡ o).
        told_of ∙ ap (λ x. ok (some (told now r x ended_by (some error) r.result))) k in
      elim (outcome_of-cases error.code) [
        | inl (k, o) ↦ inl (k, same timed_out o)
        | inr (k, o) ↦ inr (k, same failed o)
      ]
