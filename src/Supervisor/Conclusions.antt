-- ===== src/Supervisor/Conclusions.antt =====
-- How an operation of src/supervisor/execute.ts ends, in the registry and for its caller.
use stage5_browser.Base.{
  ℕ, ◌≡◌, ◌≢◌, refl, sym, subst, ◌∙◌, ap, inl, inr, Bool, Option, none, some, List, arith,
  Bool-cases, Option-cases,
}
use stage5_browser.Text.{Text, text}
use stage5_browser.Table.{find, update}
use stage5_browser.Table.Laws.{find-update-some}
use stage5_browser.Effect.{Outcome, ok, err, gets, modify, ◌>>=◌}
use stage5_browser.Effect.Ensures.{Ensures, Ensures-last, Outcome-cases, bind_cases}
use stage5_browser.Errors.{ErrorCode, SerializedError}
use stage5_browser.Protocol.{Command, command_name}
use stage5_browser.Operations.{
  worker_request_sent, worker_result_received, LiveRecord, JournalRecord, Recovery, not_needed,
  succeeded,
}
use stage5_browser.Operations.Journal.{append, Codec, Write, written, refused, fails_after}
use stage5_browser.Operations.Registry.{
  RegistryFault, reservation_unavailable, unknown_operation, journal_failed, phase, transition,
  Registry, has_id, kept, persist, write_journal, amend, succeed, fail, timing, ended, outcome_of,
}
use stage5_browser.Supervisor.{
  Supervisor, worker_start, worker_reply, context_note, Host, Answer, OperationResult, of_command,
  RuntimeTransition, Thrown, plain, supervised,
}
use stage5_browser.Supervisor.Policy.{
  capture, deadline_for, thrown_by, serialize_unknown_error, safe_journal_diagnostic, on_registry,
  append_journal, requires_hard_recovery,
}
use stage5_browser.Operations.Registry.Status.{find-amend}
use stage5_browser.Supervisor.Worker.{replace_worker, ensure_worker, request}
use stage5_browser.Supervisor.AgentContext.{note_agent_context_result}
use stage5_browser.Supervisor.Execute.{
  awaited, chosen_timeout, is_sent, recovery_of, ended_record, SupervisedResult, conclude_success,
  conclude_failure, end_failed, settle_phase, recover_worker, dispatch, prepare, execute_queued,
}

-- The registry has a record of the operation, and it is as `Q` says.
abbrev pub HasRecord : Text → (LiveRecord OperationResult → Type 0) → Supervisor → Type 0
HasRecord id Q s =
    (r : LiveRecord OperationResult) × (find (has_id id) s.operations.records ≡ some r) × Q r

module _ (id : Text) (Q : LiveRecord OperationResult → Type 0)
    (closed : (at now : ℕ) (r : LiveRecord OperationResult) → Q r → Q (kept at now r)) where
  HasRecord-kept :
      (other : Text) (at now : ℕ) (rs : List (LiveRecord OperationResult))
      (r : LiveRecord OperationResult)
      → find (has_id id) rs ≡ some r
      → Q r
      → (r' : LiveRecord OperationResult) × (find
            (has_id id)
            (update (has_id other) (kept at now) rs)
          ≡ some r')
        × Q r'
  HasRecord-kept other at now rs r h q = elim (Bool-cases (has_id other r)) [
    | inl e ↦ (
      kept at now r,
      find-update-some (has_id other) (kept at now) (has_id id) rs r (λ x. refl) h ∙ rw e refl,
      closed at now r q,
    )
    | inr e ↦ (
      r,
      find-update-some (has_id other) (kept at now) (has_id id) rs r (λ x. refl) h ∙ rw e refl,
      q,
    )
  ]

  persist-HasRecord :
      (at now : ℕ) (codec : Codec) (w : Write) (size : ℕ) (j : JournalRecord)
      (m : Registry OperationResult) (r : LiveRecord OperationResult)
      → find (has_id id) m.records ≡ some r
      → Q r
      → (r' : LiveRecord OperationResult) × (find
            (has_id id)
            (persist at now codec w size j m).0.records
          ≡ some r')
        × Q r'
  unfolding persist write_journal append
  persist-HasRecord at now codec written size j m r h q =
      HasRecord-kept j.operation_id at now m.records r h q
  persist-HasRecord at now codec refused size j m r h q = (r, h, q)
  persist-HasRecord at now codec (fails_after n) size j m r h q = (r, h, q)

  pub append_journal-HasRecord :
      (host : Host) (j : JournalRecord) (s : Supervisor)
      → HasRecord id Q s
      → HasRecord id Q (append_journal host j s).0
  unfolding append_journal on_registry
  append_journal-HasRecord host j s (r, h, q) =
      persist-HasRecord host.persisted_at host.written_at host.codec host.journal_write
        host.journal_size j s.operations r h q

-- What a success leaves in the record.
abbrev pub IsSuccess : SupervisedResult → LiveRecord OperationResult → Type 0
IsSuccess res r =
    (r.outcome ≡ some succeeded)
    × (r.result ≡ some (of_command res.result))
    × (r.recovery ≡ some not_needed)

-- What a failure leaves in the record.
abbrev pub IsFailure : SerializedError → Recovery → LiveRecord OperationResult → Type 0
IsFailure e ended_by r =
    (r.outcome ≡ some (outcome_of e.code)) × (r.error ≡ some e) × (r.recovery ≡ some ended_by)

-- The state after a change of the operation's record.
abbrev pub changed_by :
    Text → (LiveRecord OperationResult → LiveRecord OperationResult) → Supervisor → Supervisor
changed_by id f s = record s {
  operations = record s.operations { records = update (has_id id) f s.operations.records };
}

abbrev pub succeeds_with : ℕ → Answer → LiveRecord OperationResult → LiveRecord OperationResult
succeeds_with now result r = record (ended now succeeded not_needed r) {
  result = some (of_command result);
}

abbrev pub fails_with :
    ℕ → SerializedError → Recovery → LiveRecord OperationResult → LiveRecord OperationResult
fails_with now error ended_by r = record (ended now (outcome_of error.code) ended_by r) {
  error = some error;
}

pub conclude_success-found :
    (host : Host) (operation : LiveRecord OperationResult) (command : Command)
    (moved_to : Option RuntimeTransition) (result : Answer) (s : Supervisor)
    (r : LiveRecord OperationResult)
    → find (has_id operation.operation_id) s.operations.records ≡ some r
    → (j : JournalRecord) × (conclude_success host operation command moved_to result s ≡ (
      (append_journal host j
          (changed_by operation.operation_id (succeeds_with host.ended_at result) s)).0,
      ok (record {
        operation_id = operation.operation_id;
        result = result;
        recovery = not_needed;
        runtime_transition = moved_to;
      }),
    ))
unfolding conclude_success on_registry succeed timing append_journal
conclude_success-found host operation command moved_to result s r h =
    let changed =
      find-amend operation.operation_id (succeeds_with host.ended_at result) s.operations r
        (λ x. refl) h in
    (
      ended_record operation.operation_id operation.started_at_ms host.ended_at
          (succeeds_with host.ended_at result r).timing (command_name command) succeeded not_needed
          none (none, none) s.last_known_url,
      rw (changed.0) (rw (changed.1) refl),
    )

conclude_success-unknown :
    (host : Host) (operation : LiveRecord OperationResult) (command : Command)
    (moved_to : Option RuntimeTransition) (result : Answer) (s : Supervisor)
    → find (has_id operation.operation_id) s.operations.records ≡ none
    → (conclude_success host operation command moved_to result s).1
      ≡ err (plain (some (text "Error")))
unfolding conclude_success on_registry succeed amend
conclude_success-unknown host operation command moved_to result s h = rw h refl

conclude_success-IsSuccess :
    (host : Host) (operation : LiveRecord OperationResult) (command : Command)
    (moved_to : Option RuntimeTransition) (result : Answer)
    → Ensures
        (λ s res s'. HasRecord operation.operation_id (IsSuccess res) s')
        (conclude_success host operation command moved_to result)
conclude_success-IsSuccess host operation command moved_to result = record {
  at = λ s res h. elim (Option-cases (find (has_id operation.operation_id) s.operations.records)) [
    | inl e ↦
        absurd (ground (arith, conclude_success-unknown host operation command moved_to result s e))
    | inr (r, e) ↦
        let (j, q) = conclude_success-found host operation command moved_to result s r e in
        let changed =
          find-amend operation.operation_id (succeeds_with host.ended_at result) s.operations r
            (λ x. refl) e in
        let same : result ≡ res.result = ground (arith, q, h) in
        subst (λ x. HasRecord operation.operation_id (IsSuccess res) x.0) (sym q)
          (append_journal-HasRecord operation.operation_id (IsSuccess res) (λ at now r k. k) host j
            (changed_by operation.operation_id (succeeds_with host.ended_at result) s)
            (
              succeeds_with host.ended_at result r,
              changed.1,
              (refl, ap (λ x. some (of_command x)) same, refl),
            ))
  ];
}

pub end_failed-found :
    {A : Type 0} (host : Host) (operation : LiveRecord OperationResult) (command : Text)
    (error : SerializedError) (ended_by : Recovery) (diagnostic : Option Text × Option Text)
    (moved_to : Option RuntimeTransition) (s : Supervisor) (r : LiveRecord OperationResult)
    → find (has_id operation.operation_id) s.operations.records ≡ some r
    → (j : JournalRecord) × (end_failed {A = A} host operation command error ended_by diagnostic
          moved_to s
        ≡ (
          (append_journal host j
              (changed_by operation.operation_id (fails_with host.ended_at error ended_by) s)).0,
          err (supervised error operation.operation_id ended_by moved_to),
        ))
unfolding end_failed on_registry fail timing append_journal
end_failed-found host operation command error ended_by diagnostic moved_to s r h =
    let changed =
      find-amend operation.operation_id (fails_with host.ended_at error ended_by) s.operations r
        (λ x. refl) h in
    (
      ended_record operation.operation_id operation.started_at_ms host.ended_at
          (fails_with host.ended_at error ended_by r).timing command (outcome_of error.code)
          ended_by (some error.code) diagnostic s.last_known_url,
      rw (changed.0) (rw (changed.1) refl),
    )

pub end_failed-unknown :
    {A : Type 0} (host : Host) (operation : LiveRecord OperationResult) (command : Text)
    (error : SerializedError) (ended_by : Recovery) (diagnostic : Option Text × Option Text)
    (moved_to : Option RuntimeTransition) (s : Supervisor)
    → find (has_id operation.operation_id) s.operations.records ≡ none
    → (end_failed {A = A} host operation command error ended_by diagnostic moved_to s).1
      ≡ err (plain (some (text "Error")))
unfolding end_failed on_registry fail amend
end_failed-unknown host operation command error ended_by diagnostic moved_to s h = rw h refl

-- What a failed end leaves: no result, and an error of the operation only if the registry has it.
abbrev pub IsReported : Text → Supervisor × Outcome Thrown SupervisedResult → Type 0
IsReported id x =
    ((a : SupervisedResult) → x.1 ≢ ok a)
    × ((e : SerializedError) (id' : Text) (ended_by : Recovery)
          (moved_to : Option RuntimeTransition)
        → x.1 ≡ err (supervised e id' ended_by moved_to)
        → (id' ≡ id) × HasRecord id (IsFailure e ended_by) x.0)

end_failed-IsReported :
    (host : Host) (operation : LiveRecord OperationResult) (command : Text)
    (error : SerializedError) (ended_by : Recovery) (diagnostic : Option Text × Option Text)
    (moved_to : Option RuntimeTransition) (s : Supervisor)
    → IsReported operation.operation_id
        (end_failed host operation command error ended_by diagnostic moved_to s)
end_failed-IsReported host operation command error ended_by diagnostic moved_to s =
    elim (Option-cases (find (has_id operation.operation_id) s.operations.records)) [
      | inl e ↦
          let q =
            end_failed-unknown {A = SupervisedResult} host operation command error ended_by
              diagnostic moved_to s e in
          (λ a h. ground (arith, q, h), λ x id' by to h. absurd (ground (arith, q, h)))
      | inr (r, e) ↦
          let (j, q) =
            end_failed-found {A = SupervisedResult} host operation command error ended_by diagnostic
              moved_to s r e in
          let changed =
            find-amend operation.operation_id (fails_with host.ended_at error ended_by) s.operations
              r (λ x. refl) e in
          let kept_record =
            append_journal-HasRecord operation.operation_id (IsFailure error ended_by)
              (λ at now r k. k) host j
              (changed_by operation.operation_id (fails_with host.ended_at error ended_by) s)
              (fails_with host.ended_at error ended_by r, changed.1, (refl, refl, refl)) in
          subst (IsReported operation.operation_id) (sym q) (
            λ a h. ground (arith, h),
            λ x id' by to h.
                let st =
                  (append_journal host j (
                    changed_by operation.operation_id (fails_with host.ended_at error ended_by)
                      s)).0 in
                let same : error ≡ x = ground (arith, h) in
                let same_end : ended_by ≡ by = ground (arith, h) in
                (
                  ground (arith, h),
                  subst (λ y. HasRecord operation.operation_id (IsFailure y by) st) same
                      (subst (λ y. HasRecord operation.operation_id (IsFailure error y) st) same_end
                        kept_record),
                ),
          )
    ]

-- The error of a call of the registry is not the error of an operation.
pub thrown_by-plain :
    (f : RegistryFault) (e : SerializedError) (id : Text) (ended_by : Recovery)
    (moved_to : Option RuntimeTransition)
    → thrown_by f ≢ supervised e id ended_by moved_to
thrown_by-plain (reservation_unavailable i) e id ended_by moved_to h = ground (arith, h)
thrown_by-plain (unknown_operation i) e id ended_by moved_to h = ground (arith, h)
thrown_by-plain journal_failed e id ended_by moved_to h = ground (arith, h)

pub settle_phase-plain :
    (host : Host) (id : Text) (s : Supervisor) (t : Thrown)
    → (settle_phase host id s).1 ≡ err t
    → (f : RegistryFault) × (t ≡ thrown_by f)
unfolding settle_phase on_registry
settle_phase-plain host id s t h = elim (Bool-cases (is_sent (phase id s.operations))) [
  | inr e ↦
      let q : (settle_phase host id s).1 ≡ ok tt = rw (e, settle_phase) refl in
      absurd (ground (arith, q, h))
  | inl e ↦
      elim (Outcome-cases (transition host.received_at id worker_result_received s.operations).1) [
        | inl (u, g) ↦
            let q : (settle_phase host id s).1 ≡ ok u =
              rw (e, settle_phase) (rw (g, on_registry) refl) in
            absurd (ground (arith, q, h))
        | inr (f, g) ↦
            let q : (settle_phase host id s).1 ≡ err (thrown_by f) =
              rw (e, settle_phase) (rw (g, on_registry) refl) in
            (f, ground (arith, q, h))
      ]
]

pub recover_worker-ok :
    (host : Host) (code : ErrorCode) (s : Supervisor) (t : Thrown)
    → (recover_worker host code s).1 ≢ err t
unfolding recover_worker awaited
recover_worker-ok host code s t h = elim (Bool-cases (requires_hard_recovery code)) [
  | inl e ↦
      let q : (recover_worker host code s).1 ≡ ok (recovery_of (replace_worker host s).1) =
        rw (e, recover_worker) refl in
      ground (arith, q, h)
  | inr e ↦
      let q : (recover_worker host code s).1 ≡ ok not_needed = rw (e, recover_worker) refl in
      ground (arith, q, h)
]

conclude_failure-IsReported :
    (host : Host) (operation : LiveRecord OperationResult) (command : Command)
    (moved_to : Option RuntimeTransition) (thrown : Thrown) (s : Supervisor)
    → IsReported operation.operation_id (conclude_failure host operation command moved_to thrown s)
unfolding conclude_failure
conclude_failure-IsReported host operation command moved_to thrown s =
    let error = serialize_unknown_error thrown in
    let finish = λ (ended_by : Recovery).
      end_failed {A = SupervisedResult} host operation (command_name command) error ended_by
        (safe_journal_diagnostic error) moved_to in
    let rest = λ (u : Unit {0}). recover_worker host error.code >>= finish in
    elim (bind_cases (settle_phase host operation.operation_id) rest s) [
      | inr (e, g, q) ↦
          let (f, p) = settle_phase-plain host operation.operation_id s e g in
          subst (IsReported operation.operation_id) (sym q) (
            λ a h. ground (arith, h),
            λ x id' by to h. absurd (thrown_by-plain f x id' by to (ground (arith, p, h))),
          )
      | inl (u, g, q) ↦
          let s1 = (settle_phase host operation.operation_id s).0 in
          subst (IsReported operation.operation_id) (sym q)
            (elim (bind_cases (recover_worker host error.code) finish s1) [
              | inr (e, g', q') ↦ absurd (recover_worker-ok host error.code s1 e g')
              | inl (by, g', q') ↦ subst (IsReported operation.operation_id) (sym q') (
                  end_failed-IsReported host operation (command_name command) error by
                    (safe_journal_diagnostic error) moved_to (recover_worker host error.code s1).0)
            ])
    ]

dispatch-IsSuccess :
    (host : Host) (operation : LiveRecord OperationResult) (command : Command)
    (timeout_ms hard_timeout_ms : Option ℕ) (was_connected : Bool)
    (moved_to : Option RuntimeTransition)
    → Ensures
        (λ s res s'. HasRecord operation.operation_id (IsSuccess res) s')
        (dispatch host operation command timeout_ms hard_timeout_ms was_connected moved_to)
unfolding dispatch
dispatch-IsSuccess host operation command timeout_ms hard_timeout_ms was_connected moved_to =
    Ensures-last {Q = λ res s'. HasRecord operation.operation_id (IsSuccess res) s'}
      (awaited host worker_start ensure_worker) _
      (λ started.
        Ensures-last
          (on_registry (transition host.sent_at operation.operation_id worker_request_sent)) _
          (λ sent.
            Ensures-last (gets (λ s. deadline_for s.config command timeout_ms)) _ (λ deadline.
              Ensures-last
                (awaited host worker_reply
                  (request command (chosen_timeout hard_timeout_ms deadline)))
                _
                (λ result.
                  Ensures-last
                    (on_registry
                      (transition host.received_at operation.operation_id worker_result_received))
                    _
                    (λ received. Ensures-last (modify (capture result)) _ (λ captured.
                      Ensures-last
                        (awaited host context_note
                          (note_agent_context_result host (some command) was_connected result))
                        _
                        (λ noted.
                          conclude_success-IsSuccess host operation command moved_to result)))))))

-- What `execute` runs in the queue ends its operation. If it returns a result, the registry has the
-- operation as succeeded, with that result; if it throws the error of an operation, that is the error
-- of this one, and the registry has it as failed or timed out, with that error and that recovery.
pub execute_queued_concluded :
    (host : Host) (operation : LiveRecord OperationResult) (command : Command)
    (timeout_ms hard_timeout_ms : Option ℕ) (s : Supervisor)
    → ((res : SupervisedResult)
        → (execute_queued host operation command timeout_ms hard_timeout_ms s).1 ≡ ok res
        → HasRecord operation.operation_id
            (IsSuccess res)
            (execute_queued host operation command timeout_ms hard_timeout_ms s).0)
      × ((e : SerializedError) (id : Text) (ended_by : Recovery)
            (moved_to : Option RuntimeTransition)
          → (execute_queued host operation command timeout_ms hard_timeout_ms s).1
            ≡ err (supervised e id ended_by moved_to)
          → (id ≡ operation.operation_id)
            × HasRecord operation.operation_id
                (IsFailure e ended_by)
                (execute_queued host operation command timeout_ms hard_timeout_ms s).0)
unfolding execute_queued
execute_queued_concluded host operation command timeout_ms hard_timeout_ms s =
    elim (Outcome-cases (prepare host operation.operation_id s).1) [
      | inr (e, g) ↦
          let reported =
            conclude_failure-IsReported host operation command none e
              (prepare host operation.operation_id s).0 in
          rw (g, execute_queued) (λ res h. absurd (reported.0 res h), reported.1)
      | inl (moved_to, g) ↦
          let s1 = (prepare host operation.operation_id s).0 in
          let m =
            dispatch host operation command timeout_ms hard_timeout_ms s.browser_was_connected
              moved_to in
          elim (Outcome-cases (m s1).1) [
            | inr (e, g') ↦
                let reported =
                  conclude_failure-IsReported host operation command moved_to e (m s1).0 in
                rw (g, execute_queued) (rw g' (λ res h. absurd (reported.0 res h), reported.1))
            | inl (res', g') ↦
                rw (g, execute_queued)
                  (rw g' (
                    (λ res h.
                        let same : res' ≡ res = ground (arith, h) in
                        (dispatch-IsSuccess host operation command timeout_ms hard_timeout_ms
                            s.browser_was_connected moved_to).at
                          s1 res (g' ∙ ap (λ x. ok x) same)),
                    λ e id by to h. absurd (ground (arith, h)),
                  ))
          ]
    ]
