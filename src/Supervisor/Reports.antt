-- ===== src/Supervisor/Reports.antt =====
-- How a registered command of src/supervisor/execute.ts ends, while others use the registry.
use stage5_browser.Base.{
  ℕ, ◌≡◌, refl, sym, subst, ◌∙◌, ap, ◌⊎◌, inl, inr, Bool, Option, none, some, List, arith,
  Bool-cases,
}
use stage5_browser.Text.{Text}
use stage5_browser.Table.{find}
use stage5_browser.Effect.{Exec, ok, err, ◌>>=◌}
use stage5_browser.Effect.Rules.{Keeps, keeps_rules}
use stage5_browser.Effect.Ensures.{Outcome-cases, bind_cases}
use stage5_browser.Errors.{ErrorCode, SerializedError}
use stage5_browser.Protocol.{Command, command_name}
use stage5_browser.Operations.{LiveRecord, Phase, Recovery, worker_result_received}
use stage5_browser.Operations.Registry.{Registry, has_id, moved, transition, phase}
use stage5_browser.Operations.Registry.Status.{find-amend}
use stage5_browser.Supervisor.{
  Await, Supervisor, Child, Host, Answer, OperationResult, RuntimeTransition, Thrown, supervised,
}
use stage5_browser.Supervisor.Policy.{
  on_registry, append_journal, capture, serialize_unknown_error, safe_journal_diagnostic,
}
use stage5_browser.Supervisor.Execute.{
  SupervisedResult, awaited, is_sent, prepare, dispatch, conclude_success, conclude_failure,
  end_failed, settle_phase, recover_worker, execute_queued,
}
use stage5_browser.Supervisor.Conclusions.{
  append_journal-HasRecord, end_failed-found, conclude_success-found, recover_worker-ok, changed_by,
  succeeds_with,
}
use stage5_browser.Supervisor.Registered.{
  Holds, Keeps-fields, Keeps-attempt, Keeps-if, ensure_worker-Keeps, replace_worker-Keeps,
  reload-Keeps, request-Keeps, note-Keeps, apply_pending-Keeps,
}

-- The registry has a record of the id.
abbrev pub Has : Text → Registry OperationResult → Type 0
Has id m = (r : LiveRecord OperationResult) × (find (has_id id) m.records ≡ some r)

-- What the supervisor has of workers: the current one, how many were started, and those that were sent a
-- signal.
abbrev pub workers : Supervisor → Option Child × ℕ × List ℕ
workers s = (s.child, s.forked, s.terminated)

-- The calls that others make while this one awaits keep its record.
abbrev pub OthersKeep : Host → Text → Type 0
OthersKeep host id =
    (w : Await) (m : Registry OperationResult) → Has id m → Has id (host.others w m)

module _ (id : Text) where
  Keeps-awaited :
      {A : Type 0} (host : Host) (w : Await) (m : Exec Supervisor Thrown A)
      → OthersKeep host id
      → Keeps (Holds (Has id)) m
      → Keeps (Holds (Has id)) (awaited host w m)
  unfolding awaited
  Keeps-awaited host w m o k = record { at = λ s h. o w (m s).0.operations (k.at s h) }

  transition-Keeps :
      (now : ℕ) (p : Phase) → Keeps (Holds (Has id)) (on_registry (transition now id p))
  unfolding on_registry transition
  transition-Keeps now p = record {
    at = λ s (r, h).
        let changed = find-amend id (moved p now) s.operations r (λ x. refl) h in
        (moved p now r, rw (changed.0) changed.1);
  }

  transition-ok :
      (now : ℕ) (p : Phase) (s : Supervisor)
      → Has id s.operations
      → (on_registry (transition now id p) s).1 ≡ ok tt
  unfolding on_registry transition
  transition-ok now p s (r, h) =
      let changed = find-amend id (moved p now) s.operations r (λ x. refl) h in rw (changed.0) refl

  settle_phase-Keeps : (host : Host) → Keeps (Holds (Has id)) (settle_phase host id)
  unfolding settle_phase
  settle_phase-Keeps host = search (keeps_rules, Keeps-if, transition-Keeps) depth 20

  settle_phase-ok :
      (host : Host) (s : Supervisor) → Has id s.operations → (settle_phase host id s).1 ≡ ok tt
  unfolding settle_phase
  settle_phase-ok host s h = elim (Bool-cases (is_sent (phase id s.operations))) [
    | inl e ↦ rw (e, settle_phase) (transition-ok host.received_at worker_result_received s h)
    | inr e ↦ rw (e, settle_phase) refl
  ]

  recover_worker-Keeps :
      (host : Host) (code : ErrorCode)
      → OthersKeep host id
      → Keeps (Holds (Has id)) (recover_worker host code)
  unfolding recover_worker
  recover_worker-Keeps host code o =
      search (keeps_rules, Keeps-awaited, Keeps-if, Keeps-attempt, replace_worker-Keeps) depth 20

  prepare-Keeps : (host : Host) → OthersKeep host id → Keeps (Holds (Has id)) (prepare host id)
  unfolding prepare
  prepare-Keeps host o =
      search (keeps_rules, Keeps-awaited, apply_pending-Keeps, transition-Keeps, reload-Keeps) depth
        20

capture-fields : (a : Answer) (s : Supervisor) → (capture a s).operations ≡ s.operations
unfolding capture
capture-fields a s = refl

module _ (host : Host) (operation : LiveRecord OperationResult) (command : Command) where
  conclude_success-Keeps :
      (moved_to : Option RuntimeTransition) (result : Answer)
      → Keeps
          (Holds (Has operation.operation_id))
          (conclude_success host operation command moved_to result)
  conclude_success-Keeps moved_to result = record {
    at = λ s (r, h).
        let (j, q) = conclude_success-found host operation command moved_to result s r h in
        let changed =
          find-amend operation.operation_id (succeeds_with host.ended_at result) s.operations r
            (λ x. refl) h in
        let (r', h', u) =
          append_journal-HasRecord operation.operation_id (λ x. Unit {0}) (λ at now x k. tt) host j
            (changed_by operation.operation_id (succeeds_with host.ended_at result) s)
            (succeeds_with host.ended_at result r, changed.1, tt) in
        subst (λ x. Has operation.operation_id x.0.operations) (sym q) (r', h');
  }

  dispatch-Keeps :
      (timeout_ms hard_timeout_ms : Option ℕ) (was_connected : Bool)
      (moved_to : Option RuntimeTransition)
      → OthersKeep host operation.operation_id
      → Keeps
          (Holds (Has operation.operation_id))
          (dispatch host operation command timeout_ms hard_timeout_ms was_connected moved_to)
  unfolding dispatch
  dispatch-Keeps timeout_ms hard_timeout_ms was_connected moved_to o =
      search
        (
          keeps_rules, Keeps-awaited, Keeps-fields, capture-fields, ensure_worker-Keeps,
          transition-Keeps, request-Keeps, note-Keeps, conclude_success-Keeps,
        )
        depth 40

  -- The failure of a command whose operation is registered ends with the recovery of the worker.
  pub conclude_failure-ends :
      (moved_to : Option RuntimeTransition) (thrown : Thrown) (s : Supervisor)
      → OthersKeep host operation.operation_id
      → Has operation.operation_id s.operations
      → let error = serialize_unknown_error thrown in
        let recovery =
          recover_worker host error.code (settle_phase host operation.operation_id s).0 in
        (ended_by : Recovery) × (recovery.1 ≡ ok ended_by)
        × ((conclude_failure host operation command moved_to thrown s).1
            ≡ err (supervised error operation.operation_id ended_by moved_to))
        × (workers (conclude_failure host operation command moved_to thrown s).0
            ≡ workers recovery.0)
  unfolding conclude_failure append_journal on_registry
  conclude_failure-ends moved_to thrown s o h =
      let id = operation.operation_id in
      let error = serialize_unknown_error thrown in
      let finish = λ (ended_by : Recovery).
        end_failed {A = SupervisedResult} host operation (command_name command) error ended_by
          (safe_journal_diagnostic error) moved_to in
      let rest = λ (u : Unit {0}). recover_worker host error.code >>= finish in
      let s1 = (settle_phase host id s).0 in
      elim (bind_cases (settle_phase host id) rest s) [
        | inr (e, g, q) ↦ absurd (ground (arith, g, settle_phase-ok id host s h))
        | inl (u, g, q) ↦ elim (bind_cases (recover_worker host error.code) finish s1) [
          | inr (e, g', q') ↦ absurd (recover_worker-ok host error.code s1 e g')
          | inl (by, g', q') ↦
              let (r, k) =
                (recover_worker-Keeps id host error.code o).at s1
                  ((settle_phase-Keeps id host).at s h) in
              let (j, p) =
                end_failed-found {A = SupervisedResult} host operation (command_name command) error
                  by (safe_journal_diagnostic error) moved_to (recover_worker host error.code s1).0
                  r k in
              (by, g', ap (λ x. x.1) (q ∙ (q' ∙ p)), ap (λ x. workers x.0) (q ∙ (q' ∙ p)))
        ]
      ]

  -- A command whose operation is registered ends with a result or with the error of its operation, if
  -- what others do to the registry while it awaits keeps the record of the operation: the code itself
  -- never loses that record, and no failure of the worker, of the recovery or of the journal makes it
  -- throw anything else.
  pub execute_queued_reports :
      (timeout_ms hard_timeout_ms : Option ℕ) (s : Supervisor) (r : LiveRecord OperationResult)
      → OthersKeep host operation.operation_id
      → find (has_id operation.operation_id) s.operations.records ≡ some r
      → ((res : SupervisedResult) × ((execute_queued host operation command timeout_ms
              hard_timeout_ms s).1
            ≡ ok res))
        ⊎ ((e : SerializedError) × (ended_by : Recovery) × (moved_to : Option RuntimeTransition)
            × ((execute_queued host operation command timeout_ms hard_timeout_ms s).1
                ≡ err (supervised e operation.operation_id ended_by moved_to)))
  unfolding execute_queued
  execute_queued_reports timeout_ms hard_timeout_ms s r o h =
      let id = operation.operation_id in
      let s1 = (prepare host id s).0 in
      let h1 = (prepare-Keeps id host o).at s (r, h) in
      elim (Outcome-cases (prepare host id s).1) [
        | inr (x, g) ↦
            let (by, k, q, w) = conclude_failure-ends none x s1 o h1 in
            inr (serialize_unknown_error x, by, none, rw (g, execute_queued) q)
        | inl (moved_to, g) ↦
            let m =
              dispatch host operation command timeout_ms hard_timeout_ms s.browser_was_connected
                moved_to in
            elim (Outcome-cases (m s1).1) [
              | inl (res, g') ↦ inl (res, rw (g, execute_queued) (rw g' refl))
              | inr (x, g') ↦
                  let h2 =
                    (dispatch-Keeps timeout_ms hard_timeout_ms s.browser_was_connected moved_to
                        o).at
                      s1 h1 in
                  let (by, k, q, w) = conclude_failure-ends moved_to x (m s1).0 o h2 in
                  inr (serialize_unknown_error x, by, moved_to, rw (g, execute_queued) (rw g' q))
            ]
      ]
