-- ===== src/Supervisor/HardRecovery.antt =====
-- When the `catch` of `execute` in src/supervisor/execute.ts replaces the worker.
use stage5_browser.Base.{
  ◌≡◌, refl, sym, ◌∙◌, ap, subst, ◌⊎◌, inl, inr, true, false, Option, none, some, ℕ, ◌+◌, List,
  ◌++◌, arith, Bool-cases,
}
use stage5_browser.Table.{find}
use stage5_browser.Effect.{Outcome, ok, err}
use stage5_browser.Errors.{
  ErrorCode, ambiguous_target, auth_handoff_required, auth_handoff_unavailable, auth_not_persisted,
  browser_not_ready, invalid_file, invalid_url, mcp_restart_required, no_active_page,
  operation_failed, operation_timeout, postcondition_failed, target_not_found, worker_disconnected,
  worker_start_failed, SerializedError,
}
use stage5_browser.Protocol.{Command}
use stage5_browser.Operations.{LiveRecord, Recovery, not_needed, recovered, unrecovered}
use stage5_browser.Operations.Registry.{has_id, phase}
use stage5_browser.Supervisor.{
  Supervisor, Host, OperationResult, RuntimeTransition, Thrown, supervised,
}
use stage5_browser.Supervisor.Policy.{on_registry, requires_hard_recovery, serialize_unknown_error}
use stage5_browser.Supervisor.Worker.{replace_worker}
use stage5_browser.Supervisor.Execute.{
  SupervisedResult, awaited, recovery_of, is_sent, conclude_failure, settle_phase, recover_worker,
}
use stage5_browser.Supervisor.Replacement.{
  IsReplaced, IsEnded, live_workers, replace_worker-Replaces,
}
use stage5_browser.Supervisor.Reports.{workers, OthersKeep, conclude_failure-ends}

-- The codes after which the state of the worker is unknown.
abbrev pub LosesWorker : ErrorCode → Type 0
LosesWorker code =
    (code ≡ operation_timeout) ⊎ ((code ≡ worker_disconnected) ⊎ (code ≡ worker_start_failed))

LosesWorker-cases :
    (code : ErrorCode)
    → (LosesWorker code × (requires_hard_recovery code ≡ true))
      ⊎ ((¬ LosesWorker code) × (requires_hard_recovery code ≡ false))
unfolding requires_hard_recovery
LosesWorker-cases operation_timeout = inl (inl refl, refl)
LosesWorker-cases worker_disconnected = inl (inr (inl refl), refl)
LosesWorker-cases worker_start_failed = inl (inr (inr refl), refl)
LosesWorker-cases ambiguous_target = inr ((λ h. ground (arith, h)), refl)
LosesWorker-cases auth_handoff_required = inr ((λ h. ground (arith, h)), refl)
LosesWorker-cases auth_handoff_unavailable = inr ((λ h. ground (arith, h)), refl)
LosesWorker-cases auth_not_persisted = inr ((λ h. ground (arith, h)), refl)
LosesWorker-cases browser_not_ready = inr ((λ h. ground (arith, h)), refl)
LosesWorker-cases invalid_file = inr ((λ h. ground (arith, h)), refl)
LosesWorker-cases invalid_url = inr ((λ h. ground (arith, h)), refl)
LosesWorker-cases mcp_restart_required = inr ((λ h. ground (arith, h)), refl)
LosesWorker-cases no_active_page = inr ((λ h. ground (arith, h)), refl)
LosesWorker-cases operation_failed = inr ((λ h. ground (arith, h)), refl)
LosesWorker-cases postcondition_failed = inr ((λ h. ground (arith, h)), refl)
LosesWorker-cases target_not_found = inr ((λ h. ground (arith, h)), refl)

-- The error of the operation is thrown, with this recovery.
abbrev pub Reports :
    SerializedError
    → LiveRecord OperationResult
    → Option RuntimeTransition
    → Recovery
    → Outcome Thrown SupervisedResult
    → Type 0
Reports e operation moved_to ended_by out =
    out ≡ err (supervised e operation.operation_id ended_by moved_to)

-- A recovery is reported and the worker is replaced; or a failed one, and no worker is current.
abbrev pub Recovers :
    SerializedError
    → LiveRecord OperationResult
    → Option RuntimeTransition
    → Supervisor
    → Supervisor × Outcome Thrown SupervisedResult
    → Type 0
Recovers e operation moved_to s out =
    (Reports e operation moved_to recovered out.1 × IsReplaced s out.0)
    ⊎ (Reports e operation moved_to unrecovered out.1 × IsEnded s out.0)

settle_phase-workers :
    (host : Host) (operation : LiveRecord OperationResult) (s : Supervisor)
    → workers (settle_phase host operation.operation_id s).0 ≡ workers s
unfolding settle_phase phase on_registry
settle_phase-workers host operation s =
    elim (Bool-cases (is_sent (phase operation.operation_id s.operations))) [
      | inl e ↦ rw (e, settle_phase) refl
      | inr e ↦ rw (e, settle_phase) refl
    ]

recover_worker-kept :
    (host : Host) (code : ErrorCode) (s : Supervisor)
    → requires_hard_recovery code ≡ false
    → recover_worker host code s ≡ (s, ok not_needed)
unfolding recover_worker
recover_worker-kept host code s f = rw (f, recover_worker) refl

recover_worker-tried :
    (host : Host) (code : ErrorCode) (s : Supervisor)
    → requires_hard_recovery code ≡ true
    → (workers (recover_worker host code s).0 ≡ workers (replace_worker host s).0)
      × ((recover_worker host code s).1 ≡ ok (recovery_of (replace_worker host s).1))
unfolding recover_worker awaited
recover_worker-tried host code s f = rw (f, recover_worker) (refl, refl)

ok-same : {a b : Recovery} → ◌≡◌ {A = Outcome Thrown Recovery} (ok a) (ok b) → a ≡ b
ok-same h = ground (arith, h)

-- The relations see the workers alone.
IsReplaced-workers :
    (s1 s s2 s' : Supervisor)
    → workers s1 ≡ workers s
    → workers s' ≡ workers s2
    → IsReplaced s1 s2
    → IsReplaced s s'
IsReplaced-workers s1 s s2 s' e f (c, n, t) =
    subst
      (λ x.
        (x.0 ≡ some (record { number = s.forked; is_live = true }))
        × (x.1 ≡ s.forked + 1)
        × (x.2 ≡ s.terminated ++ live_workers s.child))
      (sym f)
      (subst
        (λ x.
          (s2.child ≡ some (record { number = x.1; is_live = true }))
          × (s2.forked ≡ x.1 + 1)
          × (s2.terminated ≡ x.2 ++ live_workers x.0))
        e (c, n, t))

IsEnded-workers :
    (s1 s s2 s' : Supervisor)
    → workers s1 ≡ workers s
    → workers s' ≡ workers s2
    → IsEnded s1 s2
    → IsEnded s s'
IsEnded-workers s1 s s2 s' e f (c, (more, t)) =
    subst
      (λ x.
        (x.0 ≡ none) × ((more : List ℕ) × (x.2 ≡ (s.terminated ++ live_workers s.child) ++ more)))
      (sym f)
      (subst
        (λ x.
          (s2.child ≡ none)
          × ((more : List ℕ) × (s2.terminated ≡ (x.2 ++ live_workers x.0) ++ more)))
        e (c, (more, t)))

-- A command of a registered operation that failed, where others keep the record of the operation: after OPERATION_TIMEOUT, WORKER_DISCONNECTED and
-- WORKER_START_FAILED the worker that was alive is sent a signal, and either a worker that was started
-- after it is current and a recovery is reported, or none is current and a failed recovery is reported.
-- After every other code the workers are what they were, and it is reported that no recovery was needed.
pub failure_replaces_worker :
    (host : Host) (operation : LiveRecord OperationResult) (command : Command)
    (moved_to : Option RuntimeTransition) (thrown : Thrown) (s : Supervisor)
    (r : LiveRecord OperationResult)
    → OthersKeep host operation.operation_id
    → find (has_id operation.operation_id) s.operations.records ≡ some r
    → let e = serialize_unknown_error thrown in
      let out = conclude_failure host operation command moved_to thrown s in
      (LosesWorker e.code × Recovers e operation moved_to s out)
      ⊎ ((¬ LosesWorker e.code)
          × Reports e operation moved_to not_needed out.1
          × (workers out.0 ≡ workers s))
failure_replaces_worker host operation command moved_to thrown s r o h =
    let e = serialize_unknown_error thrown in
    let s1 = (settle_phase host operation.operation_id s).0 in
    let out = conclude_failure host operation command moved_to thrown s in
    let settled = settle_phase-workers host operation s in
    let (by, k, q, w) = conclude_failure-ends host operation command moved_to thrown s o (r, h) in
    elim (LosesWorker-cases e.code) [
      | inr (n, f) ↦
          let kept = recover_worker-kept host e.code s1 f in
          let same : not_needed ≡ by = ok-same (sym (ap (λ x. x.1) kept) ∙ k) in
          inr (
            n,
            subst (λ b. Reports e operation moved_to b out.1) (sym same) q,
            w ∙ (ap (λ x. workers x.0) kept ∙ settled),
          )
      | inl (n, f) ↦
          let tried = recover_worker-tried host e.code s1 f in
          let left = w ∙ tried.0 in
          let same : recovery_of (replace_worker host s1).1 ≡ by = ok-same (sym tried.1 ∙ k) in
          let q' = subst (λ b. Reports e operation moved_to b out.1) (sym same) q in
          inl (
            n,
            elim (replace_worker-Replaces host s1) [
              | inl (p, c) ↦ inl (
                subst (λ x. Reports e operation moved_to (recovery_of x) out.1) p q',
                IsReplaced-workers s1 s (replace_worker host s1).0 out.0 settled left c,
              )
              | inr (t, p, c) ↦ inr (
                subst (λ x. Reports e operation moved_to (recovery_of x) out.1) p q',
                IsEnded-workers s1 s (replace_worker host s1).0 out.0 settled left c,
              )
            ],
          )
    ]
