-- ===== src/Supervisor/Authentication.antt =====
-- While a person authenticates, `forceRecover` of src/supervisor/execute.ts leaves the worker alone.
use stage5_browser.Base.{◌≡◌, refl, ◌∙◌, Bool, true, none, some, if◌then◌else◌}
use stage5_browser.Text.{text}
use stage5_browser.Table.{find, update}
use stage5_browser.Effect.{Exec, err}
use stage5_browser.Operations.{LiveRecord, not_needed, worker_preflight}
use stage5_browser.Operations.Registry.{Registry, has_id, transition, moved}
use stage5_browser.Operations.Registry.Status.{find-amend}
use stage5_browser.Supervisor.{
  Supervisor, Host, OperationResult, Thrown, supervised, RecoveryResult,
}
use stage5_browser.Supervisor.Policy.{on_registry, append_journal, product_name}
use stage5_browser.Supervisor.Execute.{end_failed}
use stage5_browser.Supervisor.ForceRecover.{attempt_recovery, recover_queued, human_authentication}
use stage5_browser.Supervisor.Conclusions.{end_failed-found, changed_by, fails_with}

-- The branch that a test takes.
chosen :
    (b : Bool) (x y : Exec Supervisor Thrown RecoveryResult) (s : Supervisor)
    → b ≡ true
    → (if b then x else y) s ≡ x s
chosen b x y s h = rw h refl

-- While a person authenticates, a recovery of a registered operation is refused with
-- AUTH_HANDOFF_REQUIRED and needs none, and nothing but the registry and its journal changes: no
-- request is sent, no worker is started or ended.
pub recover_queued-human :
    (host : Host) (operation : LiveRecord OperationResult) (reopen_last_url : Bool) (s : Supervisor)
    (r : LiveRecord OperationResult)
    → s.human_authentication_in_progress ≡ true
    → find (has_id operation.operation_id) s.operations.records ≡ some r
    → (operations : Registry OperationResult) × (recover_queued host operation reopen_last_url s ≡ (
      record s { operations = operations },
      err (supervised human_authentication operation.operation_id not_needed none),
    ))
unfolding recover_queued on_registry transition append_journal
recover_queued-human host operation reopen_last_url s r h k =
    let changed =
      find-amend operation.operation_id (moved worker_preflight host.preflight_at) s.operations r
        (λ x. refl) k in
    let s1 : Supervisor = record s {
      operations = record s.operations {
        records =
            update (has_id operation.operation_id) (moved worker_preflight host.preflight_at)
              s.operations.records;
      };
    } in
    let (j, q) =
      end_failed-found {A = RecoveryResult} host operation (text "recover") human_authentication
        not_needed (none, some (product_name s.selected_browser)) none s1
        (moved worker_preflight host.preflight_at r) changed.1 in
    (
      (append_journal host j (
          changed_by operation.operation_id
            (fails_with host.ended_at human_authentication not_needed) s1)).0.operations,
      rw (changed.0) (
          chosen s.human_authentication_in_progress
            (end_failed host operation (text "recover") human_authentication not_needed
              (none, some (product_name s.selected_browser)) none)
            (attempt_recovery host operation (if reopen_last_url then s.last_known_url else none))
            s1 h
          ∙ q),
    )
