-- ===== src/Action.antt =====
-- The phases of one consequential physical action: src/controller/action/types.ts and the
-- viewport telemetry of src/protocol/telemetry.ts.
pub mod Session
pub mod Manager
mod Examples
use stage5_browser.Base.{ℕ, ◌≡◌, refl, Bool, true, false, Option, none, some, List, ◌==◌}

pub data ActionPhase : Type 0 where
  observe plan preflight prepare dispatch reconcile finalize : ActionPhase

pub data ActionDispatchState : Type 0 where
  not_attempted not_dispatched possibly_dispatched dispatched : ActionDispatchState

pub data ActionTerminalOutcome : Type 0 where
  failed succeeded : ActionTerminalOutcome

pub data NoDispatchRecoveryReason : Type 0 where
  activation_lost_before_input : NoDispatchRecoveryReason
  target_changed_before_input : NoDispatchRecoveryReason
  transient_observation_miss : NoDispatchRecoveryReason

pub record ActionPhaseTransition : Type 0 where
  pub phase : ActionPhase
  pub entered_at_ms : ℕ
  pub attempt : ℕ

pub record NoDispatchRecovery : Type 0 where
  pub reason : NoDispatchRecoveryReason
  pub authorized_at_ms : ℕ
  pub completed_dispatch_attempts : ℕ

-- `actionDispatched: boolean | 'unknown'`
pub data DispatchConclusion : Type 0 where
  was_dispatched was_not_dispatched unknown : DispatchConclusion

pub data ReachStrategy : Type 0 where
  pointer_viewport postconditioned_keyboard : ReachStrategy

pub record ViewportPreparation : Type 0 where
  pub attempts : ℕ
  pub movements : ℕ
  pub horizontal_movement : Bool
  pub vertical_movement : Bool
  pub nested_surface_movement : Bool
  pub document_movement : Bool
  pub composed_boundary_traversed : Bool
  pub pointer_contact_recovery : Bool
  pub completed_in_viewport : Bool
  pub reach_strategy : ReachStrategy

-- The position in `ACTION_PHASES`.
unfoldable pub phase_index : ActionPhase → ℕ
phase_index observe = 0
phase_index plan = 1
phase_index preflight = 2
phase_index prepare = 3
phase_index dispatch = 4
phase_index reconcile = 5
phase_index finalize = 6

-- `currentPhase === phase`
unfoldable pub is_phase : ActionPhase → Option ActionPhase → Bool
unfolding phase_index
is_phase p none = false
is_phase p (some q) = phase_index p == phase_index q

unfoldable pub is_not_attempted : ActionDispatchState → Bool
is_not_attempted not_attempted = true
is_not_attempted _ = false

unfoldable pub is_not_dispatched : ActionDispatchState → Bool
is_not_dispatched not_dispatched = true
is_not_dispatched _ = false
