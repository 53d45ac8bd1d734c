-- ===== src/Protocol/Moves.antt =====
-- src/protocol/available-moves.ts: the types of the moves that are open to an agent.
pub mod Requirements
pub mod Derive
pub mod Listing
use stage5_browser.Base.{
  ℕ, ◌-◌, Bool, true, false, not, ◌&&◌, ◌||◌, Option, none, some, List, [], ◌∷◌, ◌++◌, map, ltb,
  leb, ◌==◌, if◌then◌else◌, length, take,
}
use stage5_browser.Text.{Text, text, text_eq}
use stage5_browser.Table.{find, rows, exists, sort_by}
use stage5_browser.Protocol.{
  Command, PolicyMode, normal, review_only, PolicyClass, blocked_in_review,
  declared_intent_in_review, command_policy, is_command, initialize, available_moves, test_hang,
  policy_status, private_field_status, resume_private_field_handoff, auth_status,
  request_login_handoff, resume_after_login, available_browsers, start, tabs, open_url, snapshot,
  inspect_control, form_summary, request_private_field_handoff, click_by_role, fill_by_role, motion,
  select_option, select_options, set_checked, click_ref, fill_ref, set_input_files, wait_for_url,
  apply_form_plan, navigate_history, close_tab,
}
use stage5_browser.Protocol.Contracts.{
  ActionManager, PhaseSystem, Prerequisite, Dispatch, ReplayRule, MissingPolicy, Contract, Group,
  contract_of, all_commands, same_prerequisite, prepare_when_safe, not_meaningful, no_dispatch,
  private_boundary, reversible_view_state, lifecycle_transition, lifecycle_manager,
  planning_manager, policy_manager, agent_control, authentication_awaiting_user,
  authentication_release_pending, browser_running, browser_stopped, control_inspection,
  file_input_ref, form_inspection, observed_tabs, popup_owner_candidate, private_field_handoff,
  scroll_container_ref, selected_page, semantic_snapshot, snapshot_ref, text_editor_ref,
}

pub data Availability : Type 0 where
  available needs_preparation blocked : Availability

pub data ControlMode : Type 0 where
  agent authentication_release authentication_user private_field : ControlMode

-- `BrowserLifecycleState`
pub data LifecycleState : Type 0 where
  stopped starting running recovering failed : LifecycleState

pub record CapabilityCounts : Type 0 where
  pub observed_tabs : ℕ
  pub semantic_snapshots : ℕ
  pub snapshot_refs : ℕ
  pub text_editor_refs : ℕ
  pub file_input_refs : ℕ
  pub scroll_container_refs : ℕ
  pub control_inspections : ℕ
  pub control_options : ℕ
  pub popup_owner_candidates : ℕ
  pub form_inspections : ℕ
  pub form_fields : ℕ

-- `PageStateRisk`
pub record PageStateRisk : Type 0 where
  pub file_count : ℕ
  pub acknowledgement_required : Bool

pub record MoveContext : Type 0 where
  pub lifecycle_state : LifecycleState
  pub browser_connected : Bool
  pub live_page_count : ℕ
  pub selected_page : Bool
  pub control_mode : ControlMode
  pub policy_mode : PolicyMode
  pub page_state_risk : Option PageStateRisk
  pub capability_counts : CapabilityCounts

pub data Cost : Type 0 where
  bounded_observation bounded_reversible human_wait single_dispatch state_transition : Cost

pub data Authority : Type 0 where
  existing_user_scope no_authority private_user_boundary : Authority

-- `moveId` is the command and the technique.
pub record AvailableMove : Type 0 where
  pub command : Command
  pub technique : Text
  pub manager : ActionManager
  pub phase_system : PhaseSystem
  pub availability : Availability
  pub missing_prerequisites : List Prerequisite
  pub enabling_commands : List Command
  pub expected_effect : Dispatch
  pub cost : Cost
  pub authority : Authority
  pub caller_requirements : List Text
  pub replay : ReplayRule

-- `null` and an absent filter are none.
pub record MovesInput : Type 0 where
  pub include_blocked : Bool
  pub manager : Option ActionManager
  pub availability : Option Availability
  pub max_moves : ℕ

pub record MovesOutput : Type 0 where
  pub context : MoveContext
  pub moves : List AvailableMove
  pub returned_count : ℕ
  pub total_count : ℕ
  pub matching_count : ℕ
  pub omitted_count : ℕ
  pub truncated : Bool
