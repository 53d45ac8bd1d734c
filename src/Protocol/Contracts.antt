-- ===== src/Protocol/Contracts.antt =====
-- src/protocol/command-contracts.ts: what each command needs, and what it does.
use stage5_browser.Base.{ℕ, Bool, List, [], ◌∷◌, ◌++◌, ◌==◌}
use stage5_browser.Text.{Text, text}
use stage5_browser.Protocol.{
  Command, initialize, available_moves, status, start, available_browsers, diagnostics, page_events,
  dialog_status, switch_browser, stop, open_url, navigate_history, snapshot, screenshot, tabs,
  select_tab, activate_selected_page, close_tab, inspect_tab, frames, click_by_role, click_ref,
  set_input_files, downloads, wait_for_download, fill_by_role, fill_ref, inspect_control,
  select_option, select_options, form_summary, apply_form_plan, set_checked, motion, scroll,
  find_text, wait_for_url, auth_status, private_field_status, request_private_field_handoff,
  resume_private_field_handoff, request_login_handoff, resume_after_login, policy_status,
  set_policy, test_hang,
}

-- `BROWSER_ACTION_MANAGERS`
pub data ActionManager : Type 0 where
  form_manager dialog_manager interaction_manager lifecycle_manager : ActionManager
  navigation_manager perception_manager planning_manager : ActionManager
  private_handoff_manager policy_manager recovery_manager tab_manager : ActionManager
  transfer_manager : ActionManager

pub data PhaseSystem : Type 0 where
  action_phases bounded_reversible_loop form_workflow handoff_state_machine : PhaseSystem
  lifecycle_state_machine navigation_state_machine read_only_observation : PhaseSystem
  supervisor_recovery : PhaseSystem

-- `BROWSER_MOVE_PREREQUISITES`
pub data Prerequisite : Type 0 where
  agent_control authentication_awaiting_user authentication_release_pending : Prerequisite
  browser_running browser_stopped control_inspection file_input_ref : Prerequisite
  form_inspection observed_tabs popup_owner_candidate private_field_handoff : Prerequisite
  scroll_container_ref selected_page semantic_snapshot snapshot_ref : Prerequisite
  text_editor_ref : Prerequisite

-- The `dispatch` of a contract.
pub data Dispatch : Type 0 where
  element_input file_transfer lifecycle_transition navigation no_dispatch : Dispatch
  private_boundary reversible_view_state test_only : Dispatch

-- The `replay` of a contract.
pub data ReplayRule : Type 0 where
  reversible_replay idempotent_observation lifecycle_reconcile : ReplayRule
  never_after_possible_dispatch supervisor_only : ReplayRule

-- `missingPrerequisitePolicy`
pub data MissingPolicy : Type 0 where
  prepare_when_safe not_meaningful : MissingPolicy

-- Requirements of which one must hold. No group of the source is empty.
abbrev pub Group : Type 0
Group = Prerequisite × List Prerequisite

pub record Contract : Type 0 where
  pub manager : ActionManager
  pub techniques : List Text
  pub requirement_groups : List Group
  pub technique_requirement_groups : List (Text × List Group)
  pub missing_policy : MissingPolicy
  pub phase_system : PhaseSystem
  pub dispatch : Dispatch
  pub replay : ReplayRule

abbrev needs_agent : List Group
needs_agent = (agent_control, []) ∷ []

abbrev needs_running : List Group
needs_running = needs_agent ++ (browser_running, []) ∷ []

abbrev needs_page : List Group
needs_page = needs_running ++ (selected_page, []) ∷ []

abbrev needs_tabs : List Group
needs_tabs = needs_running ++ (observed_tabs, []) ∷ []

contract :
    ActionManager
    → List Text
    → PhaseSystem
    → Dispatch
    → ReplayRule
    → List Group
    → List (Text × List Group)
    → MissingPolicy
    → Contract
contract manager techniques phase_system dispatch replay groups technique_groups missing_policy =
    record {
      manager = manager;
      techniques = techniques;
      requirement_groups = groups;
      technique_requirement_groups = technique_groups;
      missing_policy = missing_policy;
      phase_system = phase_system;
      dispatch = dispatch;
      replay = replay;
    }

-- `BROWSER_COMMAND_CONTRACTS`
unfoldable pub contract_of : Command → Contract
unfolding contract
contract_of initialize =
    contract lifecycle_manager (text "restore_agent_backend_context" ∷ []) lifecycle_state_machine
      lifecycle_transition lifecycle_reconcile [] [] prepare_when_safe
contract_of available_moves =
    contract planning_manager
      (text "enumerate_viable_moves" ∷ text "explain_move_requirements" ∷ []) read_only_observation
      no_dispatch idempotent_observation [] [] prepare_when_safe
contract_of status =
    contract lifecycle_manager (text "status" ∷ []) read_only_observation no_dispatch
      idempotent_observation [] [] prepare_when_safe
contract_of start =
    contract lifecycle_manager (text "start_profile" ∷ []) lifecycle_state_machine
      lifecycle_transition lifecycle_reconcile (needs_agent ++ (browser_stopped, []) ∷ []) []
      prepare_when_safe
contract_of available_browsers =
    contract lifecycle_manager (text "preflight_backend" ∷ []) read_only_observation no_dispatch
      idempotent_observation needs_agent [] prepare_when_safe
contract_of diagnostics =
    contract perception_manager (text "diagnostics" ∷ []) read_only_observation no_dispatch
      idempotent_observation needs_agent [] prepare_when_safe
contract_of page_events =
    contract perception_manager (text "page_lifecycle_events" ∷ []) read_only_observation
      no_dispatch idempotent_observation needs_agent [] prepare_when_safe
contract_of dialog_status =
    contract dialog_manager (text "inspect_dialog_history" ∷ []) read_only_observation no_dispatch
      idempotent_observation needs_agent [] prepare_when_safe
contract_of switch_browser =
    contract lifecycle_manager (text "switch_profile" ∷ []) lifecycle_state_machine
      lifecycle_transition lifecycle_reconcile needs_running [] not_meaningful
contract_of stop =
    contract lifecycle_manager (text "stop_profile" ∷ []) lifecycle_state_machine
      lifecycle_transition lifecycle_reconcile needs_running [] not_meaningful
contract_of open_url =
    contract navigation_manager (text "open_url" ∷ text "open_new_tab" ∷ [])
      navigation_state_machine navigation never_after_possible_dispatch needs_running []
      prepare_when_safe
contract_of navigate_history =
    contract navigation_manager (text "back" ∷ text "forward" ∷ text "reload" ∷ [])
      navigation_state_machine navigation never_after_possible_dispatch needs_page []
      prepare_when_safe
contract_of snapshot =
    contract perception_manager (text "semantic_snapshot" ∷ []) read_only_observation no_dispatch
      idempotent_observation needs_page [] prepare_when_safe
contract_of screenshot =
    contract perception_manager (text "screenshot" ∷ []) read_only_observation reversible_view_state
      reversible_replay needs_page [] prepare_when_safe
contract_of tabs =
    contract tab_manager (text "list_tabs" ∷ []) read_only_observation no_dispatch
      idempotent_observation needs_running [] prepare_when_safe
contract_of select_tab =
    contract tab_manager (text "select_tab" ∷ []) navigation_state_machine reversible_view_state
      lifecycle_reconcile needs_tabs [] prepare_when_safe
contract_of activate_selected_page =
    contract tab_manager (text "activate_selected_page" ∷ []) bounded_reversible_loop
      reversible_view_state reversible_replay needs_page [] prepare_when_safe
contract_of close_tab =
    contract tab_manager (text "close_exact_tab" ∷ []) action_phases lifecycle_transition
      never_after_possible_dispatch needs_tabs [] prepare_when_safe
contract_of inspect_tab =
    contract tab_manager
      (text "inspect_tab_passively" ∷ text "temporarily_activate_and_restore" ∷ [])
      bounded_reversible_loop reversible_view_state reversible_replay needs_tabs []
      prepare_when_safe
contract_of frames =
    contract perception_manager (text "list_frames" ∷ []) read_only_observation no_dispatch
      idempotent_observation needs_page [] prepare_when_safe
contract_of click_by_role =
    contract interaction_manager (text "click" ∷ []) action_phases element_input
      never_after_possible_dispatch needs_page [] prepare_when_safe
contract_of click_ref =
    contract interaction_manager (text "click" ∷ []) action_phases element_input
      never_after_possible_dispatch
      (needs_page ++ (semantic_snapshot, []) ∷ (snapshot_ref, []) ∷ []) [] prepare_when_safe
contract_of set_input_files =
    contract transfer_manager
      (text "set_observed_file_input" ∷ text "observe_upload_processing" ∷ []) action_phases
      file_transfer never_after_possible_dispatch
      (needs_page ++ (semantic_snapshot, []) ∷ (file_input_ref, []) ∷ []) [] prepare_when_safe
contract_of downloads =
    contract transfer_manager (text "restore_download_manifest" ∷ []) read_only_observation
      no_dispatch idempotent_observation needs_agent [] prepare_when_safe
contract_of wait_for_download =
    contract transfer_manager (text "wait_for_download" ∷ []) read_only_observation no_dispatch
      idempotent_observation needs_running [] not_meaningful
contract_of fill_by_role =
    contract form_manager (text "fill_text" ∷ text "fill_date" ∷ []) action_phases element_input
      never_after_possible_dispatch needs_page [] prepare_when_safe
contract_of fill_ref =
    contract form_manager (text "fill_text" ∷ text "fill_date" ∷ []) action_phases element_input
      never_after_possible_dispatch
      (needs_page ++ (semantic_snapshot, []) ∷ (text_editor_ref, []) ∷ []) [] prepare_when_safe
contract_of inspect_control =
    contract form_manager
      (text "inspect_options" ∷ text "declare_popup_owner_from_observed_candidates" ∷ [])
      action_phases reversible_view_state never_after_possible_dispatch needs_page
      ((text "declare_popup_owner_from_observed_candidates", (popup_owner_candidate, []) ∷ []) ∷ [])
      prepare_when_safe
contract_of select_option =
    contract form_manager (text "set_option_state" ∷ []) action_phases element_input
      never_after_possible_dispatch needs_page [] prepare_when_safe
contract_of select_options =
    contract form_manager (text "select_multiple_options" ∷ []) form_workflow element_input
      never_after_possible_dispatch needs_page [] prepare_when_safe
contract_of form_summary =
    contract form_manager (text "summarize_form" ∷ []) read_only_observation no_dispatch
      idempotent_observation needs_page [] prepare_when_safe
contract_of apply_form_plan =
    contract form_manager (text "apply_staged_plan" ∷ []) form_workflow element_input
      never_after_possible_dispatch (needs_page ++ (form_inspection, []) ∷ []) [] prepare_when_safe
contract_of set_checked =
    contract form_manager (text "set_checked" ∷ []) action_phases element_input
      never_after_possible_dispatch needs_page [] prepare_when_safe
contract_of motion =
    contract interaction_manager
      (text "hover"
        ∷ text "focus"
        ∷ text "press_key"
        ∷ text "double_click"
        ∷ text "context_click"
        ∷ text "drag_and_drop"
        ∷ [])
      action_phases element_input never_after_possible_dispatch needs_page [] prepare_when_safe
contract_of scroll =
    contract interaction_manager (text "scroll_document" ∷ text "scroll_observed_container" ∷ [])
      bounded_reversible_loop reversible_view_state reversible_replay needs_page
      ((text "scroll_observed_container", (scroll_container_ref, []) ∷ []) ∷ []) prepare_when_safe
contract_of find_text =
    contract perception_manager (text "find_rendered_text" ∷ []) read_only_observation no_dispatch
      idempotent_observation needs_page [] prepare_when_safe
contract_of wait_for_url =
    contract navigation_manager (text "wait_for_url" ∷ []) read_only_observation no_dispatch
      idempotent_observation needs_page [] prepare_when_safe
contract_of auth_status =
    contract private_handoff_manager (text "inspect_authentication_handoff" ∷ [])
      read_only_observation no_dispatch idempotent_observation [] [] prepare_when_safe
contract_of private_field_status =
    contract private_handoff_manager (text "inspect_private_field_handoff" ∷ [])
      read_only_observation no_dispatch idempotent_observation [] [] prepare_when_safe
contract_of request_private_field_handoff =
    contract private_handoff_manager (text "field_scoped_private_input" ∷ []) handoff_state_machine
      private_boundary lifecycle_reconcile needs_page [] prepare_when_safe
contract_of resume_private_field_handoff =
    contract private_handoff_manager (text "redacted_resume_verification" ∷ [])
      handoff_state_machine private_boundary lifecycle_reconcile ((private_field_handoff, []) ∷ [])
      [] prepare_when_safe
contract_of request_login_handoff =
    contract private_handoff_manager (text "native_authentication_handoff" ∷ [])
      handoff_state_machine private_boundary lifecycle_reconcile
      ((browser_running, authentication_release_pending ∷ []) ∷ []) [] prepare_when_safe
contract_of resume_after_login =
    contract private_handoff_manager (text "resume_authentication_handoff" ∷ [])
      handoff_state_machine private_boundary lifecycle_reconcile
      ((authentication_awaiting_user, []) ∷ []) [] prepare_when_safe
contract_of policy_status =
    contract policy_manager (text "inspect_policy" ∷ []) read_only_observation no_dispatch
      idempotent_observation [] [] prepare_when_safe
contract_of set_policy =
    contract policy_manager (text "normal_mode" ∷ text "review_only_mode" ∷ [])
      lifecycle_state_machine lifecycle_transition lifecycle_reconcile [] [] prepare_when_safe
contract_of test_hang =
    contract recovery_manager (text "exercise_supervisor_timeout" ∷ []) supervisor_recovery
      test_only supervisor_only [] [] prepare_when_safe

-- The commands in the order of the table.
abbrev pub all_commands : List Command
all_commands =
    initialize ∷ available_moves ∷ status ∷ start ∷ available_browsers ∷ diagnostics ∷ page_events
    ∷ dialog_status ∷ switch_browser ∷ stop ∷ open_url ∷ navigate_history ∷ snapshot ∷ screenshot
    ∷ tabs ∷ select_tab ∷ activate_selected_page ∷ close_tab ∷ inspect_tab ∷ frames ∷ click_by_role
    ∷ click_ref ∷ set_input_files ∷ downloads ∷ wait_for_download ∷ fill_by_role ∷ fill_ref
    ∷ inspect_control ∷ select_option ∷ select_options ∷ form_summary ∷ apply_form_plan
    ∷ set_checked ∷ motion ∷ scroll ∷ find_text ∷ wait_for_url ∷ auth_status ∷ private_field_status
    ∷ request_private_field_handoff ∷ resume_private_field_handoff ∷ request_login_handoff
    ∷ resume_after_login ∷ policy_status ∷ set_policy ∷ test_hang ∷ []

-- The place of a prerequisite in its list.
prerequisite_index : Prerequisite → ℕ
prerequisite_index agent_control = 0
prerequisite_index authentication_awaiting_user = 1
prerequisite_index authentication_release_pending = 2
prerequisite_index browser_running = 3
prerequisite_index browser_stopped = 4
prerequisite_index control_inspection = 5
prerequisite_index file_input_ref = 6
prerequisite_index form_inspection = 7
prerequisite_index observed_tabs = 8
prerequisite_index popup_owner_candidate = 9
prerequisite_index private_field_handoff = 10
prerequisite_index scroll_container_ref = 11
prerequisite_index selected_page = 12
prerequisite_index semantic_snapshot = 13
prerequisite_index snapshot_ref = 14
prerequisite_index text_editor_ref = 15

-- `a === b`
unfoldable pub same_prerequisite : Prerequisite → Prerequisite → Bool
unfolding prerequisite_index
same_prerequisite a b = prerequisite_index a == prerequisite_index b
