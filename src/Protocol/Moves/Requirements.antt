-- ===== src/Protocol/Moves/Requirements.antt =====
-- What a move needs, and what a caller must bring to it: src/protocol/available-moves.ts.
use stage5_browser.Base.{
  Bool, true, false, not, ◌&&◌, ◌||◌, Option, none, some, List, [], ◌∷◌, ◌++◌, ltb, if◌then◌else◌,
}
use stage5_browser.Text.{Text, text, text_eq}
use stage5_browser.Table.{exists}
use stage5_browser.Protocol.{
  Command, PolicyMode, normal, review_only, PolicyClass, blocked_in_review,
  declared_intent_in_review, command_policy, is_command, initialize, available_moves, test_hang,
  policy_status, private_field_status, resume_private_field_handoff, auth_status,
  request_login_handoff, resume_after_login, available_browsers, start, tabs, open_url, snapshot,
  inspect_control, form_summary, request_private_field_handoff, click_by_role, fill_by_role, motion,
  select_option, select_options, set_checked, click_ref, fill_ref, set_input_files, wait_for_url,
  apply_form_plan, navigate_history, close_tab,
}
use stage5_browser.Protocol.Contracts.{
  Prerequisite, Contract, contract_of, no_dispatch, private_boundary, reversible_view_state,
  lifecycle_transition, lifecycle_manager, planning_manager, policy_manager, agent_control,
  authentication_awaiting_user, authentication_release_pending, browser_running, browser_stopped,
  control_inspection, file_input_ref, form_inspection, observed_tabs, popup_owner_candidate,
  private_field_handoff, scroll_container_ref, selected_page, semantic_snapshot, snapshot_ref,
  text_editor_ref,
}
use stage5_browser.Protocol.Moves.{
  ControlMode, agent, authentication_release, authentication_user, private_field, LifecycleState,
  running, stopped, PageStateRisk, MoveContext, Cost, bounded_observation, bounded_reversible,
  human_wait, single_dispatch, state_transition, Authority, existing_user_scope, no_authority,
  private_user_boundary,
}

-- `HIDDEN_COMMANDS`
unfoldable pub is_hidden : Command → Bool
is_hidden initialize = true
is_hidden available_moves = true
is_hidden test_hang = true
is_hidden _ = false

-- `PREPARABLE`
unfoldable pub is_preparable : Prerequisite → Bool
is_preparable agent_control = false
is_preparable authentication_awaiting_user = false
is_preparable authentication_release_pending = false
is_preparable browser_stopped = false
is_preparable private_field_handoff = false
is_preparable _ = true

abbrev pub is_agent : ControlMode → Bool
is_agent agent = true
is_agent _ = false

abbrev pub is_authentication_user : ControlMode → Bool
is_authentication_user authentication_user = true
is_authentication_user _ = false

abbrev pub is_authentication_release : ControlMode → Bool
is_authentication_release authentication_release = true
is_authentication_release _ = false

abbrev pub is_private_field : ControlMode → Bool
is_private_field private_field = true
is_private_field _ = false

abbrev pub is_running : LifecycleState → Bool
is_running running = true
is_running _ = false

abbrev pub is_stopped : LifecycleState → Bool
is_stopped stopped = true
is_stopped _ = false

unfoldable pub prerequisite_satisfied : MoveContext → Prerequisite → Bool
prerequisite_satisfied c agent_control = is_agent c.control_mode
prerequisite_satisfied c authentication_awaiting_user = is_authentication_user c.control_mode
prerequisite_satisfied c authentication_release_pending = is_authentication_release c.control_mode
prerequisite_satisfied c browser_running = is_running c.lifecycle_state && c.browser_connected
prerequisite_satisfied c browser_stopped = is_stopped c.lifecycle_state && not c.browser_connected
prerequisite_satisfied c control_inspection = ltb 0 c.capability_counts.control_inspections
prerequisite_satisfied c file_input_ref = ltb 0 c.capability_counts.file_input_refs
prerequisite_satisfied c form_inspection = ltb 0 c.capability_counts.form_inspections
prerequisite_satisfied c observed_tabs = ltb 0 c.capability_counts.observed_tabs
prerequisite_satisfied c popup_owner_candidate = ltb 0 c.capability_counts.popup_owner_candidates
prerequisite_satisfied c private_field_handoff = is_private_field c.control_mode
prerequisite_satisfied c scroll_container_ref = ltb 0 c.capability_counts.scroll_container_refs
prerequisite_satisfied c selected_page = c.selected_page
prerequisite_satisfied c semantic_snapshot = ltb 0 c.capability_counts.semantic_snapshots
prerequisite_satisfied c snapshot_ref = ltb 0 c.capability_counts.snapshot_refs
prerequisite_satisfied c text_editor_ref = ltb 0 c.capability_counts.text_editor_refs

-- `commandAllowedInControlMode`
unfoldable pub allowed_in_control_mode : Command → ControlMode → Bool
unfolding is_command
allowed_in_control_mode command mode =
    if is_command command available_moves || is_command command policy_status
    then true
    else elim mode [
      | agent ↦ true
      | private_field ↦
          is_command command private_field_status || is_command command resume_private_field_handoff
      | authentication_release ↦
          is_command command auth_status || is_command command request_login_handoff
      | authentication_user ↦
          is_command command auth_status || is_command command resume_after_login
    ]

-- The commands that one missing prerequisite adds.
unfoldable pub enables : ControlMode → Prerequisite → List Command
enables mode browser_running = available_browsers ∷ start ∷ []
enables mode selected_page = tabs ∷ open_url ∷ []
enables mode observed_tabs = tabs ∷ []
enables mode semantic_snapshot = snapshot ∷ []
enables mode snapshot_ref = snapshot ∷ []
enables mode text_editor_ref = snapshot ∷ []
enables mode file_input_ref = snapshot ∷ []
enables mode scroll_container_ref = snapshot ∷ []
enables mode control_inspection = inspect_control ∷ []
enables mode popup_owner_candidate = inspect_control ∷ []
enables mode form_inspection = form_summary ∷ []
enables mode private_field_handoff = request_private_field_handoff ∷ []
enables mode authentication_release_pending = request_login_handoff ∷ []
enables mode authentication_awaiting_user = request_login_handoff ∷ []
enables private_field agent_control = resume_private_field_handoff ∷ []
enables authentication_release agent_control = request_login_handoff ∷ []
enables _ agent_control = resume_after_login ∷ []
enables mode browser_stopped = []

-- `[...new Set(xs)]`
unfoldable pub distinct : {A : Type 0} → (A → A → Bool) → List A → List A → List A
unfolding exists
distinct same seen [] = []
distinct same seen (x ∷ xs) =
    let rest = distinct same seen xs in
    let rest' = distinct same (x ∷ seen) xs in if exists (same x) seen then rest else x ∷ rest'

unfoldable pub all_enabling : ControlMode → List Prerequisite → List Command
unfolding enables
all_enabling mode [] = []
all_enabling mode (r ∷ rs) = enables mode r ++ all_enabling mode rs

unfoldable pub enabling_commands_for : List Prerequisite → ControlMode → List Command
unfolding distinct is_command all_enabling
enabling_commands_for missing mode = distinct is_command [] (all_enabling mode missing)

unfoldable pub authority_for : Contract → Authority
authority_for c = elim c.dispatch [
  | private_boundary ↦ private_user_boundary
  | no_dispatch ↦ elim c.manager [
    | lifecycle_manager ↦ no_authority
    | planning_manager ↦ no_authority
    | policy_manager ↦ no_authority
    | _ ↦ existing_user_scope
  ]
  | _ ↦ existing_user_scope
]

unfoldable pub cost_for : Contract → Cost
cost_for c = elim c.dispatch [
  | private_boundary ↦ human_wait
  | no_dispatch ↦ bounded_observation
  | reversible_view_state ↦ bounded_reversible
  | lifecycle_transition ↦ state_transition
  | _ ↦ single_dispatch
]

unfoldable pub is_one_of : Command → List Command → Bool
unfolding is_command exists
is_one_of command cs = exists (is_command command) cs

-- `if (test) requirements.push(name)`
abbrev pub pushed : Bool → Text → List Text
pushed test name = if test then name ∷ [] else []

abbrev pub is_review_only : PolicyMode → Bool
is_review_only review_only = true
is_review_only normal = false

abbrev pub is_blocked_class : PolicyClass → Bool
is_blocked_class blocked_in_review = true
is_blocked_class _ = false

abbrev pub is_declared_class : PolicyClass → Bool
is_declared_class declared_intent_in_review = true
is_declared_class _ = false

abbrev pub is_acknowledgement_required : Option PageStateRisk → Bool
is_acknowledgement_required none = false
is_acknowledgement_required (some risk) = risk.acknowledgement_required

-- What `callerRequirementsFor` adds for the state of the page.
unfoldable pub risk_requirements : Command → List Text
unfolding is_command is_one_of
risk_requirements command =
    if is_command command open_url
    then text "same_page_navigation_requires_current_page_state_risk_acknowledgement" ∷ []
    else if is_one_of command (navigate_history ∷ close_tab ∷ [])
    then text "acknowledge_current_page_state_risk" ∷ []
    else pushed (is_one_of command (click_by_role ∷ click_ref ∷ motion ∷ []))
        (text "navigation_intent_requires_current_page_state_risk_acknowledgement")

abbrev pub is_existing_user_scope : Authority → Bool
is_existing_user_scope existing_user_scope = true
is_existing_user_scope _ = false

unfoldable pub caller_requirements_for : Command → Text → MoveContext → List Text
unfolding is_command is_one_of risk_requirements text_eq authority_for contract_of command_policy
caller_requirements_for command technique c =
    pushed
      (is_one_of command (
        click_by_role ∷ fill_by_role ∷ motion ∷ inspect_control ∷ select_option ∷ select_options
        ∷ set_checked ∷ []))
      (text "exact_current_semantic_target")
    ++ pushed (is_one_of command (click_ref ∷ fill_ref ∷ set_input_files ∷ []))
        (text "fresh_document_bound_capability")
    ++ pushed (is_one_of command (select_option ∷ select_options ∷ []))
        (text "agent_chosen_option_meaning")
    ++ pushed (text_eq technique (text "declare_popup_owner_from_observed_candidates"))
        (text "current_bounded_candidate_judgment")
    ++ pushed (is_one_of command (click_by_role ∷ click_ref ∷ motion ∷ []))
        (text "bounded_postcondition_for_state_change")
    ++ pushed (is_one_of command (open_url ∷ wait_for_url ∷ [])) (text "authorized_url_intent")
    ++ pushed (is_command command set_input_files) (text "explicitly_authorized_local_files")
    ++ pushed (is_command command apply_form_plan) (text "agent_chosen_staged_field_plan")
    ++ (if is_acknowledgement_required c.page_state_risk then risk_requirements command else [])
    ++ pushed
        (is_review_only c.policy_mode
          && is_declared_class (command_policy command)
          && not (
              is_command command motion
              && (text_eq technique (text "focus") || text_eq technique (text "hover"))))
        (text "review_safe_agent_declared_intent")
    ++ pushed (is_existing_user_scope (authority_for (contract_of command)))
        (text "existing_user_authority")
