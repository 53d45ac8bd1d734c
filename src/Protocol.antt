-- ===== src/Protocol.antt =====
-- src/protocol/policy.ts and the names of src/protocol/commands.ts: the commands that a worker serves,
-- and which of them the review policy lets through.
pub mod Contracts
pub mod Moves
mod Examples
use stage5_browser.Base.{Bool, true, false, List, [], ◌∷◌}
use stage5_browser.Text.{Text, text, text_eq}

-- `BrowserCommandName`
pub data Command : Type 0 where
  initialize available_moves status start available_browsers diagnostics page_events : Command
  dialog_status switch_browser stop open_url navigate_history snapshot screenshot : Command
  tabs select_tab activate_selected_page close_tab inspect_tab frames click_by_role : Command
  click_ref set_input_files downloads wait_for_download fill_by_role fill_ref : Command
  inspect_control select_option select_options form_summary apply_form_plan : Command
  set_checked motion scroll find_text wait_for_url auth_status private_field_status : Command
  request_private_field_handoff resume_private_field_handoff request_login_handoff : Command
  resume_after_login policy_status set_policy test_hang : Command

-- `BROWSER_ACTION_POLICY_MODES`
pub data PolicyMode : Type 0 where
  normal review_only : PolicyMode

-- `BROWSER_ACTION_INTENTS`
pub data ActionIntent : Type 0 where
  accept_terms account_change external_communication financial_transaction form_edit : ActionIntent
  inspect local_validation navigate persist_form submit unclassified : ActionIntent

pub data PolicyClass : Type 0 where
  allowed_in_review blocked_in_review declared_intent_in_review policy_configuration : PolicyClass

-- `REVIEW_SAFE_DECLARED_INTENTS`
unfoldable pub review_safe : ActionIntent → Bool
review_safe form_edit = true
review_safe inspect = true
review_safe local_validation = true
review_safe navigate = true
review_safe _ = false

-- `BROWSER_COMMAND_POLICY`
unfoldable pub command_policy : Command → PolicyClass
command_policy initialize = policy_configuration
command_policy available_moves = allowed_in_review
command_policy status = allowed_in_review
command_policy start = allowed_in_review
command_policy available_browsers = allowed_in_review
command_policy diagnostics = allowed_in_review
command_policy page_events = allowed_in_review
command_policy dialog_status = allowed_in_review
command_policy switch_browser = blocked_in_review
command_policy stop = blocked_in_review
command_policy open_url = allowed_in_review
command_policy navigate_history = blocked_in_review
command_policy snapshot = allowed_in_review
command_policy screenshot = allowed_in_review
command_policy tabs = allowed_in_review
command_policy select_tab = allowed_in_review
command_policy activate_selected_page = allowed_in_review
command_policy close_tab = blocked_in_review
command_policy inspect_tab = allowed_in_review
command_policy frames = allowed_in_review
command_policy click_by_role = declared_intent_in_review
command_policy click_ref = declared_intent_in_review
command_policy set_input_files = blocked_in_review
command_policy downloads = allowed_in_review
command_policy wait_for_download = allowed_in_review
command_policy fill_by_role = declared_intent_in_review
command_policy fill_ref = declared_intent_in_review
command_policy inspect_control = allowed_in_review
command_policy select_option = declared_intent_in_review
command_policy select_options = declared_intent_in_review
command_policy form_summary = allowed_in_review
command_policy apply_form_plan = declared_intent_in_review
command_policy set_checked = declared_intent_in_review
command_policy motion = declared_intent_in_review
command_policy scroll = allowed_in_review
command_policy find_text = allowed_in_review
command_policy wait_for_url = allowed_in_review
command_policy auth_status = allowed_in_review
command_policy private_field_status = allowed_in_review
command_policy request_private_field_handoff = allowed_in_review
command_policy resume_private_field_handoff = allowed_in_review
command_policy request_login_handoff = allowed_in_review
command_policy resume_after_login = allowed_in_review
command_policy policy_status = policy_configuration
command_policy set_policy = policy_configuration
command_policy test_hang = blocked_in_review

-- The name that the protocol and the journal use.
abbrev pub command_name : Command → Text
command_name initialize = text "initialize"
command_name available_moves = text "availableMoves"
command_name status = text "status"
command_name start = text "start"
command_name available_browsers = text "availableBrowsers"
command_name diagnostics = text "diagnostics"
command_name page_events = text "pageEvents"
command_name dialog_status = text "dialogStatus"
command_name switch_browser = text "switchBrowser"
command_name stop = text "stop"
command_name open_url = text "open"
command_name navigate_history = text "navigateHistory"
command_name snapshot = text "snapshot"
command_name screenshot = text "screenshot"
command_name tabs = text "tabs"
command_name select_tab = text "selectTab"
command_name activate_selected_page = text "activateSelectedPage"
command_name close_tab = text "closeTab"
command_name inspect_tab = text "inspectTab"
command_name frames = text "frames"
command_name click_by_role = text "clickByRole"
command_name click_ref = text "clickRef"
command_name set_input_files = text "setInputFiles"
command_name downloads = text "downloads"
command_name wait_for_download = text "waitForDownload"
command_name fill_by_role = text "fillByRole"
command_name fill_ref = text "fillRef"
command_name inspect_control = text "inspectControl"
command_name select_option = text "selectOption"
command_name select_options = text "selectOptions"
command_name form_summary = text "formSummary"
command_name apply_form_plan = text "applyFormPlan"
command_name set_checked = text "setChecked"
command_name motion = text "motion"
command_name scroll = text "scroll"
command_name find_text = text "findText"
command_name wait_for_url = text "waitForUrl"
command_name auth_status = text "authStatus"
command_name private_field_status = text "privateFieldStatus"
command_name request_private_field_handoff = text "requestPrivateFieldHandoff"
command_name resume_private_field_handoff = text "resumePrivateFieldHandoff"
command_name request_login_handoff = text "requestLoginHandoff"
command_name resume_after_login = text "resumeAfterLogin"
command_name policy_status = text "policyStatus"
command_name set_policy = text "setPolicy"
command_name test_hang = text "testHang"

-- `a === b`
unfoldable pub is_command : Command → Command → Bool
unfolding text_eq
is_command a b = text_eq (command_name a) (command_name b)

abbrev pub intent_name : ActionIntent → Text
intent_name accept_terms = text "accept_terms"
intent_name account_change = text "account_change"
intent_name external_communication = text "external_communication"
intent_name financial_transaction = text "financial_transaction"
intent_name form_edit = text "form_edit"
intent_name inspect = text "inspect"
intent_name local_validation = text "local_validation"
intent_name navigate = text "navigate"
intent_name persist_form = text "persist_form"
intent_name submit = text "submit"
intent_name unclassified = text "unclassified"

-- `ALL_INTENTS`
abbrev pub all_intents : List ActionIntent
all_intents =
    accept_terms ∷ account_change ∷ external_communication ∷ financial_transaction ∷ form_edit
    ∷ inspect ∷ local_validation ∷ navigate ∷ persist_form ∷ submit ∷ unclassified ∷ []
