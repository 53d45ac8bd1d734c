-- ===== src/Controller/Policy.antt =====
-- src/controller/policy/manager.ts, the guard of src/controller/policy/actions.ts, and the control mode
-- that src/controller/observation/available-moves.ts derives.
pub mod Agreement
use stage5_browser.Base.{
  Bool, true, false, not, ◌&&◌, ◌||◌, Option, none, some, List, [], ◌∷◌, if◌then◌else◌,
}
use stage5_browser.Text.{Text, text, text_eq}
use stage5_browser.Table.{exists, rows}
use stage5_browser.Effect.{Outcome, ok, err}
use stage5_browser.Protocol.{
  Command, PolicyMode, normal, review_only, ActionIntent, PolicyClass, allowed_in_review,
  blocked_in_review, declared_intent_in_review, policy_configuration, review_safe, command_policy,
  is_command, intent_name, all_intents, available_moves, policy_status, private_field_status,
  resume_private_field_handoff, auth_status, request_login_handoff, resume_after_login, motion,
}
use stage5_browser.Protocol.Moves.{
  ControlMode, agent, authentication_release, authentication_user, private_field,
}

-- `BrowserActionPolicyManager`
pub record ActionPolicy : Type 0 where
  pub mode : PolicyMode

pub record ActionPolicyStatus : Type 0 where
  pub mode : PolicyMode
  pub review_safe_intents : List ActionIntent
  pub review_blocked_intents : List ActionIntent

unfoldable pub status : ActionPolicy → ActionPolicyStatus
unfolding rows review_safe
status p = record {
  mode = p.mode;
  review_safe_intents = rows review_safe all_intents;
  review_blocked_intents = rows (λ i. not (review_safe i)) all_intents;
}

unfoldable pub set_mode : PolicyMode → ActionPolicy → ActionPolicy × ActionPolicyStatus
unfolding status
set_mode mode p = (record { mode = mode }, status (record { mode = mode }))

unfoldable pub restore_mode : PolicyMode → ActionPolicy → ActionPolicy
restore_mode mode p = record { mode = mode }

-- The `intent` of a payload: absent, no text, or a text.
pub data DeclaredIntent : Type 0 where
  undeclared not_text : DeclaredIntent
  declared : Text → DeclaredIntent

-- What the policy reads of a payload: `motion.kind`, where it is there and a text, and `intent`.
pub record ActionPayload : Type 0 where
  pub motion_kind : Option Text
  pub intent : DeclaredIntent

-- Why a command is refused.
pub data Refusal : Type 0 where
  private_field_in_progress human_bootstrap_in_progress : Refusal
  review_policy_blocked : Command → Text → Refusal

-- `REVIEW_SAFE_DECLARED_INTENTS.has(intent)`
unfoldable pub is_review_safe : Text → Bool
unfolding exists review_safe text_eq
is_review_safe intent = exists (λ i. review_safe i && text_eq (intent_name i) intent) all_intents

abbrev pub is_focus_or_hover : Option Text → Bool
is_focus_or_hover none = false
is_focus_or_hover (some kind) = text_eq kind (text "focus") || text_eq kind (text "hover")

abbrev pub declared_text : DeclaredIntent → Text
declared_text (declared intent) = intent
declared_text _ = text "unclassified"

abbrev pub refuse_unless : Bool → Refusal → Outcome Refusal (Unit {0})
refuse_unless true e = ok tt
refuse_unless false e = err e

-- `authorize` for a class of commands.
unfoldable pub authorize_class : PolicyClass → Command → ActionPayload → Outcome Refusal (Unit {0})
unfolding is_command is_review_safe text_eq
authorize_class allowed_in_review command payload = ok tt
authorize_class policy_configuration command payload = ok tt
authorize_class declared_intent_in_review command payload =
    refuse_unless
      ((is_command command motion && is_focus_or_hover payload.motion_kind)
        || is_review_safe (declared_text payload.intent))
      (review_policy_blocked command (declared_text payload.intent))
authorize_class blocked_in_review command payload =
    err (review_policy_blocked command (text "command_class"))

unfoldable pub authorize : ActionPolicy → Command → ActionPayload → Outcome Refusal (Unit {0})
unfolding authorize_class command_policy
authorize p command payload = elim p.mode [
  | normal ↦ ok tt
  | review_only ↦ authorize_class (command_policy command) command payload
]

-- The handoffs that the controller keeps, as far as the guard reads them.
pub record Handoffs : Type 0 where
  pub private_field_handoff : Bool
  pub pending_handoff_release : Bool
  pub awaiting_user : Bool

abbrev passes_private_field : Command → Bool
passes_private_field command =
    exists (is_command command)
      (available_moves ∷ policy_status ∷ private_field_status ∷ resume_private_field_handoff ∷ [])

abbrev passes_release : Command → Bool
passes_release command =
    exists (is_command command)
      (available_moves ∷ auth_status ∷ policy_status ∷ request_login_handoff ∷ [])

abbrev passes_awaiting : Command → Bool
passes_awaiting command =
    exists (is_command command)
      (available_moves ∷ auth_status ∷ policy_status ∷ resume_after_login ∷ [])

-- `authorizeBrowserCommand`
unfoldable pub authorize_browser_command :
    Handoffs → ActionPolicy → Command → ActionPayload → Outcome Refusal (Unit {0})
unfolding authorize exists is_command
authorize_browser_command h p command payload =
    if h.private_field_handoff && not (passes_private_field command)
    then err private_field_in_progress
    else if h.pending_handoff_release && not (passes_release command)
    then err human_bootstrap_in_progress
    else if h.awaiting_user && not (passes_awaiting command)
    then err human_bootstrap_in_progress
    else authorize p command payload

-- The control mode that the moves are derived for.
unfoldable pub control_mode : Handoffs → ControlMode
control_mode h =
    if h.private_field_handoff
    then private_field
    else if h.pending_handoff_release
    then authentication_release
    else if h.awaiting_user
    then authentication_user
    else agent
