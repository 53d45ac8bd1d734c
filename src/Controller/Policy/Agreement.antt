-- ===== src/Controller/Policy/Agreement.antt =====
-- The moves that are shown, src/protocol/available-moves.ts, and the commands that are let through,
-- src/controller/policy.
use stage5_browser.Base.{
  ◌≡◌, ◌≢◌, refl, sym, ◌∙◌, ◌↔◌, ◌⊎◌, inl, inr, true, false, not, ◌&&◌, none, arith, Bool-cases,
}
use stage5_browser.Text.{text}
use stage5_browser.Effect.{ok, err}
use stage5_browser.Protocol.{
  Command, PolicyMode, normal, review_only, PolicyClass, allowed_in_review, blocked_in_review,
  declared_intent_in_review, policy_configuration, command_policy,
}
use stage5_browser.Protocol.Moves.{MoveContext}
use stage5_browser.Protocol.Moves.Requirements.{
  allowed_in_control_mode, is_review_only, is_blocked_class,
}
use stage5_browser.Protocol.Moves.Derive.{policy_blocked}
use stage5_browser.Controller.Policy.{
  ActionPolicy, ActionPayload, declared, private_field_in_progress, human_bootstrap_in_progress,
  Handoffs, Refusal, authorize, authorize_class, authorize_browser_command, is_review_safe,
  control_mode,
}

-- At most one handoff is in force.
abbrev pub IsExclusive : Handoffs → Type 0
IsExclusive h =
    ((h.private_field_handoff && h.pending_handoff_release) ≡ false)
    × ((h.private_field_handoff && h.awaiting_user) ≡ false)
    × ((h.pending_handoff_release && h.awaiting_user) ≡ false)

-- A payload that declares an edit of a form.
abbrev pub form_edit_payload : ActionPayload
form_edit_payload = record { motion_kind = none; intent = declared (text "form_edit") }

-- The guard of the handoffs lets through exactly the commands of the control mode.
guarded :
    (h : Handoffs) (p : ActionPolicy) (command : Command) (payload : ActionPayload)
    → IsExclusive h
    → allowed_in_control_mode command (control_mode h) ≡ true
    → authorize_browser_command h p command payload ≡ authorize p command payload
unfolding authorize_browser_command allowed_in_control_mode control_mode
guarded h p command payload e k = ground (arith)

-- A command that the control mode does not allow is refused.
guard_refuses :
    (h : Handoffs) (p : ActionPolicy) (command : Command) (payload : ActionPayload)
    → allowed_in_control_mode command (control_mode h) ≡ false
    → (e : Refusal) × (authorize_browser_command h p command payload ≡ err e)
unfolding authorize_browser_command allowed_in_control_mode control_mode
guard_refuses h p command payload k = elim (Bool-cases h.private_field_handoff) [
  | inl a ↦ (private_field_in_progress, ground (arith, a))
  | inr a ↦ elim (Bool-cases h.pending_handoff_release) [
    | inl b ↦ (human_bootstrap_in_progress, ground (arith, a, b))
    | inr b ↦ elim (Bool-cases h.awaiting_user) [
      | inl d ↦ (human_bootstrap_in_progress, ground (arith, a, b, d))
      | inr d ↦ absurd (ground arith)
    ]
  ]
]

-- What a declared edit of a form passes.
class_passes :
    (k : PolicyClass) (command : Command)
    → ((authorize_class k command form_edit_payload ≡ ok tt) × (is_blocked_class k ≡ false))
      ⊎ ((is_blocked_class k ≡ true)
          × ((payload : ActionPayload) (r : Unit {0}) → authorize_class k command payload ≢ ok r))
unfolding authorize_class is_review_safe
class_passes allowed_in_review command = inl (refl, refl)
class_passes policy_configuration command = inl (refl, refl)
class_passes declared_intent_in_review command = inl (ground arith, refl)
class_passes blocked_in_review command = inr (refl, λ payload r h. ground arith)

-- The policy lets a declared edit of a form through, or it refuses every payload of the command.
policy_passes :
    (mode : PolicyMode) (command : Command)
    → ((authorize (record { mode = mode }) command form_edit_payload ≡ ok tt)
        × ((is_review_only mode && is_blocked_class (command_policy command)) ≡ false))
      ⊎ (((is_review_only mode && is_blocked_class (command_policy command)) ≡ true)
          × ((payload : ActionPayload) (r : Unit {0})
              → authorize (record { mode = mode }) command payload ≢ ok r))
unfolding authorize
policy_passes normal command = inl (refl, refl)
policy_passes review_only command = class_passes (command_policy command) command

-- While at most one handoff is in force, the moves of a command are not blocked by the control mode or
-- the review policy exactly when some payload of the command is let through.
pub shown_iff_authorized :
    (h : Handoffs) (p : ActionPolicy) (c : MoveContext) (command : Command)
    → IsExclusive h
    → c.control_mode ≡ control_mode h
    → c.policy_mode ≡ p.mode
    → ((allowed_in_control_mode command c.control_mode && not (policy_blocked c command)) ≡ true)
      ↔ ((payload : ActionPayload) × (authorize_browser_command h p command payload ≡ ok tt))
unfolding policy_blocked authorize
shown_iff_authorized h p c command e k l = elim (policy_passes p.mode command) [
  | inl (a, b) ↦ (
    λ s. (form_edit_payload, guarded h p command form_edit_payload e (ground (arith, s, k)) ∙ a),
    λ (payload, q). elim (Bool-cases (allowed_in_control_mode command (control_mode h))) [
      | inl g ↦ ground (arith, g, b, k, l)
      | inr g ↦ absurd (ground (arith, (guard_refuses h p command payload g).1, q))
    ],
  )
  | inr (b, a) ↦ (
    λ s. absurd (ground (arith, s, b, l)),
    λ (payload, q). elim (Bool-cases (allowed_in_control_mode command (control_mode h))) [
      | inl g ↦ absurd (a payload tt (sym (guarded h p command payload e g) ∙ q))
      | inr g ↦ absurd (ground (arith, (guard_refuses h p command payload g).1, q))
    ],
  )
]
