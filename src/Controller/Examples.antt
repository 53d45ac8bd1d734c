-- ===== src/Controller/Examples.antt =====
-- Runs of the controller's managers, and their theorems at them.
use stage5_browser.Base.{
  ◌≡◌, ◌↔◌, refl, inl, inr, true, false, not, ◌&&◌, none, some, List, [], ◌∷◌,
}
use stage5_browser.Effect.{ok, err}
use stage5_browser.Protocol.{review_only, click_by_role, navigate}
use stage5_browser.Protocol.Moves.{MoveContext, agent, running}
use stage5_browser.Protocol.Moves.Requirements.{allowed_in_control_mode}
use stage5_browser.Protocol.Moves.Derive.{policy_blocked}
use stage5_browser.Controller.Policy.{
  Handoffs, ActionPolicy, ActionPayload, authorize_browser_command, control_mode,
}
use stage5_browser.Controller.Policy.Agreement.{shown_iff_authorized}
use stage5_browser.Controller.Risk.{
  Risks, Step, notes, acts, preflights, click, navigation, requires_acknowledgement, is_click,
  current, note_file_selection, preflight_navigation, run,
}
use stage5_browser.Controller.Risk.Acknowledgement.{navigation_after_selection}

abbrev no_handoff : Handoffs
no_handoff = record {
  private_field_handoff = false;
  pending_handoff_release = false;
  awaiting_user = false;
}

abbrev reviewing : ActionPolicy
reviewing = record { mode = review_only }

abbrev in_review : MoveContext
in_review = record {
  lifecycle_state = running;
  browser_connected = true;
  live_page_count = 1;
  selected_page = true;
  control_mode = agent;
  policy_mode = review_only;
  page_state_risk = none;
  capability_counts = record {
    observed_tabs = 0;
    semantic_snapshots = 0;
    snapshot_refs = 0;
    text_editor_refs = 0;
    file_input_refs = 0;
    scroll_container_refs = 0;
    control_inspections = 0;
    control_options = 0;
    popup_owner_candidates = 0;
    form_inspections = 0;
    form_fields = 0;
  };
}

shown_iff_authorized_example :
    ((allowed_in_control_mode click_by_role agent && not (policy_blocked in_review click_by_role))
      ≡ true)
    ↔ ((payload : ActionPayload) × (authorize_browser_command no_handoff reviewing click_by_role
            payload
          ≡ ok tt))
unfolding control_mode
shown_iff_authorized_example =
    shown_iff_authorized no_handoff reviewing in_review click_by_role (refl, refl, refl) refl refl

abbrev no_risks : Risks
no_risks = record { retained = [] }

abbrev steps_between : List Step
steps_between = notes 2 1 ∷ preflights 2 true navigation ∷ acts 1 (some navigate) false ∷ []

navigation_after_selection_example :
    let later = run steps_between (note_file_selection 1 2 no_risks).0 in
    preflight_navigation 1 false click later
    ≡ (later, err (requires_acknowledgement (is_click click) (current 1 later)))
navigation_after_selection_example =
    navigation_after_selection 1 2 steps_between click no_risks (tt, (inr refl, (inl refl, tt)))

-- Once the selection is acknowledged, the page can be left.
acknowledged_passes :
    (preflight_navigation 1 false click
      (preflight_navigation 1 true click (note_file_selection 1 2 no_risks).0).0).1
    ≡ ok (some (record { file_count = 2; acknowledgement_required = false }))
unfolding preflight_navigation note_file_selection
acknowledged_passes = refl
