-- ===== src/Protocol/Examples.antt =====
-- Moves of a running browser, and their theorems at them.
use stage5_browser.Base.{◌≡◌, refl, true, none}
use stage5_browser.Text.{Text}
use stage5_browser.Table.{sort_by}
use stage5_browser.Table.Order.{IsRanked}
use stage5_browser.Protocol.{normal}
use stage5_browser.Protocol.Moves.{MoveContext, MovesInput, agent, running}
use stage5_browser.Protocol.Moves.Derive.{Comparison, same, derive_available_moves}
use stage5_browser.Protocol.Moves.Listing.{rank, derive_available_moves-IsRanked}

abbrev page_open : MoveContext
page_open = record {
  lifecycle_state = running;
  browser_connected = true;
  live_page_count = 1;
  selected_page = true;
  control_mode = agent;
  policy_mode = normal;
  page_state_risk = none;
  capability_counts = record {
    observed_tabs = 1;
    semantic_snapshots = 0;
    snapshot_refs = 0;
    text_editor_refs = 0;
    file_input_refs = 0;
    scroll_container_refs = 0;
    control_inspections = 0;
    control_options = 0;
    popup_owner_candidates = 0;
    form_inspections = 0;
    form_fields = 0;
  };
}

abbrev first_five : MovesInput
first_five = record { include_blocked = true; manager = none; availability = none; max_moves = 5 }

abbrev unordered : Text → Text → Comparison
unordered a b = same

five_returned : (derive_available_moves unordered page_open first_five).returned_count ≡ 5
unfolding derive_available_moves sort_by
five_returned = refl

derive_available_moves-IsRanked_example :
    IsRanked rank (derive_available_moves unordered page_open first_five).moves
derive_available_moves-IsRanked_example =
    derive_available_moves-IsRanked unordered page_open first_five
