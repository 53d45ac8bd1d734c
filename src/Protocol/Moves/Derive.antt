-- ===== src/Protocol/Moves/Derive.antt =====
-- The moves that are open to an agent, derived from what the controller observed:
-- src/protocol/available-moves.ts. The order of texts by `localeCompare` is a parameter.
use stage5_browser.Base.{
  ℕ, ◌-◌, Bool, true, false, not, ◌&&◌, ◌||◌, Option, none, some, List, [], ◌∷◌, ◌++◌, ltb, ◌==◌,
  if◌then◌else◌, length, take,
}
use stage5_browser.Text.{Text, text, text_eq}
use stage5_browser.Table.{find, rows, exists, sort_by}
use stage5_browser.Protocol.{command_name, Command, command_policy}
use stage5_browser.Protocol.Contracts.{
  form_manager, dialog_manager, interaction_manager, navigation_manager, perception_manager,
  private_handoff_manager, recovery_manager, tab_manager, transfer_manager, ActionManager,
  Prerequisite, MissingPolicy, Group, contract_of, all_commands, same_prerequisite,
  prepare_when_safe, not_meaningful, lifecycle_manager, planning_manager, policy_manager,
}
use stage5_browser.Protocol.Moves.{
  Availability, available, needs_preparation, blocked, MoveContext, AvailableMove, MovesInput,
  MovesOutput,
}
use stage5_browser.Protocol.Moves.Requirements.{
  is_hidden, is_preparable, prerequisite_satisfied, allowed_in_control_mode, distinct,
  enabling_commands_for, authority_for, cost_for, pushed, is_review_only, is_blocked_class,
  caller_requirements_for,
}

-- `contract.techniqueRequirementGroups[technique] ?? []`
unfoldable pub groups_of_technique : Text → List (Text × List Group) → List Group
unfolding text_eq
groups_of_technique technique [] = []
groups_of_technique technique ((name, groups) ∷ rest) =
    let others = groups_of_technique technique rest in
    if text_eq name technique then groups else others

unfoldable pub group_satisfied : MoveContext → Group → Bool
unfolding prerequisite_satisfied exists
group_satisfied c (r, rs) = exists (prerequisite_satisfied c) (r ∷ rs)

-- The requirement of a group that is reported as missing.
abbrev pub reported : Group → Prerequisite
reported (r, rs) = elim (find is_preparable (r ∷ rs)) [ none ↦ r | some p ↦ p ]

unfoldable pub missing_of : MoveContext → List Group → List Prerequisite
unfolding group_satisfied find is_preparable
missing_of c [] = []
missing_of c (g ∷ gs) =
    let rest = missing_of c gs in if group_satisfied c g then rest else reported g ∷ rest

abbrev pub groups_of : Command → Text → List Group
groups_of command technique =
    (contract_of command).requirement_groups
    ++ groups_of_technique technique (contract_of command).technique_requirement_groups

unfoldable pub policy_blocked : MoveContext → Command → Bool
unfolding command_policy
policy_blocked c command = is_review_only c.policy_mode && is_blocked_class (command_policy command)

unfoldable pub all_preparable : List Prerequisite → Bool
unfolding is_preparable
all_preparable [] = true
all_preparable (r ∷ rs) = is_preparable r && all_preparable rs

abbrev is_empty {ℓ} : {A : Type ℓ} → List A → Bool
is_empty [] = true
is_empty (x ∷ xs) = false

abbrev may_prepare : MissingPolicy → Bool
may_prepare prepare_when_safe = true
may_prepare not_meaningful = false

unfoldable pub availability_of : MoveContext → Command → List Prerequisite → Availability
unfolding allowed_in_control_mode policy_blocked all_preparable contract_of
availability_of c command missing =
    if not (allowed_in_control_mode command c.control_mode) || policy_blocked c command
    then blocked
    else if is_empty missing
    then available
    else if may_prepare (contract_of command).missing_policy && all_preparable missing
    then needs_preparation
    else blocked

unfoldable pub derive_move : MoveContext → Command → Text → AvailableMove
unfolding missing_of availability_of enabling_commands_for distinct same_prerequisite
    groups_of_technique cost_for authority_for caller_requirements_for policy_blocked contract_of
derive_move c command technique =
    let missing = distinct same_prerequisite [] (missing_of c (groups_of command technique)) in
    record {
      command = command;
      technique = technique;
      manager = (contract_of command).manager;
      phase_system = (contract_of command).phase_system;
      availability = availability_of c command missing;
      missing_prerequisites = missing;
      enabling_commands =
          if not (may_prepare (contract_of command).missing_policy) && not (is_empty missing)
          then []
          else enabling_commands_for missing c.control_mode;
      expected_effect = (contract_of command).dispatch;
      cost = cost_for (contract_of command);
      authority = authority_for (contract_of command);
      caller_requirements =
          caller_requirements_for command technique c
          ++ pushed (policy_blocked c command)
              (text "review_policy_change_requires_user_authorized_workflow");
      replay = (contract_of command).replay;
    }

abbrev manager_name : ActionManager → Text
manager_name form_manager = text "form_manager"
manager_name dialog_manager = text "dialog_manager"
manager_name interaction_manager = text "interaction_manager"
manager_name lifecycle_manager = text "lifecycle_manager"
manager_name navigation_manager = text "navigation_manager"
manager_name perception_manager = text "perception_manager"
manager_name planning_manager = text "planning_manager"
manager_name private_handoff_manager = text "private_handoff_manager"
manager_name policy_manager = text "policy_manager"
manager_name recovery_manager = text "recovery_manager"
manager_name tab_manager = text "tab_manager"
manager_name transfer_manager = text "transfer_manager"

-- The sign of `a.localeCompare(b)`.
pub data Comparison : Type 0 where
  before same after : Comparison

-- `a || b` on what two comparisons return.
unfoldable pub or_else : Comparison → Comparison → Comparison
or_else same d = d
or_else before d = before
or_else after d = after

unfoldable pub compare_numbers : ℕ → ℕ → Comparison
compare_numbers a b = if ltb a b then before else if ltb b a then after else same

abbrev pub availability_rank : Availability → ℕ
availability_rank available = 0
availability_rank needs_preparation = 1
availability_rank blocked = 2

abbrev pub is_not_after : Comparison → Bool
is_not_after after = false
is_not_after _ = true

unfoldable pub techniques_of : MoveContext → Command → List Text → List AvailableMove
unfolding derive_move
techniques_of c command [] = []
techniques_of c command (t ∷ ts) = derive_move c command t ∷ techniques_of c command ts

unfoldable pub moves_of : MoveContext → List Command → List AvailableMove
unfolding techniques_of is_hidden contract_of
moves_of c [] = []
moves_of c (command ∷ cs) =
    let rest = moves_of c cs in
    if is_hidden command
    then rest
    else techniques_of c command (contract_of command).techniques ++ rest

module _ (collate : Text → Text → Comparison) where
  unfoldable pub compare_moves : AvailableMove → AvailableMove → Comparison
  unfolding or_else compare_numbers
  compare_moves l r =
      or_else
        (compare_numbers (availability_rank l.availability) (availability_rank r.availability))
        (or_else (compare_numbers (length l.missing_prerequisites) (length r.missing_prerequisites))
          (or_else (collate (manager_name l.manager) (manager_name r.manager)) (
            or_else (collate l.technique r.technique)
              (collate (command_name l.command) (command_name r.command)))))

  unfoldable pub sorted_moves : MoveContext → List AvailableMove
  unfolding moves_of compare_moves
  sorted_moves c = sort_by (λ l r. is_not_after (compare_moves l r)) (moves_of c all_commands)

abbrev manager_fits : Option ActionManager → AvailableMove → Bool
manager_fits none m = true
manager_fits (some manager) m = text_eq (manager_name m.manager) (manager_name manager)

abbrev availability_fits : Option Availability → AvailableMove → Bool
availability_fits none m = true
availability_fits (some a) m = availability_rank m.availability == availability_rank a

abbrev is_blocked : Availability → Bool
is_blocked blocked = true
is_blocked _ = false

unfoldable pub is_visible : MovesInput → AvailableMove → Bool
unfolding text_eq
is_visible i m =
    (i.include_blocked || not (is_blocked m.availability))
    && manager_fits i.manager m
    && availability_fits i.availability m

unfoldable pub derive_available_moves :
    (Text → Text → Comparison) → MoveContext → MovesInput → MovesOutput
unfolding sorted_moves is_visible rows
derive_available_moves collate c i =
    let moves = sorted_moves collate c in
    let visible = rows (is_visible i) moves in
    let selected = take i.max_moves visible in
    record {
      context = c;
      moves = selected;
      returned_count = length selected;
      total_count = length moves;
      matching_count = length visible;
      omitted_count = length visible - length selected;
      truncated = ltb (length selected) (length visible);
    }
