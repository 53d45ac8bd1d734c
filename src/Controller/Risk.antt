-- ===== src/Controller/Risk.antt =====
-- src/controller/persistence/page-state-risk-manager.ts: the pages that hold selections of files which
-- may not be saved. A page is a number, and `restored` is what a record of an earlier process says.
pub mod Acknowledgement
use stage5_browser.Base.{
  ℕ, ◌+◌, ◌-◌, Bool, true, false, not, Option, none, some, List, [], ◌∷◌, ltb, ◌==◌, if◌then◌else◌,
}
use stage5_browser.Table.{find, rows, upsert}
use stage5_browser.Effect.{Exec, Outcome, ok, err, pure, throw, gets, modify, ◌>>=◌, ◌>>◌}
use stage5_browser.Protocol.{ActionIntent, navigate}
use stage5_browser.Protocol.Moves.{PageStateRisk}

-- `RetainedPageStateRisk`, with its page.
pub record RetainedRisk : Type 0 where
  pub page : ℕ
  pub file_count : ℕ
  pub revision : ℕ
  pub acknowledged_revision : Option ℕ

pub record Risks : Type 0 where
  pub retained : List RetainedRisk

pub data NavigationDispatch : Type 0 where
  click navigation tab_close : NavigationDispatch

-- The error of `preflightNavigation`, with `clickDispatched: false` or without it.
pub data RiskFault : Type 0 where
  requires_acknowledgement : (is_click : Bool) → Option PageStateRisk → RiskFault

abbrev pub is_of_page : ℕ → RetainedRisk → Bool
is_of_page page r = page == r.page

abbrev pub capped : ℕ → ℕ
capped n = if ltb 100 n then 100 else n

abbrev pub at_least_one : ℕ → ℕ
at_least_one n = if ltb n 1 then 1 else n

abbrev pub prior_files : Option RetainedRisk → ℕ
prior_files none = 0
prior_files (some r) = r.file_count

abbrev pub prior_revision : Option RetainedRisk → ℕ
prior_revision none = 0
prior_revision (some r) = r.revision

-- `retained.set(page, …)`
unfoldable pub set : RetainedRisk → Risks → Risks
unfolding upsert
set r m = record { retained = upsert (is_of_page r.page) (λ _. r) r m.retained }

unfoldable pub lookup : ℕ → Risks → Option RetainedRisk
unfolding find
lookup page m = find (is_of_page page) m.retained

-- `acknowledgedRevision === revision`
abbrev pub is_acknowledged : RetainedRisk → Bool
is_acknowledged r = elim r.acknowledged_revision [ none ↦ false | some n ↦ n == r.revision ]

abbrev pub risk_of : RetainedRisk → PageStateRisk
risk_of r = record { file_count = r.file_count; acknowledgement_required = not (is_acknowledged r) }

unfoldable pub current : ℕ → Risks → Option PageStateRisk
unfolding lookup
current page m = elim (lookup page m) [ none ↦ none | some r ↦ some (risk_of r) ]

abbrev pub noted : ℕ → ℕ → Option RetainedRisk → RetainedRisk
noted page file_count prior = record {
  page = page;
  file_count = capped (at_least_one file_count + prior_files prior);
  revision = prior_revision prior + 1;
  acknowledged_revision = none;
}

unfoldable pub note_file_selection : ℕ → ℕ → Exec Risks RiskFault (Option PageStateRisk)
unfolding ◌>>=◌ set lookup current
note_file_selection page file_count = do
  prior ← gets (lookup page)
  modify (set (noted page file_count prior))
  gets (current page)

abbrev pub is_click : NavigationDispatch → Bool
is_click click = true
is_click _ = false

-- `preflightNavigation`, of the page's entry.
unfoldable pub preflight_retained :
    Option RetainedRisk
    → ℕ
    → Bool
    → NavigationDispatch
    → Exec Risks RiskFault (Option PageStateRisk)
unfolding ◌>>=◌ set current
preflight_retained none page acknowledged dispatch = pure none
preflight_retained (some r) page acknowledged dispatch =
    if is_acknowledged r
    then gets (current page)
    else if acknowledged
    then modify (set (record r { acknowledged_revision = some r.revision })) >> gets (current page)
    else (gets (current page) >>= λ risk. throw (requires_acknowledgement (is_click dispatch) risk))

unfoldable pub preflight_navigation :
    ℕ → Bool → NavigationDispatch → Exec Risks RiskFault (Option PageStateRisk)
unfolding ◌>>=◌ preflight_retained lookup
preflight_navigation page acknowledged dispatch = do
  found ← gets (lookup page)
  preflight_retained found page acknowledged dispatch

abbrev pub is_navigate : Option ActionIntent → Bool
is_navigate (some navigate) = true
is_navigate _ = false

unfoldable pub preflight_action :
    ℕ → Option ActionIntent → Bool → Exec Risks RiskFault (Option PageStateRisk)
unfolding preflight_navigation current
preflight_action page intent acknowledged =
    if is_navigate intent then preflight_navigation page acknowledged click else gets (current page)

abbrev pub restored : ℕ → PageStateRisk → RetainedRisk
restored page risk = record {
  page = page;
  file_count = risk.file_count;
  revision = 1;
  acknowledged_revision = if risk.acknowledgement_required then none else some 1;
}

unfoldable pub restore : ℕ → PageStateRisk → Risks → Risks
unfolding set
restore page risk m = set (restored page risk) m

unfoldable pub clear : ℕ → Risks → Risks
unfolding rows
clear page m = record { retained = rows (λ r. not (is_of_page page r)) m.retained }

-- One call of the manager.
pub data Step : Type 0 where
  notes : (page file_count : ℕ) → Step
  preflights : (page : ℕ) (acknowledged : Bool) (dispatch : NavigationDispatch) → Step
  acts : (page : ℕ) (intent : Option ActionIntent) (acknowledged : Bool) → Step
  restores : (page : ℕ) (risk : PageStateRisk) → Step
  clears : (page : ℕ) → Step

unfoldable pub step : Step → Risks → Risks
unfolding note_file_selection preflight_navigation preflight_action restore clear
step (notes page file_count) m = (note_file_selection page file_count m).0
step (preflights page acknowledged dispatch) m =
    (preflight_navigation page acknowledged dispatch m).0
step (acts page intent acknowledged) m = (preflight_action page intent acknowledged m).0
step (restores page risk) m = restore page risk m
step (clears page) m = clear page m

unfoldable pub run : List Step → Risks → Risks
unfolding step
run [] m = m
run (s ∷ ss) m = run ss (step s m)
