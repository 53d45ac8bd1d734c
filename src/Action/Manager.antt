-- ===== src/Action/Manager.antt =====
-- src/controller/action/phase-manager.ts: the sessions that are under way and the snapshots of those
-- that ended. `active` has the present value of each session, and a snapshot is such a value.
pub mod Reports
use stage5_browser.Base.{
  ℕ, ◌+◌, ◌-◌, ◌≤◌, ◌≡◌, refl, Bool, true, false, not, Option, none, some, List, [], ◌∷◌, ◌++◌, ltb,
  if◌then◌else◌, length, drop, length-drop, length-append, arith, Bool-cases, inl, inr,
}
use stage5_browser.Text.{Text, text_eq, text_eq_refl}
use stage5_browser.Table.{rows, find, update, upsert}
use stage5_browser.Effect.{Outcome, ok, err, Exec, pure, gets, or_throw, modify, guard, ◌>>=◌, ◌>>◌}
use stage5_browser.Effect.Rules.{Keeps, keeps_rules, Keeps-modify}
use stage5_browser.Action.Session.{Session, Timeout, Fault, construct, Call, call}

pub record Manager : Type 0 where
  pub active : List Session
  pub completed : List Session

abbrev pub no_sessions : Manager
no_sessions = record { active = []; completed = [] }

-- An error of the session's constructor, or the one of `finish`.
pub data ManagerFault : Type 0 where
  of_session : Fault → ManagerFault
  not_owned : ManagerFault

abbrev pub ManagerExec : Type 0 → Type 0
ManagerExec A = Exec Manager ManagerFault A

abbrev pub has_action : Text → Session → Bool
has_action id s = text_eq id s.action_id

abbrev pub started : Outcome Fault Session → ManagerExec Session
started (err e) m = (m, err (of_session e))
started (ok s) m = (record m { active = upsert (has_action s.action_id) (λ _. s) s m.active }, ok s)

-- `begin`, with the clock and the UUID that the constructor reads. A session of the same UUID is
-- replaced.
unfoldable pub begin : Text → Timeout → ℕ → Text → ManagerExec Session
unfolding upsert text_eq
begin action timeout now id = started (construct action timeout now id)

abbrev pub max_completed : ℕ
max_completed = 100

-- The last hundred snapshots.
unfoldable pub retained : List Session → List Session
retained ss = if ltb max_completed (length ss) then drop (length ss - max_completed) ss else ss

-- A session is named by its action id.
unfoldable pub finish : Text → ManagerExec (Unit {0})
unfolding ◌>>=◌ retained find rows
finish id = do
  found ← gets (λ m. find (has_action id) m.active)
  s ← or_throw found not_owned
  modify (λ m. record {
    active = rows (λ r. not (has_action id r)) m.active;
    completed = retained (m.completed ++ s ∷ []);
  })

-- A method that is called on a session under way, through the reference that `begin` returned.
unfoldable pub perform : Text → Call → Manager → Manager
unfolding update
perform id c m = record m { active = update (has_action id) (λ s. (call c s).0) m.active }

unfoldable pub drain_completed : ManagerExec (List Session)
unfolding ◌>>=◌
drain_completed = do
  drained ← gets (λ m. m.completed)
  modify (λ m. record m { completed = [] })
  pure drained

unfoldable pub snapshot_all : Manager → List Session
snapshot_all m = m.completed ++ m.active

unfoldable pub snapshot : Text → Manager → Option Session
unfolding find
snapshot id m = find (has_action id) m.active

unfoldable pub active_count : Manager → ℕ
active_count m = length m.active

-- What the manager's clients do.
pub data Step : Type 0 where
  begins : Text → Timeout → ℕ → Text → Step
  performs : Text → Call → Step
  finishes : Text → Step
  drains : Step

unfoldable pub step : Step → Manager → Manager
unfolding begin finish drain_completed perform
step (begins action timeout now id) m = (begin action timeout now id m).0
step (performs id c) m = perform id c m
step (finishes id) m = (finish id m).0
step drains m = (drain_completed m).0

unfoldable pub run_steps : Manager → List Step → Manager
unfolding step
run_steps m [] = m
run_steps m (x ∷ xs) = run_steps (step x m) xs
