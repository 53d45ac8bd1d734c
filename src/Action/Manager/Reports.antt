-- ===== src/Action/Manager/Reports.antt =====
-- The reports of src/controller/action/phase-manager.ts: how many are kept, that a session is
-- reported once, and what each report says of its dispatches.
use stage5_browser.Base.{
  ◌-◌, ◌≤◌, ◌≡◌, refl, subst, Bool, not, none, some, List, [], ◌∷◌, ◌++◌, ltb, length, length-drop,
  All, All-append, All-drop, arith, Bool-cases, Option-cases, inl, inr,
}
use stage5_browser.Text.{Text}
use stage5_browser.Table.{rows, find, update, upsert, exists}
use stage5_browser.Effect.{Outcome, ok, err, or_throw}
use stage5_browser.Action.Session.{Session, Fault, construct, call}
use stage5_browser.Action.Session.Invariant.{Inv, dispatches, construct-Inv, call-Inv}
use stage5_browser.Action.Manager.{
  Manager, no_sessions, has_action, begin, started, finish, perform, drain_completed, retained,
  max_completed, not_owned, Step, begins, performs, finishes, drains, step, run_steps,
}

length-retained : (ss : List Session) → length (retained ss) ≤ max_completed
unfolding retained
length-retained ss = elim (Bool-cases (ltb max_completed (length ss))) [
  | inl e ↦ rw e (rw (length-drop (length ss - max_completed) ss) (ground arith))
  | inr e ↦ rw e (ground arith)
]

find-rows_not : (p : Session → Bool) (ss : List Session) → find p (rows (λ r. not (p r)) ss) ≡ none
unfolding find rows
find-rows_not p [] = refl
find-rows_not p (s ∷ ss) = ground (arith, find-rows_not p ss)

-- A session is finished, and so reported, once: to finish it again throws and changes nothing.
pub finish_once :
    (id : Text) (m : Manager)
    → (finish id m).1 ≡ ok tt
    → finish id (finish id m).0 ≡ ((finish id m).0, err not_owned)
unfolding finish
finish_once id m = elim (Option-cases (find (has_action id) m.active)) [
  | inl f ↦ rw (f, or_throw) (λ h. absurd (ground arith))
  | inr (s, f) ↦ rw (f, or_throw) (λ h. rw (find-rows_not (has_action id) m.active, or_throw) refl)
]

module _ (P : Session → Type 0) where
  All-rows : (p : Session → Bool) (ss : List Session) → All P ss → All P (rows p ss)
  unfolding rows
  All-rows p [] h = h
  All-rows p (s ∷ ss) h = elim (Bool-cases (p s)) [
    | inl e ↦ rw e (h.0, All-rows p ss h.1)
    | inr e ↦ rw e (All-rows p ss h.1)
  ]

  All-update :
      (p : Session → Bool) (f : Session → Session) (ss : List Session)
      → ((s : Session) → P s → P (f s))
      → All P ss
      → All P (update p f ss)
  unfolding update
  All-update p f [] k h = h
  All-update p f (s ∷ ss) k h = elim (Bool-cases (p s)) [
    | inl e ↦ rw e (k s h.0, All-update p f ss k h.1)
    | inr e ↦ rw e (h.0, All-update p f ss k h.1)
  ]

  All-upsert :
      (p : Session → Bool) (s : Session) (ss : List Session)
      → P s
      → All P ss
      → All P (upsert p (λ _. s) s ss)
  unfolding upsert
  All-upsert p s ss k h = elim (Bool-cases (exists p ss)) [
    | inl e ↦ rw e (All-update p (λ _. s) ss (λ _ _. k) h)
    | inr e ↦ rw e (All-append P ss (s ∷ []) h (k, tt))
  ]

  All-find :
      (p : Session → Bool) (ss : List Session) (s : Session) → All P ss → find p ss ≡ some s → P s
  unfolding find
  All-find p [] s h = λ f. absurd (ground arith)
  All-find p (x ∷ xs) s h = elim (Bool-cases (p x)) [
    | inl e ↦ rw e (λ f. subst P (ground arith) h.0)
    | inr e ↦ rw e (All-find p xs s h.1)
  ]

  All-retained : (ss : List Session) → All P ss → All P (retained ss)
  unfolding retained
  All-retained ss h = elim (Bool-cases (ltb max_completed (length ss))) [
    | inl e ↦ rw e (All-drop P (length ss - max_completed) ss h)
    | inr e ↦ rw e h
  ]

-- Few reports, and every session satisfies the invariant of sessions.
record AreSound (m : Manager) : Type 0 where
  few : length m.completed ≤ max_completed
  active_sound : All Inv m.active
  completed_sound : All Inv m.completed

started-AreSound :
    (o : Outcome Fault Session) (m : Manager)
    → ((s : Session) → o ≡ ok s → Inv s)
    → AreSound m
    → AreSound (started o m).0
started-AreSound (err e) m k v = v
started-AreSound (ok s) m k v = record {
  few = v.few;
  active_sound = All-upsert Inv (has_action s.action_id) s m.active (k s refl) v.active_sound;
  completed_sound = v.completed_sound;
}

finish-AreSound : (id : Text) (m : Manager) → AreSound m → AreSound (finish id m).0
unfolding finish
finish-AreSound id m v = elim (Option-cases (find (has_action id) m.active)) [
  | inl f ↦ rw (f, or_throw) v
  | inr (s, f) ↦
      rw (f, or_throw)
        (record {
          few = length-retained (m.completed ++ s ∷ []);
          active_sound = All-rows Inv (λ r. not (has_action id r)) m.active v.active_sound;
          completed_sound = All-retained Inv (m.completed ++ s ∷ []) (
              All-append Inv m.completed (s ∷ []) v.completed_sound
                (All-find Inv (has_action id) m.active s v.active_sound f, tt));
        })
]

step-AreSound : (x : Step) (m : Manager) → AreSound m → AreSound (step x m)
unfolding step begin perform drain_completed
step-AreSound (begins action timeout now id) m v =
    started-AreSound (construct action timeout now id) m
      (λ s h. construct-Inv action id timeout now s h) v
step-AreSound (performs id c) m v = record {
  few = v.few;
  active_sound =
      All-update Inv (has_action id) (λ s. (call c s).0) m.active (λ s h. (call-Inv c).at s h)
        v.active_sound;
  completed_sound = v.completed_sound;
}
step-AreSound (finishes id) m v = finish-AreSound id m v
step-AreSound drains m v = record {
  few = omega arith;
  active_sound = v.active_sound;
  completed_sound = tt;
}

run_steps-AreSound : (xs : List Step) (m : Manager) → AreSound m → AreSound (run_steps m xs)
unfolding run_steps
run_steps-AreSound [] m v = v
run_steps-AreSound (x ∷ xs) m v = run_steps-AreSound xs (step x m) (step-AreSound x m v)

-- A report logs each attempt to put input in, and there are at most two.
pub record IsSoundReport (s : Session) : Type 0 where
  pub logged : dispatches s.transitions ≡ s.dispatch_attempts
  pub at_most_twice : s.dispatch_attempts ≤ 2

All-IsSoundReport : (ss : List Session) → All Inv ss → All IsSoundReport ss
All-IsSoundReport [] h = tt
All-IsSoundReport (s ∷ ss) h =
    let v : Inv s = h.0 in
    let once = v.excused_once in
    let attempted = v.attempted in
    (record { logged = v.logged; at_most_twice = omega arith }, All-IsSoundReport ss h.1)

-- However sessions begin, are used, end and are drained, at most a hundred reports are kept, and
-- each of them logs every attempt of its session to put input in, of which there are at most two.
pub run_steps-IsSoundReport :
    (xs : List Step)
    → (length (run_steps no_sessions xs).completed ≤ 100)
      × All IsSoundReport (run_steps no_sessions xs).completed
run_steps-IsSoundReport xs =
    let v =
      run_steps-AreSound xs no_sessions
        (record { few = omega arith; active_sound = tt; completed_sound = tt }) in
    (v.few, All-IsSoundReport (run_steps no_sessions xs).completed v.completed_sound)
