-- ===== src/Controller/Risk/Acknowledgement.antt =====
-- A page with files that were selected since the last acknowledgement is not left without one:
-- src/controller/persistence/page-state-risk-manager.ts.
use stage5_browser.Base.{
  ℕ, ◌≡◌, ◌∙◌, refl, ◌⊎◌, inl, inr, Bool, false, not, some, List, [], ◌∷◌, ◌==◌, ==_iff, All, arith,
  Bool-cases, Option-cases,
}
use stage5_browser.Table.Upserts.{find-put, find-put_other}
use stage5_browser.Table.Laws.{find-rows, find-holds}
use stage5_browser.Effect.{err}
use stage5_browser.Controller.Risk.{
  RetainedRisk, Risks, NavigationDispatch, click, requires_acknowledgement, is_click, is_of_page,
  set, lookup, is_acknowledged, current, noted, note_file_selection, preflight_retained,
  preflight_navigation, is_navigate, preflight_action, restored, restore, clear, Step, notes,
  preflights, acts, restores, clears, step, run,
}

lookup-set : (r : RetainedRisk) (m : Risks) → lookup r.page (set r m) ≡ some r
unfolding lookup set
lookup-set r m = find-put (is_of_page r.page) r m.retained (ground arith)

lookup-set_other :
    (page : ℕ) (r : RetainedRisk) (m : Risks)
    → (page == r.page) ≡ false
    → lookup page (set r m) ≡ lookup page m
unfolding lookup set
lookup-set_other page r m h =
    find-put_other (is_of_page r.page) r (is_of_page page) m.retained h
      (λ x e. ground (arith, h, e))

lookup-clear_other :
    (page other : ℕ) (m : Risks)
    → (page == other) ≡ false
    → lookup page (clear other m) ≡ lookup page m
unfolding lookup clear
lookup-clear_other page other m h =
    find-rows (is_of_page page) (λ r. not (is_of_page other r)) m.retained
      (λ x e. ground (arith, h, e))

-- A page whose last selection of files is not acknowledged.
abbrev pub IsPending : ℕ → Risks → Type 0
IsPending page m = (r : RetainedRisk) × (lookup page m ≡ some r) × (is_acknowledged r ≡ false)

-- The step neither acknowledges the page, nor restores it, nor forgets it.
abbrev pub LeavesPending : ℕ → Step → Type 0
LeavesPending page (notes other file_count) = Unit {0}
LeavesPending page (preflights other acknowledged dispatch) =
    (acknowledged ≡ false) ⊎ ((page == other) ≡ false)
LeavesPending page (acts other intent acknowledged) =
    (acknowledged ≡ false) ⊎ ((page == other) ≡ false)
LeavesPending page (restores other risk) = (page == other) ≡ false
LeavesPending page (clears other) = (page == other) ≡ false

IsPending-note :
    (page other file_count : ℕ) (m : Risks)
    → (IsPending page m ⊎ (page ≡ other))
    → IsPending page (note_file_selection other file_count m).0
unfolding note_file_selection
IsPending-note page other file_count m h =
    let r = noted other file_count (lookup other m) in
    elim (Bool-cases (page == other)) [
      | inl e ↦ (r, rw ((==_iff page other).0 e) (lookup-set r m), refl)
      | inr e ↦ elim h [
        | inl (r', q, k) ↦ (r', lookup-set_other page r m e ∙ q, k)
        | inr e' ↦ absurd (ground (arith, e, e'))
      ]
    ]

IsPending-preflight :
    (page other : ℕ) (acknowledged : Bool) (dispatch : NavigationDispatch) (m : Risks)
    → (acknowledged ≡ false) ⊎ ((page == other) ≡ false)
    → IsPending page m
    → IsPending page (preflight_navigation other acknowledged dispatch m).0
unfolding preflight_navigation preflight_retained lookup
IsPending-preflight page other acknowledged dispatch m a h = elim (Option-cases (lookup other m)) [
  | inl e ↦ rw e h
  | inr (r, e) ↦ elim (Bool-cases (is_acknowledged r)) [
    | inl k ↦ rw e (rw k h)
    | inr k ↦ elim a [
      | inl b ↦ rw e (rw k (rw b h))
      | inr b ↦ elim (Bool-cases acknowledged) [
        | inr f ↦ rw e (rw k (rw f h))
        | inl f ↦
            let (r', q, n) = h in
            let own : (page == r.page) ≡ false = other_page r e b in
            rw e (
              rw k (
                rw f (
                  r',
                  lookup-set_other page (record r { acknowledged_revision = some r.revision }) m own
                      ∙ q,
                  n,
                )))
      ]
    ]
  ]
]
  where
    other_page :
        (r : RetainedRisk)
        → lookup other m ≡ some r
        → (page == other) ≡ false
        → (page == r.page) ≡ false
    other_page r e b =
        let own = find-holds (is_of_page other) m.retained r e in ground (arith, own, b)

IsPending-step :
    (page : ℕ) (s : Step) (m : Risks)
    → LeavesPending page s
    → IsPending page m
    → IsPending page (step s m)
unfolding step preflight_action restore
IsPending-step page (notes other file_count) m a h = IsPending-note page other file_count m (inl h)
IsPending-step page (preflights other acknowledged dispatch) m a h =
    IsPending-preflight page other acknowledged dispatch m a h
IsPending-step page (acts other intent acknowledged) m a h =
    elim (Bool-cases (is_navigate intent)) [
      | inl e ↦
          rw (e, step, preflight_action) (IsPending-preflight page other acknowledged click m a h)
      | inr e ↦ rw (e, step, preflight_action) h
    ]
IsPending-step page (restores other risk) m a (r, q, k) =
    (r, lookup-set_other page (restored other risk) m a ∙ q, k)
IsPending-step page (clears other) m a (r, q, k) = (r, lookup-clear_other page other m a ∙ q, k)

IsPending-run :
    (page : ℕ) (ss : List Step) (m : Risks)
    → All (LeavesPending page) ss
    → IsPending page m
    → IsPending page (run ss m)
unfolding run
IsPending-run page [] m a h = h
IsPending-run page (s ∷ ss) m a h =
    IsPending-run page ss (step s m) a.1 (IsPending-step page s m a.0 h)

IsPending-refused :
    (page : ℕ) (dispatch : NavigationDispatch) (m : Risks)
    → IsPending page m
    → preflight_navigation page false dispatch m
      ≡ (m, err (requires_acknowledgement (is_click dispatch) (current page m)))
unfolding preflight_navigation preflight_retained
IsPending-refused page dispatch m (r, q, k) = rw q (rw k refl)

-- After a selection of files on a page, a navigation of it without an acknowledgement is refused and
-- changes nothing, whatever calls come between, on this page or on others, as long as none
-- acknowledges the page, restores it or clears it.
pub navigation_after_selection :
    (page file_count : ℕ) (ss : List Step) (dispatch : NavigationDispatch) (m : Risks)
    → All (LeavesPending page) ss
    → let later = run ss (note_file_selection page file_count m).0 in
      preflight_navigation page false dispatch later
      ≡ (later, err (requires_acknowledgement (is_click dispatch) (current page later)))
navigation_after_selection page file_count ss dispatch m a =
    IsPending-refused page dispatch (run ss (note_file_selection page file_count m).0) (
      IsPending-run page ss (note_file_selection page file_count m).0 a
        (IsPending-note page page file_count m (inr refl)))
