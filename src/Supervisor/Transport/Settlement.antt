-- ===== src/Supervisor/Transport/Settlement.antt =====
-- A request of src/supervisor/transport.ts is settled once.
use stage5_browser.Base.{
  ℕ, ◌+◌, ◌≤◌, ◌≡◌, refl, sym, subst, ap, ◌∙◌, inl, inr, Bool, true, not, some, List, [], ◌∷◌, ◌++◌,
  ◌==◌, if◌then◌else◌, arith, Bool-cases, Option-cases,
}
use stage5_browser.Text.{Text, text_eq, text_eq_iff}
use stage5_browser.Table.{find, rows, update, upsert, matches, exists}
use stage5_browser.Table.Laws.{matches-append, matches-find-some}
use stage5_browser.Errors.{operation_timeout, worker_disconnected}
use stage5_browser.Supervisor.Transport.{
  rejected, settlement_of, PendingRequest, Transport, PromiseState, WorkerResponse, has_request_id,
  has_late_id, of_child, without, rejections, request, expire, fail_send, handle_late,
  handle_response, handle_worker_failure, expire_late, Event, forks, requests, expires,
  fails_to_send, late_expires, responds, ends, step, run, no_requests,
}

abbrev is_settlement_of : Text → Text × PromiseState → Bool
is_settlement_of id x = text_eq id x.0

module _ {A : Type 0} where
  matches-update_const :
      (p q : A → Bool) (a : A) (xs : List A)
      → ((x : A) → q x ≡ true → p x ≡ p a)
      → matches p (update q (λ _. a) xs) ≡ matches p xs
  unfolding matches update
  matches-update_const p q a [] h = refl
  matches-update_const p q a (x ∷ xs) h = ground (arith, h x, matches-update_const p q a xs h)

  matches-rows_split :
      (p q : A → Bool) (xs : List A)
      → matches p (rows q xs) + matches p (rows (λ x. not (q x)) xs) ≡ matches p xs
  unfolding matches rows
  matches-rows_split p q [] = refl
  matches-rows_split p q (x ∷ xs) = ground (arith, matches-rows_split p q xs)

  matches-rows_le : (p q : A → Bool) (xs : List A) → matches p (rows q xs) ≤ matches p xs
  unfolding matches rows
  matches-rows_le p q [] = omega arith
  matches-rows_le p q (x ∷ xs) = ground (arith, matches-rows_le p q xs)

matches-without :
    (id : Text) (es : List PendingRequest) → matches (has_request_id id) (without id es) ≡ 0
unfolding matches rows
matches-without id [] = refl
matches-without id (e ∷ es) = ground (arith, matches-without id es)

module _ (id : Text) where
  matches-rejections :
      (es : List PendingRequest)
      → matches (is_settlement_of id) (rejections es) ≡ matches (has_request_id id) es
  unfolding matches
  matches-rejections [] = refl
  matches-rejections (e ∷ es) = ground (arith, matches-rejections es)

  -- One settlement for the request of an id that was open.
  settle_one :
      (other : Text) (e : PendingRequest) (es : List PendingRequest) (s : PromiseState)
      → find (has_request_id other) es ≡ some e
      → matches (is_settlement_of id) ((other, s) ∷ [])
          + matches (has_request_id id) (without other es)
        ≤ matches (has_request_id id) es
  unfolding matches
  settle_one other e es s h = elim (Bool-cases (text_eq id other)) [
    | inr k ↦
        rw k (
          omega (arith, matches-rows_le (has_request_id id) (λ x. not (has_request_id other x)) es))
    | inl k ↦
        let same : id ≡ other = (text_eq_iff id other).0 k in
        let gone : matches (has_request_id id) (without other es) ≡ 0 =
          subst (λ x. matches (has_request_id x) (without other es) ≡ 0) (sym same)
            (matches-without other es) in
        let open_one =
          subst (λ x. 1 ≤ matches (has_request_id x) es) (sym same)
            (matches-find-some (has_request_id other) es e h) in
        rw k (omega (arith, gone, open_one))
  ]

  put-le :
      (other : Text) (e : PendingRequest) (es : List PendingRequest)
      → e.id ≡ other
      → matches (has_request_id id) (upsert (has_request_id other) (λ _. e) e es)
        ≤ (if text_eq id other then 1 else 0) + matches (has_request_id id) es
  unfolding upsert matches
  put-le other e es h = elim (Bool-cases (exists (has_request_id other) es)) [
    | inl k ↦ rw k (
        omega (
          arith,
          matches-update_const (has_request_id id) (has_request_id other) e es
              (λ x q. ap (text_eq id) (sym ((text_eq_iff other x.id).0 q) ∙ sym h)),
        ))
    | inr k ↦ rw k (
        omega (
          arith,
          matches-append (has_request_id id) es (e ∷ []),
          ap {B = ℕ} (λ x. if text_eq id x then 1 else 0) h,
        ))
  ]

  module _ {T : Type 0} where
    -- How often the promise of the id was settled, and whether it is still open.
    abbrev pub settlements : Transport T → ℕ
    settlements m = matches (is_settlement_of id) m.settled

    abbrev pub still_open : Transport T → ℕ
    still_open m = matches (has_request_id id) m.pending

    -- How often an event makes a request of the id.
    abbrev pub made : Event T → ℕ
    made (requests other operation) = if text_eq id other then 1 else 0
    made _ = 0

    abbrev pub requests_made : List (Event T) → ℕ
    requests_made [] = 0
    requests_made (e ∷ es) = made e + requests_made es

    after_settling :
        (other : Text) (s : PromiseState) (e : PendingRequest) (m : Transport T)
        → find (has_request_id other) m.pending ≡ some e
        → matches (is_settlement_of id) (m.settled ++ (other, s) ∷ [])
            + matches (has_request_id id) (without other m.pending)
          ≤ settlements m + still_open m
    after_settling other s e m h = omega (
      arith,
      settle_one other e m.pending s h,
      matches-append (is_settlement_of id) m.settled ((other, s) ∷ []),
    )

    handle_late-same :
        (child : ℕ) (r : WorkerResponse T) (m : Transport T)
        → settlements (handle_late child r m) + still_open (handle_late child r m)
          ≡ settlements m + still_open m
    unfolding handle_late
    handle_late-same child r m = elim (Option-cases (find (has_late_id r.id) m.late)) [
      | inl h ↦ rw (h, handle_late) refl
      | inr (l, h) ↦ elim (Bool-cases (l.child == child)) [
        | inl k ↦ rw (h, handle_late) (rw k refl)
        | inr k ↦ rw (h, handle_late) (rw k refl)
      ]
    ]

    step-le :
        (e : Event T) (m : Transport T)
        → settlements (step e m) + still_open (step e m) ≤ made e + (settlements m + still_open m)
    unfolding step expire_late handle_worker_failure
    step-le (forks child) m = omega arith
    step-le (requests other operation) m = elim (Option-cases m.child) [
      | inl h ↦ rw (h, step, request) (omega arith)
      | inr (child, h) ↦
          rw (h, step, request)
            (omega (
              arith,
              put-le other
                  (record { id = other; child = child; telemetry_operation_id = operation })
                  m.pending refl,
            ))
    ]
    step-le (expires other) m = elim (Option-cases (find (has_request_id other) m.pending)) [
      | inl h ↦ rw (h, step, expire) (omega arith)
      | inr (e, h) ↦
          rw (h, step, expire)
            (omega (arith, after_settling other (rejected operation_timeout) e m h))
    ]
    step-le (fails_to_send other) m = elim (Option-cases (find (has_request_id other) m.pending)) [
      | inl h ↦ rw (h, step, fail_send) (omega arith)
      | inr (e, h) ↦
          rw (h, step, fail_send)
            (omega (arith, after_settling other (rejected worker_disconnected) e m h))
    ]
    step-le (late_expires other) m = omega arith
    step-le (responds child r) m = elim (Option-cases (find (has_request_id r.id) m.pending)) [
      | inl h ↦ rw (h, step, handle_response) (omega (arith, handle_late-same child r m))
      | inr (e, h) ↦ elim (Bool-cases (e.child == child)) [
        | inl k ↦
            rw (h, step, handle_response)
              (rw k (omega (arith, after_settling r.id (settlement_of r.error) e m h)))
        | inr k ↦ rw (h, step, handle_response) (rw k (omega arith))
      ]
    ]
    step-le (ends child) m = omega (
      arith,
      matches-append (is_settlement_of id) m.settled (rejections (rows (of_child child) m.pending)),
      matches-rejections (rows (of_child child) m.pending),
      matches-rows_split (has_request_id id) (of_child child) m.pending,
    )

    run-le :
        (es : List (Event T)) (m : Transport T)
        → settlements (run es m) + still_open (run es m)
          ≤ requests_made es + (settlements m + still_open m)
    unfolding run
    run-le [] m = omega arith
    run-le (e ∷ es) m = omega (arith, run-le es (step e m), step-le e m)

    -- In whatever order deadlines pass, messages fail, answers arrive and workers end, the requests of an
    -- id are settled, or still open, at most as often as they were made: a request whose id is its own
    -- is resolved or rejected at most once, and not while it is open.
    pub settled_at_most_once :
        (es : List (Event T))
        → settlements (run es no_requests) + still_open (run es no_requests) ≤ requests_made es
    unfolding matches
    settled_at_most_once es = omega (arith, run-le es no_requests)
