-- ===== src/Operations/Registry/Reservation.antt =====
-- A reservation of the registry of src/operations/registry.ts is taken once.
use stage5_browser.Base.{
  ℕ, ◌-◌, ◌≡◌, ◌≢◌, ◌∙◌, refl, sym, subst, inl, inr, Bool, true, false, not, ◌&&◌, none, some, List,
  [], ◌∷◌, length, All, All-append, All-drop, arith, Bool-cases, Option-cases,
}
use stage5_browser.Text.{Text, text_eq, text_eq_iff, text_eq-false}
use stage5_browser.Table.{find, rows, update, upsert, exists}
use stage5_browser.Table.Laws.{find-holds}
use stage5_browser.Effect.{ok, err, guard}
use stage5_browser.Operations.{LiveRecord, reserved}
use stage5_browser.Operations.Journal.{Codec}
use stage5_browser.Operations.Registry.{
  Registry, reservation_unavailable, max_memory_records, is_reserved, is_available, has_id, prune,
  newest, is_expired, begin, begun,
}
use stage5_browser.Operations.Registry.Preserves.{Preserved, Allowed, run-Kept}
use stage5_browser.Operations.Registry.Steps.{
  Step, run, reserves, begins, transitions, succeeds, fails, persists, marks, reads,
}

module _ {A : Type 0} (P : A → Type 0) where
  All-rows : (p : A → Bool) (xs : List A) → All P xs → All P (rows p xs)
  unfolding rows
  All-rows p [] h = tt
  All-rows p (x ∷ xs) h = elim (Bool-cases (p x)) [
    | inl e ↦ rw e (h.0, All-rows p xs h.1)
    | inr e ↦ rw e (All-rows p xs h.1)
  ]

  All-update :
      (p : A → Bool) (f : A → A) (xs : List A)
      → ((x : A) → p x ≡ true → P (f x))
      → All P xs
      → All P (update p f xs)
  unfolding update
  All-update p f [] k h = tt
  All-update p f (x ∷ xs) k h = elim (Bool-cases (p x)) [
    | inl e ↦ rw e (k x e, All-update p f xs k h.1)
    | inr e ↦ rw e (h.0, All-update p f xs k h.1)
  ]

  All-upsert :
      (p : A → Bool) (a : A) (xs : List A) → P a → All P xs → All P (upsert p (λ _. a) a xs)
  unfolding upsert
  All-upsert p a xs k h = elim (Bool-cases (exists p xs)) [
    | inl e ↦ rw e (All-update p (λ _. a) xs (λ x q. k) h)
    | inr e ↦ rw e (All-append P xs (a ∷ []) h (k, tt))
  ]

  update-All :
      (p : A → Bool) (f : A → A) (xs : List A)
      → ((x : A) → p x ≡ true → P (f x))
      → ((x : A) → p x ≡ false → P x)
      → All P (update p f xs)
  unfolding update
  update-All p f [] k h = tt
  update-All p f (x ∷ xs) k h = elim (Bool-cases (p x)) [
    | inl e ↦ rw e (k x e, update-All p f xs k h)
    | inr e ↦ rw e (h x e, update-All p f xs k h)
  ]

  find-All : (p : A → Bool) (xs : List A) (a : A) → All P xs → find p xs ≡ some a → P a
  unfolding find
  find-All p [] a h e = absurd (ground arith)
  find-All p (x ∷ xs) a h e = elim (Bool-cases (p x)) [
    | inl q ↦ subst P (ground arith) h.0
    | inr q ↦ find-All p xs a h.1 (ground arith)
  ]

module _ {R : Type 0} (id : Text) where
  -- A record that a request for the id could take.
  abbrev pub is_pending : LiveRecord R → Bool
  is_pending r = has_id id r && is_reserved r.phase

  abbrev pub NonePending : Registry R → Type 0
  NonePending m = All (λ r. is_pending r ≡ false) m.records

  -- What is done to a record of an id leaves it not pending.
  abbrev Settles : Text → (LiveRecord R → LiveRecord R) → Type 0
  Settles other f = (r : LiveRecord R) → has_id other r ≡ true → is_pending (f r) ≡ false

  NonePending-Preserved : Preserved NonePending Settles (λ r. is_pending r ≡ false)
  unfolding prune newest
  NonePending-Preserved = record {
    on_prune = λ at m q.
        let kept = rows (λ r. not (is_expired at r)) m.records in
        All-drop (λ r. is_pending r ≡ false) (length kept - max_memory_records) kept
          (All-rows (λ r. is_pending r ≡ false) (λ r. not (is_expired at r)) m.records q);
    on_put = λ at r m a q.
        let kept = rows (λ r. not (is_expired at r)) m.records in
        All-upsert (λ r. is_pending r ≡ false) (has_id r.operation_id) r (prune at m).records a
          (All-drop (λ r. is_pending r ≡ false) (length kept - max_memory_records) kept
            (All-rows (λ r. is_pending r ≡ false) (λ r. not (is_expired at r)) m.records q));
    on_update =
        λ other f m a q. All-update (λ r. is_pending r ≡ false) (has_id other) f m.records a q;
    on_journal = λ journal m q. q;
    on_remember = λ r m q. q;
  }

  -- The call neither reserves the id nor moves its record back to `reserved`.
  abbrev pub LeavesTaken : Step R → Type 0
  LeavesTaken (reserves at now uuid command) = uuid ≢ id
  LeavesTaken (transitions now other reserved) = other ≢ id
  LeavesTaken _ = Unit {0}

  has_id-other :
      (r : LiveRecord R) (other : Text)
      → other ≢ id
      → text_eq other r.operation_id ≡ true
      → has_id id r ≡ false
  has_id-other r other k h =
      let e : r.operation_id ≡ other = sym ((text_eq_iff other r.operation_id).0 h) in
      rw (text_eq-false id r.operation_id (λ q. k (sym (q ∙ e)))) refl

  LeavesTaken-Allowed :
      (s : Step R) → LeavesTaken s → Allowed NonePending Settles (λ r. is_pending r ≡ false) s
  LeavesTaken-Allowed (reserves at now uuid command) h =
      rw (text_eq-false id uuid (λ q. h (sym q))) refl
  LeavesTaken-Allowed (begins at now uuid command none) h = ground arith
  LeavesTaken-Allowed (begins at now uuid command (some other)) h = λ r q. ground arith
  LeavesTaken-Allowed (transitions now other reserved) h = λ r q. rw (has_id-other r other h q) refl
  LeavesTaken-Allowed (transitions now other _) h = λ r q. ground arith
  LeavesTaken-Allowed (succeeds now other result ended_by) h = λ r q. ground arith
  LeavesTaken-Allowed (fails now other error ended_by) h = λ r q. ground arith
  LeavesTaken-Allowed (persists at now w size r) h = λ r q. ground arith
  LeavesTaken-Allowed (marks now w size other) h = λ r q. ground arith
  LeavesTaken-Allowed (reads at is_readable message other include_result) h = tt

  All-LeavesTaken :
      (ss : List (Step R))
      → All LeavesTaken ss
      → All (Allowed NonePending Settles (λ r. is_pending r ≡ false)) ss
  All-LeavesTaken [] h = tt
  All-LeavesTaken (s ∷ ss) h = (LeavesTaken-Allowed s h.0, All-LeavesTaken ss h.1)

  -- With no pending record of the id, a request for it is refused.
  begin-NonePending :
      (at now : ℕ) (uuid command : Text) (m : Registry R)
      → NonePending (prune at m)
      → (begin at now uuid command (some id) m).1 ≡ err (reservation_unavailable id)
  unfolding begin
  begin-NonePending at now uuid command m h =
      elim (Option-cases (find (has_id id) (prune at m).records)) [
        | inl e ↦ rw e refl
        | inr (r, e) ↦
            let pending =
              find-All (λ r. is_pending r ≡ false) (has_id id) (prune at m).records r h e in
            let own = find-holds (has_id id) (prune at m).records r e in
            rw e (rw (unavailable r command own pending, guard) refl)
      ]
    where
      unavailable :
          (r : LiveRecord R) (c : Text)
          → has_id id r ≡ true
          → is_pending r ≡ false
          → is_available c r ≡ false
      unavailable r c own h = ground arith

  -- A request that took the reservation of the id leaves none pending.
  begin-taken :
      (at now : ℕ) (uuid command : Text) (m : Registry R) (r : LiveRecord R)
      → (begin at now uuid command (some id) m).1 ≡ ok r
      → NonePending (begin at now uuid command (some id) m).0
  unfolding begin
  begin-taken at now uuid command m r h =
      elim (Option-cases (find (has_id id) (prune at m).records)) [
        | inl e ↦ absurd (ground (arith, e))
        | inr (r', e) ↦ elim (Bool-cases (is_available command r')) [
          | inl k ↦ rw e (
              rw (k, guard)
                (update-All (λ x. is_pending x ≡ false) (has_id id) (begun now) (prune at m).records
                  (λ x q. ground arith) (λ x q. ground arith)))
          | inr k ↦
              let refused : (begin at now uuid command (some id) m).1
                  ≡ err (reservation_unavailable id) =
                rw e (rw (k, guard) refl) in
              absurd (ground (arith, refused))
        ]
      ]

  -- Once a request has taken a reservation, a later request for the same id is refused, whatever
  -- calls come between them, as long as none reserves the id and none moves its record back to
  -- `reserved`.
  pub reservation_taken_once :
      (codec : Codec) (at now : ℕ) (uuid command : Text) (m : Registry R) (r : LiveRecord R)
      (ss : List (Step R)) (at' now' : ℕ) (uuid' command' : Text)
      → (begin at now uuid command (some id) m).1 ≡ ok r
      → All LeavesTaken ss
      → (begin at' now' uuid' command'
          (some id)
          (run codec ss (begin at now uuid command (some id) m).0)).1
        ≡ err (reservation_unavailable id)
  reservation_taken_once codec at now uuid command m r ss at' now' uuid' command' h k =
      let m' = run codec ss (begin at now uuid command (some id) m).0 in
      begin-NonePending at' now' uuid' command' m' (
        NonePending-Preserved.on_prune at' m' (
          run-Kept NonePending-Preserved codec ss (begin at now uuid command (some id) m).0
            (All-LeavesTaken ss k) (begin-taken at now uuid command m r h)))
