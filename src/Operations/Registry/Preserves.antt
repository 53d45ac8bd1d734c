-- ===== src/Operations/Registry/Preserves.antt =====
-- The calls of src/operations/registry.ts keep what their changes of the records keep.
use stage5_browser.Base.{
  ℕ, ◌≡◌, refl, sym, subst, Bool, true, false, Option, none, some, List, [], ◌∷◌, All, inl, inr,
  Option-cases, Bool-cases,
}
use stage5_browser.Text.{Text}
use stage5_browser.Table.{update, find}
use stage5_browser.Effect.{modify}
use stage5_browser.Effect.Rules.{Keeps, Keeps-modify, keeps_rules}
use stage5_browser.Operations.{
  LiveRecord, Phase, reserved, queued, response_created, succeeded, JournalRecord,
}
use stage5_browser.Operations.Journal.{Codec, Write, JournalFile, append}
use stage5_browser.Operations.Registry.{
  Registry, RegistryFault, has_id, prune, put, fresh_record, begun, moved, ended, outcome_of, kept,
  is_some, reserve, begin, amend, transition, succeed, fail, write_journal, remember, persist,
  mark_durable, mark_ended, mark_response_created, status, status_from,
}
use stage5_browser.Operations.Registry.Steps.{
  Step, step, run, reserves, begins, transitions, succeeds, fails, persists, marks, reads,
}

module _ {R : Type 0} where
  -- A status changes nothing once `prune` has run.
  status_from-same :
      (codec : Codec) (is_readable : Bool) (message id : Text) (include_result : Bool)
      (live : Option (LiveRecord R)) (m : Registry R)
      → (status_from codec is_readable message id include_result live m).0 ≡ m
  unfolding status_from
  status_from-same codec is_readable message id include_result (some r) m = refl
  status_from-same codec true message id include_result none m = refl
  status_from-same codec false message id include_result none m = refl

module _ {R : Type 0} (Q : Registry R → Type 0) (T : Text → (LiveRecord R → LiveRecord R) → Type 0)
    (N : LiveRecord R → Type 0) where
  -- `Q` is kept when `prune` runs, when a record that satisfies `N` is put after it, and when a
  -- record is changed by a function that `T` allows for its id.
  pub record Preserved : Type 0 where
    pub on_prune : (at : ℕ) (m : Registry R) → Q m → Q (prune at m)
    pub on_put : (at : ℕ) (r : LiveRecord R) (m : Registry R) → N r → Q m → Q (put r (prune at m))
    pub on_update :
        (id : Text) (f : LiveRecord R → LiveRecord R) (m : Registry R)
        → T id f
        → Q m
        → Q (record m { records = update (has_id id) f m.records })
    pub on_journal :
        (journal : JournalFile) (m : Registry R) → Q m → Q (record m { journal = journal })
    pub on_remember : (r : JournalRecord) (m : Registry R) → Q m → Q (remember r m)

  -- What a call puts and changes is allowed.
  abbrev pub Allowed : Step R → Type 0
  Allowed (reserves at now uuid command) = N (fresh_record uuid command reserved now)
  Allowed (begins at now uuid command none) = N (fresh_record uuid command queued now)
  Allowed (begins at now uuid command (some id)) = T id (begun now)
  Allowed (transitions now id phase) = T id (moved phase now)
  Allowed (succeeds now id result ended_by) =
      T id (λ r. record (ended now succeeded ended_by r) { result = some result })
  Allowed (fails now id error ended_by) =
      T id (λ r. record (ended now (outcome_of error.code) ended_by r) { error = some error })
  Allowed (persists at now w size r) = T r.operation_id (kept at now)
  Allowed (marks now w size id) = T id (moved response_created now)
  Allowed (reads at is_readable message id include_result) = Unit {0}

module _ {R : Type 0} {Q : Registry R → Type 0} {T : Text → (LiveRecord R → LiveRecord R) → Type 0}
    {N : LiveRecord R → Type 0} (k : Preserved Q T N) where
  pruned-Kept : (at : ℕ) → Keeps {E = RegistryFault} Q (modify (prune at))
  pruned-Kept at = Keeps-modify (prune at) (k.on_prune at)

  changed-Kept :
      (id : Text) (f : LiveRecord R → LiveRecord R)
      → T id f
      → Keeps {E = RegistryFault} Q
          (modify (λ m. record m { records = update (has_id id) f m.records }))
  changed-Kept id f h =
      Keeps-modify (λ m. record m { records = update (has_id id) f m.records })
        (λ s q. k.on_update id f s h q)

  remembered-Kept : (r : JournalRecord) → Keeps {E = RegistryFault} Q (modify (remember r))
  remembered-Kept r = Keeps-modify (remember r) (k.on_remember r)

  begin-Kept :
      (at now : ℕ) (uuid command id : Text)
      → T id (begun now)
      → Keeps Q (begin at now uuid command (some id))
  unfolding begin
  begin-Kept at now uuid command id h = search (keeps_rules, pruned-Kept, changed-Kept) depth 20

  amend-Kept : (id : Text) (f : LiveRecord R → LiveRecord R) → T id f → Keeps Q (amend id f)
  unfolding amend
  amend-Kept id f h = search (keeps_rules, changed-Kept) depth 20

  write_journal-Kept :
      (codec : Codec) (w : Write) (size : ℕ) (r : JournalRecord)
      → Keeps Q (write_journal codec w size r)
  unfolding write_journal
  write_journal-Kept codec w size r = record {
    at = λ s h. k.on_journal (append codec w size r s.journal).0 s h;
  }

  persist-Kept :
      (at now : ℕ) (codec : Codec) (w : Write) (size : ℕ) (r : JournalRecord)
      → T r.operation_id (kept at now)
      → Keeps Q (persist at now codec w size r)
  unfolding persist
  persist-Kept at now codec w size r h =
      search (keeps_rules, write_journal-Kept, remembered-Kept, changed-Kept) depth 20

  mark_durable-Kept :
      (now : ℕ) (codec : Codec) (w : Write) (size : ℕ) (o : Option JournalRecord)
      → Keeps Q (mark_durable now codec w size o)
  unfolding mark_durable
  mark_durable-Kept now codec w size none = search keeps_rules
  mark_durable-Kept now codec w size (some r) = elim (Option-cases r.timing) [
    | inl e ↦ rw e (search keeps_rules)
    | inr (t, e) ↦ rw e (search (keeps_rules, write_journal-Kept, remembered-Kept) depth 20)
  ]

  transition-Kept :
      (now : ℕ) (id : Text) (phase : Phase)
      → T id (moved phase now)
      → Keeps Q (transition now id phase)
  unfolding transition
  transition-Kept now id phase h = amend-Kept id (moved phase now) h

  mark_ended-Kept :
      (now : ℕ) (codec : Codec) (w : Write) (size : ℕ) (id : Text) (o : Option (LiveRecord R))
      → T id (moved response_created now)
      → Keeps Q (mark_ended now codec w size id o)
  unfolding mark_ended
  mark_ended-Kept now codec w size id none h = search keeps_rules
  mark_ended-Kept now codec w size id (some r) h = elim (Bool-cases (is_some r.outcome)) [
    | inl e ↦ rw e (search (keeps_rules, mark_durable-Kept, transition-Kept) depth 20)
    | inr e ↦ rw e (search keeps_rules)
  ]

  mark_response_created-Kept :
      (now : ℕ) (codec : Codec) (w : Write) (size : ℕ) (id : Text)
      → T id (moved response_created now)
      → Keeps Q (mark_response_created now codec w size id)
  unfolding mark_response_created
  mark_response_created-Kept now codec w size id h =
      let ended = λ (o : Option (LiveRecord R)). mark_ended-Kept now codec w size id o h in
      search (keeps_rules, ended) depth 20

  pub step-Kept :
      (codec : Codec) (s : Step R) (m : Registry R) → Allowed Q T N s → Q m → Q (step codec s m)
  unfolding step reserve begin transition succeed fail status
  step-Kept codec (reserves at now uuid command) m a q =
      k.on_put at (fresh_record uuid command reserved now) m a q
  step-Kept codec (begins at now uuid command none) m a q =
      k.on_put at (fresh_record uuid command queued now) m a q
  step-Kept codec (begins at now uuid command (some id)) m a q =
      (begin-Kept at now uuid command id a).at m q
  step-Kept codec (transitions now id phase) m a q = (amend-Kept id (moved phase now) a).at m q
  step-Kept codec (succeeds now id result ended_by) m a q = (amend-Kept id _ a).at m q
  step-Kept codec (fails now id error ended_by) m a q = (amend-Kept id _ a).at m q
  step-Kept codec (persists at now w size r) m a q = (persist-Kept at now codec w size r a).at m q
  step-Kept codec (marks now w size id) m a q =
      (mark_response_created-Kept now codec w size id a).at m q
  step-Kept codec (reads at is_readable message id include_result) m a q =
      subst Q
        (sym (
          status_from-same codec is_readable message id include_result
            (find (has_id id) (prune at m).records) (prune at m)))
        (k.on_prune at m q)

  pub run-Kept :
      (codec : Codec) (ss : List (Step R)) (m : Registry R)
      → All (Allowed Q T N) ss
      → Q m
      → Q (run codec ss m)
  unfolding run
  run-Kept codec [] m a q = q
  run-Kept codec (s ∷ ss) m a q = run-Kept codec ss (step codec s m) a.1 (step-Kept codec s m a.0 q)
