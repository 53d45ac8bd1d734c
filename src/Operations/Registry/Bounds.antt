-- ===== src/Operations/Registry/Bounds.antt =====
-- How many records the registry of src/operations/registry.ts holds.
use stage5_browser.Base.{
  ℕ, suc, ◌-◌, ◌≤◌, ◌≡◌, inl, inr, Bool, none, some, List, [], ◌∷◌, not, length, All, length-drop,
  length-append, arith, Bool-cases,
}
use stage5_browser.Table.{rows, update, upsert, exists}
use stage5_browser.Operations.Journal.{Codec}
use stage5_browser.Operations.Registry.{
  Registry, max_memory_records, has_id, prune, newest, is_expired,
}
use stage5_browser.Operations.Registry.Preserves.{Preserved, Allowed, run-Kept}
use stage5_browser.Operations.Registry.Steps.{
  Step, run, reserves, begins, transitions, succeeds, fails, persists, marks, reads,
}

module _ {A : Type 0} where
  pub length-rows : (p : A → Bool) (xs : List A) → length (rows p xs) ≤ length xs
  unfolding rows
  length-rows p [] = omega arith
  length-rows p (x ∷ xs) = ground (arith, length-rows p xs)

  pub length-update : (p : A → Bool) (f : A → A) (xs : List A) → length (update p f xs) ≡ length xs
  unfolding update
  length-update p f [] = omega arith
  length-update p f (x ∷ xs) = omega (arith, length-update p f xs)

  length-upsert :
      (p : A → Bool) (f : A → A) (a : A) (xs : List A) → length (upsert p f a xs) ≤ suc (length xs)
  unfolding upsert
  length-upsert p f a xs = elim (Bool-cases (exists p xs)) [
    | inl e ↦ rw e (omega (arith, length-update p f xs))
    | inr e ↦ rw e (omega (arith, length-append xs (a ∷ [])))
  ]

module _ {R : Type 0} where
  -- No more than the limit, and the record that was added since.
  abbrev pub IsBounded : Registry R → Type 0
  IsBounded m = length m.records ≤ suc max_memory_records

  pub length-prune : (at : ℕ) (m : Registry R) → length (prune at m).records ≤ max_memory_records
  unfolding prune newest
  length-prune at m =
      let kept = rows (λ r. not (is_expired at r)) m.records in
      omega (arith, length-drop (length kept - max_memory_records) kept)

  Bounded-Preserved : Preserved {R = R} IsBounded (λ id f. Unit {0}) (λ r. Unit {0})
  Bounded-Preserved = record {
    on_prune = λ at m q. omega (arith, length-prune at m);
    on_put = λ at r m a q. omega (
      arith,
      length-prune at m,
      length-upsert (has_id r.operation_id) (λ _. r) r (prune at m).records,
    );
    on_update = λ id f m a q. omega (arith, length-update (has_id id) f m.records);
    on_journal = λ journal m q. q;
    on_remember = λ r m q. q;
  }

  any_step-Allowed : (s : Step R) → Allowed IsBounded (λ id f. Unit {0}) (λ r. Unit {0}) s
  any_step-Allowed (reserves at now uuid command) = tt
  any_step-Allowed (begins at now uuid command none) = tt
  any_step-Allowed (begins at now uuid command (some id)) = tt
  any_step-Allowed (transitions now id phase) = tt
  any_step-Allowed (succeeds now id result ended_by) = tt
  any_step-Allowed (fails now id error ended_by) = tt
  any_step-Allowed (persists at now w size r) = tt
  any_step-Allowed (marks now w size id) = tt
  any_step-Allowed (reads at is_readable message id include_result) = tt

  any_steps-Allowed :
      (ss : List (Step R)) → All (Allowed IsBounded (λ id f. Unit {0}) (λ r. Unit {0})) ss
  any_steps-Allowed [] = tt
  any_steps-Allowed (s ∷ ss) = (any_step-Allowed s, any_steps-Allowed ss)

  -- Whatever calls are made on a registry within the bound, failing ones and failing writes of the
  -- journal included, it holds at most 201 records: two hundred, and the one that was added last.
  pub run-IsBounded :
      (codec : Codec) (ss : List (Step R)) (m : Registry R)
      → length m.records ≤ suc max_memory_records
      → length (run codec ss m).records ≤ suc max_memory_records
  run-IsBounded codec ss m h = run-Kept Bounded-Preserved codec ss m (any_steps-Allowed ss) h
