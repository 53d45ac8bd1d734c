-- ===== src/Operations/Registry/Steps.antt =====
-- Any sequence of calls of the registry of src/operations/registry.ts.
use stage5_browser.Base.{ℕ, Bool, Option, List, [], ◌∷◌}
use stage5_browser.Text.{Text}
use stage5_browser.Errors.{SerializedError}
use stage5_browser.Operations.{Phase, Recovery, JournalRecord}
use stage5_browser.Operations.Journal.{Codec, Write}
use stage5_browser.Operations.Registry.{
  Registry, reserve, begin, transition, succeed, fail, persist, mark_response_created, status,
}

-- One call, with what it reads of the clock, of `randomUUID` and of the file system.
pub data Step (R : Type 0) : Type 0 where
  reserves : (at now : ℕ) (uuid command : Text) → Step R
  begins : (at now : ℕ) (uuid command : Text) (id : Option Text) → Step R
  transitions : (now : ℕ) (id : Text) (phase : Phase) → Step R
  succeeds : (now : ℕ) (id : Text) (result : R) (recovery : Recovery) → Step R
  fails : (now : ℕ) (id : Text) (error : SerializedError) (recovery : Recovery) → Step R
  persists : (at now : ℕ) (w : Write) (size : ℕ) (r : JournalRecord) → Step R
  marks : (now : ℕ) (w : Write) (size : ℕ) (id : Text) → Step R
  reads : (at : ℕ) (is_readable : Bool) (message id : Text) (include_result : Bool) → Step R

module _ {R : Type 0} where
  unfoldable pub step : Codec → Step R → Registry R → Registry R
  unfolding reserve begin transition succeed fail persist mark_response_created status
  step codec (reserves at now uuid command) m = (reserve at now uuid command m).0
  step codec (begins at now uuid command id) m = (begin at now uuid command id m).0
  step codec (transitions now id phase) m = (transition now id phase m).0
  step codec (succeeds now id result recovery) m = (succeed now id result recovery m).0
  step codec (fails now id error recovery) m = (fail now id error recovery m).0
  step codec (persists at now w size r) m = (persist at now codec w size r m).0
  step codec (marks now w size id) m = (mark_response_created now codec w size id m).0
  step codec (reads at is_readable message id include_result) m =
      (status at codec is_readable message id include_result m).0

  unfoldable pub run : Codec → List (Step R) → Registry R → Registry R
  unfolding step
  run codec [] m = m
  run codec (s ∷ ss) m = run codec ss (step codec s m)
