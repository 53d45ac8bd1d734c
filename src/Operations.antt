-- ===== src/Operations.antt =====
-- src/operations/types.ts and the record of src/operation-journal.ts. A time that the source keeps as
-- an ISO text is its milliseconds here.
pub mod Journal
pub mod Registry
mod Examples
use stage5_browser.Base.{ℕ, Bool, Option, List}
use stage5_browser.Text.{Text}
use stage5_browser.Errors.{ErrorCode, SerializedError}

-- `OPERATION_PHASES`
pub data Phase : Type 0 where
  reserved queued worker_preflight worker_request_sent worker_result_received : Phase
  terminal_result_created persistence_complete response_created : Phase

pub data OperationOutcome : Type 0 where
  succeeded failed timed_out : OperationOutcome

pub data Recovery : Type 0 where
  not_needed recovered unrecovered : Recovery

pub record OperationTiming : Type 0 where
  pub queued_at_ms : ℕ
  pub worker_request_at_ms : Option ℕ
  pub worker_response_at_ms : Option ℕ
  pub terminal_at_ms : Option ℕ
  pub persisted_at_ms : Option ℕ
  pub response_created_at_ms : Option ℕ

pub record JournalRecord : Type 0 where
  pub operation_id : Text
  pub command : Text
  pub started_at_ms : ℕ
  pub duration_ms : ℕ
  pub outcome : OperationOutcome
  pub recovery : Recovery
  pub error_code : Option ErrorCode
  pub diagnostic_cause : Option Text
  pub browser : Option Text
  pub browser_state : Option Text
  pub current_url : Option Text
  pub completed_at_ms : Option ℕ
  pub timing : Option OperationTiming

-- `result: unknown` with `hasResult` is an option.
pub record LiveRecord (R : Type 0) : Type 0 where
  pub operation_id : Text
  pub command : Text
  pub phase : Phase
  pub started_at_ms : ℕ
  pub updated_at_ms : ℕ
  pub timing : OperationTiming
  pub outcome : Option OperationOutcome
  pub recovery : Option Recovery
  pub error : Option SerializedError
  pub result : Option R

pub data StatusSource : Type 0 where
  durable memory : StatusSource

-- `phase` is absent for `durable_terminal`.
pub record OperationStatus (R : Type 0) : Type 0 where
  pub operation_id : Text
  pub command : Text
  pub phase : Option Phase
  pub source : StatusSource
  pub started_at_ms : ℕ
  pub updated_at_ms : Option ℕ
  pub timing : OperationTiming
  pub terminal : Bool
  pub outcome : Option OperationOutcome
  pub recovery : Option Recovery
  pub error : Option SerializedError
  pub result_available : Bool
  pub result : Option R
