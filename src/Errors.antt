-- ===== src/Errors.antt =====
-- src/errors.ts: the errors that the tools report. Of `details`, the texts that the program reads back.
use stage5_browser.Base.{Bool, List}
use stage5_browser.Text.{Text}

-- `Stage5BrowserErrorCode`
pub data ErrorCode : Type 0 where
  ambiguous_target auth_handoff_required auth_handoff_unavailable : ErrorCode
  auth_not_persisted browser_not_ready invalid_file invalid_url : ErrorCode
  mcp_restart_required no_active_page operation_failed operation_timeout : ErrorCode
  postcondition_failed target_not_found worker_disconnected worker_start_failed : ErrorCode

-- `SerializedStage5BrowserError`
pub record SerializedError : Type 0 where
  pub code : ErrorCode
  pub message : Text
  pub recoverable : Bool
  pub details : List (Text × Text)
