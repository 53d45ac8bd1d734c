-- ===== src/Supervisor/Transport.antt =====
-- The table of open requests of src/supervisor/transport.ts, with the telemetry that answers bring. A
-- timer that fires, a message that cannot be sent, an answer and the end of a worker are events.
pub mod Settlement
use stage5_browser.Base.{
  ℕ, ◌+◌, ◌-◌, Bool, true, false, not, ◌&&◌, Option, none, some, List, [], ◌∷◌, ◌++◌, ◌==◌,
  if◌then◌else◌, length, drop,
}
use stage5_browser.Text.{Text, text_eq}
use stage5_browser.Table.{find, rows, upsert}
use stage5_browser.Errors.{ErrorCode, operation_timeout, worker_disconnected}

-- `PendingRequest`, by its id. The worker is a number.
pub record PendingRequest : Type 0 where
  pub id : Text
  pub child : ℕ
  pub telemetry_operation_id : Option Text

-- `LateTelemetryRequest`, by its id.
pub record LateTelemetryRequest : Type 0 where
  pub id : Text
  pub child : ℕ
  pub telemetry_operation_id : Text

-- What the promise of a request comes to.
pub data PromiseState : Type 0 where
  resolved : PromiseState
  rejected : ErrorCode → PromiseState

-- `settled` is every promise that was resolved or rejected, in order.
pub record Transport (T : Type 0) : Type 0 where
  pub child : Option ℕ
  pub pending : List PendingRequest
  pub late : List LateTelemetryRequest
  pub telemetry : List (Text × T)
  pub settled : List (Text × PromiseState)

-- An answer of a worker: whether it is an error, and its telemetry.
pub record WorkerResponse (T : Type 0) : Type 0 where
  pub id : Text
  pub error : Option ErrorCode
  pub telemetry : Option T

abbrev pub has_request_id : Text → PendingRequest → Bool
has_request_id id e = text_eq id e.id

abbrev pub has_late_id : Text → LateTelemetryRequest → Bool
has_late_id id e = text_eq id e.id

abbrev pub of_child : ℕ → PendingRequest → Bool
of_child child e = child == e.child

abbrev pub without : Text → List PendingRequest → List PendingRequest
without id es = rows (λ e. not (has_request_id id e)) es

-- The late request that a timeout leaves.
abbrev late_of : PendingRequest → List LateTelemetryRequest → List LateTelemetryRequest
late_of e ls = elim e.telemetry_operation_id [
  | none ↦ ls
  | some operation ↦
      let l : LateTelemetryRequest = record {
        id = e.id;
        child = e.child;
        telemetry_operation_id = operation;
      } in
      upsert (has_late_id e.id) (λ _. l) l ls
]

abbrev pub settlement_of : Option ErrorCode → PromiseState
settlement_of none = resolved
settlement_of (some code) = rejected code

abbrev is_child : Option ℕ → ℕ → Bool
is_child none child = false
is_child (some c) child = c == child

-- Every request of the worker is rejected.
abbrev pub rejections : List PendingRequest → List (Text × PromiseState)
rejections [] = []
rejections (e ∷ es) = (e.id, rejected worker_disconnected) ∷ rejections es

module _ {T : Type 0} where
  abbrev of_operation : Text → Text × T → Bool
  of_operation operation t = text_eq operation t.0

  -- The oldest go until two hundred are left.
  abbrev newest : List (Text × T) → List (Text × T)
  newest ts = drop (length ts - 200) ts

  -- `captureWorkerTelemetry`
  abbrev captured : Text → Option T → List (Text × T) → List (Text × T)
  captured operation none ts = ts
  captured operation (some t) ts =
      newest (upsert (of_operation operation) (λ _. (operation, t)) (operation, t) ts)

  abbrev captured_if : Option Text → Option T → List (Text × T) → List (Text × T)
  captured_if none t ts = ts
  captured_if (some operation) t ts = captured operation t ts

  -- `request`, once the worker is connected: the id is fresh, or replaces the request of that id.
  unfoldable pub request : Text → Option Text → Transport T → Transport T
  unfolding upsert text_eq
  request id operation m = elim m.child [
    | none ↦ m
    | some child ↦
        let e : PendingRequest = record {
          id = id;
          child = child;
          telemetry_operation_id = operation;
        } in
        record m { pending = upsert (has_request_id id) (λ _. e) e m.pending }
  ]

  -- The deadline of a request passes.
  unfoldable pub expire : Text → Transport T → Transport T
  unfolding find rows upsert text_eq
  expire id m = elim (find (has_request_id id) m.pending) [
    | none ↦ m
    | some e ↦ record m {
      pending = without id m.pending;
      late = late_of e m.late;
      settled = m.settled ++ (id, rejected operation_timeout) ∷ [];
    }
  ]

  -- The callback of `child.send`, with an error.
  unfoldable pub fail_send : Text → Transport T → Transport T
  unfolding find rows text_eq
  fail_send id m = elim (find (has_request_id id) m.pending) [
    | none ↦ m
    | some e ↦ record m {
      pending = without id m.pending;
      settled = m.settled ++ (id, rejected worker_disconnected) ∷ [];
    }
  ]

  -- `handleResponse` for a request that is no longer open.
  unfoldable pub handle_late : ℕ → WorkerResponse T → Transport T → Transport T
  unfolding find rows upsert text_eq
  handle_late child r m = elim (find (has_late_id r.id) m.late) [
    | none ↦ m
    | some l ↦
        if l.child == child
        then record m {
          late = rows (λ x. not (has_late_id r.id x)) m.late;
          telemetry = captured l.telemetry_operation_id r.telemetry m.telemetry;
        }
        else m
  ]

  unfoldable pub handle_response : ℕ → WorkerResponse T → Transport T → Transport T
  unfolding find rows upsert text_eq handle_late
  handle_response child r m = elim (find (has_request_id r.id) m.pending) [
    | none ↦ handle_late child r m
    | some e ↦
        if e.child == child
        then record m {
          pending = without r.id m.pending;
          telemetry = captured_if e.telemetry_operation_id r.telemetry m.telemetry;
          settled = m.settled ++ (r.id, settlement_of r.error) ∷ [];
        }
        else m
  ]

  -- `handleWorkerFailure`
  unfoldable pub handle_worker_failure : ℕ → Transport T → Transport T
  unfolding rows
  handle_worker_failure child m = record m {
    child = if is_child m.child child then none else m.child;
    pending = rows (λ e. not (of_child child e)) m.pending;
    settled = m.settled ++ rejections (rows (of_child child) m.pending);
  }

  -- The timer of a late request fires.
  unfoldable pub expire_late : Text → Transport T → Transport T
  unfolding rows text_eq
  expire_late id m = record m { late = rows (λ l. not (has_late_id id l)) m.late }

-- What may happen, in any order. `forks` is a new worker.
pub data Event (T : Type 0) : Type 0 where
  forks : (child : ℕ) → Event T
  requests : (id : Text) (operation : Option Text) → Event T
  expires fails_to_send late_expires : (id : Text) → Event T
  responds : (child : ℕ) (r : WorkerResponse T) → Event T
  ends : (child : ℕ) → Event T

module _ {T : Type 0} where
  unfoldable pub step : Event T → Transport T → Transport T
  unfolding request expire fail_send handle_response handle_worker_failure expire_late
  step (forks child) m = record m { child = some child }
  step (requests id operation) m = request id operation m
  step (expires id) m = expire id m
  step (fails_to_send id) m = fail_send id m
  step (late_expires id) m = expire_late id m
  step (responds child r) m = handle_response child r m
  step (ends child) m = handle_worker_failure child m

  unfoldable pub run : List (Event T) → Transport T → Transport T
  unfolding step
  run [] m = m
  run (e ∷ es) m = run es (step e m)

  abbrev pub no_requests : Transport T
  no_requests = record { child = none; pending = []; late = []; telemetry = []; settled = [] }
