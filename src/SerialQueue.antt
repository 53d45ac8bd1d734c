-- ===== src/SerialQueue.antt =====
-- src/serial-queue.ts: a chain of promises, one for each call of `run`, in the order of the calls. A
-- call starts its operation when the promise of the call before it is released.
pub mod Order
pub mod Progress
mod Examples
use stage5_browser.Base.{
  ℕ, zero, suc, ◌+◌, ◌-◌, Bool, true, false, Option, none, some, List, [], ◌∷◌, ◌++◌, if◌then◌else◌,
}

-- Where a call of `run` is: it awaits the one before, its operation runs, or it has released the next.
pub data Ticket : Type 0 where
  waits runs released : Ticket

-- `SerialQueue`: the chain up to `tail`, and `waiting`.
pub record Queue : Type 0 where
  pub tickets : List Ticket
  pub waiting : ℕ

-- A call of `run`; the promise of the call before is resolved; the operation ended, either way. The
-- number is that of the call.
pub data Event : Type 0 where
  calls : Event
  starts ends : ℕ → Event

abbrev pub is_released : Ticket → Bool
is_released released = true
is_released _ = false

abbrev pub prefixed : Ticket → Option (List Ticket) → Option (List Ticket)
prefixed t none = none
prefixed t (some ts) = some (t ∷ ts)

-- `await previous`, of the call of a number. The flag is whether the call before is released.
unfoldable pub start_at : Bool → ℕ → List Ticket → Option (List Ticket)
start_at previous n [] = none
start_at true zero (waits ∷ ts) = some (runs ∷ ts)
start_at previous zero (t ∷ ts) = none
start_at previous (suc n) (t ∷ ts) = prefixed t (start_at (is_released t) n ts)

-- The `finally` of the call of a number.
unfoldable pub end_at : ℕ → List Ticket → Option (List Ticket)
end_at n [] = none
end_at zero (runs ∷ ts) = some (released ∷ ts)
end_at zero (t ∷ ts) = none
end_at (suc n) (t ∷ ts) = prefixed t (end_at n ts)

abbrev pub with_tickets : ℕ → Option (List Ticket) → Option Queue
with_tickets n none = none
with_tickets n (some ts) = some (record { tickets = ts; waiting = n })

-- What an event makes of the queue: none if it cannot happen. The promise before the first call is
-- resolved.
unfoldable pub step : Event → Queue → Option Queue
unfolding start_at end_at
step calls q = some (record { tickets = q.tickets ++ waits ∷ []; waiting = q.waiting + 1 })
step (starts n) q = with_tickets q.waiting (start_at true n q.tickets)
step (ends n) q = with_tickets (q.waiting - 1) (end_at n q.tickets)

-- `get pendingCount`
abbrev pub pending_count : Queue → ℕ
pending_count q = q.waiting

abbrev pub then_step : (Queue → Option Queue) → Option Queue → Option Queue
then_step f none = none
then_step f (some q) = f q

unfoldable pub run : List Event → Queue → Option Queue
unfolding step
run [] q = some q
run (e ∷ es) q = then_step (run es) (step e q)

abbrev pub empty_queue : Queue
empty_queue = record { tickets = []; waiting = 0 }
