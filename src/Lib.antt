-- ===== src/Lib.antt =====
-- Stage5 Browser lets an agent operate a browser. The parts of it that decide on their own, without
-- a browser, are modelled here: the supervisor that runs commands in a worker with the registry and
-- the journal of operations, the moves and the policy that say what an agent may do, the phases of
-- one action, and the store of the Agent Lounge.
--
-- The supervisor (src/supervisor) takes a command, begins an operation for it in the registry
-- (src/operations/registry.ts) and runs it in its queue (src/serial-queue.ts): it starts the worker if
-- there is none, sends the request, and ends the operation, in the registry and in the journal
-- (src/operation-journal.ts), with the result or with the error. After a timeout or a lost worker it
-- replaces the worker.
--   Supervisor                 the state of `BrowserSupervisor`; what a worker answers, what the clock
--                              reads and what becomes of a write are inputs (`replies`, `Host`)
--   Supervisor.Policy          policy.ts: deadlines, what is captured of a result, the diagnostics that
--                              the journal may hold; `serializeUnknownError` of src/errors.ts
--   Supervisor.Worker          worker-lifecycle.ts, and transport.ts for one open request
--   Supervisor.Transport       transport.ts for any number of open requests, with timers, answers,
--                              failures and exits as events, and the telemetry that is captured
--   Supervisor.Transport.Settlement    a request is settled once
--   Supervisor.AgentContext    agent-context.ts and the store of agent-context-store.ts
--   Supervisor.Execute         `execute`, `reserveOperation` and `close` of execute.ts
--   Supervisor.ForceRecover    `forceRecover` of execute.ts
--   Supervisor.Conclusions     how the operation of a command ends
--   Supervisor.Registered      what keeps the registry's records, and
--   Supervisor.Reports         that a registered command ends with its result or its error
--   Supervisor.Replacement     what replacing the worker does to the workers, and
--   Supervisor.HardRecovery    when it is done
--   Supervisor.Authentication  what is left alone while a person authenticates
--   SerialQueue                the chain of promises, with calls, starts and ends as events
--   SerialQueue.Order          one operation at a time, in the order of the calls
--   SerialQueue.Progress       no call waits for ever
--   Operations                 the records of src/operations/types.ts
--   Operations.Registry        every method of `OperationRegistry`; `Steps` is any sequence of calls,
--                              and `Preserves` the rule for what they keep
--   Operations.Registry.Reservation, Bounds, Status    what the registry promises
--   Operations.Journal         the file of one JSON line for each operation, with its compaction
--   Operations.Journal.Lookup  reading back what was appended, and
--   Operations.Journal.Later   what later appends leave of it
--   Errors                     src/errors.ts
--
-- What an agent may do is decided twice: the moves that are shown to it are derived from what the
-- controller observed (src/protocol/available-moves.ts), and each command passes the guard of the
-- controller (src/controller/policy).
--   Protocol                   the commands, and their classes in src/protocol/policy.ts
--   Protocol.Contracts         command-contracts.ts: the contract of every command
--   Protocol.Moves             the types of available-moves.ts; `Requirements` has what a move needs,
--                              `Derive` the moves, and `Listing` what the list promises
--   Controller.Policy          the review policy, the guard of the handoffs, the control mode
--   Controller.Policy.Agreement    the moves that are shown against the guard
--   Controller.Risk            page-state-risk-manager.ts: pages with files that may not be saved
--   Controller.Risk.Acknowledgement    what may leave such a page
--
-- An action session (src/controller/action/phase-session.ts) follows one click or fill through its
-- phases. It is the gate that says whether input may be put in, and whether it may be tried again
-- after an attempt that proved to have put in nothing.
--   Action                     types.ts and the telemetry of a viewport preparation
--   Action.Session             every method of `ActionPhaseSession`; `call` is a call of any of
--                              them, `run` a client that goes on after a method threw
--   Action.Session.Invariant   what every session satisfies
--   Action.Session.Errors      a method that throws
--   Action.Session.Replay      what the gate allows after input
--   Action.Session.Completion  a session that ended
--   Action.Manager             phase-manager.ts: the sessions under way and the reports of those
--                              that ended; a session is named by its action id, and `active` has
--                              its present value
--   Action.Manager.Reports     what the reports say, and that a session is reported once
--
-- The Lounge store (src/lounge/store) is a SQLite database behind a worker
-- (src/lounge-store-worker.ts). Agents join a room, and each message that one sends has a delivery
-- for each recipient, which the recipient claims and acknowledges. A room has one pinned notice and
-- each member one work note, both changed by compare-and-set with idempotency keys.
--   Lounge                     the tables of schema.ts as lists of rows, and the types
--   Lounge.Model               model.ts: checks of arguments, ranks of deliveries, presence
--   Lounge.Sessions            sessions.ts and authorization.ts
--   Lounge.Messages            messages.ts: Send, Claim and Ack have one operation each
--   Lounge.Notices             notices.ts
--   Lounge.WorkNotes           work-notes.ts
--   Lounge.History             history.ts
--   Lounge.Status              status.ts
--   Lounge.Service             the requests of the worker, one after the other
--   Lounge.Preserves           a rule for invariants of the store, over every operation
--   Lounge.Fencing             the sessions of an identity
--   Lounge.Progress            the states of deliveries
--   Lounge.Errors              the store after a request that threw
--   Lounge.Retries             a send that is made again with its idempotency key
--   Lounge.Revisions           the compare-and-set of the pinned notice, and its races
--
-- Base, Text and Table have the helpers: a text is the list of its UTF-16 units, and a table is
-- searched, counted and updated by a test on rows, as the SQL statements do. Effect has methods that
-- change a state and may throw: what a method wrote before a throw stays, unless a transaction
-- (schema.ts) puts it back.
--
-- What the models rely on:
--   * `Date.now()` and `randomUUID()` are the arguments of an operation (`Host`); nothing is assumed
--     of them: an id that is taken makes the insertion of the Lounge fail, as SQLite does, and
--     replaces the record of the registry or the session of the action manager, as a map does.
--   * A text that SQLite stores is read back unchanged. This holds of every text without a lone
--     surrogate; what the conversion to UTF-8 makes of the others is not modelled.
--   * JSON in the journal, with the URL policy, is a parameter (`Codec`); a theorem that reads a
--     record back assumes that its text is one line and is parsed as the record (`IsWritable`).
--   * `localeCompare` is a parameter, of which nothing is assumed.
--   * Of a result of the worker the model has the fields that the supervisor reads, and of the
--     details of an error the texts that it reads back.
--   * While `execute` awaits the worker, its replacement or the store of contexts, others may begin,
--     reserve, end or prune operations: what they make of the registry is a parameter, one change for
--     each of these awaits (`others` of `Host`). While it writes the journal, and in all of a forced
--     recovery, no other operation changes the registry. A worker that has no reply left stays silent
--     until the deadline of the request.
--   * SHA-256 and JSON are parameters (`Setup`), and so is the list of managers.
--   * Times are below 2^53 - 300001, so that their sums are exact. A timeout is in whole milliseconds.
--   * A number that a caller sends may be negative or no integer; a kind of message that is not in
--     the enumeration cannot be written down.
--   * UNIQUE and PRIMARY KEY are modelled as a failing insertion. Foreign keys hold by the statements
--     that come before in the same operation, and are not checked again.
--   * Loops run over lists, so nothing needs fuel.
--
-- Not modelled: the signals to processes in src/supervisor/transport.ts; the traces of src/supervisor/telemetry.ts; the thread of the Lounge's
-- worker, the file of its database and its retries, its service and its client; and everything that
-- drives Playwright or a native process (src/controller but for the managers above, src/mcp and the
-- profile and launch code).
pub mod Base
pub mod Text
pub mod Table
pub mod Effect
pub mod Lounge
pub mod Action
pub mod Errors
pub mod Operations
pub mod Protocol
pub mod Controller
pub mod SerialQueue
pub mod Supervisor
