-- ===== src/Lib.antt =====
-- Models and proofs for GuGuManager, a control plane for game servers written in Go: the parts that
-- decide who may do what, when, and how often, and what is remembered about it.
--
-- The control plane keeps servers, nodes, users, backups and operations in a store
-- (internal/store). A request is checked (identity, idempotency key, node, lifecycle), queues an
-- operation and starts a worker that begins, continues and ends it under the lock of the store.
-- Login and other sensitive requests pass an attempt limiter first (internal/identity). Agents on the
-- nodes report console lines and metrics, which the store buffers and broadcasts, and keep a journal
-- of the tasks that they have run (internal/agent), by which they answer a task that is delivered
-- again. What requests name in the directory of a server is a normalized path (internal/files).
--
-- Base: native numbers, Boolean tests, lists, texts, and Go maps as association lists whose order is
-- the order in which `range` visits them; the theorems hold for every order.
--
-- Limiter: internal/identity/login_limiter.go. State has the records, `prune`, `retryAfter` and
-- `storeOrDelete`; Keys has `normalizedLimitKeys`; Reserve has `Reserve` and `ensureCapacity`;
-- Complete has the completions, `Allow`, `RecordFailure` and `Reset`. The clock is an argument. Sound
-- and its children, Budget, Flight, Ledger, Checks, Blocks and Lockout hold the proofs.
--
-- Store: the memory adapter of internal/store. Types has the records of internal/domain and `Memory`
-- with the fields that the calls use; Exec is the monad of calls, which may fail and keep what they
-- wrote; Metadata, Idempotency, Liveness, Power and Finish are from operations.go, node_liveness.go and
-- network_startup.go; Access is from identity.go; Backups is from backups.go; Allocations is from
-- network_startup.go. Each call, and each section that a worker runs under the lock, is one function
-- on `Memory`. The background job of a call is not part of it: its sections may run at any time between other calls, or never. Digests and new
-- identifiers are fields of a request; the startup template of a server, the checksum and the manifest
-- digest of a backup are parameters. The audit event that a call writes after it gave up the lock is
-- written in the same step. Lifecycle, Exclusion, Replay, Denial and Rights hold the
-- proofs.
--
-- Identity: users, sessions and tokens in the memory adapter. State has the records and the fields of
-- `Memory` that these calls use; Names, Access, Users, Updates, Resets, Members and Queries are from
-- internal/store/identity.go, Members also from enrollment_tokens.go, Tokens from access_tokens.go,
-- and Sessions from memory.go. A call that gives up the lock in between is a function of its parts:
-- the part that writes has a function of its own, `finish_setup` for `SetupAdmin`, and Runs has these
-- parts as the steps of a run. Drawn tokens, new identifiers and times are arguments; SHA-256, the
-- case table of Unicode, `mail.ParseAddress` and the hashing of passwords are the functions of a
-- `Platform`. The audit event that a login or logout writes after it gave up the lock is written in
-- the same step. Sorting and Grants are about the sets of permissions, Effects, Changes, Emails and
-- Admins about the users through a run, Held, KeptSessions, KeptTokens, Revoked and Credentials about
-- the credentials through a run, Logins, Renewal, Once, ConsoleTokens and ApiTokens about single
-- calls and those that follow them.
--
-- Telemetry: Console and Metrics are from internal/store/console_metrics_buffer.go, Hub is from
-- internal/store/console_hub.go. The table of console lines is a list of rows with the documented
-- meaning of the statements; whether a transaction succeeds is an argument. Window, Retention and
-- History hold the proofs.
--
-- Files: Paths is internal/files/path.go with the language's `path.Clean`, Portable the tests of
-- `ServerFS.resolve` in internal/files/filesystem.go that come before the file system. A path is a list
-- of code points, and the build is that of a Unix system. Names, Walks and Forms hold lemmas on
-- elements, on where a path leads and on what is answered; Confined and Settled hold the theorems.
--
-- Agent: Journal is from internal/agent/journal.go, and Tasks is what `executeTask` of
-- internal/agent/agent.go does with the journal and which frames it sends; the executor, the secret
-- handles and executions in flight are arguments. Eviction, Fidelity and Deliveries hold the proofs.
--
-- Numbers are unbounded: times are nanoseconds since Go's zero time, and generations, sequences and
-- counters stay far below 2^63 in the program. Loops are structural recursion: the loop over the
-- ports is on how many are left up to 65535, and a port is printed with at most five digits.
--
-- Not modelled: transport (internal/httpapi, internal/agentrpc, cmd), the SQL of the Postgres adapter
-- but for the console lines, Docker and file I/O, cryptography, the message texts of errors, and the
-- web front end (web); and, in internal/store, the creation of servers but for the choice of a port, startup values,
-- secrets, schedules, game bundles and the lists of visible servers.
pub mod Base
pub mod Files
pub mod Identity
pub mod Limiter
pub mod Store
pub mod Telemetry
pub mod Agent
