-- ===== src/Lib.antt =====
-- HealthBeat: the alert engine of the server, its rate limiter and its outbox, verified.
--
-- The server (server/internal) receives reports of hosts and keeps alerts on them. The alert engine
-- (server/internal/alertengine) evaluates a report against thresholds and rules: it opens an alert,
-- changes its level, or resolves it, and queues the notifications in the outbox
-- (server/internal/store/outbox.go) in the same transaction. While a host is in maintenance, the
-- notifications are deferred by a mark on the alert, and told when it is over.
--
-- Files:
--   Prelude/          Boolean tests, lists, counting, maps over an equality, signed numbers.
--   Alert/Types       levels, statuses, alerts, thresholds, rules, reports (internal/model,
--                     store/thresholds.go).
--   Alert/Table       the statements of store/alerts.go and Outbox.Enqueue, as functions on tables.
--   Alert/World       the database with failing calls, the clock, other sessions; InTx and Savepoint
--                     (alertengine/stores.go, store/tx.go).
--   Alert/Recipients, Alert/Change, Alert/Flush
--                     alertengine/dispatch.go: prepare and deliverable; change and resolveAndNotify;
--                     FlushDeferred.
--   Alert/HostState, Alert/Engine
--                     alertengine/engine.go: loadState; sustained, clearPending, open, changeLevel,
--                     apply.
--   Alert/Reconcile, Alert/Metrics, Alert/Conditions, Alert/StatusAlerts, Alert/Evaluate
--                     the rest of engine.go, status.go and numeric.go: reconcile; disks, mounts and
--                     containers; services, RAID, time and flags; EvaluateReport, EvaluateMetrics,
--                     EvaluateDocker, ResolveOffline, RaiseOffline.
--   Alert/Operations  the entry points as data, and sequences of them.
--   Alert/Keeps, Alert/Yields, Alert/Calm
--                     rules to reason about actions: what every action keeps, what its result is, and
--                     what it does where nothing fails.
--   Alert/Preserved/  one lemma for each function of the engine: it keeps what the changes keep.
--   Alert/Invariants/ invariants of the tables, by statement.
--   Alert/Atomic, Alert/Announced, Alert/Reasons, Alert/Delivery, Alert/Maintenance,
--   Alert/Guarantees, Alert/Lookup, Alert/LevelAfter (with its children), Alert/Waiting
--                     the theorems.
--   Alert/Fixtures, Alert/Examples
--                     a small installation; tests and instances at concrete inputs.
--
-- Beside the engine:
--   RateLimit/        server/internal/ratelimit/ratelimit.go: the limiter (Limiter), its tokens
--                     (Tokens), how many calls it grants (Granted), its answers (Answers), the panel's
--                     view (Snapshot). A token is counted in units of 1 / (nanoseconds of a minute), exactly; the source rounds
--                     in `float64`.
--   Outbox/           server/internal/outbox/worker.go and server/internal/store/outbox.go: the queue's
--                     statements (Queue), the delivery of a row (Worker), the wait (Backoff), the
--                     lease (Lease), what becomes of a row (Settled), the rounds of the worker
--                     (Rounds) and their end (Weight, Ends), the purge (Purge). Whether a message can
--                     be sent and whether its outcome is stored are parameters. The fuel of a round
--                     is above the attempts that the rows have left, which is enough (Ends).
--   Access/           server/internal/access/access.go: the scope of a request (Scope), what it
--                     promises (Directory), that it keeps it (Refines), and that answers last
--                     (Settles, Kept, Stable). The stores are parameters.
--   PullScheduler/    server/internal/pullscheduler/scheduler.go: the steps under the scheduler's lock
--                     (Scheduler), that a host has one poll at a time and is polled when due
--                     (InFlight), the times of its polls (Spacing).
--   Ingest/           server/internal/model/ingest_v4.go: texts (Text; cleanText of model/model.go), the
--                     sections of a report (Types), single values (Ranges), the loop of the lists
--                     (Entries), the sanitizers (Lists, Sections, Timed), what they guarantee
--                     (Storable, Sanitized) and leave alone (Unchanged), the state kept from report to
--                     report (State; oomIncreased of ingest/ingest.go). The reading and printing of
--                     RFC 3339 times is a parameter.
--   ClientIp/         server/internal/clientip/clientip.go: the resolver (Resolver), what a header
--                     counts for (Forwarded), the lookups of proxies (Lookups). Addresses and prefixes
--                     are numbers; net/netip and the name service are parameters.
--   Maintenance/      server/internal/maintenance: windows, their exceptions and the end of unbroken
--                     maintenance (Window, Exceptions, Coverage); which windows are accepted
--                     (Validate, Fields, Accepted); the days of recurring windows (Calendar), the rounds of the
--                     weekly loop (Days, Weeks, Earliest), the next day (Next). The fuel of the loops
--                     is three rounds or more. The instant of a wall time is not modelled, so the
--                     occurrences of recurring windows are a parameter.
--   Version/          server/internal/version/version.go: the comparison of versions (Compare), as numbers
--                     (Numeric), from both sides (Reversed).
--   Retention/        server/internal/retention/retention.go and server/internal/store/purge.go: the
--                     purge of a table in batches and of all tables (Purge), what a purge deletes
--                     (Batches). The fuel of a purge is above the number of rows.
--   OfflineMonitor/   server/internal/offlinemonitor/monitor.go, with ListStale and MarkOffline of
--                     store/hosts.go: a check (Monitor), that a silent host is told of, once (Silent).
--
-- Correspondence. A function of the source keeps its name, with `_` for case; a method that is a
-- loop or a long body is several functions. A call of the database is an action on the world. The
-- world has a list that tells for each coming call whether it fails, and a list of turns: before a
-- call outside a transaction, time passes and other sessions commit statements of their own on the
-- alerts: the statements of the engine and of the panel's acknowledgement, a batch of the retention
-- of resolved alerts, the deletion of a host. Other sessions' rows of the outbox (password resets)
-- are not modelled. A transaction is not interleaved: its statements see what it wrote, and a failure in it goes back to
-- the tables at its start.
--
-- Choices. Times are nanoseconds since the epoch, durations are not negative (the source validates
-- them). A UUID is a number, and a new alert takes the next one. A `float64` reading or level is a
-- signed number of thousandths: the engine only compares them; NaN is not modelled. Go iterates over
-- a map in no fixed order: here it is the order of the list. Tables that the engine only reads
-- (thresholds, rules, recipients, hosts, metrics) do not change during a run. Loops are structural
-- recursion on lists, so no fuel is needed.
--
-- Parameters of the engine: the maintenance calendar (`in_window`), the text of messages (`build_message`), the
-- resolution of recipients, thresholds and rules, and the parsing of a time's text.
--
-- Not modelled: logging, the panel, the HTTP handlers, the SQL of other tables, the text of messages,
-- encryption of secrets, TLS, and the agent.
mod Prelude
pub mod Alert
pub mod RateLimit
pub mod Outbox
pub mod Access
pub mod PullScheduler
pub mod Ingest
pub mod ClientIp
pub mod Maintenance
pub mod Retention
pub mod Version
pub mod OfflineMonitor
