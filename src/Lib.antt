-- ===== src/Lib.antt =====
-- A model of the PMEOW server: GPU machines run an agent that reports their resources and tasks, and
-- the server keeps tasks, alerts, security events and persons in SQLite tables, and answers users over
-- HTTP and sockets.
--
-- An agent's socket (server/runtime/src/realtime.ts) brings JSON, which the wire protocol guards and
-- normalises. A report then reaches the ingest pipeline (server/core/src/ingest/pipeline.ts), which
-- hands it to the task engine, to the alert engine, to the security check and to the snapshots; what
-- they find is broadcast to the users' sockets. The parts:
--
-- * Protocol (server/contracts/src/protocol.ts): Guards and Tasks are the tests, Parse is
--   `parseUnifiedReport`.
-- * Realtime (server/runtime/src/realtime.ts): Agents is the handlers of agents' sockets, Broadcast who
--   is told what.
-- * Ingest (server/core/src/ingest/pipeline.ts): Pipeline is `IngestPipeline`, which composes the
--   parts below.
-- * Alerts (server/core/src/db/alerts.ts): `reconcileAlerts` as `reconcile_alerts`, silencing and its
--   reverse, one alert or a batch, and the log of transitions.
-- * Detectors (server/core/src/alert): Thresholds and GpuIdle are the detectors of detectors.ts over
--   their parts of the state store, Offline is `detectOffline`, Engine is `AlertEngine`.
-- * Tasks (server/core/src/task, server/core/src/db/tasks.ts): Differ is `diffTasks`, Store and
--   Schedule are the tables, Engine is `TaskEngine.processReport`, Queries the filters and pages,
--   Stored the parsing of stored JSON, and Service the task service with
--   server/runtime/src/routes/task-routes.ts.
-- * Security (server/core/src/security, server/core/src/db/security-events.ts): Analyzer, Store,
--   Queries and Pipeline.
-- * Persons (server/core/src/person, server/core/src/db): Records is persons.ts, Tokens is
--   person-tokens.ts, Bindings is person-bindings.ts, Scope and Resolve are scope.ts and resolve.ts; the
--   functions of service.ts are in Wizard, AutoAdd, Directory and Timeline.
-- * Auth (server/runtime/src/auth.ts): Login and Middleware.
-- * Settings (server/core/src/db/settings.ts with its routes) and Servers (server/core/src/db/servers.ts).
-- * Routes (server/runtime/src/routes): People and Requests are person-routes.ts, Machines is
--   server-routes.ts and metrics-routes.ts, and Admin is alert-routes.ts, security-routes.ts and
--   session-routes.ts; Lists and AlertList have the lists of tasks, tokens and alerts.
-- * Nodes (server/core/src/node/registry.ts): the agents' sessions.
-- * Snapshots (server/core/src/db/snapshots.ts, server/core/src/ingest/snapshot-scheduler.ts): Store is the
--   tables, Scheduler the scheduler with the pipeline's last step.
-- * Mobile (apps/mobile/src): Notifications is who is notified of what, and the inbox.
-- * Prelude (no source): shared tests, lists, sets, tables, maps and sorting.
--
-- A table is the list of its rows in the order of insertion, with the counter of an AUTOINCREMENT key
-- beside it; UPDATE, DELETE and SELECT are maps, filters and searches of that list, and rows that an
-- ORDER BY leaves tied stay in the order of the table. A transaction that throws is `none`; of the
-- schema's constraints, the unique index and the foreign key of bindings and the unique agents of servers
-- are tested by the statements. `Date.now()`
-- is an argument, and one transaction or batch runs at one time. Times are natural numbers,
-- milliseconds for alerts and security events and whole seconds for tasks. A column of JSON is the
-- value it was made from, or its text where the server does not look inside. A JavaScript `Map` is
-- the list of its entries in the order of their first setting. What a random generator draws is an
-- argument.
--
-- Measured numbers are floating point in the program: their type is a parameter, with the comparisons,
-- sums and roundings that the code uses (`at_least`, `Measure`, `Numbers`). SHA-256, letter case,
-- `includes`, the text of a number, `trim`, bcrypt, JSON Web Tokens, `Math.trunc(Number(…))` and the
-- orders of names are parameters too (`Platform`, `AuthPlatform`, `hash_token`, `truncated`). No
-- definition runs on fuel: each loop runs over a list.
--
-- Not modelled: a throw by the unique index on open security events, statements that the server does
-- not use, the wiring of Express and Socket.IO, opening and migrating the database, and the user
-- interfaces of apps with their other stores, texts and formatting of metrics.
pub mod Prelude
pub mod Alerts
pub mod Tasks
pub mod Security
pub mod Persons
pub mod Detectors
pub mod Nodes
pub mod Protocol
pub mod Servers
pub mod Realtime
pub mod Settings
pub mod Auth
pub mod Ingest
pub mod Snapshots
pub mod Routes
pub mod Mobile
