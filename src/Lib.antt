-- ===== src/Lib.antt =====
-- A verification library for the Mazzy Command Center, a control plane that lets agents work on
-- tasks: workers and reviewers are bound to a task, a review gate guards DONE, and control
-- requests (GO, PAUSE, STOP) pass from the dashboard to the agents.
--
-- Types models src/types.ts: the states of tasks, bindings and control requests, and the table of
-- allowed transitions. Store models the durable store of src/store.ts. `Store.Rows` has its tables
-- as lists of records in the order of their rowids, one record type for each table, and the errors
-- that the code throws. `Store.Queries` has the private helpers, `Store.Tasks` `createTask` and
-- `updateTask`, `Store.Runs` `assignRun` and `transferRun`, `Store.Reports` `attestCompletion` and
-- `importReviewReport`, `Store.Evidence` `recordReviewerEvidence` and `recordEvidence`, and
-- `Store.Control` the operations on control requests. `Store.System` is the transition system that
-- these operations make. The children of each module hold what is proved of it, and the modules
-- named Tests run the definitions on small inputs.
--
-- Routing models src/routing.ts: `Routing.Policy` has the validation of an untrusted policy and
-- `Routing` the choice of an agent. `toLowerCase` and SHA-256 are parameters there.
--
-- ControlResolve models src/control-resolve.ts: `resolve_control_db` is a function of what was
-- observed of the environment, the project and its journal (`Observed`).
--
-- AntiTunnel models src/anti-tunnel.ts: the bounded scan over a tree of directories (`scan_stores`),
-- the report (`inspect_single_mechanism`) and the two gates. What the resolver of the control
-- database, `sameFile` and the check of the drift answer is a parameter (`Surroundings`); the texts
-- that explain a gate are left out.
--
-- Graph models `mergeDeltas` and `sweepDangling` of src/graph-model.ts; weights are natural numbers.
--
-- Storage models src/storage-policy.ts: `Storage.Policy` the validation of the policy, `Storage.Scan`
-- the bounded scan and the walk to a directory, `Storage.Quota` the quota report, `Storage.Cleanup`
-- the cleanup of scratch files and `Storage.Receipt` the receipt. What the file system's calls return
-- is data, the clock is a function of the number of its readings, and an exception keeps the state
-- at which it was thrown. Times of files are exact where the code rounds them to floating numbers.
--
-- Registry models src/project-registry.ts: `Registry.Parse` the reading of the registry and its key,
-- `Registry.Files` the private directory, its files and its lock, `Registry.Enroll` the enrolment and
-- the assertion, and `Registry.Forget` the removal. The disk is a record of the registry's files as
-- the calls show them (`Disk`), and what the calls return is a record of the host (`Host`).
--
-- Endpoint models src/control-endpoint.ts: the journal of a promotion, the witness and the marker
-- of a cutover, and the stamp of a database; `Endpoint.Trust` has the tests of real directories.
-- Migrate models src/control-migrate.ts on top of it: a world (`World`) has the legacy store, the
-- canonical one, its backup and that evidence. `Migrate.Apply` has the promotion, `Migrate.Cutover`
-- the activation and the deactivation, `Migrate.Rollback` the rollback, `Migrate.Drift` the
-- comparison of the stores' times; which of the calls fail is a record of the host. A database is
-- the tables that are read of it, and the advisory lock is free, busy or cannot be made. What a
-- copy of a store's one file shows, without the write-ahead log beside it, is a function of the
-- host; the options `source` and `root` are left out. `Migrate.Selected` computes what the resolver
-- of ControlResolve observes of a world.
--
-- An operation of the store takes the database and returns it with its reply, or an error; `tx`
-- rolls a transaction back when it throws, so an error has no database. SQL is read as selections
-- and updates of lists (`Prelude.Tables`), and a constraint of the schema is a test before an
-- insertion. The readings of the clock, the random UUIDs and SHA-256 are parameters (`Env`),
-- without any hypothesis on them. Texts are lists of UTF-16 code units, times are milliseconds, and
-- UUIDs are numbers, whose order is that of their texts. All recursion is structural, so there is
-- no fuel.
--
-- Not modelled: the comments of a task and the reported activity of a run, which are therefore no
-- steps of `Store.System`; the projections that only read, the decoding of rows, the migration of
-- old schemas, the search for a policy file, facets and the scan for host paths of the graph, the
-- HTTP server, the extension's entry points, the file system and git.
pub mod AntiTunnel
pub mod ControlResolve
pub mod Endpoint
pub mod Graph
pub mod Migrate
pub mod Prelude
pub mod Registry
pub mod Routing
pub mod Storage
pub mod Store
pub mod Types
