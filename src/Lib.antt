-- ===== src/Lib.antt =====
-- Verification of the core of PrimitiveBox, a runtime that lets agents call primitives with
-- checkpoints, verification and recovery. The program's part that decides what may run, what
-- counts as done and what happens after a failure is modelled from its Go source; the calls out
-- of it (tools, databases, HTTP) are parameters.
--
-- Parts and files. Errors: Go's error values with errors.Is. Json: decoded JSON as the code reads
-- it. Cvr: internal/cvr. Cvr/Tree is recovery_tree.go (Decide, NewDefaultDecisionTree),
-- Cvr/Coordinator is coordinator.go (Execute = layer_a, then run_primitive, layer_b and
-- conclude), Cvr/TestSuite is strategy_test_suite.go.
--
-- Orchestrator: internal/orchestrator. Recovery, Tracker, Replay and AppVerify are the files of
-- these names (state.go for Tracker). engine.go is in Adapter (cvrExecutorAdapter) and Engine:
-- Intent (inferPrimitiveIntent, resolveVerifyStrategy), Rollback (executeDeclaredRollback and its
-- helpers), Attempt (one round of executeStepWithRecovery: attempt_step is the coordinator's run,
-- the trace record, judge_round; recover and finish are the two switches), Loop (the loop over
-- the attempts and ExecuteStepViaCVR) and Run (RunTask, CreateTask).
--
-- Control and Control/Store: internal/control/goal_store.go, whose methods keep their names in
-- lower case. Goal, Goal/Coordinator and Goal/Verification: internal/goal/coordinator.go
-- (Execute, Resume, executeSteps, finalizeAfterExecution) and verification_runner.go (Run).
--
-- How they interact: the goal coordinator runs each step of a goal by execute_step_via_cvr of the
-- engine; the engine runs each attempt by execute of the CVR coordinator, over an adapter of its
-- executor; the coordinator calls the executor, the manifest store and the verification strategy.
-- State is passed explicitly: a world W of the executor, wrapped by the adapter's memory, beside
-- the tables of the goal store.
--
-- Bounds and fuel. The retry loop is a recursion on the number of attempts that are left, the
-- retry limit and one more, which is what the loop condition allows; the loops over steps,
-- reviews and verifications are recursions on the lists. Counters are natural numbers: they stay
-- far below the width of an int.
--
-- Parameters: the executors, stores, strategies and registries are records of functions over the
-- state, about which nothing is assumed; the database may answer any statement with an error in
-- any state, and its uniqueness constraints are written out; the check of a goal's verification
-- and the random ids are functions. Not modelled: time and durations, log lines, the numbers
-- rendered in a few error messages, concurrent writers of one goal, the decoding of stored rows,
-- and the parts of the system that are I/O or glue (the Docker and Kubernetes drivers, RPC
-- server, command line, the other system primitives).
--
-- Goal/Replay is Replay of internal/goal/coordinator.go. Eventing is
-- internal/eventing/eventing.go (Publish, Subscribe and the cancellation), with the buffers of
-- the channels written out. The goal store keeps the events that it publishes in a list of its
-- own.
--
-- Apps: the app primitives. Apps/Normalize and Apps/Schema are NormalizeAppPrimitiveManifest of
-- internal/primitive/app_manifest.go, Apps/Memory its registry in memory, Apps/Sqlite the one of
-- internal/control/app_registry.go, whose transactions are sequences of statements that may fail;
-- Apps/Contract says what an operation of either makes of the manifests under their names. What
-- Go's strings package does there is in Prelude/Strings: ToLower knows the ASCII letters, and %q
-- escapes quotes and backslashes.
--
-- Sandbox: internal/sandbox. Config is applySandboxDefaults, mergeSandboxState and computeExpiry,
-- Store is store.go with the errors that another store may give, Manager and Manager/Operations
-- are the methods of Manager over a driver, Drivers is RouterDriver of router.go, and Router is
-- Router of that file, with the adapter of internal/goal/executor_adapter.go through which the
-- engine calls it. Times are in seconds, and durations wrap around like an int64 of nanoseconds;
-- adding one to a time is taken not to overflow. The clock is read once in an operation.
--
-- Packages: internal/pkgmgr. Descriptor is ValidateBoxfile and BoxfileToManifest of boxfile.go,
-- Installer and Installer/Running are the methods of installer.go, with Registry for the built-in
-- packages, over a store of packages like that of store.go, whose statements may fail, and over
-- the files, processes and health checks of the host. Times of installation are left out, and
-- what is only logged.
--
-- SafeEdit: macro.safe_edit of internal/primitive/macro.go, over the primitives that it calls,
-- which are parameters, as is the UTF-8 encoding of a string.

pub mod Prelude
pub mod Errors
pub mod Json
pub mod Cvr
pub mod Orchestrator
pub mod Control
pub mod Goal
pub mod Eventing
pub mod Apps
pub mod Sandbox
pub mod Packages
pub mod SafeEdit
pub mod Tests
