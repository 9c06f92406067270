-- ===== src/Lib.antt =====
-- Jefferies runs CI pipelines: a document names nodes with their dependencies, a coordinator per run
-- dispatches the nodes that are ready to Kubernetes, follows them by events, timers and S3, and writes
-- its state to a store that is shared by servers and its history to a database.
--
-- The parts and their files:
-- - Pipelines: pipelines/src/pipeline.rs. The document and its nodes; `Names` and `Quantity` hold the
--   tests of texts, `Merge` the merges of secrets, `node_info` and the triggers, `Validate` the checks
--   and `from_yaml`; `Merged`, `Checks` and `Accepts` hold what they promise. The YAML parser
--   (serde_saphyr, with the derived defaults) is a parameter.
-- - Run: coordinator/src/run.rs, with NodeStatus, RunState and run_state_is_terminal of
--   state_store/src/lib.rs. `PipelineRun` is the struct; a method with `&mut self` returns the new run
--   beside its result. `Marks`, `Ready`, `Sets`, `WellFormed` and `Stored` hold the lemmas.
-- - StateStore: InMemoryStateStore of state_store/src/lib.rs. An operation holds its mutexes to the end,
--   so it is one step on the record. The counter of leases wraps at 2 ^ 64 as the `u64` does. The time to
--   live of a lease is ignored, as the code does.
-- - RunHistory, SourceManager: the data of run_history/src/lib.rs and coordinator/src/source_manager.rs
--   that the coordinator and the reaper use.
-- - PodWatcher: coordinator/src/pod_watcher.rs. `Messages` holds the texts of a failure, `Classify` the
--   reading of a pod's status, `Watch` the state of the watcher, its handlers and its loop over an
--   arbitrary list of events and commands. The dispatcher gives the watcher one namespace, so there is
--   one initial list.
-- - KubeDispatcher: coordinator/src/kube_dispatcher.rs. The module itself holds the names of objects,
--   `Vault` the annotations for secrets, `Objects` the objects, `Settings` labels, environment and
--   deadline, `Job` the job, `Dispatch` and `Listing` the operations; `Parts`, `Labels`, `Rollback` and
--   `Deadline` hold the lemmas. SHA-256 and the hexadecimal encoding
--   are parameters; the API server's answers are functions of the calls so far.
-- - Tenancy: tenancy/src/lib.rs. `Validate` holds the checks, `Build` the registries and the loaders,
--   `Names`, `Registry`, `Tenants`, `Lookup`, `Indices` and `Errors` what they promise. Files, environment
--   and YAML are parameters.
-- - Reaper: coordinator/src/reaper.rs. `Reclaim`, `Postgres` and `Sweep` hold the sweeps and the loop, over a
--   trace of calls as the coordinator's; the other children hold the lemmas.
-- - Coordinator: coordinator/src/coordinator.rs and coordinator/src/message.rs. `State` holds the fields
--   of the struct, `Records` saving and history, `Dispatch` the dispatch of ready nodes, `Handlers` the
--   handlers of events, `Rehydrate` the taking over of a run, `Finish` its ends, `Loop` the method `run`,
--   `Start` the function `start_coordinator`; `Frame` and `Thrift` hold lemmas over all of them.
--   Every call of a service (dispatcher, store, history, backplane, clock, timers, pod watcher) is
--   appended to a trace, and its answer is a function of that trace, so that services may answer
--   anything. `select!` takes any event that is there, so the loop runs over an arbitrary list of events
--   by recursion on the list; no fuel is needed.
-- - Prelude: lists, texts as bytes, hash maps as association lists (their order stands for the order of
--   iteration, which the code leaves open), results.
--
-- Not modelled: the channels and tasks of spawn_pod_watcher, the Redis store, S3 transfers, the SQL of the
-- history, the backplane, authentication, providers, the HTTP server and the loading of settings, which are
-- I/O or stand outside the coordinator, the reaper and their data. Of the Kubernetes dispatcher the calls
-- that only pass on to S3 or spawn the watcher are left out. Logging is left out.
pub mod Prelude
pub mod Pipelines
pub mod Run
pub mod StateStore
pub mod RunHistory
pub mod PodWatcher
pub mod SourceManager
pub mod Coordinator
pub mod Tenancy
pub mod Reaper
pub mod KubeDispatcher
