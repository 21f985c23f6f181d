-- ===== src/Lib.antt =====
-- Bistro schedules tasks, pairs of a job and a node, on remote workers within the limits of shared
-- resources, and keeps the status of every task.
--
-- The scheduler (bistro/scheduler) takes a snapshot of all statuses (bistro/statuses), finds the tasks
-- that may run, and lets a policy try them within the resources of their nodes. A runner
-- (bistro/runners) starts each of them on a worker (bistro/remote). Workers send heartbeats and reports
-- of finished tasks; the scheduler decides which workers are healthy, loses the tasks of those that
-- are not, and records the statuses, with the waits that a job's backoff settings
-- (bistro/config/JobBackoffSettings.cpp) ask for.
--
-- The modules, by the code that they model:
--   Base: the names that all modules share, integers and machine words, association lists, the ways a
--     call ends, and folly::dynamic.
--   Thrift: the structs of bistro/if/common.thrift.
--   Backoff: JobBackoffSettings (parse is the constructor, get_next is getNext).
--   Status: bistro/statuses/TaskStatus.{h,cpp} (update, forgive, configuredBackoffDuration). Its child
--     Json is fromString, checkBits and toDynamicNoTime. Bits has the enumeration, and its bitwise
--     operations evaluated on all 16-bit values.
--   Runner: the choice of the next backoff in TaskRunner::runTask, and a task that keeps failing.
--   Snapshot: bistro/statuses/TaskStatusSnapshot.{h,cpp} (update_status is updateStatus).
--   Scheduling: try_to_schedule of bistro/scheduler/utils.cpp, on the table of resources that all jobs
--     share, and the policies of bistro/scheduler.
--   WorkerSet: bistro/remote/WorkerSetID.h.
--   WorkerState: bistro/remote/RemoteWorkerState.{h,cpp} (compute_state is computeState).
--   Requests: bistro/remote/RemoteWorkerUpdate.h.
--   Worker: bistro/remote/RemoteWorker.{h,cpp}; its child Heartbeat is updateState and
--     processHeartbeat. Steps makes all operations of a worker one relation.
--   History: pruneUnusedHistoryVersions of bistro/remote/RemoteWorkers.cpp, on the history of the set
--     of workers that are not lost.
--   Pools: RoundRobinWorkerPool of bistro/remote/RemoteWorkers.{h,cpp}.
--   RemoteWorkers: bistro/remote/RemoteWorkers.{h,cpp}, the owner of the callbacks of Worker. Its child
--     Operations has processHeartbeat, the loop of updateState and initializeRunningTasks, InitialWait
--     is updateInitialWait, and Steps makes them one relation.
--   Jobs: bistro/config/Job.{h,cpp} (required_host_for_task, should_run_on).
--   Selection: RoundRobinRemoteWorkerSelector.cpp of bistro/remote; its child Busiest is
--     BusiestRemoteWorkerSelector.cpp (find_worker is findWorker in both).
--   Filters: bistro/config/JobFilters.{h,cpp} (does_pass and does_string_pass are the two doesPass,
--     filters_eq is the comparison). Floating-point numbers, regular expressions, conversions of JSON
--     values and the hash of strings are a parameter, Platform.
--   Cron: CrontabSelector of bistro/cron. Its child Standard is the constructor of StandardCrontabItem,
--     Search is its search from findMatchingPositions on, Days and Fits one position of it, Times, Moves
--     and Found the whole. Clock is cron/utils/date_time, Stamps the timestamps of the local times that
--     are found. Dates (boost::gregorian) are a parameter, Calendar, and so are asInt, time zones and
--     the labels of local times.
--   Tests: concrete inputs.
--
-- A function that may throw or abort returns an Outcome: a value, an exception with the constant part
-- of its message, or the end of the process, for CHECK, LOG(FATAL) and an exception that leaves a
-- noexcept function. Mutable objects are passed in and returned. A map is an association list, whose
-- order stands for the order of iteration. Callbacks are functions on a type of states that the caller
-- chooses. Times, and the numbers of seconds that are added to them, are unbounded integers; a
-- conversion to a machine word is written out, and so is every sum that may wrap around. A job's
-- priority, a finite double, is counted in units of 2^-1074. Log messages are left out.
--
-- The loops of the round-robin and the randomized policies run on fuel, one unit for each job and for
-- each of its nodes, as a round uses up a node or erases a job. The search for a worker runs on fuel, one
-- unit for each shard of the pool, as it visits each of them once. The search of a crontab
-- item gives up after 50 steps, which are its fuel. What chooses its timestamp may call itself without
-- end, as a comment of the code says; it takes fuel and returns none without. All other loops follow a list.
--
-- Not modelled: how the indirect worker sets of workers spread (propagateIndirectWorkerSets), the scheduler's
-- preparation of jobs and nodes, the loading of statuses from the task store, the rest of the
-- configuration, the worker process, and everything that only talks to the operating
-- system, a database or the network.
pub mod Base
pub mod Backoff
pub mod Thrift
pub mod Status
pub mod Runner
pub mod WorkerSet
pub mod WorkerState
pub mod Requests
pub mod Worker
pub mod History
pub mod Scheduling
pub mod Filters
pub mod Cron
pub mod Jobs
pub mod Pools
pub mod Selection
pub mod RemoteWorkers
pub mod Snapshot
pub mod Tests
