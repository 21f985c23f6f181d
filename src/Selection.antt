-- ===== src/Selection.antt =====
-- remote/RemoteWorkerSelector.cpp and remote/RoundRobinRemoteWorkerSelector.cpp: the choice of a
-- worker for a task. `workers` has all workers by their shards.
pub mod Rotation
pub mod FirstFit
pub mod Visits
pub mod Tried
pub mod Answers
pub mod Busiest
use bistro.Base.{
  ℕ, suc, zero, String, Bool, true, false, not, ◌&&◌, ◌||◌, Option, none, some, List, [], ◌∷◌,
  AssocMap, find, assign, same, string_eq, get_elem?, length, is_nil, ltb, Outcome, ok, fatal,
  check, or_fatal, ◌>>=◌, ◌>>◌, if◌then◌else◌,
}
use bistro.Base.Int.{ℤ, pos, ◌-ℤ◌, ltb_ℤ}
use bistro.Base.Word.{to_i32}
use bistro.Thrift.{BistroWorker}
use bistro.Worker.{RemoteWorker, is_healthy}
use bistro.Scheduling.{TaskRunnerResponse}
use bistro.Filters.{Platform, does_string_pass}
use bistro.Jobs.{Job}
use bistro.Pools.{RoundRobinWorkerPool, get_next_worker}

abbrev pub WorkerResources : Type 0
WorkerResources = AssocMap String (List ℤ)

-- getNotifyIfTasksNotRunningSequenceNum
unfoldable pub sequence_num : RemoteWorker → ℤ
sequence_num w = w.state.notify_sequence_num

-- What findWorker returns, and what it leaves.
pub record Selected : Type 0 where
  pub response : TaskRunnerResponse
  pub found : Option (BistroWorker × ℤ)
  pub pool : RoundRobinWorkerPool
  pub worker_resources : WorkerResources

-- The loop of tryToRun, with the differences of two's complement. Reading beyond the job's resources
-- is undefined.
unfoldable pub take_resources : List ℤ → List ℤ → Outcome (Option (List ℤ))
take_resources [] needs = ok (some [])
take_resources (amount ∷ amounts) [] = fatal
take_resources (amount ∷ amounts) (need ∷ needs) =
    let left = to_i32 (amount -ℤ need) in
    if ltb_ℤ left (pos 0)
    then ok none
    else (take_resources amounts needs >>= λ others.
        ok (elim others [ none ↦ none | some rest ↦ some (left ∷ rest) ]))

unfoldable pub worker_of : AssocMap String RemoteWorker → String → Option (BistroWorker × ℤ)
worker_of workers shard = elim (find shard workers) [
  | none ↦ none
  | some w ↦ some (w.worker, sequence_num w)
]

unfoldable pub give_up : Bool → RoundRobinWorkerPool → WorkerResources → Selected
give_up saw_healthy_worker pool resources = record {
  response =
      if saw_healthy_worker
      then TaskRunnerResponse.did_not_run_task
      else TaskRunnerResponse.do_not_run_more_tasks;
  found = none;
  pool = pool;
  worker_resources = resources;
}

unfoldable pub select :
    AssocMap String RemoteWorker → String → RoundRobinWorkerPool → WorkerResources → Selected
select workers shard pool resources = record {
  response = TaskRunnerResponse.ran_task;
  found = worker_of workers shard;
  pool = pool;
  worker_resources = resources;
}

-- After the body: the task runs, or the search goes on unless the next worker is the first one.
unfoldable pub after_visit :
    AssocMap String RemoteWorker
    → String
    → String
    → RoundRobinWorkerPool
    → WorkerResources
    → Bool
    → (String → Bool → RoundRobinWorkerPool → Outcome (Option Selected))
    → Bool × Option WorkerResources
    → Outcome (Option Selected)
after_visit workers first shard pool resources saw go_on (healthy, some resources') =
    ok (some (select workers shard pool resources'))
after_visit workers first shard pool resources saw go_on (healthy, none) =
    or_fatal (get_next_worker pool) >>= λ (next, pool').
    if same next first
    then ok (some (give_up (saw || healthy) pool' resources))
    else go_on next (saw || healthy) pool'

module _ {D R : Type 0} (p : Platform D R) (job : Job D R) (worker_level : ℕ) where
  unfoldable pub job_can_run_on_worker : BistroWorker → Outcome Bool
  job_can_run_on_worker worker =
      check (ltb worker_level (length job.filters))
      >> (or_fatal (get_elem? job.filters worker_level) >>= λ filters.
          ok (does_string_pass p filters job.name worker.machine_lock.hostname))

  -- The resources after the job took its share, if it runs.
  unfoldable pub try_to_run : BistroWorker → WorkerResources → Outcome (Option WorkerResources)
  try_to_run worker resources = job_can_run_on_worker worker >>= λ can.
      if not can then ok none else elim (find worker.shard resources) [
        | none ↦ ok none
        | some amounts ↦ take_resources amounts job.resources >>= λ left.
            ok (elim left [ none ↦ none | some rest ↦ some (assign worker.shard rest resources) ])
      ]

  module _ (workers : AssocMap String RemoteWorker) where
    -- The loop's body: whether the worker is healthy, and the resources if the job runs there.
    unfoldable pub visit : String → WorkerResources → Outcome (Bool × Option WorkerResources)
    visit shard resources = or_fatal (find shard workers) >>= λ w.
        if is_healthy w
        then (try_to_run w.worker resources >>= λ left. ok (true, left))
        else ok (false, none)

    -- The loop from a worker on until it comes back to the first one; none if the fuel runs out.
    unfoldable pub search :
        ℕ
        → String
        → String
        → Bool
        → RoundRobinWorkerPool
        → WorkerResources
        → Outcome (Option Selected)
    search zero first shard saw pool resources = ok none
    search (suc fuel) first shard saw pool resources =
        visit shard resources
        >>= after_visit workers first shard pool resources saw
            (λ next saw' pool'. search fuel first next saw' pool' resources)

    -- RoundRobinRemoteWorkerSelector::findWorker, in the pool of all workers or of a host.
    unfoldable pub find_worker : RoundRobinWorkerPool → WorkerResources → Outcome (Option Selected)
    find_worker pool resources = elim (get_next_worker pool) [
      | none ↦ ok (some (give_up false pool resources))
      | some (first, pool') ↦ search (length pool.shards) first first false pool' resources
    ]
