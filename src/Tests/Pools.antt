-- ===== src/Tests/Pools.antt =====
-- Two healthy workers, with and without room for a task, and the steps of a scheduler with one worker.
use bistro.Base.{
  ℕ, ◌≡◌, ◌⊎◌, refl, true, none, some, [], ◌∷◌, String, Bool, AssocMap, Option, ok, arith, find,
  assign,
}
use bistro.Base.Int.{pos, ◌+ℤ◌, ◌-ℤ◌, ◌*ℤ◌}
use bistro.Thrift.{BistroWorker}
use bistro.WorkerState.{State, init, set_state}
use bistro.Scheduling.{TaskRunnerResponse}
use bistro.Worker.{RemoteWorker, make_worker, change_state, is_healthy, worker_state}
use bistro.Filters.{does_string_pass, tests}
use bistro.Jobs.{Job}
use bistro.Pools.{RoundRobinWorkerPool, get_next_worker, successor}
use bistro.Selection.{
  WorkerResources, Selected, find_worker, search, visit, try_to_run, job_can_run_on_worker,
  take_resources, after_visit, select, worker_of, sequence_num,
}
use bistro.Selection.Rotation.{Distinct}
use bistro.Selection.Answers.{IsFound, IsRefused, find_worker-answers}
use bistro.Selection.Busiest.{
  ResourceConfig, find_worker as find_busiest_worker, find_busiest, weight_of, weigh_worker, weigh,
  take_all, compare_weight,
}
use bistro.Selection.Busiest.Least.{IsLeast, find_worker-IsLeast}
use bistro.Tests.Samples.{instance_at, set_id}
use bistro.Tests.Selections.{percentages, filters_of}

abbrev worker_of_shard : String → BistroWorker
worker_of_shard shard = record {
  shard = shard;
  machine_lock = record { hostname = "west"; port = pos 80 };
  addr = record { ip_or_host = "west"; port = pos 80 };
  id = instance_at 1 7;
  heartbeat_period_sec = pos 15;
  protocol_version = pos 2;
}

abbrev healthy : String → RemoteWorker
healthy shard =
    change_state State.healthy
      (make_worker (pos 100) (worker_of_shard shard) (set_id 1 3) (instance_at 50 9))

abbrev two_workers : AssocMap String RemoteWorker
two_workers = ("a", healthy "a") ∷ ("b", healthy "b") ∷ []

-- The cursor is at the worker that has no room.
abbrev two_shards : RoundRobinWorkerPool
two_shards = record { shards = "a" ∷ "b" ∷ []; next_shard = "a" }

abbrev resources : WorkerResources
resources = ("a", pos 1 ∷ []) ∷ ("b", pos 5 ∷ []) ∷ []

abbrev job : Job ℕ (Option String)
job = record {
  name = "job";
  enabled = true;
  errors = [];
  level_for_tasks = 0;
  priority = pos 1;
  resources = pos 3 ∷ [];
  filters = record (filters_of "west" "east") { fraction_of_nodes = 100 } ∷ [];
  depends_on = [];
  host_placement = "";
  level_for_host_placement = none;
}

distinct : Distinct two_shards.shards
unfolding Distinct
distinct = ground arith

-- The task runs on the second worker, and the cursor comes back to the first.
abbrev selected : Selected
selected = record {
  response = TaskRunnerResponse.ran_task;
  found = some (worker_of_shard "b", pos 0);
  pool = record { shards = "a" ∷ "b" ∷ []; next_shard = "a" };
  worker_resources = ("a", pos 1 ∷ []) ∷ ("b", pos 2 ∷ []) ∷ [];
}

selected_lem : find_worker percentages job 0 two_workers two_shards resources ≡ ok (some selected)
unfolding find_worker search visit try_to_run job_can_run_on_worker take_resources after_visit
    select worker_of sequence_num get_next_worker successor make_worker init set_state is_healthy
    worker_state does_string_pass tests find assign ◌-ℤ◌
selected_lem = refl

find_worker-answers_example :
    IsFound percentages job 0 two_workers resources two_shards.shards selected
    ⊎ ((saw : Bool) × IsRefused percentages job 0 two_workers resources two_shards.shards saw
          selected)
find_worker-answers_example =
    find_worker-answers percentages job 0 two_workers resources two_shards distinct selected_lem

abbrev config : ResourceConfig
config = record { worker_resource_ids = 0 ∷ []; resource_id_to_weight = pos 2 ∷ [] }

busiest_lem :
    find_busiest_worker percentages config job 0 two_workers resources two_shards.shards
    ≡ ok (
      TaskRunnerResponse.ran_task,
      some (worker_of_shard "b", pos 0),
      ("a", pos 1 ∷ []) ∷ ("b", pos 2 ∷ []) ∷ [],
    )
unfolding find_busiest_worker find_busiest weight_of weigh_worker weigh take_all compare_weight
    worker_of sequence_num job_can_run_on_worker does_string_pass tests make_worker init set_state
    is_healthy worker_state find assign ◌+ℤ◌ ◌*ℤ◌ ◌-ℤ◌
busiest_lem = refl

find_worker-IsLeast_example :
    IsLeast percentages config job 0 two_workers resources two_shards.shards
      (some (worker_of_shard "b", pos 0))
find_worker-IsLeast_example =
    find_worker-IsLeast percentages config job 0 two_workers resources two_shards.shards busiest_lem
