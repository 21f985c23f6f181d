-- ===== src/Requests.antt =====
-- remote/RemoteWorkerUpdate.h: what the scheduler must do for its workers after it has updated their
-- states, collected while the states are locked. Every map keeps the entry that it got first.
use bistro.Base.{String, List, [], map, AssocMap, emplace, string_eq, pair_eq}
use bistro.Base.Int.{ℤ}
use bistro.Thrift.{BistroWorker, RunningTask}

-- The job and the node.
abbrev pub TaskId : Type 0
TaskId = String × String

abbrev pub TaskMap : Type 0
TaskMap = AssocMap TaskId RunningTask

pub record RemoteWorkerUpdate : Type 0 where
  pub cur_time : ℤ
  pub workers_to_healthcheck : AssocMap String BistroWorker
  pub suicide_workers : AssocMap String BistroWorker
  pub new_workers : AssocMap String BistroWorker
  pub lost_running_tasks : TaskMap
  pub unsure_if_running_tasks : AssocMap String (BistroWorker × List RunningTask)
  pub initial_wait_message : String

abbrev pub no_requests : ℤ → RemoteWorkerUpdate
no_requests t = record {
  cur_time = t;
  workers_to_healthcheck = [];
  suicide_workers = [];
  new_workers = [];
  lost_running_tasks = [];
  unsure_if_running_tasks = [];
  initial_wait_message = "unknown";
}

unfoldable pub healthcheck_worker : BistroWorker → RemoteWorkerUpdate → RemoteWorkerUpdate
healthcheck_worker w u = record u {
  workers_to_healthcheck = emplace w.shard w u.workers_to_healthcheck;
}

unfoldable pub request_suicide : BistroWorker → RemoteWorkerUpdate → RemoteWorkerUpdate
request_suicide w u = record u { suicide_workers = emplace w.shard w u.suicide_workers }

unfoldable pub add_new_worker : BistroWorker → RemoteWorkerUpdate → RemoteWorkerUpdate
add_new_worker w u = record u { new_workers = emplace w.shard w u.new_workers }

unfoldable pub lose_running_task : TaskId → RunningTask → RemoteWorkerUpdate → RemoteWorkerUpdate
lose_running_task id rt u = record u { lost_running_tasks = emplace id rt u.lost_running_tasks }

unfoldable pub check_unsure_if_running_tasks :
    BistroWorker → TaskMap → RemoteWorkerUpdate → RemoteWorkerUpdate
check_unsure_if_running_tasks w tasks u = record u {
  unsure_if_running_tasks =
      emplace w.shard (w, map (λ entry. entry.1) tasks) u.unsure_if_running_tasks;
}
