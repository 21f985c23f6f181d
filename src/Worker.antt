-- ===== src/Worker.antt =====
-- remote/RemoteWorker.{h,cpp}: what the scheduler knows about one worker.
--
-- The callbacks belong to the owner of the worker, whose state they change; here they are functions
-- on a type `G` of such states. The tasks are kept in association lists.
pub mod Heartbeat
pub mod Sound
pub mod Tasks
pub mod Polls
pub mod Life
pub mod Beats
pub mod Contract
pub mod Losing
pub mod Bumping
pub mod Adoption
pub mod Ledger
pub mod Steps
use bistro.Base.{
  ℕ, ◌+◌, ◌*◌, ◌^◌, Bool, true, false, not, ◌&&◌, Option, none, some, List, [], ◌∷◌, AssocMap, same,
  find, erase, emplace, has, insert_new, Outcome, ok, throw, fatal, check, require, no_except,
  ◌>>=◌, ◌>>◌, String, if◌then◌else◌, is_nil, ltb, Eq, string_eq, pair_eq,
}
use bistro.Base.Int.{ℤ, pos, ltb_ℤ, ◌+ℤ◌, ◌*ℤ◌}
use bistro.Thrift.{InstanceId, RunningTask, BistroWorker, WorkerSetId, instance_eq}
use bistro.WorkerState.{
  State, RemoteWorkerState, Flags, state_beq, init, compute_state, set_state, int64_min,
  at_least_one, max_healthcheck_gap, heartbeat_grace_period, lose_unhealthy_worker_after,
}
use bistro.Requests.{
  TaskId, TaskMap, RemoteWorkerUpdate, healthcheck_worker, request_suicide, add_new_worker,
  lose_running_task, check_unsure_if_running_tasks,
}
use bistro.Status.{TaskStatus, is_running, is_done, is_overwriteable}

pub record RemoteWorker : Type 0 where
  pub worker : BistroWorker
  pub state : RemoteWorkerState
  pub initial_worker_set_id : WorkerSetId
  pub worker_set_id : Option WorkerSetId
  pub first_associated_worker_set_id : Option WorkerSetId
  pub indirect_worker_set_id : Option WorkerSetId
  pub time_last_healthcheck_sent : ℤ
  pub running_tasks : TaskMap
  pub unsure_if_running_tasks : TaskMap
  pub time_of_last_unsure_if_running_check : ℤ
  pub repeats_of_unsure_if_running_check : ℕ
  pub scheduler_id : InstanceId

abbrev pub task_id : RunningTask → TaskId
task_id rt = (rt.job, rt.node)

-- The constructor, less the call of the callback for new workers.
unfoldable pub make_worker : ℤ → BistroWorker → WorkerSetId → InstanceId → RemoteWorker
unfolding init
make_worker cur_time w_new initial scheduler_id = record {
  worker = w_new;
  state = init cur_time;
  initial_worker_set_id = initial;
  worker_set_id = none;
  first_associated_worker_set_id = none;
  indirect_worker_set_id = none;
  time_last_healthcheck_sent = int64_min;
  running_tasks = [];
  unsure_if_running_tasks = [];
  time_of_last_unsure_if_running_check = int64_min;
  repeats_of_unsure_if_running_check = 0;
  scheduler_id = scheduler_id;
}

unfoldable pub worker_state : RemoteWorker → State
worker_state w = w.state.state

unfoldable pub is_healthy : RemoteWorker → Bool
unfolding worker_state
is_healthy w = state_beq (worker_state w) State.healthy

unfoldable pub compute_worker_state : Flags → RemoteWorker → ℤ → Bool → State × Bool
compute_worker_state f w cur_time consensus_permits =
    compute_state w.state cur_time (max_healthcheck_gap f)
      (w.worker.heartbeat_period_sec +ℤ heartbeat_grace_period f) (lose_unhealthy_worker_after f)
      consensus_permits

abbrev pub change_state : State → RemoteWorker → RemoteWorker
change_state new_state w = record w { state = set_state w.state new_state }

-- The tasks of the loop are lost in the order of iteration.
unfoldable pub lose_tasks : TaskMap → RemoteWorkerUpdate → RemoteWorkerUpdate
lose_tasks [] u = u
lose_tasks ((id, rt) ∷ tasks) u = lose_tasks tasks (lose_running_task id rt u)

unfoldable pub lose_running_tasks :
    RemoteWorker × RemoteWorkerUpdate → RemoteWorker × RemoteWorkerUpdate
lose_running_tasks (w, u) =
    (record w { running_tasks = []; unsure_if_running_tasks = [] }, lose_tasks w.running_tasks u)

unfoldable pub start_task : RunningTask → RemoteWorker → RemoteWorker
start_task rt w = record w { running_tasks = insert_new (task_id rt) rt w.running_tasks }

-- recordRunningTaskStatus
unfoldable pub record_running_task_status :
    RunningTask → TaskStatus → RemoteWorker → Outcome RemoteWorker
record_running_task_status rt status w =
    check (is_running status)
    >> check (not (has (task_id rt) w.unsure_if_running_tasks))
    >> check (not (has (task_id rt) w.running_tasks))
    >> ok (start_task rt w)

unfoldable pub end_task : RunningTask → RemoteWorker → RemoteWorker
end_task rt w = record w {
  running_tasks = erase (task_id rt) w.running_tasks;
  unsure_if_running_tasks = erase (task_id rt) w.unsure_if_running_tasks;
}

unfoldable pub forget_unsure : RunningTask → RemoteWorker → RemoteWorker
forget_unsure rt w = record w {
  unsure_if_running_tasks = erase (task_id rt) w.unsure_if_running_tasks;
}

-- recordNonRunningTaskStatusImpl: false if TaskStatuses must not see the update.
unfoldable pub record_non_running_impl :
    RunningTask → TaskStatus → RemoteWorker → RemoteWorker × Bool
record_non_running_impl rt status w = elim (find (task_id rt) w.running_tasks) [
  | some current ↦
      if same current.invocation_id rt.invocation_id then (end_task rt w, true) else (w, false)
  | none ↦ if is_overwriteable status then (w, false) else (forget_unsure rt w, true)
]

unfoldable pub record_failed_task : RunningTask → TaskStatus → RemoteWorker → Outcome RemoteWorker
record_failed_task rt status w =
    let (w', recorded) = record_non_running_impl rt status w in
    check (not (is_running status) && not (is_done status)) >> check recorded >> ok w'

-- kHealthcheckTaskJob
abbrev pub k_healthcheck_task_job : String
k_healthcheck_task_job = "__BISTRO_HEALTH_CHECK__"

abbrev pub max_ℤ : ℤ → ℤ → ℤ
max_ℤ a b = if ltb_ℤ a b then b else a

-- The reply to a health check that the worker passed.
unfoldable pub note_good_healthcheck : RunningTask → RemoteWorker → RemoteWorker
note_good_healthcheck rt w = record w {
  state = record (w.state) {
    time_last_good_healthcheck_sent =
        max_ℤ rt.invocation_id.start_time w.state.time_last_good_healthcheck_sent;
  };
}

unfoldable pub record_non_running_task_status :
    RunningTask → TaskStatus → InstanceId → RemoteWorker → Outcome (RemoteWorker × Bool)
record_non_running_task_status rt status worker_id w =
    check (not (is_running status))
    >> require (same worker_id w.worker.id) "Got status from an unexpected worker"
    >> (if same rt.job k_healthcheck_task_job
        then ok ((if is_done status then note_good_healthcheck rt w else w), false)
        else require (not (state_beq w.state.state State.new))
            "Rejecting updateStatus from a NEW worker"
          >> ok (record_non_running_impl rt status w))

-- The loop of initializeRunningTasks.
unfoldable pub add_running_tasks : String → List RunningTask → TaskMap → Outcome TaskMap
add_running_tasks shard [] m = ok m
add_running_tasks shard (rt ∷ rts) m =
    check (same rt.worker_shard shard)
    >> check (not (has (task_id rt) m))
    >> add_running_tasks shard rts (insert_new (task_id rt) rt m)

unfoldable pub initialize_running_tasks : List RunningTask → RemoteWorker → Outcome RemoteWorker
initialize_running_tasks rts w =
    check (state_beq w.state.state State.new)
    >> check (is_nil w.running_tasks)
    >> check (is_nil w.unsure_if_running_tasks)
    >> (add_running_tasks w.worker.shard rts w.running_tasks >>= λ m.
        ok (change_state State.unhealthy (record w { running_tasks = m })))

unfoldable pub doubt_task : RunningTask → RemoteWorker → RemoteWorker
doubt_task rt w = record w {
  unsure_if_running_tasks = insert_new (task_id rt) rt w.unsure_if_running_tasks;
}

unfoldable pub add_unsure_if_running_task : RunningTask → RemoteWorker → Outcome RemoteWorker
add_unsure_if_running_task rt w =
    check (not (has (task_id rt) w.unsure_if_running_tasks)) >> ok (doubt_task rt w)

-- One round of the loop of eraseUnsureIfRunningTasks.
unfoldable pub erase_unsure : RunningTask → TaskMap → TaskMap
erase_unsure rt m = elim (find (task_id rt) m) [
  | none ↦ m
  | some current ↦ if same current.invocation_id rt.invocation_id then erase (task_id rt) m else m
]

unfoldable pub erase_unsure_tasks : String → List RunningTask → TaskMap → Outcome TaskMap
erase_unsure_tasks shard [] m = ok m
erase_unsure_tasks shard (rt ∷ rts) m =
    check (same rt.worker_shard shard) >> erase_unsure_tasks shard rts (erase_unsure rt m)

unfoldable pub erase_unsure_if_running_tasks :
    List RunningTask → RemoteWorker → Outcome RemoteWorker
erase_unsure_if_running_tasks rts w =
    erase_unsure_tasks w.worker.shard rts w.unsure_if_running_tasks >>= λ m.
    ok (record w { unsure_if_running_tasks = m })

unfoldable pub called_notify_if_tasks_not_running : RemoteWorker → RemoteWorker × ℤ
called_notify_if_tasks_not_running w =
    let n = w.state.notify_sequence_num +ℤ pos 1 in
    (record w { state = record (w.state) { notify_sequence_num = n } }, n)
