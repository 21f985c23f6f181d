-- ===== src/Worker/Steps.antt =====
-- Everything that happens to a worker, as a step relation.
use bistro.Base.{◌≡◌, Bool, true, ok, has, List}
use bistro.Base.Int.{ℤ}
use bistro.Base.Maps.{string_eq, pair_eq}
use bistro.Thrift.{RunningTask, InstanceId, BistroWorker, WorkerSetId}
use bistro.Requests.{RemoteWorkerUpdate}
use bistro.WorkerState.{Flags}
use bistro.Status.{TaskStatus}
use bistro.Worker.{
  RemoteWorker, task_id, make_worker, is_healthy, record_running_task_status, record_failed_task,
  record_non_running_task_status, add_unsure_if_running_task, erase_unsure_if_running_tasks,
  initialize_running_tasks, called_notify_if_tasks_not_running,
}
use bistro.Worker.Heartbeat.{Callbacks, update_state, process_heartbeat}
use bistro.Worker.Sound.{IsSound, make_worker-IsSound}
use bistro.Worker.Tasks.{
  record_running_task_status-IsSound, record_failed_task-IsSound,
  record_non_running_task_status-IsSound, add_unsure_if_running_task-IsSound,
}
use bistro.Worker.Polls.{erase_unsure_if_running_tasks-IsSound, initialize_running_tasks-IsSound}
use bistro.Worker.Life.{update_state-IsSound}
use bistro.Worker.Beats.{process_heartbeat-IsSound}

module _ {G : Type 0} (f : Flags) (callbacks : Callbacks G) where
  -- The runner starts tasks on healthy workers only, and doubts only tasks that it has started.
  pub data Step : RemoteWorker → RemoteWorker → Type 0 where
    checked :
        (c : Bool) {w w' : RemoteWorker} (u u' : RemoteWorkerUpdate) (g g' : G)
        → update_state f callbacks c (w, u, g) ≡ ok (w', u', g')
        → Step w w'
    heartbeat :
        (w_new : BistroWorker) (id : WorkerSetId) (c : Bool) {w w' : RemoteWorker}
        (u u' : RemoteWorkerUpdate) (g g' : G) (accepted : Bool)
        → process_heartbeat f callbacks w_new id c (w, u, g) ≡ ok (accepted, (w', u', g'))
        → Step w w'
    initialized :
        (rts : List RunningTask) {w w' : RemoteWorker}
        → initialize_running_tasks rts w ≡ ok w'
        → Step w w'
    started :
        (rt : RunningTask) (s : TaskStatus) {w w' : RemoteWorker}
        → is_healthy w ≡ true
        → record_running_task_status rt s w ≡ ok w'
        → Step w w'
    failed_to_start :
        (rt : RunningTask) (s : TaskStatus) {w w' : RemoteWorker}
        → record_failed_task rt s w ≡ ok w'
        → Step w w'
    reported :
        (rt : RunningTask) (s : TaskStatus) (id : InstanceId) {w w' : RemoteWorker}
        (recorded : Bool)
        → record_non_running_task_status rt s id w ≡ ok (w', recorded)
        → Step w w'
    doubted :
        (rt : RunningTask) {w w' : RemoteWorker}
        → has (task_id rt) w.running_tasks ≡ true
        → add_unsure_if_running_task rt w ≡ ok w'
        → Step w w'
    polled :
        (rts : List RunningTask) {w w' : RemoteWorker}
        → erase_unsure_if_running_tasks rts w ≡ ok w'
        → Step w w'
    notified : (w : RemoteWorker) → Step w (called_notify_if_tasks_not_running w).0

  pub data Reachable : RemoteWorker → Type 0 where
    connected :
        (t : ℤ) (w : BistroWorker) (i : WorkerSetId) (s : InstanceId)
        → Reachable (make_worker t w i s)
    next : {w w' : RemoteWorker} → Reachable w → Step w w' → Reachable w'

  Step-IsSound : {w w' : RemoteWorker} → Step w w' → IsSound w → IsSound w'
  unfolding called_notify_if_tasks_not_running
  Step-IsSound (checked c u u' g g' e) h = update_state-IsSound f callbacks c _ _ _ h e
  Step-IsSound (heartbeat w_new id c u u' g g' accepted e) h =
      process_heartbeat-IsSound f callbacks w_new id c _ _ _ h e
  Step-IsSound (initialized rts e) h = initialize_running_tasks-IsSound rts _ h e
  Step-IsSound (started rt s healthy e) h = record_running_task_status-IsSound rt s _ h healthy e
  Step-IsSound (failed_to_start rt s e) h = record_failed_task-IsSound rt s _ h e
  Step-IsSound (reported rt s id recorded e) h =
      record_non_running_task_status-IsSound rt s id _ h e
  Step-IsSound (doubted rt c e) h = add_unsure_if_running_task-IsSound rt _ h c e
  Step-IsSound (polled rts e) h = erase_unsure_if_running_tasks-IsSound rts _ h e
  Step-IsSound (notified w) h = record { parts = h.parts }

  -- After any sequence of state updates, heartbeats, starts, reports and polls a worker is sound: in
  -- the NEW and MUST_DIE states it runs no task and none is in doubt, a HEALTHY worker has the flag
  -- that it has been healthy, the tasks in doubt are among the running ones, the exponential backoff
  -- of their checks is at most 8, the first associated worker set is there exactly if the current
  -- one is, and the current one was issued by this scheduler.
  pub Reachable-IsSound : {w : RemoteWorker} → Reachable w → IsSound w
  Reachable-IsSound (connected t w i s) = make_worker-IsSound t w i s
  Reachable-IsSound (next r s) = Step-IsSound s (Reachable-IsSound r)
