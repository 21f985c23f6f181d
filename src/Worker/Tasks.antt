-- ===== src/Worker/Tasks.antt =====
-- The task lists of a worker: what every operation on them keeps and does.
use bistro.Base.{
  ◌≡◌, refl, subst, Bool, true, false, ok, arith, find, has, erase, insert_new, same, Bool-cases,
  inl, inr, ◌⊎◌, find-erase, find-insert_new,
}
use bistro.Base.Maps.{string_eq, pair_eq}
use bistro.Thrift.{RunningTask, InstanceId, instance_eq}
use bistro.Requests.{TaskId, TaskMap}
use bistro.Status.{TaskStatus}
use bistro.Worker.{
  RemoteWorker, task_id, record_running_task_status, record_non_running_impl, record_failed_task,
  record_non_running_task_status, note_good_healthcheck, start_task, end_task, forget_unsure,
  doubt_task, add_unsure_if_running_task, is_healthy, worker_state,
}
use bistro.Worker.Sound.{IsSound, with_tasks}

subset-insert :
    (k : TaskId) (rt : RunningTask) (a b : TaskMap)
    → ((i : TaskId) → has i a ≡ true → has i b ≡ true)
    → (i : TaskId) → has i a ≡ true
    → has i (insert_new k rt b) ≡ true
subset-insert k rt a b h i e = ground (arith, find-insert_new k i rt b, h i e)

subset-insert_both :
    (k : TaskId) (rt : RunningTask) (a b : TaskMap)
    → has k b ≡ true
    → ((i : TaskId) → has i a ≡ true → has i b ≡ true)
    → (i : TaskId) → has i (insert_new k rt a) ≡ true
    → has i b ≡ true
subset-insert_both k rt a b c h i e = elim (Bool-cases (same k i)) [
  | inl t ↦ subst (λ j. has j b ≡ true) ((pair_eq.beq_iff k i).0 t) c
  | inr t ↦ h i (ground (arith, find-insert_new k i rt a))
]

subset-erase_left :
    (k : TaskId) (a b : TaskMap)
    → ((i : TaskId) → has i a ≡ true → has i b ≡ true)
    → (i : TaskId) → has i (erase k a) ≡ true
    → has i b ≡ true
subset-erase_left k a b h i e = h i (ground (arith, find-erase k i a))

subset-erase :
    (k : TaskId) (a b : TaskMap)
    → ((i : TaskId) → has i a ≡ true → has i b ≡ true)
    → (i : TaskId) → has i (erase k a) ≡ true
    → has i (erase k b) ≡ true
subset-erase k a b h i e =
    let kept : same k i ≡ false = ground (arith, find-erase k i a) in
    let there : has i a ≡ true = ground (arith, find-erase k i a) in
    ground (arith, find-erase k i b, h i there)

start_task-IsSound :
    (rt : RunningTask) (w : RemoteWorker)
    → IsSound w
    → is_healthy w ≡ true
    → IsSound (start_task rt w)
unfolding start_task is_healthy worker_state
start_task-IsSound rt w h healthy = record {
  parts =
      with_tasks h.parts (insert_new (task_id rt) rt w.running_tasks) w.unsure_if_running_tasks
        (λ c. absurd (ground (arith, c)))
        (subset-insert _ rt _ w.running_tasks h.parts.unsure_runs);
}

pub record_running_task_status-IsSound :
    (rt : RunningTask) (s : TaskStatus) (w : RemoteWorker) {w' : RemoteWorker}
    → IsSound w
    → is_healthy w ≡ true
    → record_running_task_status rt s w ≡ ok w'
    → IsSound w'
unfolding record_running_task_status
record_running_task_status-IsSound rt s w {w'} h healthy e =
    let same : start_task rt w ≡ w' = ground arith in
    subst IsSound same (start_task-IsSound rt w h healthy)

end_task-IsSound : (rt : RunningTask) (w : RemoteWorker) → IsSound w → IsSound (end_task rt w)
unfolding end_task erase
end_task-IsSound rt w h = record {
  parts =
      with_tasks h.parts (erase (task_id rt) w.running_tasks)
        (erase (task_id rt) w.unsure_if_running_tasks)
        (λ c. let (r, u) = h.parts.idle c in (rw (r) refl, rw (u) refl))
        (subset-erase (task_id rt) w.unsure_if_running_tasks w.running_tasks h.parts.unsure_runs);
}

forget_unsure-IsSound :
    (rt : RunningTask) (w : RemoteWorker) → IsSound w → IsSound (forget_unsure rt w)
unfolding forget_unsure erase
forget_unsure-IsSound rt w h = record {
  parts =
      with_tasks h.parts w.running_tasks (erase (task_id rt) w.unsure_if_running_tasks)
        (λ c. let (r, u) = h.parts.idle c in (r, rw (u) refl))
        (subset-erase_left (task_id rt) w.unsure_if_running_tasks w.running_tasks
          h.parts.unsure_runs);
}

-- What recordNonRunningTaskStatusImpl does, by cases.
pub record_non_running_impl-cases :
    (rt : RunningTask) (s : TaskStatus) (w : RemoteWorker)
    → (record_non_running_impl rt s w ≡ (w, false))
      ⊎ (record_non_running_impl rt s w ≡ (end_task rt w, true))
      ⊎ (record_non_running_impl rt s w ≡ (forget_unsure rt w, true))
unfolding record_non_running_impl
record_non_running_impl-cases rt s w = ground arith

pub record_non_running_impl-IsSound :
    (rt : RunningTask) (s : TaskStatus) (w : RemoteWorker)
    → IsSound w
    → IsSound (record_non_running_impl rt s w).0
record_non_running_impl-IsSound rt s w h = elim (record_non_running_impl-cases rt s w) [
  | inl e ↦ rw (e) h
  | inr (inl e) ↦ rw (e) (end_task-IsSound rt w h)
  | inr (inr e) ↦ rw (e) (forget_unsure-IsSound rt w h)
]

pub record_failed_task-IsSound :
    (rt : RunningTask) (s : TaskStatus) (w : RemoteWorker) {w' : RemoteWorker}
    → IsSound w
    → record_failed_task rt s w ≡ ok w'
    → IsSound w'
unfolding record_failed_task
record_failed_task-IsSound rt s w {w'} h e =
    let same : (record_non_running_impl rt s w).0 ≡ w' = ground arith in
    subst IsSound same (record_non_running_impl-IsSound rt s w h)

-- How recordNonRunningTaskStatus ends when it does not throw.
pub record_non_running_task_status-cases :
    (rt : RunningTask) (s : TaskStatus) (id : InstanceId) (w : RemoteWorker)
    {r : RemoteWorker × Bool}
    → record_non_running_task_status rt s id w ≡ ok r
    → (r ≡ (w, false))
      ⊎ (r ≡ (note_good_healthcheck rt w, false))
      ⊎ (r ≡ record_non_running_impl rt s w)
unfolding record_non_running_task_status
record_non_running_task_status-cases rt s id w e = ground arith

pub record_non_running_task_status-IsSound :
    (rt : RunningTask) (s : TaskStatus) (id : InstanceId) (w : RemoteWorker)
    {r : RemoteWorker × Bool}
    → IsSound w
    → record_non_running_task_status rt s id w ≡ ok r
    → IsSound r.0
unfolding note_good_healthcheck
record_non_running_task_status-IsSound rt s id w h e =
    elim (record_non_running_task_status-cases rt s id w e) [
      | inl t ↦ rw (t) h
      | inr (inl t) ↦ rw (t) (record { parts = h.parts })
      | inr (inr t) ↦ rw (t) (record_non_running_impl-IsSound rt s w h)
    ]

pub add_unsure_if_running_task-IsSound :
    (rt : RunningTask) (w : RemoteWorker) {w' : RemoteWorker}
    → IsSound w
    → has (task_id rt) w.running_tasks ≡ true
    → add_unsure_if_running_task rt w ≡ ok w'
    → IsSound w'
unfolding add_unsure_if_running_task doubt_task find
add_unsure_if_running_task-IsSound rt w {w'} h c e =
    let same : doubt_task rt w ≡ w' = ground arith in
    subst IsSound same (record {
      parts =
          with_tasks h.parts w.running_tasks (insert_new (task_id rt) rt w.unsure_if_running_tasks)
            (λ i.
              let gone : false ≡ true =
                subst (λ m. has (task_id rt) m ≡ true) (h.parts.idle i).0 c in
              absurd (ground arith))
            (subset-insert_both (task_id rt) rt w.unsure_if_running_tasks w.running_tasks c
              h.parts.unsure_runs);
    })
