-- ===== src/Worker/Contract.antt =====
-- The contract of the functions that record that a task does not run, as RemoteWorker.h states it.
use bistro.Base.{
  ◌≡◌, refl, subst, true, false, none, some, ok, arith, find, erase, same, Bool-cases, inl, inr,
  ◌⊎◌, find-erase, Option-cases, ap, same_refl, ◌∙◌, ◌≢◌,
}
use bistro.Base.Maps.{string_eq, pair_eq}
use bistro.Thrift.{RunningTask, InstanceId, instance_eq}
use bistro.WorkerState.{State}
use bistro.Requests.{TaskId, TaskMap}
use bistro.Status.{TaskStatus, is_running, is_done, is_overwriteable}
use bistro.Worker.{
  RemoteWorker, task_id, record_non_running_impl, record_failed_task,
  record_non_running_task_status, note_good_healthcheck, end_task, forget_unsure,
  k_healthcheck_task_job,
}

-- Of all the tasks of a worker exactly this one has ended.
pub record IsEnded (id : TaskId) (w w' : RemoteWorker) : Type 0 where
  pub not_running : find id w'.running_tasks ≡ none
  pub not_unsure : find id w'.unsure_if_running_tasks ≡ none
  pub others_run : (i : TaskId) → id ≢ i → find i w'.running_tasks ≡ find i w.running_tasks
  pub others_unsure :
      (i : TaskId) → id ≢ i → find i w'.unsure_if_running_tasks ≡ find i w.unsure_if_running_tasks

erased : (id : TaskId) (m : TaskMap) → find id (erase id m) ≡ none
erased id m = find-erase id id m ∙ rw (same_refl id) refl

kept : (id i : TaskId) (m : TaskMap) → id ≢ i → find i (erase id m) ≡ find i m
kept id i m ne = elim (Bool-cases (same id i)) [
  | inl t ↦ absurd (ne ((pair_eq.beq_iff id i).0 t))
  | inr t ↦ find-erase id i m ∙ rw (t) refl
]

end_task-IsEnded : (rt : RunningTask) (w : RemoteWorker) → IsEnded (task_id rt) w (end_task rt w)
unfolding end_task
end_task-IsEnded rt w = record {
  not_running = erased (task_id rt) w.running_tasks;
  not_unsure = erased (task_id rt) w.unsure_if_running_tasks;
  others_run = λ i ne. kept (task_id rt) i w.running_tasks ne;
  others_unsure = λ i ne. kept (task_id rt) i w.unsure_if_running_tasks ne;
}

forget_unsure-IsEnded :
    (rt : RunningTask) (w : RemoteWorker)
    → find (task_id rt) w.running_tasks ≡ none
    → IsEnded (task_id rt) w (forget_unsure rt w)
unfolding forget_unsure
forget_unsure-IsEnded rt w e = record {
  not_running = e;
  not_unsure = erased (task_id rt) w.unsure_if_running_tasks;
  others_run = λ i ne. refl;
  others_unsure = λ i ne. kept (task_id rt) i w.unsure_if_running_tasks ne;
}

-- An update that concerns no invocation that runs here: another invocation of the task runs, or none
-- does and the status would only replace a better one.
abbrev pub IsDropped : RunningTask → TaskStatus → RemoteWorker → Type 0
IsDropped rt s w =
    ((c : RunningTask) × (find (task_id rt) w.running_tasks ≡ some c)
      × (c.invocation_id ≢ rt.invocation_id))
    ⊎ ((find (task_id rt) w.running_tasks ≡ none) × (is_overwriteable s ≡ true))

module _ (rt : RunningTask) (s : TaskStatus) (w : RemoteWorker) where
  impl-split :
      ((record_non_running_impl rt s w ≡ (w, false)) × IsDropped rt s w)
      ⊎ (record_non_running_impl rt s w ≡ (end_task rt w, true))
      ⊎ ((record_non_running_impl rt s w ≡ (forget_unsure rt w, true))
          × (find (task_id rt) w.running_tasks ≡ none))
  unfolding record_non_running_impl
  impl-split = elim (Option-cases (find (task_id rt) w.running_tasks)) [
    | inl e ↦ elim (Bool-cases (is_overwriteable s)) [
      | inl o ↦ inl (ground arith, inr (e, o))
      | inr o ↦ inr (inr (ground arith, e))
    ]
    | inr (c, e) ↦ elim (Bool-cases (same c.invocation_id rt.invocation_id)) [
      | inl o ↦ inr (inl (ground arith))
      | inr o ↦ inl (
        ground arith,
        inl (
          c,
          e,
          λ t. absurd (ground (arith, (instance_eq.beq_iff c.invocation_id rt.invocation_id).1 t)),
        ),
      )
    ]
  ]

  impl-IsEnded :
      (record_non_running_impl rt s w).1 ≡ true
      → IsEnded (task_id rt) w (record_non_running_impl rt s w).0
  impl-IsEnded e = elim impl-split [
    | inl (t, d) ↦ absurd (ground arith)
    | inr (inl t) ↦ rw (t) (end_task-IsEnded rt w)
    | inr (inr (t, n)) ↦ rw (t) (forget_unsure-IsEnded rt w n)
  ]

  -- The scheduler may record a failure of its own: the CHECKs of recordFailedTask hold, and the task
  -- has ended, if the status is neither running, nor done, nor overwriteable, and no other invocation
  -- of the task runs.
  pub record_failed_task-IsEnded :
      is_running s ≡ false
      → is_done s ≡ false
      → is_overwriteable s ≡ false
      → ((c : RunningTask)
          → find (task_id rt) w.running_tasks ≡ some c
          → c.invocation_id ≡ rt.invocation_id)
      → (w' : RemoteWorker) × (record_failed_task rt s w ≡ ok w') × IsEnded (task_id rt) w w'
  unfolding record_failed_task
  record_failed_task-IsEnded r d o h = elim impl-split [
    | inl (t, inl (c, e, ne)) ↦ absurd (ne (h c e))
    | inl (t, inr (e, over)) ↦ absurd (ground arith)
    | inr (inl t) ↦ (end_task rt w, rw (r, d, t) refl, end_task-IsEnded rt w)
    | inr (inr (t, n)) ↦ (forget_unsure rt w, rw (r, d, t) refl, forget_unsure-IsEnded rt w n)
  ]

  module _ (id : InstanceId) (w' : RemoteWorker) where
    -- When recordNonRunningTaskStatus lets TaskStatuses see a status, the status is not running, it came
    -- from the current instance of the worker, which is not NEW, it is no reply to a health check, and
    -- exactly this task of the worker has ended, for the lists of running and of unsure tasks.
    pub record_non_running_task_status-IsEnded :
        record_non_running_task_status rt s id w ≡ ok (w', true)
        → (is_running s ≡ false)
          × (id ≡ w.worker.id)
          × (w.state.state ≢ State.new)
          × (rt.job ≢ k_healthcheck_task_job)
          × IsEnded (task_id rt) w w'
    unfolding record_non_running_task_status
    record_non_running_task_status-IsEnded e =
        let ended : record_non_running_impl rt s w ≡ (w', true) = ground arith in
        (
          ground arith,
          (instance_eq.beq_iff id w.worker.id).0 (ground arith),
          λ n. ground arith,
          λ j. absurd (ground (arith, (string_eq.beq_iff rt.job k_healthcheck_task_job).1 j)),
          subst (IsEnded (task_id rt) w) (ap (λ p. p.0) ended) (impl-IsEnded (ap (λ p. p.1) ended)),
        )

    -- When it keeps a status from TaskStatuses, the lists of tasks stay as they were, and the status
    -- was a reply to a health check, or of another invocation than the running one, or overwriteable
    -- and of a task that does not run.
    pub record_non_running_task_status-IsDropped :
        record_non_running_task_status rt s id w ≡ ok (w', false)
        → (w'.running_tasks ≡ w.running_tasks)
          × (w'.unsure_if_running_tasks ≡ w.unsure_if_running_tasks)
          × ((rt.job ≡ k_healthcheck_task_job) ⊎ IsDropped rt s w)
    unfolding record_non_running_task_status note_good_healthcheck
    record_non_running_task_status-IsDropped e =
        elim (Bool-cases (same rt.job k_healthcheck_task_job)) [
          | inl j ↦
              let same_tasks : (w'.running_tasks ≡ w.running_tasks)
                  × (w'.unsure_if_running_tasks ≡ w.unsure_if_running_tasks) =
                (ground arith, ground arith) in
              (
                same_tasks.0,
                same_tasks.1,
                inl ((string_eq.beq_iff rt.job k_healthcheck_task_job).0 j),
              )
          | inr j ↦
              let dropped : record_non_running_impl rt s w ≡ (w', false) = ground arith in
              elim impl-split [
                | inl (t, d) ↦ (ground arith, ground arith, inr d)
                | inr (inl t) ↦ absurd (ground arith)
                | inr (inr (t, n)) ↦ absurd (ground arith)
              ]
        ]
