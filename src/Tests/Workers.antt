-- ===== src/Tests/Workers.antt =====
-- A worker that connects, reports its tasks, and is lost or replaced.
use bistro.Base.{
  ℕ, Bool, Outcome, ◌≡◌, ◌≢◌, ◌⊎◌, ◌↔◌, inr, refl, true, false, none, some, [], ◌∷◌, ok, arith, has,
  find, erase, ◌>>=◌,
}
use bistro.Base.Int.{pos, ◌+ℤ◌}
use bistro.Base.Maps.{string_eq, pair_eq}
use bistro.WorkerState.{
  State, RemoteWorkerState, init, set_state, judge, is_lost, compute_state, max_healthcheck_gap,
  heartbeat_grace_period, lose_unhealthy_worker_after, worker_check_interval,
}
use bistro.WorkerState.Health.{
  IsRecent, IsOverdue, compute_state-healthy_iff, compute_state-must_die, compute_state_lost,
}
use bistro.WorkerSet.{earlier, make_signed}
use bistro.Requests.{TaskId, TaskMap, RemoteWorkerUpdate, no_requests, request_suicide}
use bistro.Status.Bits.{all_set}
use bistro.Status.{TaskStatus, is_running, is_done, is_overwriteable}
use bistro.Worker.{
  RemoteWorker, make_worker, change_state, initialize_running_tasks, add_running_tasks, task_id,
  compute_worker_state, record_non_running_task_status, record_non_running_impl, record_failed_task,
  end_task, k_healthcheck_task_job,
}
use bistro.Worker.Heartbeat.{
  Site, update_state, update_new_worker, process_heartbeat, consider_worker_set_id,
  take_worker_set_id, adopt_worker_set_id, may_adopt, adopted, is_no_later_than_initial,
}
use bistro.Worker.Sound.{IsSound}
use bistro.Worker.Steps.{Step, Reachable, Reachable-IsSound}
use bistro.Worker.Contract.{
  IsEnded, IsDropped, record_failed_task-IsEnded, record_non_running_task_status-IsEnded,
  record_non_running_task_status-IsDropped,
}
use bistro.Worker.Losing.{update_state-must_die}
use bistro.Worker.Adoption.{process_heartbeat-later}
use bistro.Tests.Samples.{task, instance_at, worker_at, set_id, flags, counting, status_of}

-- A worker of port 8000 that just connected.
abbrev new_worker : RemoteWorker
new_worker = make_worker (pos 100) (worker_at 8000 1) (set_id 1 3) (instance_at 50 9)

abbrev one_task : TaskMap
one_task = (("job", "node"), task) ∷ []

-- It reported one task.
abbrev busy_worker : RemoteWorker
busy_worker = change_state State.unhealthy (record new_worker { running_tasks = one_task })

Reachable-IsSound_example : IsSound busy_worker
unfolding initialize_running_tasks add_running_tasks make_worker init find
Reachable-IsSound_example = Reachable-IsSound flags counting (
    Reachable.next
      (Reachable.connected (pos 100) (worker_at 8000 1) (set_id 1 3) (instance_at 50 9))
      (Step.initialized (task ∷ []) refl))

-- Ten minutes later it is overdue.
abbrev late : RemoteWorkerUpdate
late = no_requests (pos 1000)

update_state-must_die_example :
    (w' : RemoteWorker) × (u' : RemoteWorkerUpdate) × (update_state flags counting true
        (busy_worker, late, 0)
      ≡ ok (w', u', 1))
    × (w'.state.state ≡ State.must_die)
    × (w'.running_tasks ≡ [])
    × (w'.unsure_if_running_tasks ≡ [])
    × ((id : TaskId)
        → has id busy_worker.running_tasks ≡ true
        → has id u'.lost_running_tasks ≡ true)
    × (has busy_worker.worker.shard u'.suicide_workers ≡ true)
unfolding make_worker init set_state compute_worker_state compute_state judge is_lost
    max_healthcheck_gap heartbeat_grace_period lose_unhealthy_worker_after worker_check_interval
    ◌+ℤ◌
update_state-must_die_example =
    update_state-must_die flags counting true busy_worker late 0 1 (λ e. ground arith) refl refl

-- Done
abbrev done_status : TaskStatus
done_status = status_of 4 0

record_failed_task-IsEnded_example :
    (w' : RemoteWorker) × (record_failed_task task (status_of 32 0) busy_worker ≡ ok w')
    × IsEnded (task_id task) busy_worker w'
unfolding is_running is_done is_overwriteable all_set find make_worker
record_failed_task-IsEnded_example =
    record_failed_task-IsEnded task (status_of 32 0) busy_worker refl refl refl
      (λ c e. ground arith)

abbrev ended : RemoteWorker
ended = end_task task busy_worker

record_non_running_task_status-IsEnded_example :
    (is_running done_status ≡ false)
    × (instance_at 1 7 ≡ busy_worker.worker.id)
    × (busy_worker.state.state ≢ State.new)
    × (task.job ≢ k_healthcheck_task_job)
    × IsEnded (task_id task) busy_worker ended
unfolding record_non_running_task_status record_non_running_impl is_running all_set find make_worker
    set_state init
record_non_running_task_status-IsEnded_example =
    record_non_running_task_status-IsEnded task done_status busy_worker (instance_at 1 7) ended refl

-- The same report, repeated with an overwriteable status.
record_non_running_task_status-IsDropped_example :
    (ended.running_tasks ≡ ended.running_tasks)
    × (ended.unsure_if_running_tasks ≡ ended.unsure_if_running_tasks)
    × ((task.job ≡ k_healthcheck_task_job) ⊎ IsDropped task (status_of 1056 0) ended)
unfolding record_non_running_task_status record_non_running_impl is_running is_overwriteable all_set
    find erase make_worker set_state init end_task
record_non_running_task_status-IsDropped_example =
    record_non_running_task_status-IsDropped task (status_of 1056 0) ended (instance_at 1 7) ended
      refl

-- A worker that has adopted version 4.
abbrev associated : RemoteWorker
associated = record busy_worker {
  worker_set_id = some (set_id 50 4);
  first_associated_worker_set_id = some (set_id 50 4);
}

abbrev soon : RemoteWorkerUpdate
soon = no_requests (pos 110)

abbrev site_of : Outcome (Bool × Site ℕ) → Site ℕ
site_of (ok (accepted, site)) = site
site_of _ = (associated, soon, 0)

-- Its next heartbeat comes with version 6.
abbrev later : Site ℕ
later =
    site_of
      (process_heartbeat flags counting (worker_at 8000 1) (set_id 50 6) true (associated, soon, 0))

later_lem :
    process_heartbeat flags counting (worker_at 8000 1) (set_id 50 6) true (associated, soon, 0)
    ≡ ok (true, later)
unfolding process_heartbeat bistro.Worker.Heartbeat.check_protocol_version make_worker
    bistro.Worker.Heartbeat.update_current_worker consider_worker_set_id is_no_later_than_initial
    take_worker_set_id earlier adopt_worker_set_id may_adopt
    bistro.Worker.Heartbeat.receive_heartbeat update_state adopted set_state compute_worker_state
    compute_state is_lost bistro.Base.Int.◌*ℤ◌ ◌+ℤ◌ find bistro.Requests.add_new_worker
    bistro.Requests.check_unsure_if_running_tasks bistro.Requests.healthcheck_worker
    bistro.Requests.lose_running_task request_suicide bistro.Worker.Heartbeat.is_bumped
    bistro.Worker.Heartbeat.is_healthcheck_due bistro.Worker.Heartbeat.is_unsure_check_due
    bistro.Worker.Heartbeat.lose_worker bistro.Worker.Heartbeat.next_repeats
    bistro.Worker.Heartbeat.note_unhealthy bistro.Worker.Heartbeat.send_healthcheck
    bistro.Worker.Heartbeat.send_unsure_check bistro.Worker.Heartbeat.unsure_period
    update_new_worker bistro.Worker.lose_running_tasks bistro.Worker.lose_tasks make_signed
    heartbeat_grace_period init judge lose_unhealthy_worker_after max_healthcheck_gap
    worker_check_interval
later_lem = refl

process_heartbeat-later_example :
    (true ≡ true)
    × ((later.0.worker_set_id ≡ some (set_id 50 4))
        ⊎ ((later.0.worker_set_id ≡ some (set_id 50 6))
            × (earlier 4 6 ≡ ok true)
            × ((set_id 50 6).scheduler_id ≡ associated.scheduler_id)))
    × (later.0.first_associated_worker_set_id ≡ some (set_id 50 4))
unfolding make_worker
process_heartbeat-later_example =
    process_heartbeat-later flags counting (worker_at 8000 1) (set_id 50 6) true associated soon 0
      (set_id 50 4) (set_id 50 4) true later.0 later.1 later.2 refl refl refl refl later_lem

-- A state that has been healthy, and was lost sight of.
abbrev seen : RemoteWorkerState
seen = record {
  state = State.unhealthy;
  time_became_unhealthy = pos 100;
  time_last_good_healthcheck_sent = pos 90;
  time_last_heartbeat_received = pos 95;
  has_been_healthy = true;
  notify_sequence_num = pos 0;
}

compute_state-healthy_iff_example :
    ((compute_state seen (pos 120) (pos 125) (pos 75) (pos 500) false).0 ≡ State.healthy) ↔ (
      (seen.state ≢ State.new)
      × (seen.state ≢ State.must_die)
      × IsRecent seen (pos 120) (pos 125) (pos 75) (pos 500) false
      × ((seen.has_been_healthy ≡ true) ⊎ (false ≡ true)))
compute_state-healthy_iff_example =
    compute_state-healthy_iff seen (pos 120) (pos 125) (pos 75) (pos 500) false

compute_state-must_die_example :
    (seen.state ≢ State.healthy)
    × IsOverdue seen (pos 700) (pos 125) (pos 75) (pos 500) false
    × ((compute_state seen (pos 700) (pos 125) (pos 75) (pos 500) false).1 ≡ false)
unfolding compute_state judge is_lost ◌+ℤ◌
compute_state-must_die_example =
    compute_state-must_die seen (pos 700) (pos 125) (pos 75) (pos 500) false (λ e. ground arith)
      refl

compute_state_lost_example :
    (compute_state seen (pos 700) (pos 125) (pos 75) (pos 500) false).0 ≡ State.must_die
unfolding ◌+ℤ◌
compute_state_lost_example =
    compute_state_lost seen (pos 700) (pos 125) (pos 75) (pos 500) false
      (inr (refl, λ r. absurd (omega (arith, r.0)))) (omega arith) refl (omega arith)
