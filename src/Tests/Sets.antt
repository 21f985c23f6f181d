-- ===== src/Tests/Sets.antt =====
-- A scheduler that starts, hears of a worker, and then of its tasks.
use bistro.Base.{◌≡◌, refl, true, false, none, some, [], ◌∷◌, ok, length}
use bistro.Base.Int.{pos}
use bistro.Thrift.{WorkerSetId}
use bistro.WorkerSet.Hash.{hash_of}
use bistro.WorkerState.{State}
use bistro.Requests.{no_requests, RemoteWorkerUpdate}
use bistro.Worker.{RemoteWorker, make_worker, change_state}
use bistro.RemoteWorkers.{RemoteWorkers, make_workers}
use bistro.RemoteWorkers.Operations.{process_heartbeat, initialize_running_tasks}
use bistro.RemoteWorkers.Members.{alive_ids}
use bistro.RemoteWorkers.Steps.{Step, Reachable, Reachable-IsCounted}
use bistro.Tests.Samples.{instance_at, worker_at, set_id, flags, task}

abbrev connected : RemoteWorker
connected = make_worker (pos 100) (worker_at 8000 1) (set_id 1 3) (instance_at 50 9)

-- It has been sent a health check.
abbrev greeted : RemoteWorker
greeted = record connected {
  state = record (connected.state) { time_last_heartbeat_received = pos 100 };
  time_last_healthcheck_sent = pos 100;
}

abbrev reported : RemoteWorker
reported =
    change_state State.unhealthy (record greeted { running_tasks = (("job", "node"), task) ∷ [] })

-- The set of the scheduler has this worker alone.
abbrev current : WorkerSetId
current = record {
  scheduler_id = instance_at 50 9;
  version = 1;
  hash = record {
    start_time = record { add_all = 1; xor_all = 1 };
    rand = record { add_all = 7; xor_all = 7 };
    num_workers = pos 1;
  };
}

abbrev with_worker : RemoteWorker → RemoteWorkers
with_worker w = record {
  start_time = pos 90;
  scheduler_id = instance_at 50 9;
  workers = ("shard", w) ∷ [];
  worker_pool = record { shards = "shard" ∷ []; next_shard = "" };
  host_pools = ("host", record { shards = "shard" ∷ []; next_shard = "" }) ∷ [];
  initial_worker_set_ids = set_id 1 3 ∷ [];
  indirect_versions = [];
  non_must_die = current;
  history = (1, record { removed = none; added = "shard" ∷ [] }) ∷ [];
  in_initial_wait = true;
}

abbrev at_100 : RemoteWorkerUpdate
at_100 = no_requests (pos 100)

-- The new worker gets a health check, and is asked for its tasks.
abbrev asked : RemoteWorkerUpdate
asked = record at_100 {
  workers_to_healthcheck = ("shard", worker_at 8000 1) ∷ [];
  new_workers = ("shard", worker_at 8000 1) ∷ [];
}

heard :
    process_heartbeat flags
      (worker_at 8000 1)
      (set_id 1 3)
      (at_100, make_workers (pos 90) (instance_at 50 9))
    ≡ ok (some current, asked, with_worker greeted)
unfolding process_heartbeat bistro.Worker.Heartbeat.enforce_protocol_version bistro.Base.find
    make_workers bistro.RemoteWorkers.Operations.connect bistro.RemoteWorkers.new_worker make_worker
    bistro.RemoteWorkers.advance bistro.RemoteWorkers.add_step bistro.RemoteWorkers.Operations.beat
    bistro.RemoteWorkers.consensus_permits_becoming_healthy bistro.WorkerSet.add_worker_id_to_hash
    bistro.Base.Int.◌+ℤ◌ bistro.Worker.Heartbeat.process_heartbeat
    bistro.Worker.Heartbeat.update_current_worker bistro.Worker.Heartbeat.consider_worker_set_id
    bistro.Worker.Heartbeat.receive_heartbeat bistro.Base.assign
    bistro.RemoteWorkers.Operations.move_host bistro.Requests.add_new_worker
    bistro.Requests.healthcheck_worker bistro.Worker.Heartbeat.is_healthcheck_due
    bistro.Worker.Heartbeat.is_unsure_check_due bistro.Worker.Heartbeat.note_unhealthy
    bistro.Worker.Heartbeat.send_healthcheck bistro.Worker.Heartbeat.send_unsure_check
    bistro.Worker.Heartbeat.update_state bistro.Worker.compute_worker_state
    bistro.WorkerState.compute_state bistro.WorkerState.is_lost bistro.WorkerState.judge
    bistro.WorkerState.lose_unhealthy_worker_after bistro.WorkerState.set_state
heard = refl

told :
    initialize_running_tasks (worker_at 8000 1) (task ∷ []) (with_worker greeted)
    ≡ ok (with_worker reported)
unfolding initialize_running_tasks bistro.Base.find bistro.Worker.worker_state make_worker
    bistro.Worker.initialize_running_tasks bistro.Worker.add_running_tasks bistro.Base.assign
told = refl

Reachable-IsCounted_example :
    ((with_worker reported).non_must_die.hash ≡ hash_of (alive_ids (with_worker reported).workers))
    × (1 ≡ length (alive_ids (with_worker reported).workers))
    × ((with_worker reported).non_must_die.hash.num_workers ≡ pos 1)
Reachable-IsCounted_example = Reachable-IsCounted flags (
    Reachable.next
      (Reachable.next (Reachable.started (pos 90) (instance_at 50 9))
        (Step.heartbeat (worker_at 8000 1) (set_id 1 3) at_100 asked (some current) heard))
      (Step.reported (worker_at 8000 1) (task ∷ []) told))
