-- ===== src/Tests/Samples.antt =====
-- Data that the examples share.
use bistro.Base.{ℕ, Bool, true, false, Option, none, some, List, [], ◌∷◌, String, Outcome, ok}
use bistro.Base.Int.{pos}
use bistro.Backoff.{BackoffDuration, JobBackoffSettings, wait}
use bistro.Thrift.{InstanceId, RunningTask, MachinePortLock, BistroWorker, SetHash, WorkerSetId}
use bistro.WorkerState.{Flags}
use bistro.Status.{TaskStatus}
use bistro.Worker.Heartbeat.{Callbacks}

abbrev pub instance_at : ℕ → ℕ → InstanceId
instance_at t r = record { start_time = pos t; rand = pos r }

abbrev pub task_with : BackoffDuration → RunningTask
task_with next = record {
  job = "job";
  node = "node";
  node_resources = [];
  worker_shard = "shard";
  invocation_id = instance_at 5 1;
  next_backoff_duration = next;
  worker_suicide_task_kill_wait_ms = pos 5000;
}

abbrev pub task : RunningTask
task = task_with (wait (pos 60))

abbrev pub machine : ℕ → MachinePortLock
machine port = record { hostname = "host"; port = pos port }

abbrev pub worker_at : ℕ → ℕ → BistroWorker
worker_at port t = record {
  shard = "shard";
  machine_lock = machine port;
  addr = record { ip_or_host = "host"; port = pos port };
  id = instance_at t 7;
  heartbeat_period_sec = pos 15;
  protocol_version = pos 2;
}

abbrev pub zero_hash : SetHash
zero_hash = record { add_all = 0; xor_all = 0 }

abbrev pub set_id : ℕ → ℕ → WorkerSetId
set_id scheduler version = record {
  scheduler_id = instance_at scheduler 9;
  version = version;
  hash = record { start_time = zero_hash; rand = zero_hash; num_workers = pos 1 };
}

abbrev pub flags : Flags
flags = record {
  heartbeat_grace_period = pos 60;
  healthcheck_period = pos 60;
  healthcheck_grace_period = pos 60;
  lose_unhealthy_worker_after = pos 500;
  worker_check_interval = pos 5;
  worker_suicide_backoff_safety_margin_sec = pos 60;
  worker_suicide_task_kill_wait_ms = pos 5000;
  allow_bump_unhealthy_worker = true;
  unsure_if_running_check_initial_period = pos 5;
  startup_wait_for_workers = pos 0;
}

-- An owner that counts the callbacks.
abbrev pub counting : Callbacks ℕ
counting = record {
  new_worker = λ w n. ok n;
  dead_worker = λ w n. ok (bistro.Base.suc n);
  worker_set_id_change = λ w i n. ok (w.indirect_worker_set_id, n);
}

abbrev pub settings_fail : JobBackoffSettings
settings_fail = record { values = pos 15 ∷ pos 30 ∷ []; repeat = false }

abbrev pub settings_repeat : JobBackoffSettings
settings_repeat = record { values = pos 15 ∷ pos 30 ∷ []; repeat = true }

abbrev pub status_of : ℕ → ℕ → TaskStatus
status_of bits backoff = record {
  data' = none;
  timestamp = pos 100;
  backoff_duration = backoff;
  bits = bits;
}
