-- ===== src/RemoteWorkers/Operations.antt =====
-- remote/RemoteWorkers.{h,cpp}: heartbeats, the updates of all workers, the first reports of tasks,
-- and the initial wait.
use bistro.Base.{
  String, Bool, not, Option, none, some, List, [], ◌∷◌, find, assign, has, insert_new, contains,
  same, string_eq, Outcome, ok, check, or_fatal, ◌>>=◌, ◌>>◌, if◌then◌else◌,
}
use bistro.Base.Int.{ℤ}
use bistro.Thrift.{BistroWorker, WorkerSetId, RunningTask, protocol_version, set_id_eq, set_hash_eq}
use bistro.WorkerState.{State, Flags, state_beq}
use bistro.Requests.{RemoteWorkerUpdate}
use bistro.Worker.{make_worker, worker_state, initialize_running_tasks as initialize_worker_tasks}
use bistro.Worker.Heartbeat.{
  update_state, process_heartbeat as process_worker_heartbeat, enforce_protocol_version,
}
use bistro.Pools.{RoundRobinWorkerPool}
use bistro.RemoteWorkers.{
  RemoteWorkers, callbacks, new_worker, empty_pool, consensus_permits_becoming_healthy,
}

-- A pool of a host, which is made if it is not there.
unfoldable pub host_worker_pool : String → RemoteWorkers → RoundRobinWorkerPool
host_worker_pool host r = elim (find host r.host_pools) [ none ↦ empty_pool | some pool ↦ pool ]

abbrev remove : String → List String → List String
remove shard [] = []
remove shard (s ∷ shards) = if same s shard then shards else s ∷ remove shard shards

unfoldable pub add_to_host : String → String → RemoteWorkers → Outcome RemoteWorkers
unfolding host_worker_pool
add_to_host host shard r =
    let pool = host_worker_pool host r in
    check (not (contains shard pool.shards))
    >> ok (record r {
      host_pools = assign host (record pool { shards = shard ∷ pool.shards }) r.host_pools;
    })

unfoldable pub remove_from_host : String → String → RemoteWorkers → Outcome RemoteWorkers
unfolding host_worker_pool
remove_from_host host shard r =
    let pool = host_worker_pool host r in
    check (contains shard pool.shards)
    >> ok (record r {
      host_pools = assign host (record pool { shards = remove shard pool.shards }) r.host_pools;
    })

-- A worker of an unknown shard joins the pools.
unfoldable pub connect : ℤ → BistroWorker → WorkerSetId → RemoteWorkers → Outcome RemoteWorkers
unfolding add_to_host
connect cur_time worker worker_set_id r =
    let w = make_worker cur_time worker worker_set_id r.scheduler_id in
    new_worker w r >>= λ r'. add_to_host worker.machine_lock.hostname worker.shard (record r' {
      workers = insert_new worker.shard w r'.workers;
      worker_pool = record (r'.worker_pool) { shards = worker.shard ∷ r'.worker_pool.shards };
    })

-- A worker whose host has changed moves to another pool.
unfoldable pub move_host : String → String → String → RemoteWorkers → Outcome RemoteWorkers
move_host shard old_hostname new_hostname r =
    if same new_hostname old_hostname
    then ok r
    else (remove_from_host old_hostname shard r >>= add_to_host new_hostname shard)

module _ (f : Flags) where
  -- A heartbeat of a known worker: whether it is accepted.
  unfoldable pub beat :
      BistroWorker
      → WorkerSetId
      → RemoteWorkerUpdate × RemoteWorkers
      → Outcome (Bool × RemoteWorkerUpdate × RemoteWorkers)
  beat worker worker_set_id (u, r) = or_fatal (find worker.shard r.workers) >>= λ w.
      consensus_permits_becoming_healthy w r >>= λ permits.
      process_worker_heartbeat f callbacks worker worker_set_id permits (w, u, r)
      >>= λ (accepted, (w', u', r')).
          move_host worker.shard w.worker.machine_lock.hostname w'.worker.machine_lock.hostname
            (record r' { workers = assign worker.shard w' r'.workers })
          >>= λ r''. ok (accepted, u', r'')

  -- processHeartbeat: the worker set of the response, if there is one.
  unfoldable pub process_heartbeat :
      BistroWorker
      → WorkerSetId
      → RemoteWorkerUpdate × RemoteWorkers
      → Outcome (Option WorkerSetId × RemoteWorkerUpdate × RemoteWorkers)
  process_heartbeat worker worker_set_id (u, r) =
      enforce_protocol_version worker.protocol_version protocol_version
      >> ((if has worker.shard r.workers then ok r else connect u.cur_time worker worker_set_id r)
          >>= λ known. beat worker worker_set_id (u, known) >>= λ (accepted, u', r').
              ok (if accepted then some r'.non_must_die else none, u', r'))

  unfoldable pub update_worker :
      String → RemoteWorkerUpdate × RemoteWorkers → Outcome (RemoteWorkerUpdate × RemoteWorkers)
  update_worker shard (u, r) = or_fatal (find shard r.workers) >>= λ w.
      consensus_permits_becoming_healthy w r >>= λ permits.
      update_state f callbacks permits (w, u, r) >>= λ (w', u', r').
      ok (u', record r' { workers = assign shard w' r'.workers })

  -- The loop of updateState over the pool.
  unfoldable pub update_workers :
      List String
      → RemoteWorkerUpdate × RemoteWorkers
      → Outcome (RemoteWorkerUpdate × RemoteWorkers)
  update_workers [] site = ok site
  update_workers (shard ∷ shards) site = update_worker shard site >>= update_workers shards

-- What a worker reports when it was polled for its running tasks.
unfoldable pub initialize_running_tasks :
    BistroWorker → List RunningTask → RemoteWorkers → Outcome RemoteWorkers
initialize_running_tasks worker running_tasks r = or_fatal (find worker.shard r.workers) >>= λ w.
    if not (state_beq (worker_state w) State.new)
    then ok r
    else (initialize_worker_tasks running_tasks w >>= λ w'.
        ok (record r { workers = assign worker.shard w' r.workers }))
