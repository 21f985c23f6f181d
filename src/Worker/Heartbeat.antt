-- ===== src/Worker/Heartbeat.antt =====
-- remote/RemoteWorker.cpp: updateState and the handling of heartbeats.
use bistro.Base.{
  Option, ℕ, suc, ◌^◌, Bool, true, false, not, ◌&&◌, ◌||◌, none, some, Outcome, ok, throw, check,
  ◌>>=◌, ◌>>◌, if◌then◌else◌, is_nil, ltb, same, nat_eq,
}
use bistro.Base.Int.{ℤ, pos, ltb_ℤ, eqb_ℤ, ◌+ℤ◌, ◌*ℤ◌}
use bistro.Thrift.{BistroWorker, WorkerSetId, instance_eq, machine_eq, set_id_eq, protocol_version}
use bistro.WorkerSet.{earlier}
use bistro.WorkerState.{State, Flags, state_beq, at_least_one}
use bistro.Requests.{
  RemoteWorkerUpdate, healthcheck_worker, request_suicide, add_new_worker,
  check_unsure_if_running_tasks,
}
use bistro.Worker.{
  RemoteWorker, make_worker, compute_worker_state, change_state, lose_running_tasks,
}

-- checkWorkerSchedulerProtocolVersion
unfoldable pub check_protocol_version : ℤ → ℤ → Bool
check_protocol_version worker scheduler = eqb_ℤ worker scheduler

unfoldable pub enforce_protocol_version : ℤ → ℤ → Outcome (Unit {0})
unfolding check_protocol_version
enforce_protocol_version worker scheduler =
    if not (check_protocol_version worker scheduler)
    then throw "Worker-scheduler protocol version mismatch"
    else ok tt

-- What the owner of the worker does on its transitions.
pub record Callbacks (G : Type 0) : Type 0 where
  pub new_worker : RemoteWorker → G → Outcome G
  pub dead_worker : RemoteWorker → G → Outcome G
  pub worker_set_id_change : RemoteWorker → WorkerSetId → G → Outcome (Option WorkerSetId × G)

-- kMaxBackoffForUnsureIfRunningCheck
abbrev pub k_max_backoff_for_unsure_if_running_check : ℕ
k_max_backoff_for_unsure_if_running_check = 8

-- The last steps of updateState: a health check if one is due, and a check of the tasks that may or
-- may not run. The shift is exact, as the number of repeats is at most 8 and the flag an int.
unfoldable pub is_healthcheck_due : Flags → RemoteWorker → ℤ → Bool
is_healthcheck_due f w cur_time =
    not (ltb_ℤ cur_time (w.time_last_healthcheck_sent +ℤ at_least_one f.healthcheck_period))

unfoldable pub send_healthcheck :
    Flags → RemoteWorker × RemoteWorkerUpdate → RemoteWorker × RemoteWorkerUpdate
send_healthcheck f (w, u) =
    let due = is_healthcheck_due f w u.cur_time in
    (
      record w {
        time_last_healthcheck_sent = if due then u.cur_time else w.time_last_healthcheck_sent;
      },
      if due then healthcheck_worker w.worker u else u,
    )

unfoldable pub unsure_period : Flags → ℕ → ℤ
unsure_period f repeats = at_least_one f.unsure_if_running_check_initial_period *ℤ pos (2 ^ repeats)

unfoldable pub is_unsure_check_due : Flags → RemoteWorker → ℤ → Bool
is_unsure_check_due f w cur_time =
    not (is_nil w.unsure_if_running_tasks)
    && not (
        ltb_ℤ cur_time (
          w.time_of_last_unsure_if_running_check
          +ℤ unsure_period f w.repeats_of_unsure_if_running_check))

unfoldable pub next_repeats : ℕ → ℕ
next_repeats n = if ltb n k_max_backoff_for_unsure_if_running_check then suc n else n

unfoldable pub send_unsure_check :
    Flags → RemoteWorker × RemoteWorkerUpdate → RemoteWorker × RemoteWorkerUpdate
send_unsure_check f (w, u) =
    let due = is_unsure_check_due f w u.cur_time in
    (
      record w {
        time_of_last_unsure_if_running_check =
            if due then u.cur_time else w.time_of_last_unsure_if_running_check;
        repeats_of_unsure_if_running_check =
            if is_nil w.unsure_if_running_tasks
            then 0
            else if due
            then next_repeats w.repeats_of_unsure_if_running_check
            else w.repeats_of_unsure_if_running_check;
      },
      if due then check_unsure_if_running_tasks w.worker w.unsure_if_running_tasks u else u,
    )

-- A worker that stops being healthy starts the clock that makes it lost.
unfoldable pub note_unhealthy : State → ℤ → RemoteWorker → RemoteWorker
note_unhealthy new_state cur_time w = record w {
  state = record (w.state) {
    time_became_unhealthy =
        if not (state_beq new_state State.healthy) && state_beq w.state.state State.healthy
        then cur_time
        else w.state.time_became_unhealthy;
  };
}

-- The two CHECKs on the first worker set that a worker adopts.
unfoldable pub may_adopt : WorkerSetId → RemoteWorker → Bool
may_adopt id w = elim w.first_associated_worker_set_id [
  | some _ ↦ true
  | none ↦
      elim w.worker_set_id [ none ↦ true | some _ ↦ false ] && not (same w.initial_worker_set_id id)
]

unfoldable pub adopted : WorkerSetId → Option WorkerSetId → RemoteWorker → RemoteWorker
adopted id indirect w = record w {
  worker_set_id = some id;
  indirect_worker_set_id = indirect;
  first_associated_worker_set_id = elim w.first_associated_worker_set_id [
    | none ↦ some id
    | some first ↦ some first
  ];
}

-- The worker, the requests and the owner's state.
abbrev pub Site : Type 0 → Type 0
Site G = RemoteWorker × RemoteWorkerUpdate × G

module _ {G : Type 0} (f : Flags) (callbacks : Callbacks G) where
  unfoldable pub lose_worker : Site G → Outcome (Site G)
  unfolding request_suicide lose_running_tasks
  lose_worker (w, u, g) =
      let (w', u') = lose_running_tasks (w, request_suicide w.worker u) in
      callbacks.dead_worker w g >>= λ g'. ok (change_state State.must_die w', u', g')

  unfoldable pub update_state : Bool → Site G → Outcome (Site G)
  update_state consensus_permits (w, u, g) =
      let new_state = (compute_worker_state f w u.cur_time consensus_permits).0 in
      let w1 = note_unhealthy new_state u.cur_time w in
      let u1 = if state_beq new_state State.new then add_new_worker w.worker u else u in
      let (w2, u2) = send_unsure_check f (send_healthcheck f (change_state new_state w1, u1)) in
      if state_beq w.state.state State.must_die
      then ok (w, u, g)
      else if state_beq new_state State.must_die
      then lose_worker (w1, u1, g)
      else ok (w2, u2, g)

  -- A good heartbeat came: note its time and update the state.
  unfoldable pub receive_heartbeat : Bool → Site G → Outcome (Site G)
  receive_heartbeat consensus_permits (w, u, g) =
      update_state consensus_permits
        (record w { state = record (w.state) { time_last_heartbeat_received = u.cur_time } }, u, g)

  unfoldable pub update_new_worker : BistroWorker → WorkerSetId → Site G → Outcome (Site G)
  update_new_worker w_new worker_set_id (w, u, g) =
      let w' = make_worker u.cur_time w_new worker_set_id w.scheduler_id in
      let u' = (lose_running_tasks (w, u)).1 in
      (if state_beq w.state.state State.must_die then ok g else callbacks.dead_worker w g) >>= λ g1.
      callbacks.new_worker w' g1 >>= λ g2. receive_heartbeat false (w', u', g2)

  -- The worker adopts a later version of the worker set: it takes the first one for good.
  unfoldable pub adopt_worker_set_id : WorkerSetId → RemoteWorker × G → Outcome (RemoteWorker × G)
  adopt_worker_set_id id (w, g) = callbacks.worker_set_id_change w id g >>= λ (indirect, g').
      check (may_adopt id w) >> ok (adopted id indirect w, g')

  -- The first test of updateCurrentWorker: is this set no later than the initial one?
  unfoldable pub is_no_later_than_initial : WorkerSetId → RemoteWorker → Outcome Bool
  is_no_later_than_initial id w =
      if same id.scheduler_id w.initial_worker_set_id.scheduler_id
      then (earlier w.initial_worker_set_id.version id.version >>= λ e. ok (not e))
      else ok false

  -- The later tests of updateCurrentWorker.
  unfoldable pub take_worker_set_id : WorkerSetId → RemoteWorker × G → Outcome (RemoteWorker × G)
  take_worker_set_id id (w, g) = elim w.worker_set_id [
    | none ↦ adopt_worker_set_id id (w, g)
    | some current ↦ earlier current.version id.version >>= λ later.
        if later
        then adopt_worker_set_id id (w, g)
        else if same current.version id.version
        then check (same current id) >> ok (w, g)
        else ok (w, g)
  ]

  unfoldable pub consider_worker_set_id :
      WorkerSetId → RemoteWorker × G → Outcome (RemoteWorker × G)
  consider_worker_set_id id (w, g) =
      if same id.scheduler_id w.scheduler_id
      then (is_no_later_than_initial id w >>= λ stale.
          if stale then ok (w, g) else take_worker_set_id id (w, g))
      else ok (w, g)

  unfoldable pub update_current_worker :
      BistroWorker → WorkerSetId → Bool → Site G → Outcome (Site G)
  update_current_worker w_new worker_set_id consensus_permits (w, u, g) =
      consider_worker_set_id worker_set_id (record w { worker = w_new }, g) >>= λ (w', g').
      receive_heartbeat consensus_permits (w', u, g')

  -- A heartbeat of another machine or port: is the current worker to be replaced?
  unfoldable pub is_bumped : RemoteWorker → ℤ → Bool → Bool
  is_bumped w cur_time consensus_permits =
      let state = (compute_worker_state f w cur_time consensus_permits).0 in
      state_beq state State.must_die
      || (f.allow_bump_unhealthy_worker && not (state_beq state State.healthy))

  abbrev pub accept : Outcome (Site G) → Outcome (Bool × Site G)
  accept o = ◌>>=◌ {B = Bool × Site G} o (λ site. ok (true, site))

  -- processHeartbeat: whether the heartbeat is accepted.
  unfoldable pub process_heartbeat :
      BistroWorker → WorkerSetId → Bool → Site G → Outcome (Bool × Site G)
  process_heartbeat w_new worker_set_id consensus_permits (w, u, g) =
      check (check_protocol_version w_new.protocol_version protocol_version)
      >> (if not (same w.worker.machine_lock w_new.machine_lock)
          then if is_bumped w u.cur_time consensus_permits
            then accept (update_new_worker w_new worker_set_id (w, request_suicide w.worker u, g))
            else ok (false, (w, request_suicide w_new u, g))
          else if not (same w.worker.id w_new.id)
          then if ltb_ℤ w_new.id.start_time w.worker.id.start_time
            then ok (false, (w, u, g))
            else accept (update_new_worker w_new worker_set_id (w, u, g))
          else accept (
              update_current_worker w_new worker_set_id consensus_permits (
                w,
                (if state_beq w.state.state State.must_die then request_suicide w.worker u else u),
                g,
              )))
