-- ===== src/WorkerState.antt =====
-- remote/RemoteWorkerState.{h,cpp}: what decides whether a worker is healthy, on the scheduler and on
-- the worker itself. Times are unbounded integers; INT64_MIN is written out.
pub mod Health
use bistro.Base.{
  ℕ, ◌+◌, ◌/◌, Bool, true, false, ◌&&◌, ◌||◌, not, if◌then◌else◌, Eq, ◌≡◌, ◌↔◌, arith,
}
use bistro.Base.Int.{ℤ, pos, negsuc, pos_part, ltb_ℤ, ◌+ℤ◌}
use bistro.Thrift.{InstanceId}

pub data State : Type 0 where
  new healthy unhealthy must_die : State

abbrev pub state_beq : State → State → Bool
state_beq State.new State.new = true
state_beq State.healthy State.healthy = true
state_beq State.unhealthy State.unhealthy = true
state_beq State.must_die State.must_die = true
state_beq _ _ = false

pub state_beq_iff : (a b : State) → (state_beq a b ≡ true) ↔ (a ≡ b)
state_beq_iff a b = ground arith

pub record RemoteWorkerState : Type 0 where
  pub state : State
  pub time_became_unhealthy : ℤ
  pub time_last_good_healthcheck_sent : ℤ
  pub time_last_heartbeat_received : ℤ
  pub has_been_healthy : Bool
  pub notify_sequence_num : ℤ

abbrev pub int64_min : ℤ
int64_min = negsuc 9223372036854775807

unfoldable pub init : ℤ → RemoteWorkerState
init cur_time = record {
  state = State.new;
  time_became_unhealthy = cur_time;
  time_last_good_healthcheck_sent = int64_min;
  time_last_heartbeat_received = int64_min;
  has_been_healthy = false;
  notify_sequence_num = pos 0;
}

-- computeState, up to the check for a lost worker: the new state, and whether only the lack of
-- consensus keeps the worker from being healthy.
unfoldable pub judge : RemoteWorkerState → ℤ → ℤ → ℤ → Bool → State × Bool
judge s cur_time max_healthcheck_gap max_heartbeat_gap allowed_to_become_healthy =
    if state_beq s.state State.new
    then (State.new, false)
    else if ltb_ℤ (s.time_last_good_healthcheck_sent +ℤ max_healthcheck_gap) cur_time
        || ltb_ℤ (s.time_last_heartbeat_received +ℤ max_heartbeat_gap) cur_time
    then (State.unhealthy, false)
    else if not allowed_to_become_healthy && not s.has_been_healthy
    then (State.unhealthy, true)
    else (State.healthy, false)

-- Has the worker been unhealthy for too long?
unfoldable pub is_lost : RemoteWorkerState → ℤ → ℤ → State × Bool → Bool
is_lost s cur_time lose_unhealthy_worker_after (new_state, disallowed) =
    not disallowed
    && ltb_ℤ (pos 0) lose_unhealthy_worker_after
    && not (state_beq new_state State.healthy)
    && not (state_beq s.state State.healthy)
    && ltb_ℤ (s.time_became_unhealthy +ℤ lose_unhealthy_worker_after) cur_time

unfoldable pub compute_state : RemoteWorkerState → ℤ → ℤ → ℤ → ℤ → Bool → State × Bool
compute_state s cur_time max_healthcheck_gap max_heartbeat_gap lose_unhealthy_worker_after allowed =
    let judged = judge s cur_time max_healthcheck_gap max_heartbeat_gap allowed in
    if state_beq s.state State.must_die
    then (State.must_die, false)
    else if is_lost s cur_time lose_unhealthy_worker_after judged
    then (State.must_die, judged.1)
    else judged

-- RemoteWorker::setState
unfoldable pub set_state : RemoteWorkerState → State → RemoteWorkerState
set_state s new_state = record s {
  state = new_state;
  has_been_healthy = s.has_been_healthy || state_beq new_state State.healthy;
}

-- The gflags of RemoteWorkerState.cpp, RemoteWorker.cpp and RemoteWorkers.cpp.
pub record Flags : Type 0 where
  pub heartbeat_grace_period : ℤ
  pub healthcheck_period : ℤ
  pub healthcheck_grace_period : ℤ
  pub lose_unhealthy_worker_after : ℤ
  pub worker_check_interval : ℤ
  pub worker_suicide_backoff_safety_margin_sec : ℤ
  pub worker_suicide_task_kill_wait_ms : ℤ
  pub allow_bump_unhealthy_worker : Bool
  pub unsure_if_running_check_initial_period : ℤ
  pub startup_wait_for_workers : ℤ

-- std::max(1, flag)
abbrev pub at_least_one : ℤ → ℤ
at_least_one z = if ltb_ℤ z (pos 1) then pos 1 else z

module _ (f : Flags) where
  unfoldable pub worker_check_interval : ℤ
  worker_check_interval = at_least_one f.worker_check_interval

  unfoldable pub max_healthcheck_gap : ℤ
  max_healthcheck_gap =
      at_least_one f.healthcheck_period
      +ℤ at_least_one f.healthcheck_grace_period
      +ℤ worker_check_interval

  unfoldable pub heartbeat_grace_period : ℤ
  heartbeat_grace_period = at_least_one f.heartbeat_grace_period

  unfoldable pub lose_unhealthy_worker_after : ℤ
  lose_unhealthy_worker_after = at_least_one f.lose_unhealthy_worker_after

  unfoldable pub worker_suicide_backoff_safety_margin_sec : ℤ
  worker_suicide_backoff_safety_margin_sec = at_least_one f.worker_suicide_backoff_safety_margin_sec

  unfoldable pub worker_suicide_task_kill_wait_ms : ℤ
  worker_suicide_task_kill_wait_ms = at_least_one f.worker_suicide_task_kill_wait_ms
