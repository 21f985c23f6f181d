-- ===== src/Runner.antt =====
-- runners/TaskRunner.cpp: the backoff that runTask gives to a new task. The rest of runTask fills in
-- the job's arguments and starts the task.
pub mod Failures
use bistro.Base.{
  ℕ, zero, suc, Bool, true, false, Option, none, some, Outcome, ok, ◌>>=◌, if◌then◌else◌,
}
use bistro.Base.Int.{ℤ, pos}
use bistro.Base.Dynamic.{Fields}
use bistro.Backoff.{BackoffDuration, JobBackoffSettings, get_next, wait}
use bistro.Thrift.{RunningTask}
use bistro.Status.{
  TaskStatus, running, error_backoff, is_failed, update, configured_backoff_duration,
}

unfoldable pub next_backoff : JobBackoffSettings → Option TaskStatus → Outcome BackoffDuration
next_backoff settings none = get_next settings (wait (pos 0))
next_backoff settings (some prev) = configured_backoff_duration prev >>= get_next settings

-- A task is started, and recorded as running, and then ends with an error that uses its backoff.
unfoldable pub fail_once :
    JobBackoffSettings → RunningTask → ℤ → Option Fields → TaskStatus → Outcome TaskStatus
fail_once settings task now d prev = next_backoff settings (some prev) >>= λ next.
    let rt = record task { next_backoff_duration = next } in
    update prev rt (running now none) >>= λ started. update started rt (error_backoff now d)

-- The scheduler does not start a failed task again.
unfoldable pub fail_times :
    JobBackoffSettings → RunningTask → ℤ → Option Fields → ℕ → TaskStatus → Outcome TaskStatus
fail_times settings task now d zero prev = ok prev
fail_times settings task now d (suc n) prev =
    let rest = fail_once settings task now d prev >>= fail_times settings task now d n in
    if is_failed prev then ok prev else rest
