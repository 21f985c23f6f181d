-- ===== src/RemoteWorkers/InitialWait.antt =====
-- remote/RemoteWorkers.cpp: updateInitialWait. A message is its constant parts.
use Prim.Native.String.{◌++◌ as append}
use bistro.Base.{
  ◌/◌, suc, String, Bool, true, false, not, ◌&&◌, List, [], ◌∷◌, same, is_nil, if◌then◌else◌,
}
use bistro.Base.Int.{ℤ, pos, negsuc, ◌+ℤ◌, ◌-ℤ◌, ltb_ℤ}
use bistro.Thrift.{WorkerSetId, WorkerSetHash, set_id_eq, set_hash_eq}
use bistro.WorkerState.{
  Flags, max_healthcheck_gap, lose_unhealthy_worker_after, worker_check_interval,
  worker_suicide_backoff_safety_margin_sec, worker_suicide_task_kill_wait_ms,
}
use bistro.Requests.{RemoteWorkerUpdate}
use bistro.RemoteWorkers.{RemoteWorkers}

-- Division of an int, towards zero.
abbrev thousandth : ℤ → ℤ
thousandth (pos n) = pos (n / 1000)
thousandth (negsuc n) = pos 0 -ℤ pos (suc n / 1000)

-- kMinSafeWait
unfoldable pub min_safe_wait : Flags → ℤ
min_safe_wait f =
    max_healthcheck_gap f
    +ℤ lose_unhealthy_worker_after f
    +ℤ worker_check_interval f
    +ℤ worker_suicide_backoff_safety_margin_sec f
    +ℤ thousandth (worker_suicide_task_kill_wait_ms f)
    +ℤ pos 1

unfoldable pub min_start_time : Flags → ℤ → ℤ
unfolding min_safe_wait
min_start_time f cur_time =
    cur_time
    -ℤ (if ltb_ℤ f.startup_wait_for_workers (pos 0)
        then min_safe_wait f
        else f.startup_wait_for_workers)

-- The warnings about a custom wait.
unfoldable pub wait_warning : Flags → String
wait_warning f =
    if ltb_ℤ f.startup_wait_for_workers (pos 0)
    then ""
    else if ltb_ℤ f.startup_wait_for_workers (max_healthcheck_gap f)
    then "DANGER! DANGER! Your --CAUTION_startup_wait_for_workers is lower than the max healthcheck gap"
    else if ltb_ℤ f.startup_wait_for_workers (min_safe_wait f)
    then "Your custom --CAUTION_startup_wait_for_workers is less than the minimum safe value"
    else ""

abbrev all_same : WorkerSetId → List WorkerSetId → Bool
all_same id [] = true
all_same id (other ∷ ids) = same id other && all_same id ids

-- Do all workers that are not lost name the set of exactly these workers as their initial one?
-- Without workers the code reads the first element of an empty multiset: `unread` is what it finds.
unfoldable pub has_consensus : Bool → List WorkerSetId → WorkerSetHash → Bool
has_consensus unread [] hash = unread
has_consensus unread (id ∷ ids) hash = all_same id ids && same hash id.hash

unfoldable pub update_initial_wait :
    Flags → Bool → RemoteWorkerUpdate × RemoteWorkers → RemoteWorkerUpdate × RemoteWorkers
update_initial_wait f unread (u, r) =
    let consensus = has_consensus unread r.initial_worker_set_ids r.non_must_die.hash in
    let msg =
      append (wait_warning f) (if consensus then "" else "No initial worker set ID consensus. ") in
    if not r.in_initial_wait
    then (record u { initial_wait_message = "" }, r)
    else if ltb_ℤ (min_start_time f u.cur_time) r.start_time && not consensus
    then (
      record u {
        initial_wait_message =
            append msg "Waiting for all workers to connect before running tasks.";
      },
      r,
    )
    else if not (is_nil u.new_workers)
    then (
      record u {
        initial_wait_message =
            append msg
              "Ready to exit initial wait, but not all workers' running tasks were fetched; not allowing tasks to start until all are fetched.";
      },
      r,
    )
    else (record u { initial_wait_message = "" }, record r { in_initial_wait = false })

unfoldable pub manually_exit_initial_wait : RemoteWorkers → RemoteWorkers
manually_exit_initial_wait r = record r { in_initial_wait = false }
