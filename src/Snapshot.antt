-- ===== src/Snapshot.antt =====
-- statuses/TaskStatusSnapshot.{h,cpp}: the known statuses of all tasks, and the running tasks.
--
-- A job's and a node's IDs are indices. The row of a job and the status of a node are default ones
-- where the vectors are too short; `now` is the time that a default status is created.
pub mod Rows
pub mod Agreement
pub mod Updates
use bistro.Base.{
  ℕ, suc, ◌+◌, ◌-◌, ◌≤◌, Bool, true, false, not, Option, none, some, List, [], ◌∷◌, ◌++◌, map,
  AssocMap, find, erase, insert_new, same, Eq, nat_eq, pair_eq, Outcome, ok, throw, fatal, check,
  no_except, ◌>>=◌, ◌>>◌, length, get_or, set, ltb, replicate, if◌then◌else◌,
}
use bistro.Base.Int.{ℤ}
use bistro.Thrift.{RunningTask, InstanceId, instance_eq}
use bistro.Status.Bits
use bistro.Status.{
  TaskStatus, make, is_empty, is_running, is_overwriteable, update, forgive, is_done, is_failed,
  is_in_backoff,
}

pub record StatusRow : Type 0 where
  pub is_loaded : Bool
  pub statuses : List TaskStatus

-- The IDs of the job and of the node.
abbrev pub TaskKey : Type 0
TaskKey = ℕ × ℕ

pub record TaskStatusSnapshot : Type 0 where
  pub rows : List StatusRow
  pub running_tasks : AssocMap TaskKey RunningTask

abbrev pub empty_row : StatusRow
empty_row = record { is_loaded = false; statuses = [] }

-- TaskStatus()
abbrev pub empty_status : ℤ → TaskStatus
empty_status now = make now Bits.empty none

-- if (i >= xs.size()) xs.resize(i + 1)
unfoldable pub reach {ℓ} : {A : Type ℓ} → List A → ℕ → A → List A
reach xs i d = if ltb i (length xs) then xs else xs ++ replicate (suc i - length xs) d

module _ (now : ℤ) where
  unfoldable pub status_at : ℕ → ℕ → TaskStatusSnapshot → TaskStatus
  status_at job node t = get_or (get_or t.rows job empty_row).statuses node (empty_status now)

  -- access: the vectors reach the task's status.
  unfoldable pub access : ℕ → ℕ → TaskStatusSnapshot → TaskStatusSnapshot
  access job node t =
      let rows = reach t.rows job empty_row in
      let row = get_or rows job empty_row in
      record t {
        rows = set rows job (record row { statuses = reach row.statuses node (empty_status now) });
      }

  -- A write through the reference that access returns.
  unfoldable pub write : ℕ → ℕ → TaskStatus → TaskStatusSnapshot → TaskStatusSnapshot
  write job node s t =
      let row = get_or t.rows job empty_row in
      record t { rows = set t.rows job (record row { statuses = set row.statuses node s }) }

  -- stored_status.update(rt, status), with the running tasks changed before.
  unfoldable pub replace_status :
      TaskKey
      → RunningTask
      → TaskStatus
      → AssocMap TaskKey RunningTask
      → TaskStatusSnapshot
      → Outcome (TaskStatusSnapshot × TaskStatus)
  replace_status (job, node) rt status running t =
      no_except (update (status_at job node t) rt status) >>= λ s.
      ok (write job node s (record t { running_tasks = running }), s)

  -- updateStatus, once the status is accessible: the snapshot and the stored status.
  unfoldable pub update_accessible :
      TaskKey
      → RunningTask
      → TaskStatus
      → TaskStatusSnapshot
      → Outcome (TaskStatusSnapshot × TaskStatus)
  update_accessible (job, node) rt status t =
      let stored = status_at job node t in
      elim (find (job, node) t.running_tasks) [
        | some current ↦
            check (same current.invocation_id rt.invocation_id)
            >> (if is_running status
                then replace_status (job, node) rt status t.running_tasks t
                else replace_status (job, node) rt status (erase (job, node) t.running_tasks) t)
        | none ↦
            if is_running status
            then replace_status (job, node) rt status (insert_new (job, node) rt t.running_tasks) t
            else if is_overwriteable status
            then check (not (is_running stored)) >> ok (t, stored)
            else if is_overwriteable stored
            then replace_status (job, node) rt status t.running_tasks t
            else ok (t, stored)
      ]

  unfoldable pub update_status :
      TaskKey
      → RunningTask
      → TaskStatus
      → TaskStatusSnapshot
      → Outcome (TaskStatusSnapshot × TaskStatus)
  update_status (job, node) rt status t =
      update_accessible (job, node) rt status (access job node t)

  -- getPtr: none stands for the null pointer.
  unfoldable pub get_ptr : ℕ → ℕ → TaskStatusSnapshot → Outcome (Option TaskStatus)
  get_ptr job node t =
      let row = get_or t.rows job empty_row in
      if ltb job (length t.rows)
      then check row.is_loaded
        >> ok (
            if ltb node (length row.statuses)
            then (if is_empty (get_or row.statuses node (empty_status now))
                then none
                else some (get_or row.statuses node (empty_status now)))
            else none)
      else ok none

  -- getRow, and then getPtr of the row: none stands for the null pointer to a row.
  unfoldable pub get_row : ℕ → TaskStatusSnapshot → Outcome (Option StatusRow)
  get_row job t =
      let row = get_or t.rows job empty_row in
      if ltb job (length t.rows) then check row.is_loaded >> ok (some row) else ok none

  unfoldable pub row_get_ptr : Option StatusRow → ℕ → Option TaskStatus
  row_get_ptr none node = none
  row_get_ptr (some row) node =
      let s = get_or row.statuses node (empty_status now) in
      if ltb node (length row.statuses) then (if is_empty s then none else some s) else none

-- The loop of forgiveJob, whose exceptions pass on.
unfoldable pub forgive_all : List TaskStatus → Outcome (List TaskStatus)
forgive_all [] = ok []
forgive_all (s ∷ ss) = forgive s >>= λ s'. forgive_all ss >>= λ ss'. ok (s' ∷ ss')

unfoldable pub forgive_job : ℕ → TaskStatusSnapshot → Outcome TaskStatusSnapshot
forgive_job job t =
    let row = get_or t.rows job empty_row in
    if ltb job (length t.rows)
    then (forgive_all row.statuses >>= λ ss.
        ok (record t { rows = set t.rows job (record row { statuses = ss }) }))
    else ok t

unfoldable pub is_job_loaded : ℕ → TaskStatusSnapshot → Bool
is_job_loaded job t =
    if ltb job (length t.rows) then (get_or t.rows job empty_row).is_loaded else false
