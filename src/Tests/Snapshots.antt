-- ===== src/Tests/Snapshots.antt =====
-- Updates of the snapshot of all statuses.
use bistro.Base.{
  ℕ, zero, suc, ◌≡◌, inl, refl, true, false, ◌&&◌, [], ◌∷◌, arith, find, same, nat_eq, pair_eq,
}
use bistro.Base.Int.{pos}
use bistro.Status.Bits.{all_set}
use bistro.Status.{
  TaskStatus, is_running, is_overwriteable, update, prev_backoff, apply_backoff, uses_backoff,
  has_saved_backoff,
}
use bistro.Snapshot.{
  TaskStatusSnapshot, update_status, update_accessible, replace_status, access, write, status_at,
  reach, empty_status,
}
use bistro.Snapshot.Agreement.{IsAgreed, update_status-IsAgreed}
use bistro.Snapshot.Updates.{update_status-stored, update_status-kept}
use bistro.Tests.Samples.{task, status_of}

-- Nothing is known yet.
abbrev empty : TaskStatusSnapshot
empty = record { rows = []; running_tasks = [] }

empty-IsAgreed : IsAgreed (pos 9) empty
unfolding status_at is_running all_set find
empty-IsAgreed zero zero = refl
empty-IsAgreed zero (suc n) = refl
empty-IsAgreed (suc j) zero = refl
empty-IsAgreed (suc j) (suc n) = refl

abbrev default : TaskStatus
default = empty_status (pos 9)

-- The second job's first task starts.
abbrev started : TaskStatusSnapshot
started = record {
  rows =
      record { is_loaded = false; statuses = [] }
      ∷ record { is_loaded = false; statuses = status_of 2 0 ∷ [] }
      ∷ [];
  running_tasks = ((1, 0), task) ∷ [];
}

update_status-IsAgreed_example : IsAgreed (pos 9) started
unfolding update_status update_accessible replace_status access write status_at reach find update
    prev_backoff apply_backoff is_running all_set uses_backoff has_saved_backoff
update_status-IsAgreed_example =
    update_status-IsAgreed (pos 9) 1 0 task (status_of 2 0) empty (started, status_of 2 0)
      empty-IsAgreed (omega arith) refl

update_status-stored_example :
    (status_at (pos 9) 1 0 started ≡ status_of 2 0)
    × ((j n : ℕ)
        → (same 1 j && same 0 n) ≡ false
        → status_at (pos 9) j n started ≡ status_at (pos 9) j n empty)
unfolding update_status update_accessible replace_status access write status_at reach find update
    prev_backoff apply_backoff is_running all_set uses_backoff has_saved_backoff
update_status-stored_example =
    update_status-stored (pos 9) 1 0 task (status_of 2 0) empty (started, status_of 2 0) refl

-- The task is done, and no longer runs.
abbrev done : TaskStatusSnapshot
done = record {
  rows = record { is_loaded = true; statuses = status_of 4 0 ∷ [] } ∷ [];
  running_tasks = [];
}

update_status-kept_example :
    (status_of 4 0 ≡ status_at (pos 9) 0 0 done)
    × ((j n : ℕ) → status_at (pos 9) j n done ≡ status_at (pos 9) j n done)
unfolding update_status update_accessible access status_at reach find is_running is_overwriteable
    all_set
update_status-kept_example =
    update_status-kept (pos 9) 0 0 task (status_of 1056 0) done (done, status_of 4 0) refl refl
      (inl refl) refl
