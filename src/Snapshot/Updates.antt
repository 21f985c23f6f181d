-- ===== src/Snapshot/Updates.antt =====
-- What an update of a status stores, and when it keeps the stored status.
use bistro.Base.{
  ℕ, ◌≡◌, sym, ap, ◌∙◌, true, false, ◌&&◌, AssocMap, has, same, same_refl, nat_eq, pair_eq, ok,
  ◌>>=◌, if◌then◌else◌, arith, inl, inr, ◌⊎◌,
}
use bistro.Base.Int.{ℤ}
use bistro.Thrift.{RunningTask}
use bistro.Status.{TaskStatus, is_running, is_overwriteable}
use bistro.Snapshot.{
  TaskKey, TaskStatusSnapshot, status_at, access, write, update_status, get_row, row_get_ptr,
  get_ptr,
}
use bistro.Snapshot.Rows.{IsAccessible, access-IsAccessible, status_at-access, status_at-write}
use bistro.Snapshot.Agreement.{update_accessible-cases, replace_status-eq}

module _ (now : ℤ) (job node : ℕ) (rt : RunningTask) (status : TaskStatus) (t : TaskStatusSnapshot)
    (r : TaskStatusSnapshot × TaskStatus) where
  reached : IsAccessible job node (access now job node t)
  reached = access-IsAccessible now job node t

  written :
      (running : AssocMap TaskKey RunningTask) (s : TaskStatus) (j n : ℕ)
      → status_at now j n
          (write now job node s (record (access now job node t) { running_tasks = running }))
        ≡ (if same job j && same node n then s else status_at now j n (access now job node t))
  unfolding status_at
  written running s j n =
      status_at-write now job node (record (access now job node t) { running_tasks = running }) s j
        n (record { row = reached.row; status = reached.status })

  -- updateStatus returns the status that is then stored for the task, and changes the status of no
  -- other task.
  pub update_status-stored :
      update_status now (job, node) rt status t ≡ ok r
      → (status_at now job node r.0 ≡ r.1)
        × ((j n : ℕ)
            → (same job j && same node n) ≡ false
            → status_at now j n r.0 ≡ status_at now j n t)
  unfolding update_status
  update_status-stored e =
      elim (update_accessible-cases now job node rt status (access now job node t) e) [
        | inl (same_end, _, _, _) ↦ (
          ap (λ p. status_at now job node p.0) same_end ∙ sym (ap (λ p. p.1) same_end),
          λ j n other.
              ap (λ p. status_at now j n p.0) same_end ∙ status_at-access now job node t j n,
        )
        | inr (running, replaced, _, _) ↦
            let (s, updated, end) =
              replace_status-eq now job node rt status (access now job node t) running replaced in
            (
              ap (λ p. status_at now job node p.0) (sym end)
                  ∙ written running s job node
                  ∙ rw (same_refl job, same_refl node) (ap (λ p. p.1) end),
              λ j n other.
                  ap (λ p. status_at now j n p.0) (sym end)
                  ∙ written running s j n
                  ∙ rw (other) (status_at-access now job node t j n),
            )
      ]

  -- An update with a status that is not running, of a task that is not among the running ones, keeps
  -- the stored status, if the new status is overwriteable or the stored one is not; so an overwriteable
  -- status never replaces one that a task reported, and no status is counted twice.
  pub update_status-kept :
      has (job, node) t.running_tasks ≡ false
      → is_running status ≡ false
      → ((is_overwriteable status ≡ true) ⊎ (is_overwriteable (status_at now job node t) ≡ false))
      → update_status now (job, node) rt status t ≡ ok r
      → (r.1 ≡ status_at now job node t) × ((j n : ℕ) → status_at now j n r.0 ≡ status_at now j n t)
  unfolding update_status access
  update_status-kept idle stops kind e =
      elim (update_accessible-cases now job node rt status (access now job node t) e) [
        | inl (same_end, _, _, _) ↦ (
          ap (λ p. p.1) same_end ∙ status_at-access now job node t job node,
          λ j n. ap (λ p. status_at now j n p.0) same_end ∙ status_at-access now job node t j n,
        )
        | inr (running, replaced, _, why) ↦ absurd (contradiction why)
      ]
    where
      contradiction :
          (has (job, node) t.running_tasks ≡ true)
            ⊎ (is_running status ≡ true)
            ⊎ ((is_overwriteable status ≡ false)
                × (is_overwriteable (status_at now job node (access now job node t)) ≡ true))
          → ⊥
      contradiction (inl h) = ground arith
      contradiction (inr (inl h)) = ground arith
      contradiction (inr (inr (firm, over))) =
          let before : is_overwriteable (status_at now job node t) ≡ true =
            ap is_overwriteable (sym (status_at-access now job node t job node)) ∙ over in
          ground arith

-- Reading through a row is reading the status.
pub row_get_ptr-get_row :
    (now : ℤ) (job node : ℕ) (t : TaskStatusSnapshot)
    → (get_row now job t >>= λ row. ok (row_get_ptr now row node)) ≡ get_ptr now job node t
unfolding get_row row_get_ptr get_ptr
row_get_ptr-get_row now job node t = ground arith
