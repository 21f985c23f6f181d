-- ===== src/Snapshot/Agreement.antt =====
-- The running tasks and the stored statuses agree, and no update loses a status.
use bistro.Base.{
  ℕ, ◌<◌, ◌≡◌, refl, sym, ap, ◌∙◌, subst, Bool, true, false, ◌&&◌, AssocMap, find, erase,
  insert_new, has, same, nat_eq, pair_eq, ok, no_except, if◌then◌else◌, arith, Bool-cases,
  Option-cases, inl, inr, >>=-eq-ok, ok-injective, ◌⊎◌, find-erase, find-insert_new, ◌==◌,
}
use bistro.Base.Int.{ℤ}
use bistro.Base.Word.{two_16}
use bistro.Thrift.{RunningTask, instance_eq}
use bistro.Status.Bits
use bistro.Status.Bits.{all_set, bit, replace_bit}
use bistro.Status.Tables.{all_set-running, replace_bit-failed}
use bistro.Status.{TaskStatus, is_running, is_overwriteable, update, apply_backoff, prev_backoff}
use bistro.Snapshot.{
  TaskKey, TaskStatusSnapshot, status_at, access, write, replace_status, update_accessible,
  update_status,
}
use bistro.Snapshot.Rows.{IsAccessible, access-IsAccessible, status_at-access, status_at-write}

failed_stays :
    (b : ℕ) → b < two_16 → all_set (replace_bit b 32 16) Bits.running ≡ all_set b Bits.running
failed_stays b lt =
    let same_bit : bit (replace_bit b 32 16) 2 ≡ bit b 2 =
      rw (replace_bit-failed b lt) (omega arith) in
    all_set-running (replace_bit b 32 16) ∙ ap (λ x. x == 1) same_bit ∙ sym (all_set-running b)

-- update runs a task exactly if the new status does.
pub update-is_running :
    (s : TaskStatus) (rt : RunningTask) (new : TaskStatus) {t : TaskStatus}
    → new.bits < two_16
    → update s rt new ≡ ok t
    → is_running t ≡ is_running new
unfolding update apply_backoff is_running
update-is_running s rt new {t} lt e =
    let (prev, p, e') = >>=-eq-ok (prev_backoff s rt) (λ prev. apply_backoff new rt prev) e in
    ground (arith, failed_stays new.bits lt)

module _ (now : ℤ) where
  -- A task is among the running ones exactly if its stored status is running.
  abbrev pub IsAgreed : TaskStatusSnapshot → Type 0
  IsAgreed t = (j n : ℕ) → has (j, n) t.running_tasks ≡ is_running (status_at now j n t)

  -- The running tasks after a status of one task.
  abbrev pub IsMarked :
      TaskKey → Bool → AssocMap TaskKey RunningTask → AssocMap TaskKey RunningTask → Type 0
  IsMarked key r before after =
      (i : TaskKey) → has i after ≡ (if same key i then r else has i before)

  mark_same :
      (key : TaskKey) (r : Bool) (m : AssocMap TaskKey RunningTask)
      → has key m ≡ r
      → IsMarked key r m m
  mark_same key r m h i = elim (Bool-cases (same key i)) [
    | inl t ↦ ap (λ k. has k m) (sym ((pair_eq.beq_iff key i).0 t)) ∙ h ∙ rw (t) refl
    | inr t ↦ rw (t) refl
  ]

  mark_insert :
      (key : TaskKey) (rt : RunningTask) (r : Bool) (m : AssocMap TaskKey RunningTask)
      → r ≡ true
      → IsMarked key r m (insert_new key rt m)
  mark_insert key rt r m h i = ground (arith, find-insert_new key i rt m)

  mark_erase :
      (key : TaskKey) (r : Bool) (m : AssocMap TaskKey RunningTask)
      → r ≡ false
      → IsMarked key r m (erase key m)
  mark_erase key r m h i = ground (arith, find-erase key i m)

  module _ (job node : ℕ) (rt : RunningTask) (status : TaskStatus) (t : TaskStatusSnapshot) where
    -- An update stores nothing, as the task does not run and neither does the status, or replaces the
    -- stored status.
    pub update_accessible-cases :
        {r : TaskStatusSnapshot × TaskStatus}
        → update_accessible now (job, node) rt status t ≡ ok r
        → ((r ≡ (t, status_at now job node t))
            × (has (job, node) t.running_tasks ≡ false)
            × (is_running status ≡ false)
            × ((is_overwriteable status ≡ true)
                ⊎ (is_overwriteable (status_at now job node t) ≡ false)))
          ⊎ ((running : AssocMap TaskKey RunningTask) × (replace_status now
                  (job, node)
                  rt
                  status
                  running
                  t
                ≡ ok r)
              × IsMarked (job, node) (is_running status) t.running_tasks running
              × ((has (job, node) t.running_tasks ≡ true)
                  ⊎ (is_running status ≡ true)
                  ⊎ ((is_overwriteable status ≡ false)
                      × (is_overwriteable (status_at now job node t) ≡ true))))
    unfolding update_accessible
    update_accessible-cases e = elim (Option-cases (find (job, node) t.running_tasks)) [
      | inr (c, f) ↦ elim (Bool-cases (is_running status)) [
        | inl run ↦ inr (
          t.running_tasks,
          ground arith,
          mark_same (job, node) (is_running status) t.running_tasks (ground arith),
          inl (ground arith),
        )
        | inr stop ↦ inr (
          erase (job, node) t.running_tasks,
          ground arith,
          mark_erase (job, node) (is_running status) t.running_tasks stop,
          inl (ground arith),
        )
      ]
      | inl f ↦ elim (Bool-cases (is_running status)) [
        | inl run ↦ inr (
          insert_new (job, node) rt t.running_tasks,
          ground arith,
          mark_insert (job, node) rt (is_running status) t.running_tasks run,
          inr (inl run),
        )
        | inr stop ↦ elim (Bool-cases (is_overwriteable status)) [
          | inl over ↦ inl (ground arith, ground arith, stop, inl over)
          | inr firm ↦ elim (Bool-cases (is_overwriteable (status_at now job node t))) [
            | inl over ↦ inr (
              t.running_tasks,
              ground arith,
              mark_same (job, node) (is_running status) t.running_tasks (ground arith),
              inr (inr (firm, over)),
            )
            | inr kept ↦ inl (ground arith, ground arith, stop, inr kept)
          ]
        ]
      ]
    ]

    written-IsAgreed :
        (running : AssocMap TaskKey RunningTask) (s : TaskStatus)
        → IsAgreed t
        → IsAccessible job node t
        → IsMarked (job, node) (is_running status) t.running_tasks running
        → is_running s ≡ is_running status
        → IsAgreed (write now job node s (record t { running_tasks = running }))
    unfolding status_at write
    written-IsAgreed running s h reached marked runs j n =
        let t' : TaskStatusSnapshot = record t { running_tasks = running } in
        let read =
          status_at-write now job node t' s j n
            (record { row = reached.row; status = reached.status }) in
        elim (Bool-cases (same job j && same node n)) [
          | inl b ↦ marked (j, n) ∙ rw (b) (sym runs) ∙ ap is_running (sym (rw (b) at read))
          | inr b ↦ marked (j, n) ∙ rw (b) (h j n) ∙ ap is_running (sym (rw (b) at read))
        ]

    pub replace_status-eq :
        (running : AssocMap TaskKey RunningTask) {r : TaskStatusSnapshot × TaskStatus}
        → replace_status now (job, node) rt status running t ≡ ok r
        → (s : TaskStatus) × (update (status_at now job node t) rt status ≡ ok s)
          × ((write now job node s (record t { running_tasks = running }), s) ≡ r)
    unfolding replace_status
    replace_status-eq running {r} e =
        let (s, updated, e') =
          >>=-eq-ok (no_except (update (status_at now job node t) rt status))
            (λ s. ok (write now job node s (record t { running_tasks = running }), s)) e in
        (s, ground arith, ok-injective e')

    update_accessible-IsAgreed :
        {r : TaskStatusSnapshot × TaskStatus}
        → IsAgreed t
        → status.bits < two_16
        → IsAccessible job node t
        → update_accessible now (job, node) rt status t ≡ ok r
        → IsAgreed r.0
    update_accessible-IsAgreed h lt reached e = elim (update_accessible-cases e) [
      | inl (same_end, _, _, _) ↦ subst IsAgreed (sym (ap (λ p. p.0) same_end)) h
      | inr (running, replaced, marked, _) ↦
          let (s, updated, written) = replace_status-eq running replaced in
          subst IsAgreed (ap (λ p. p.0) written) (
            written-IsAgreed running s h reached marked
              (update-is_running (status_at now job node t) rt status lt updated))
    ]

  access-IsAgreed :
      (job node : ℕ) (t : TaskStatusSnapshot) → IsAgreed t → IsAgreed (access now job node t)
  unfolding access
  access-IsAgreed job node t h j n =
      h j n ∙ ap is_running (sym (status_at-access now job node t j n))

  -- If the running tasks and the stored statuses agree, they agree after an update with a status that
  -- has 16 bits, on whichever branch it ends.
  pub update_status-IsAgreed :
      (job node : ℕ) (rt : RunningTask) (status : TaskStatus) (t : TaskStatusSnapshot)
      (r : TaskStatusSnapshot × TaskStatus)
      → IsAgreed t
      → status.bits < two_16
      → update_status now (job, node) rt status t ≡ ok r
      → IsAgreed r.0
  unfolding update_status
  update_status-IsAgreed job node rt status t r h lt e =
      update_accessible-IsAgreed job node rt status (access now job node t)
        (access-IsAgreed job node t h) lt (access-IsAccessible now job node t) e
