-- ===== src/Worker/Losing.antt =====
-- How a worker is lost, and what that does to its tasks.
use bistro.Base.{
  ◌≡◌, refl, sym, subst, Bool, true, false, [], ◌∷◌, ok, arith, find, has, inl, inr, ◌⊎◌, ◌≢◌,
  find-emplace, same_refl,
}
use bistro.Base.Maps.{string_eq, pair_eq, nat_eq}
use bistro.Thrift.{BistroWorker, instance_eq, machine_eq, set_id_eq}
use bistro.WorkerState.{State, Flags, state_beq, set_state}
use bistro.Requests.{TaskId, TaskMap, RemoteWorkerUpdate, request_suicide, lose_running_task}
use bistro.Worker.{RemoteWorker, compute_worker_state, lose_running_tasks, lose_tasks, change_state}
use bistro.Worker.Heartbeat.{Callbacks, note_unhealthy, lose_worker, update_state}

-- The loop adds the tasks to those that are lost already, which stay.
pub has-lose_tasks :
    (m : TaskMap) (u : RemoteWorkerUpdate) (id : TaskId)
    → (has id u.lost_running_tasks ≡ true) ⊎ (has id m ≡ true)
    → has id (lose_tasks m u).lost_running_tasks ≡ true
unfolding lose_tasks lose_running_task find
has-lose_tasks [] u id (inl h) = h
has-lose_tasks [] u id (inr h) = absurd (ground arith)
has-lose_tasks ((k, rt) ∷ m) u id h =
    has-lose_tasks m (lose_running_task k rt u) id
      (ground (arith, h, find-emplace k id rt u.lost_running_tasks))

pub lose_tasks-suicide :
    (m : TaskMap) (u : RemoteWorkerUpdate) → (lose_tasks m u).suicide_workers ≡ u.suicide_workers
unfolding lose_tasks lose_running_task
lose_tasks-suicide [] u = refl
lose_tasks-suicide ((k, rt) ∷ m) u = lose_tasks-suicide m (lose_running_task k rt u)

pub has-request_suicide :
    (w : BistroWorker) (u : RemoteWorkerUpdate)
    → has w.shard (request_suicide w u).suicide_workers ≡ true
unfolding request_suicide
has-request_suicide w u =
    ground (arith, find-emplace w.shard w.shard w u.suicide_workers, same_refl w.shard)

module _ {G : Type 0} (f : Flags) (callbacks : Callbacks G) where
  -- When a worker is found lost and its owner can take note, the worker is MUST_DIE and has no task,
  -- every task that it ran is among the lost ones, and it is asked to kill itself.
  pub update_state-must_die :
      (c : Bool) (w : RemoteWorker) (u : RemoteWorkerUpdate) (g g' : G)
      → w.state.state ≢ State.must_die
      → (compute_worker_state f w u.cur_time c).0 ≡ State.must_die
      → callbacks.dead_worker (note_unhealthy State.must_die u.cur_time w) g ≡ ok g'
      → (w' : RemoteWorker) × (u' : RemoteWorkerUpdate) × (update_state f callbacks c (w, u, g)
          ≡ ok (w', u', g'))
        × (w'.state.state ≡ State.must_die)
        × (w'.running_tasks ≡ [])
        × (w'.unsure_if_running_tasks ≡ [])
        × ((id : TaskId) → has id w.running_tasks ≡ true → has id u'.lost_running_tasks ≡ true)
        × (has w.worker.shard u'.suicide_workers ≡ true)
  unfolding update_state lose_worker lose_running_tasks note_unhealthy set_state
  update_state-must_die c w u g g' alive lost called =
      let w1 = note_unhealthy State.must_die u.cur_time w in
      let r = lose_running_tasks (w1, request_suicide w1.worker u) in
      let not_yet : state_beq w.state.state State.must_die ≡ false = ground arith in
      (
        change_state State.must_die r.0,
        r.1,
        rw (not_yet, lost, called) refl,
        refl,
        refl,
        refl,
        (λ id h. has-lose_tasks w.running_tasks (request_suicide w.worker u) id (inr h)),
        subst (λ m. has w.worker.shard m ≡ true)
            (sym (lose_tasks-suicide w.running_tasks (request_suicide w.worker u)))
            (has-request_suicide w.worker u),
      )
