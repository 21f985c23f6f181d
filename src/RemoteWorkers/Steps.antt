-- ===== src/RemoteWorkers/Steps.antt =====
-- What happens to all workers, as a step relation.
use bistro.Base.{
  Bool, false, check, ◌>>◌, ◌≡◌, refl, sym, ap, ◌∙◌, subst, Option, List, find, String, length, ok,
  or_fatal, Bool-cases, inl, inr, >>=-eq-ok, >>-eq-ok, ok-injective, true, arith, string_eq, is_nil,
}
use bistro.Base.Int.{ℤ, pos}
use bistro.Thrift.{InstanceId, BistroWorker, WorkerSetId, RunningTask}
use bistro.WorkerState.{State, Flags, state_beq, set_state}
use bistro.WorkerSet.Hash.{hash_of, num_workers-hash_of}
use bistro.Requests.{RemoteWorkerUpdate}
use bistro.Worker.{
  RemoteWorker, worker_state, initialize_running_tasks as initialize_worker_tasks,
  add_running_tasks,
}
use bistro.Worker.Ledger.{alive}
use bistro.RemoteWorkers.{RemoteWorkers, make_workers}
use bistro.RemoteWorkers.Operations.{process_heartbeat, update_workers, initialize_running_tasks}
use bistro.RemoteWorkers.InitialWait.{update_initial_wait, manually_exit_initial_wait}
use bistro.RemoteWorkers.Members.{alive_ids, IsSettled-same}
use bistro.RemoteWorkers.Census.{
  IsCounted, alive-IsSplit, IsCounted-after, IsCounted-hosts, or_fatal-eq,
  process_heartbeat-IsCounted, update_workers-IsCounted,
}

-- A worker that reports its first tasks is alive before and after.
alive-initialized :
    (rts : List RunningTask) (w : RemoteWorker) (ids : List InstanceId) {w' : RemoteWorker}
    → state_beq (worker_state w) State.new ≡ true
    → initialize_worker_tasks rts w ≡ ok w'
    → alive w ids ≡ alive w' ids
unfolding initialize_worker_tasks worker_state set_state
alive-initialized rts w ids {w' = w'} n e =
    let e1 =
      >>-eq-ok
        (check (state_beq w.state.state State.new)
          >> check (is_nil w.running_tasks)
          >> check (is_nil w.unsure_if_running_tasks))
        _ e in
    let (tasks, added, end) =
      >>=-eq-ok (add_running_tasks w.worker.shard rts w.running_tasks) _ e1 in
    let living : state_beq w.state.state State.must_die ≡ false = ground arith in
    rw (living) (ap (λ v. alive v ids) (ok-injective end))

initialize_running_tasks-IsCounted :
    (worker : BistroWorker) (rts : List RunningTask) (r : RemoteWorkers) {r' : RemoteWorkers}
    → IsCounted r
    → initialize_running_tasks worker rts r ≡ ok r'
    → IsCounted r'
unfolding initialize_running_tasks
initialize_running_tasks-IsCounted worker rts r {r' = r'} h e =
    let (w, found, e1) = >>=-eq-ok (or_fatal (find worker.shard r.workers)) _ e in
    elim (Bool-cases (state_beq (worker_state w) State.new)) [
      | inr t ↦ subst IsCounted (ok-injective (rw (t) at e1)) h
      | inl t ↦
          let (w', reported, end) = >>=-eq-ok (initialize_worker_tasks rts w) _ (rw (t) at e1) in
          let (others, split) = alive-IsSplit worker.shard r.workers w (or_fatal-eq _ found) in
          let (same_hash, same_length) = split.is_split in
          let same_alive = alive-initialized rts w others t reported in
          subst IsCounted (ok-injective end) (
            IsCounted-after worker.shard r.workers w w' others r split (
              IsSettled-same r.workers (alive_ids r.workers) (alive w' others) r
                (same_hash ∙ ap hash_of same_alive) (same_length ∙ ap length same_alive) h))
    ]

module _ (f : Flags) where
  pub data Step : RemoteWorkers → RemoteWorkers → Type 0 where
    heartbeat :
        (worker : BistroWorker) (id : WorkerSetId) (u u' : RemoteWorkerUpdate)
        {r r' : RemoteWorkers} (response : Option WorkerSetId)
        → process_heartbeat f worker id (u, r) ≡ ok (response, u', r')
        → Step r r'
    updated :
        (shards : List String) (u u' : RemoteWorkerUpdate) {r r' : RemoteWorkers}
        → update_workers f shards (u, r) ≡ ok (u', r')
        → Step r r'
    reported :
        (worker : BistroWorker) (rts : List RunningTask) {r r' : RemoteWorkers}
        → initialize_running_tasks worker rts r ≡ ok r'
        → Step r r'
    waited :
        (unread : Bool) (u : RemoteWorkerUpdate) (r : RemoteWorkers)
        → Step r (update_initial_wait f unread (u, r)).1
    hurried : (r : RemoteWorkers) → Step r (manually_exit_initial_wait r)

  pub data Reachable : RemoteWorkers → Type 0 where
    started : (t : ℤ) (id : InstanceId) → Reachable (make_workers t id)
    next : {r r' : RemoteWorkers} → Reachable r → Step r r' → Reachable r'

  update_initial_wait-IsCounted :
      (unread : Bool) (u : RemoteWorkerUpdate) (r : RemoteWorkers)
      → IsCounted r
      → IsCounted (update_initial_wait f unread (u, r)).1
  unfolding update_initial_wait
  update_initial_wait-IsCounted unread u r h =
      let same : (x : RemoteWorkers) → Type 0 = λ x.
        (x.workers ≡ r.workers)
        × (x.non_must_die ≡ r.non_must_die)
        × (x.initial_worker_set_ids ≡ r.initial_worker_set_ids) in
      let (w, s, i) : same (update_initial_wait f unread (u, r)).1 =
        (ground arith, ground arith, ground arith) in
      IsCounted-hosts r w s i h

  Step-IsCounted : {r r' : RemoteWorkers} → Step r r' → IsCounted r → IsCounted r'
  unfolding manually_exit_initial_wait
  Step-IsCounted (heartbeat worker id u u' response e) h =
      process_heartbeat-IsCounted f worker id u _ h e
  Step-IsCounted (updated shards u u' e) h = update_workers-IsCounted f shards (u, _) h e
  Step-IsCounted (reported worker rts e) h = initialize_running_tasks-IsCounted worker rts _ h e
  Step-IsCounted (waited unread u r) h = update_initial_wait-IsCounted unread u r h
  Step-IsCounted (hurried r) h = IsCounted-hosts r refl refl refl h

  Reachable-IsSettled : {r : RemoteWorkers} → Reachable r → IsCounted r
  unfolding make_workers alive_ids hash_of
  Reachable-IsSettled (started t id) = record {
    is_hash = refl;
    is_count = refl;
    has_workers = refl;
  }
  Reachable-IsSettled (next r s) = Step-IsCounted s (Reachable-IsSettled r)

  -- After any sequence of heartbeats, updates of the workers, first reports of tasks, and updates and
  -- exits of the initial wait, the hash of the scheduler's worker set is that of the workers that are
  -- not lost, it has as many initial worker sets as such workers, and so the first CHECK of
  -- consensusPermitsBecomingHealthy holds.
  pub Reachable-IsCounted :
      {r : RemoteWorkers}
      → Reachable r
      → (r.non_must_die.hash ≡ hash_of (alive_ids r.workers))
        × (length r.initial_worker_set_ids ≡ length (alive_ids r.workers))
        × (r.non_must_die.hash.num_workers ≡ pos (length r.initial_worker_set_ids))
  Reachable-IsCounted {r = r} reached =
      let h = Reachable-IsSettled reached in
      (
        h.is_hash,
        h.is_count,
        ap (λ x. x.num_workers) h.is_hash
            ∙ num_workers-hash_of (alive_ids r.workers)
            ∙ ap pos (sym h.is_count),
      )
