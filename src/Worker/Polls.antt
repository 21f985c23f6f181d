-- ===== src/Worker/Polls.antt =====
-- The polls of the tasks in doubt, and the first report of a worker's tasks: what they keep.
use bistro.Base.{
  ◌≡◌, sym, subst, true, List, [], ◌∷◌, ok, ◌>>=◌, arith, find, has, same, >>=-eq-ok, ok-injective,
  find-erase, String,
}
use bistro.Base.Maps.{string_eq, pair_eq}
use bistro.Thrift.{RunningTask, instance_eq}
use bistro.WorkerState.{State, set_state}
use bistro.Requests.{TaskId, TaskMap}
use bistro.Worker.{
  RemoteWorker, task_id, erase_unsure, erase_unsure_tasks, erase_unsure_if_running_tasks,
  initialize_running_tasks, add_running_tasks, change_state,
}
use bistro.Worker.Sound.{IsSound, with_tasks, with_state}

erase_unsure-subset :
    (rt : RunningTask) (a b : TaskMap)
    → ((i : TaskId) → has i a ≡ true → has i b ≡ true)
    → (i : TaskId) → has i (erase_unsure rt a) ≡ true
    → has i b ≡ true
unfolding erase_unsure
erase_unsure-subset rt a b h i e = h i (ground (arith, find-erase (task_id rt) i a))

erase_unsure_tasks-subset :
    (shard : String) (rts : List RunningTask) (a b : TaskMap) {a' : TaskMap}
    → erase_unsure_tasks shard rts a ≡ ok a'
    → ((i : TaskId) → has i a ≡ true → has i b ≡ true)
    → ((i : TaskId) → has i a' ≡ true → has i b ≡ true)
unfolding erase_unsure_tasks
erase_unsure_tasks-subset shard [] a b e h =
    subst (λ m. (i : TaskId) → has i m ≡ true → has i b ≡ true) (ok-injective e) h
erase_unsure_tasks-subset shard (rt ∷ rts) a b {a'} e h =
    let rest : erase_unsure_tasks shard rts (erase_unsure rt a) ≡ ok a' = ground arith in
    erase_unsure_tasks-subset shard rts (erase_unsure rt a) b rest (erase_unsure-subset rt a b h)

erase_unsure_tasks-nil :
    (shard : String) (rts : List RunningTask) {a' : TaskMap}
    → erase_unsure_tasks shard rts [] ≡ ok a'
    → a' ≡ []
unfolding erase_unsure_tasks erase_unsure find
erase_unsure_tasks-nil shard [] e = sym (ok-injective e)
erase_unsure_tasks-nil shard (rt ∷ rts) {a'} e =
    let rest : erase_unsure_tasks shard rts [] ≡ ok a' = ground arith in
    erase_unsure_tasks-nil shard rts rest

pub erase_unsure_if_running_tasks-IsSound :
    (rts : List RunningTask) (w : RemoteWorker) {w' : RemoteWorker}
    → IsSound w
    → erase_unsure_if_running_tasks rts w ≡ ok w'
    → IsSound w'
unfolding erase_unsure_if_running_tasks
erase_unsure_if_running_tasks-IsSound rts w {w'} h e =
    let (m, erased, same) =
      >>=-eq-ok (erase_unsure_tasks w.worker.shard rts w.unsure_if_running_tasks)
        (λ m. ok (record w { unsure_if_running_tasks = m })) e in
    subst IsSound (ok-injective same) (record {
      parts =
          with_tasks h.parts w.running_tasks m
            (λ c.
              let (r, u) = h.parts.idle c in
              (
                r,
                erase_unsure_tasks-nil w.worker.shard rts
                    (subst (λ l. erase_unsure_tasks w.worker.shard rts l ≡ ok m) u erased),
              ))
            (erase_unsure_tasks-subset w.worker.shard rts w.unsure_if_running_tasks w.running_tasks
              erased h.parts.unsure_runs);
    })

-- The worker's first report is taken over: it leaves the NEW state with the tasks `m`.
pub initialize_running_tasks-cases :
    (rts : List RunningTask) (w : RemoteWorker) {w' : RemoteWorker}
    → initialize_running_tasks rts w ≡ ok w'
    → (w.state.state ≡ State.new)
      × (w.running_tasks ≡ [])
      × (w.unsure_if_running_tasks ≡ [])
      × (m : TaskMap) × (add_running_tasks w.worker.shard rts [] ≡ ok m)
      × (change_state State.unhealthy (record w { running_tasks = m }) ≡ w')
unfolding initialize_running_tasks
initialize_running_tasks-cases rts w {w'} e =
    let new : w.state.state ≡ State.new = ground arith in
    let r : w.running_tasks ≡ [] = ground arith in
    let u : w.unsure_if_running_tasks ≡ [] = ground arith in
    let rest : (add_running_tasks w.worker.shard rts w.running_tasks >>= λ m.
    ok (change_state State.unhealthy (record w { running_tasks = m })))
        ≡ ok w' =
      ground arith in
    let (m, added, same) =
      >>=-eq-ok (add_running_tasks w.worker.shard rts w.running_tasks) _ rest in
    (
      new,
      r,
      u,
      m,
      subst (λ l. add_running_tasks w.worker.shard rts l ≡ ok m) r added,
      ok-injective same,
    )

pub initialize_running_tasks-IsSound :
    (rts : List RunningTask) (w : RemoteWorker) {w' : RemoteWorker}
    → IsSound w
    → initialize_running_tasks rts w ≡ ok w'
    → IsSound w'
unfolding find set_state
initialize_running_tasks-IsSound rts w h e =
    let (new, r, u, m, added, same) = initialize_running_tasks-cases rts w e in
    subst IsSound same (record {
      parts =
          with_tasks
            (with_state h.parts State.unhealthy _ (λ c. cc) (λ c. absurd (ground (arith, c)))) m
            w.unsure_if_running_tasks (λ c. absurd (ground (arith, c)))
            (λ i c. absurd (ground arith));
    })
