-- ===== src/Tests/Histories.antt =====
-- The history of the set of workers, as two of them come and go.
use bistro.Base.{ℕ, ◌≡◌, refl, none, some, List, [], ◌∷◌, ◌++◌, ok, arith, String}
use bistro.Base.Int.{pos}
use bistro.WorkerState.{State}
use bistro.WorkerSet.{earlier}
use bistro.Worker.{RemoteWorker, make_worker, change_state}
use bistro.History.{HistoryStep, History, first_referenced_version, prune_unused_history_versions}
use bistro.History.Pruning.{workers_at, AllErased, merged_step}
use bistro.History.Unused.{
  workers_at-prune_unused_history_versions, prune_unused_history_versions-append,
}
use bistro.Tests.Samples.{instance_at, worker_at, set_id}

abbrev joined : String → HistoryStep
joined shard = record { removed = none; added = shard ∷ [] }

abbrev replaced : HistoryStep
replaced = record { removed = some "a"; added = "c" ∷ [] }

abbrev early_steps : History
early_steps = (3, joined "a") ∷ (4, joined "b") ∷ []

abbrev last_steps : History
last_steps = (6, joined "d") ∷ []

abbrev steps : History
steps = early_steps ++ ((5, replaced) ∷ last_steps)

-- A worker that knows a version of the set.
abbrev worker_of : ℕ → RemoteWorker
worker_of version =
    change_state State.unhealthy
      (record (make_worker (pos 100) (worker_at 8000 1) (set_id 50 3) (instance_at 50 9)) {
        worker_set_id = some (set_id 50 version);
      })

abbrev pool : List RemoteWorker
pool = worker_of 6 ∷ worker_of 5 ∷ []

abbrev kept_steps : History
kept_steps = (5, merged_step ("b" ∷ "c" ∷ [])) ∷ last_steps

first_five : first_referenced_version pool none ≡ ok (some 5)
unfolding first_referenced_version bistro.History.note_version earlier bistro.WorkerSet.make_signed
    bistro.Worker.worker_state bistro.WorkerState.set_state make_worker
first_five = refl

replayed : workers_at 5 steps [] ≡ ok ("b" ∷ "c" ∷ [])
unfolding workers_at bistro.History.merge_history_step bistro.History.remove_shard
    bistro.History.add_shards
replayed = refl

early_steps-AllErased : AllErased 5 early_steps
unfolding AllErased earlier bistro.WorkerSet.make_signed
early_steps-AllErased = (refl, (refl, tt))

pruned : prune_unused_history_versions 2 2 pool steps ≡ ok kept_steps
unfolding prune_unused_history_versions bistro.History.prune_established bistro.History.prune_steps
    first_referenced_version bistro.History.note_version earlier bistro.WorkerSet.make_signed
    bistro.Worker.worker_state bistro.WorkerState.set_state make_worker
    bistro.History.merge_history_step bistro.History.remove_shard bistro.History.add_shards
pruned = refl

prune_unused_history_versions-append_example :
    prune_unused_history_versions 2 2 pool steps ≡ ok kept_steps
prune_unused_history_versions-append_example =
    prune_unused_history_versions-append 2 pool early_steps last_steps replaced 5 (omega arith)
      first_five early_steps-AllErased replayed

-- The latest version, which the loop does not touch.
workers_at-prune_unused_history_versions_example :
    workers_at 6 kept_steps [] ≡ workers_at 6 steps []
unfolding earlier bistro.WorkerSet.make_signed
workers_at-prune_unused_history_versions_example =
    workers_at-prune_unused_history_versions 2 2 pool steps 6 5 {kept = kept_steps} pruned
      first_five refl
