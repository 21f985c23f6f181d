-- ===== src/History.antt =====
-- remote/RemoteWorkers.{h,cpp}: the history of the set of workers that are not lost. An
-- unordered_set of shards is a list without repetitions, and the history, a std::map, is the list
-- of its entries in the order of their versions. The set that a step takes over by a move is empty
-- afterwards, as the last CHECK of the loop expects.
pub mod Shards
pub mod Pruning
pub mod Unused
use bistro.Base.{
  contains, ℕ, ◌-◌, Bool, true, false, not, Option, none, some, List, [], ◌∷◌, ◌++◌, Outcome, ok,
  check, ◌>>=◌, ◌>>◌, String, same, if◌then◌else◌, is_nil, leb, ltb, ◌==◌, length, nat_eq,
  string_eq,
}
use bistro.Thrift.{WorkerSetId}
use bistro.WorkerState.{State, state_beq}
use bistro.WorkerSet.{earlier}
use bistro.Worker.{RemoteWorker, worker_state}

pub record HistoryStep : Type 0 where
  pub removed : Option String
  pub added : List String

abbrev pub History : Type 0
History = List (ℕ × HistoryStep)

abbrev pub remove : String → List String → List String
remove shard [] = []
remove shard (other ∷ set) = if same other shard then set else other ∷ remove shard set

unfoldable pub add_shards : List String → List String → Outcome (List String)
add_shards [] set = ok set
add_shards (shard ∷ shards) set =
    check (not (contains shard set)) >> add_shards shards (set ++ (shard ∷ []))

unfoldable pub remove_shard : Option String → List String → Outcome (List String)
remove_shard none set = ok set
remove_shard (some shard) set = check (contains shard set) >> ok (remove shard set)

unfoldable pub merge_history_step : HistoryStep → List String → Outcome (List String)
merge_history_step step set = remove_shard step.removed set >>= add_shards step.added

-- The version that the loop over the pool keeps, after one worker more.
unfoldable pub note_version : Option ℕ → RemoteWorker → Outcome (Option ℕ)
note_version first w =
    if state_beq (worker_state w) State.must_die then ok first else elim w.worker_set_id [
      | none ↦ ok first
      | some id ↦ elim first [
        | none ↦ ok (some id.version)
        | some v ↦ earlier id.version v >>= λ b. ok (if b then some id.version else some v)
      ]
    ]

unfoldable pub first_referenced_version : List RemoteWorker → Option ℕ → Outcome (Option ℕ)
first_referenced_version [] first = ok first
first_referenced_version (w ∷ pool) first = note_version first w >>= first_referenced_version pool

-- The loop over the history, with the shards that the erased steps added and did not remove.
unfoldable pub prune_steps : ℕ → History → List String → Outcome History
prune_steps first [] added = check (is_nil added) >> ok []
prune_steps first ((version, step) ∷ history) added = earlier version first >>= λ unused.
    if unused
    then (merge_history_step step added >>= prune_steps first history)
    else (check (first == version)
        >> (merge_history_step step added >>= λ merged.
            ok ((version, record { removed = none; added = merged }) ∷ history)))

-- `initial` is the number of initial worker set ids.
unfoldable pub prune_established : ℕ → List RemoteWorker → History → Outcome History
prune_established initial pool history = first_referenced_version pool none >>= λ first.
    elim first [
      | none ↦ check (initial == 0) >> ok []
      | some version ↦ prune_steps version history []
    ]

-- `indirect` is the number of indirect versions. Workers without one have not yet echoed their
-- first worker set id, and keep the history from being pruned.
unfoldable pub prune_unused_history_versions : ℕ → ℕ → List RemoteWorker → History → Outcome History
prune_unused_history_versions initial indirect pool history =
    check (leb indirect initial)
    >> (if ltb 0 (initial - indirect) then ok history else prune_established initial pool history)
