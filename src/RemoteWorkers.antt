-- ===== src/RemoteWorkers.antt =====
-- remote/RemoteWorkers.{h,cpp}: all workers of a scheduler, and what it keeps about the set of those
-- that are not lost. An ordered set is the list of its elements in order, and a multiset a list.
pub mod Operations
pub mod InitialWait
pub mod Members
pub mod Census
pub mod Steps
use Prim.Native.String.{compare as compare_string}
use Prim.Native.Nat.{Ordering}
use bistro.Base.{
  ℕ, ◌+◌, ◌%◌, ◌==◌, String, Bool, true, false, not, ◌&&◌, ◌||◌, Option, none, some, List, [], ◌∷◌,
  AssocMap, same, string_eq, nat_eq, pair_eq, length, leb, Outcome, ok, fatal, check, ◌>>=◌, ◌>>◌,
  if◌then◌else◌,
}
use bistro.Base.Int.{ℤ, pos, eqb_ℤ}
use bistro.Base.Word.{two_64}
use bistro.Thrift.{InstanceId, WorkerSetHash, WorkerSetId, instance_eq, set_id_eq}
use bistro.WorkerSet.{earlier, add_worker_id_to_hash, remove_worker_id_from_hash}
use bistro.Worker.{RemoteWorker}
use bistro.Worker.Heartbeat.{Callbacks}
use bistro.History.{HistoryStep, History}
use bistro.Pools.{RoundRobinWorkerPool}

abbrev pub VersionShardSet : Type 0
VersionShardSet = List (ℕ × String)

pub record RemoteWorkers : Type 0 where
  pub start_time : ℤ
  pub scheduler_id : InstanceId
  pub workers : AssocMap String RemoteWorker
  pub worker_pool : RoundRobinWorkerPool
  pub host_pools : AssocMap String RoundRobinWorkerPool
  pub initial_worker_set_ids : List WorkerSetId
  pub indirect_versions : VersionShardSet
  pub non_must_die : WorkerSetId
  pub history : History
  pub in_initial_wait : Bool

abbrev empty_pool : RoundRobinWorkerPool
empty_pool = record { shards = []; next_shard = "" }

abbrev no_hash : WorkerSetHash
no_hash = record {
  start_time = record { add_all = 0; xor_all = 0 };
  rand = record { add_all = 0; xor_all = 0 };
  num_workers = pos 0;
}

-- The constructor.
unfoldable pub make_workers : ℤ → InstanceId → RemoteWorkers
make_workers start_time scheduler_id = record {
  start_time = start_time;
  scheduler_id = scheduler_id;
  workers = [];
  worker_pool = empty_pool;
  host_pools = [];
  initial_worker_set_ids = [];
  indirect_versions = [];
  non_must_die = record { scheduler_id = scheduler_id; version = 0; hash = no_hash };
  history = [];
  in_initial_wait = true;
}

-- The order of std::string.
unfoldable pub is_before : String → String → Bool
is_before a b = elim (compare_string a b) [ Ordering.lt ↦ true | _ ↦ false ]

-- VersionAndShardEarlierThan
unfoldable pub earlier_entry : ℕ × String → ℕ × String → Outcome Bool
earlier_entry (v, s) (w, t) = earlier v w >>= λ b. ok (b || ((v == w) && is_before s t))

unfoldable pub add_to_version_shard_set : ℕ → String → VersionShardSet → Outcome VersionShardSet
add_to_version_shard_set v s [] = ok ((v, s) ∷ [])
add_to_version_shard_set v s (entry ∷ vss) = earlier_entry (v, s) entry >>= λ first.
    if first
    then ok ((v, s) ∷ entry ∷ vss)
    else (earlier_entry entry (v, s) >>= λ later.
        if later then (add_to_version_shard_set v s vss >>= λ rest. ok (entry ∷ rest)) else fatal)

unfoldable pub remove_from_version_shard_set :
    ℕ → String → VersionShardSet → Outcome VersionShardSet
remove_from_version_shard_set v s [] = fatal
remove_from_version_shard_set v s (entry ∷ vss) =
    if same entry (v, s)
    then ok vss
    else (remove_from_version_shard_set v s vss >>= λ rest. ok (entry ∷ rest))

-- updateIndirectWorkerSetVersion, with the indirect set of the worker of a shard.
unfoldable pub update_indirect_worker_set_version :
    String
    → Option WorkerSetId
    → WorkerSetId
    → RemoteWorkers
    → Outcome (Option WorkerSetId × RemoteWorkers)
update_indirect_worker_set_version shard none new r =
    add_to_version_shard_set new.version shard r.indirect_versions >>= λ vss.
    ok (some new, record r { indirect_versions = vss })
update_indirect_worker_set_version shard (some id) new r =
    check (same id.scheduler_id r.scheduler_id)
    >> (earlier id.version new.version >>= λ later.
        if not later
        then ok (some id, r)
        else (remove_from_version_shard_set id.version shard r.indirect_versions >>= λ vss.
            add_to_version_shard_set new.version shard vss >>= λ vss'.
            ok (some new, record r { indirect_versions = vss' })))

-- history_.emplace, of a version that must be new.
unfoldable pub add_step : ℕ → HistoryStep → History → Outcome History
add_step version step [] = ok ((version, step) ∷ [])
add_step version step ((v, s) ∷ history) = earlier version v >>= λ first.
    if first
    then ok ((version, step) ∷ (v, s) ∷ history)
    else (earlier v version >>= λ later.
        if later then (add_step version step history >>= λ rest. ok ((v, s) ∷ rest)) else fatal)

abbrev pub is_none {ℓ} : {A : Type ℓ} → Option A → Bool
is_none none = true
is_none (some a) = false

-- A new set of workers that are not lost, and the step of the history that leads to it.
unfoldable pub advance : WorkerSetHash → HistoryStep → RemoteWorkers → Outcome RemoteWorkers
advance hash step r =
    let version = (r.non_must_die.version + 1) % two_64 in
    add_step version step r.history >>= λ history. ok (record r {
      non_must_die = record (r.non_must_die) { version = version; hash = hash };
      history = history;
    })

-- The callback for a new worker.
unfoldable pub new_worker : RemoteWorker → RemoteWorkers → Outcome RemoteWorkers
new_worker w r =
    check (is_none w.worker_set_id)
    >> (check (is_none w.indirect_worker_set_id)
        >> (check (is_none w.first_associated_worker_set_id)
            >> advance (add_worker_id_to_hash r.non_must_die.hash w.worker.id)
                (record { removed = none; added = w.worker.shard ∷ [] })
                (record r {
                  initial_worker_set_ids = w.initial_worker_set_id ∷ r.initial_worker_set_ids;
                })))

unfoldable pub erase_one : WorkerSetId → List WorkerSetId → Outcome (List WorkerSetId)
erase_one id [] = fatal
erase_one id (other ∷ ids) =
    if same other id then ok ids else (erase_one id ids >>= λ rest. ok (other ∷ rest))

-- The indirect version of a dead worker, if it has one, is removed.
unfoldable pub forget_indirect : RemoteWorker → RemoteWorkers → Outcome VersionShardSet
forget_indirect w r = elim w.indirect_worker_set_id [
  | none ↦ ok r.indirect_versions
  | some id ↦
      check (same id.scheduler_id r.scheduler_id)
      >> remove_from_version_shard_set id.version w.worker.shard r.indirect_versions
]

-- The callback for a worker that was lost or replaced.
unfoldable pub dead_worker : RemoteWorker → RemoteWorkers → Outcome RemoteWorkers
dead_worker w r = erase_one w.initial_worker_set_id r.initial_worker_set_ids >>= λ ids.
    forget_indirect w r >>= λ vss.
    remove_worker_id_from_hash r.non_must_die.hash w.worker.id >>= λ hash.
    advance hash (record { removed = some w.worker.shard; added = [] })
      (record r { initial_worker_set_ids = ids; indirect_versions = vss })

-- The callback for a worker that echoes a new worker set.
unfoldable pub worker_set_id_change :
    RemoteWorker → WorkerSetId → RemoteWorkers → Outcome (Option WorkerSetId × RemoteWorkers)
worker_set_id_change w id r =
    check (same r.scheduler_id id.scheduler_id)
    >> update_indirect_worker_set_version w.worker.shard w.indirect_worker_set_id id r

abbrev pub callbacks : Callbacks RemoteWorkers
callbacks = record {
  new_worker = new_worker;
  dead_worker = dead_worker;
  worker_set_id_change = worker_set_id_change;
}

-- The least version that all workers indirectly require is no earlier than the first set with the
-- worker. Reading the first entry of an empty set is undefined.
unfoldable pub is_required_by_all : RemoteWorker → VersionShardSet → Outcome Bool
is_required_by_all w vss = elim w.first_associated_worker_set_id [
  | none ↦ ok false
  | some id ↦ elim vss [
    | [] ↦ fatal
    | entry ∷ rest ↦ earlier entry.0 id.version >>= λ b. ok (not b)
  ]
]

unfoldable pub consensus_permits_becoming_healthy : RemoteWorker → RemoteWorkers → Outcome Bool
consensus_permits_becoming_healthy w r =
    check (eqb_ℤ r.non_must_die.hash.num_workers (pos (length r.initial_worker_set_ids)))
    >> (check (leb (length r.indirect_versions) (length r.initial_worker_set_ids))
        >> (elim w.worker_set_id [
          | none ↦ ok false
          | some id ↦
              if not (same id r.non_must_die)
              then ok false
              else if not (eqb_ℤ (pos (length r.indirect_versions)) r.non_must_die.hash.num_workers)
              then ok false
              else is_required_by_all w r.indirect_versions
        ]))
