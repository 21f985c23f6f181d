-- ===== src/Pools.antt =====
-- remote/RemoteWorkers.{h,cpp}: RoundRobinWorkerPool. The map from shards to workers is kept once for
-- all pools, which share its objects; a pool has its shards, in their order of iteration, and a
-- cursor.
use bistro.Base.{
  String, Option, none, some, List, [], ◌∷◌, contains, same, string_eq, if◌then◌else◌,
}

pub record RoundRobinWorkerPool : Type 0 where
  pub shards : List String
  pub next_shard : String

-- The shard after one, in a list; after the last one comes `first`.
unfoldable pub successor : String → String → List String → String
successor first shard [] = first
successor first shard (s ∷ []) = first
successor first shard (s ∷ t ∷ shards) =
    if same s shard then t else successor first shard (t ∷ shards)

-- The shard of the next worker, unless the pool is empty.
unfoldable pub get_next_worker : RoundRobinWorkerPool → Option (String × RoundRobinWorkerPool)
get_next_worker pool = elim pool.shards [
  | [] ↦ none
  | first ∷ shards ↦
      let shard = if contains pool.next_shard (first ∷ shards) then pool.next_shard else first in
      some (shard, record pool { next_shard = successor first shard (first ∷ shards) })
]
