-- ===== src/Selection/FirstFit.antt =====
-- findWorker of the round-robin selector tries every worker of a pool once, from the cursor on, and
-- takes the first on which the task fits.
use bistro.Base.{
  ℕ, suc, String, Bool, true, false, ◌||◌, ◌≡◌, refl, Option, none, some, List, [], ◌∷◌, AssocMap,
  contains, same, same_refl, string_eq, length, Outcome, ok, ◌>>=◌, >>=-eq->>=, if◌then◌else◌,
  arith,
}
use bistro.Worker.{RemoteWorker}
use bistro.Filters.{Platform}
use bistro.Jobs.{Job}
use bistro.Pools.{RoundRobinWorkerPool, successor, get_next_worker}
use bistro.Selection.{
  WorkerResources, Selected, visit, give_up, select, after_visit, search, find_worker,
}
use bistro.Selection.Rotation.{Distinct, Walk, rotation, rotation-Walk}

successor-mem :
    (f s : String) (shards : List String) → contains (successor f s shards) (f ∷ shards) ≡ true
unfolding successor
successor-mem f s [] = ground (arith, same_refl f)
successor-mem f s (x ∷ []) = ground (arith, same_refl f)
successor-mem f s (x ∷ y ∷ shards) =
    ground (arith, same_refl f, same_refl y, successor-mem f s (y ∷ shards))

-- A pool with its cursor after a shard.
abbrev pub pool_after : String → List String → String → RoundRobinWorkerPool
pool_after f rest s = record { shards = f ∷ rest; next_shard = successor f s (f ∷ rest) }

contains_idem :
    (s f : String) (shards : List String)
    → contains s (f ∷ f ∷ shards) ≡ true
    → contains s (f ∷ shards) ≡ true
contains_idem s f shards h = ground arith

get_next_worker-pool_after :
    (f : String) (rest : List String) (s : String)
    → get_next_worker (pool_after f rest s)
      ≡ some (successor f s (f ∷ rest), pool_after f rest (successor f s (f ∷ rest)))
unfolding get_next_worker
get_next_worker-pool_after f rest s =
    rw (contains_idem (successor f s (f ∷ rest)) f rest (successor-mem f s (f ∷ rest))) refl

-- The plain search after a visit: the task runs, or the search goes on.
abbrev pub fit_at :
    AssocMap String RemoteWorker
    → String
    → RoundRobinWorkerPool
    → Bool
    → (Bool → Outcome Selected)
    → Bool × Option WorkerResources
    → Outcome Selected
fit_at workers shard pool saw go_on (healthy, some resources') =
    ok (select workers shard pool resources')
fit_at workers shard pool saw go_on (healthy, none) = go_on (saw || healthy)

module _ {D R : Type 0} (p : Platform D R) (job : Job D R) (worker_level : ℕ)
    (workers : AssocMap String RemoteWorker) where
  -- The first of the shards on which the task fits, or none. `after` is the pool that is left.
  unfoldable pub first_fit :
      (String → RoundRobinWorkerPool)
      → RoundRobinWorkerPool
      → List String
      → Bool
      → WorkerResources
      → Outcome Selected
  first_fit after end [] saw resources = ok (give_up saw end resources)
  first_fit after end (s ∷ shards) saw resources =
      visit p job worker_level workers s resources
      >>= fit_at workers s (after s) saw (λ saw'. first_fit after end shards saw' resources)

  after_visit_last :
      (f : String) (rest : List String) (first a : String) (saw : Bool)
      (resources : WorkerResources)
      (go_on : String → Bool → RoundRobinWorkerPool → Outcome (Option Selected))
      → successor f a (f ∷ rest) ≡ first
      → (o : Bool × Option WorkerResources)
      → after_visit workers first a (pool_after f rest a) resources saw go_on o ≡ (
          fit_at workers a
            (pool_after f rest a)
            saw
            (λ saw'. ok (give_up saw' (pool_after f rest first) resources))
            o
          >>= λ r. ok (some r))
  unfolding after_visit
  after_visit_last f rest first a saw resources go_on e (healthy, some r) = refl
  after_visit_last f rest first a saw resources go_on e (healthy, none) =
      rw (get_next_worker-pool_after f rest a, e) (rw (same_refl first) refl)

  after_visit_other :
      (f : String) (rest : List String) (first a b : String) (saw : Bool)
      (resources : WorkerResources)
      (go_on : String → Bool → RoundRobinWorkerPool → Outcome (Option Selected))
      (plain : Bool → Outcome Selected)
      → successor f a (f ∷ rest) ≡ b
      → same b first ≡ false
      → ((saw' : Bool) → go_on b saw' (pool_after f rest b) ≡ (plain saw' >>= λ r. ok (some r)))
      → (o : Bool × Option WorkerResources)
      → after_visit workers first a (pool_after f rest a) resources saw go_on o
        ≡ (fit_at workers a (pool_after f rest a) saw plain o >>= λ r. ok (some r))
  unfolding after_visit
  after_visit_other f rest first a b saw resources go_on plain e other ih (healthy, some r) = refl
  after_visit_other f rest first a b saw resources go_on plain e other ih (healthy, none) =
      rw (get_next_worker-pool_after f rest a, e) (rw (other) (ih (saw || healthy)))

  search-first_fit :
      (f : String) (rest : List String) (first a : String) (l : List String) (saw : Bool)
      (resources : WorkerResources)
      → Walk f (f ∷ rest) first a l
      → search p job worker_level workers
          (suc (length l))
          first
          a
          saw
          (pool_after f rest a)
          resources
        ≡ (first_fit (pool_after f rest) (pool_after f rest first) (a ∷ l) saw resources >>= λ r.
            ok (some r))
  unfolding search first_fit Walk
  search-first_fit f rest first a [] saw resources e =
      >>=-eq->>= (visit p job worker_level workers a resources) _ _ _
        (after_visit_last f rest first a saw resources _ e)
  search-first_fit f rest first a (b ∷ l) saw resources (e, other, w) =
      >>=-eq->>= (visit p job worker_level workers a resources) _ _ _ (
        after_visit_other f rest first a b saw resources _ _ e other
          (λ saw'. search-first_fit f rest first b l saw' resources w))

  -- The search that starts at the shard under the cursor, in the order of a round.
  unfoldable pub first_fit_of : RoundRobinWorkerPool → WorkerResources → Outcome Selected
  first_fit_of pool resources = elim pool.shards [
    | [] ↦ ok (give_up false pool resources)
    | f ∷ rest ↦
        let first = if contains pool.next_shard (f ∷ rest) then pool.next_shard else f in
        first_fit (pool_after f rest) (pool_after f rest first) (rotation first (f ∷ rest)) false
          resources
  ]

  find_worker_at :
      (shards : List String) (next : String) (resources : WorkerResources)
      → Distinct shards
      → find_worker p job worker_level workers
          (record { shards = shards; next_shard = next })
          resources
        ≡ (first_fit_of (record { shards = shards; next_shard = next }) resources >>= λ r.
            ok (some r))
  unfolding find_worker first_fit_of get_next_worker
  find_worker_at [] next resources d = refl
  find_worker_at (f ∷ rest) next resources d =
      let first = if contains next (f ∷ rest) then next else f in
      let (l, e, w, n) = rotation-Walk f first rest d (ground (arith, same_refl f)) in
      rw (e, n) (search-first_fit f rest first first l false resources w)

  pub find_worker-first_fit_of :
      (pool : RoundRobinWorkerPool) (resources : WorkerResources)
      → Distinct pool.shards
      → find_worker p job worker_level workers pool resources
        ≡ (first_fit_of pool resources >>= λ r. ok (some r))
  find_worker-first_fit_of pool = find_worker_at pool.shards pool.next_shard
