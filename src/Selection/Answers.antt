-- ===== src/Selection/Answers.antt =====
-- What the answers of findWorker mean for the workers of the pool.
use mathlib.Core.Option.{some_inj}
use bistro.Base.{
  ℕ, String, Bool, true, false, ◌≡◌, ◌⊎◌, refl, sym, ap, ◌∙◌, none, some, List, [], ◌∷◌, AssocMap,
  contains, same_refl, string_eq, ok, >>=-eq-ok, ok-injective, if◌then◌else◌, inl, inr, arith, find,
}
use bistro.Worker.{RemoteWorker}
use bistro.Scheduling.{TaskRunnerResponse}
use bistro.Filters.{Platform}
use bistro.Jobs.{Job}
use bistro.Pools.{RoundRobinWorkerPool}
use bistro.Selection.{WorkerResources, Selected, worker_of, sequence_num, find_worker}
use bistro.Selection.Visits.{Fits, Lacks, IsWorker, visit-Fits, visit-Lacks}
use bistro.Selection.Rotation.{Distinct, rotation, contains-rotation}
use bistro.Selection.FirstFit.{first_fit, first_fit_of, find_worker-first_fit_of, pool_after}
use bistro.Selection.Tried.{IsFoundBy, IsRefusedAfter, first_fit-answers}

module _ {D R : Type 0} (p : Platform D R) (job : Job D R) (worker_level : ℕ)
    (workers : AssocMap String RemoteWorker) (resources : WorkerResources) where
  -- The task runs on a healthy worker of the shards on which it fits, and takes its resources.
  pub record IsFound (shards : List String) (r : Selected) : Type 0 where
    pub shard : String
    pub is_member : contains shard shards ≡ true
    pub worker : RemoteWorker
    pub is_healthy_worker : IsWorker p job worker_level workers resources shard worker true
    pub fits : Fits p job worker_level workers resources worker r.worker_resources
    pub is_found : r.found ≡ some (worker.worker, sequence_num worker)
    pub has_run : r.response ≡ TaskRunnerResponse.ran_task

  -- The task fits on no healthy worker of the shards, and `saw` tells whether one of them is healthy.
  pub record IsRefused (shards : List String) (saw : Bool) (r : Selected) : Type 0 where
    pub is_untouched : r.worker_resources ≡ resources
    pub is_not_found : r.found ≡ none
    pub has_not_run : r.response ≡ (
        if saw
        then TaskRunnerResponse.did_not_run_task
        else TaskRunnerResponse.do_not_run_more_tasks)
    pub refuses :
        (s : String)
        → contains s shards ≡ true
        → (w : RemoteWorker) × (h : Bool) × IsWorker p job worker_level workers resources s w h
          × (h ≡ true → (saw ≡ true) × Lacks p job worker_level workers resources w)
    pub is_seen :
        saw ≡ true
        → (s : String) × (w : RemoteWorker) × (contains s shards ≡ true)
          × IsWorker p job worker_level workers resources s w true

  worker_of-IsWorker :
      (s : String) (w : RemoteWorker)
      → find s workers ≡ some w
      → worker_of workers s ≡ some (w.worker, sequence_num w)
  unfolding worker_of
  worker_of-IsWorker s w e = rw (e, worker_of) refl

  IsFoundBy-IsFound :
      (xs shards : List String) {r : Selected}
      → ((s : String) → contains s xs ≡ contains s shards)
      → IsFoundBy p job worker_level workers resources xs r
      → IsFound shards r
  IsFoundBy-IsFound xs shards e f =
      let (w, known, fits) =
        visit-Fits p job worker_level workers resources f.shard f.healthy _ f.fits in
      record {
        shard = f.shard;
        is_member = sym (e f.shard) ∙ f.is_member;
        worker = w;
        is_healthy_worker = known;
        fits = fits;
        is_found = f.is_found ∙ worker_of-IsWorker f.shard w known.0;
        has_run = f.has_run;
      }

  IsRefusedAfter-IsRefused :
      (xs shards : List String) (saw : Bool) {r : Selected}
      → ((s : String) → contains s xs ≡ contains s shards)
      → IsRefusedAfter p job worker_level workers resources false xs saw r
      → IsRefused shards saw r
  IsRefusedAfter-IsRefused xs shards saw e t = record {
    is_untouched = t.untouched;
    is_not_found = t.not_found;
    has_not_run = t.not_run;
    refuses = λ s m.
        let (h, v, k) = t.refused s (e s ∙ m) in
        let (w, known, lacks) = visit-Lacks p job worker_level workers resources s h v in
        (w, h, known, λ y. (k y, lacks y));
    is_seen = λ b. elim (t.seen b) [
      | inl n ↦ cc
      | inr (s, m, v) ↦
          let (w, known, _) = visit-Lacks p job worker_level workers resources s true v in
          (s, w, sym (e s) ∙ m, known)
    ];
  }

  -- What a round says of its shards, for those of the pool.
  answers_move :
      (xs shards : List String) {r : Selected}
      → ((s : String) → contains s xs ≡ contains s shards)
      → IsFoundBy p job worker_level workers resources xs r
        ⊎ ((saw : Bool) × IsRefusedAfter p job worker_level workers resources false xs saw r)
      → IsFound shards r ⊎ ((saw : Bool) × IsRefused shards saw r)
  answers_move xs shards e (inl f) = inl (IsFoundBy-IsFound xs shards e f)
  answers_move xs shards e (inr (saw, t)) = inr (saw, IsRefusedAfter-IsRefused xs shards saw e t)

  first_fit_of-answers :
      (shards : List String) (next : String) {r : Selected}
      → first_fit_of p job worker_level workers
          (record { shards = shards; next_shard = next })
          resources
        ≡ ok r
      → IsFound shards r ⊎ ((saw : Bool) × IsRefused shards saw r)
  unfolding first_fit_of first_fit
  first_fit_of-answers [] next h =
      let pool : RoundRobinWorkerPool = record { shards = []; next_shard = next } in
      answers_move [] [] (λ s. refl)
        (first_fit-answers p job worker_level workers resources (λ s. pool) pool [] false h)
  first_fit_of-answers (f ∷ rest) next h =
      let first = if contains next (f ∷ rest) then next else f in
      answers_move (rotation first (f ∷ rest)) (f ∷ rest)
        (λ s. contains-rotation s first (f ∷ rest) (ground (arith, same_refl f)))
        (first_fit-answers p job worker_level workers resources (pool_after f rest)
          (pool_after f rest first) (rotation first (f ∷ rest)) false h)

  -- In a pool without repeated shards, where findWorker returns: if it runs the task, then on a healthy
  -- worker of the pool whose filters the job passes and whose resources suffice, and it takes what the
  -- job needs of each of them. Otherwise each healthy worker of the pool is filtered out, or has no
  -- resources or too few, no resources are taken, and the scheduler is told to run no more tasks
  -- exactly if no worker of the pool is healthy.
  pub find_worker-answers :
      (pool : RoundRobinWorkerPool) {r : Selected}
      → Distinct pool.shards
      → find_worker p job worker_level workers pool resources ≡ ok (some r)
      → IsFound pool.shards r ⊎ ((saw : Bool) × IsRefused pool.shards saw r)
  find_worker-answers pool {r = r} d h =
      let (r', e, k) =
        >>=-eq-ok (first_fit_of p job worker_level workers pool resources) (λ x. ok (some x))
          (sym (find_worker-first_fit_of p job worker_level workers pool resources d) ∙ h) in
      first_fit_of-answers pool.shards pool.next_shard (e ∙ ap ok (some_inj.0 (ok-injective k)))
