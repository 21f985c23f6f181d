-- ===== src/Selection/Busiest.antt =====
-- remote/BusiestRemoteWorkerSelector.cpp: the task goes to the worker that it leaves with the least
-- resources, by weight. Weights are ints, with the sums and products of two's complement.
pub mod Least
use bistro.Base.{
  ℕ, suc, zero, ◌-◌, String, Bool, true, false, not, ◌&&◌, ◌||◌, Option, none, some, List, [], ◌∷◌,
  AssocMap, find, assign, same, string_eq, get_elem?, length, set, ltb, Outcome, ok, check,
  or_fatal, ◌>>=◌, ◌>>◌, if◌then◌else◌,
}
use bistro.Base.Int.{ℤ, pos, negsuc, ◌+ℤ◌, ◌-ℤ◌, ◌*ℤ◌, ltb_ℤ, eqb_ℤ}
use bistro.Base.Word.{to_i32}
use bistro.Thrift.{BistroWorker}
use bistro.Worker.{RemoteWorker, is_healthy}
use bistro.Scheduling.{TaskRunnerResponse}
use bistro.Filters.{Platform}
use bistro.Jobs.{Job}
use bistro.Selection.{WorkerResources, worker_of, job_can_run_on_worker}

abbrev pub int_max : ℤ
int_max = pos 2147483647

-- What config keeps for the resources of the worker level.
pub record ResourceConfig : Type 0 where
  pub worker_resource_ids : List ℕ
  pub resource_id_to_weight : List ℤ

-- The worker that leaves least so far, with the weight that it leaves.
pub record Busiest : Type 0 where
  pub least_weight : ℤ
  pub busiest_worker : Option String
  pub saw_healthy_worker : Bool

-- The weight that the task leaves, or -1 if it does not fit.
unfoldable pub weigh : List ℕ → List ℤ → List ℤ → List ℤ → ℤ → Outcome ℤ
weigh [] weights amounts needs remaining = ok remaining
weigh (rid ∷ rids) weights amounts needs remaining = or_fatal (get_elem? amounts rid) >>= λ amount.
    or_fatal (get_elem? weights rid) >>= λ weight.
    check (not (eqb_ℤ amount int_max))
    >> (or_fatal (get_elem? needs rid) >>= λ need.
        if ltb_ℤ amount need
        then ok (negsuc 0)
        else weigh rids weights amounts needs
            (to_i32 (remaining +ℤ to_i32 (to_i32 (amount -ℤ need) *ℤ weight))))

-- The last loop: the task takes its share of the resources.
unfoldable pub take_all : List ℕ → List ℤ → List ℤ → Outcome (List ℤ)
take_all [] needs amounts = ok amounts
take_all (rid ∷ rids) needs amounts = or_fatal (get_elem? amounts rid) >>= λ amount.
    or_fatal (get_elem? needs rid) >>= λ need.
    check (not (ltb_ℤ amount need))
    >> take_all rids needs (set amounts rid (to_i32 (amount -ℤ need)))

-- The loop's body.
unfoldable pub compare_weight : String → Busiest → Bool × Option ℤ → Busiest
compare_weight shard best (seen, none) = record best {
  saw_healthy_worker = best.saw_healthy_worker || seen;
}
compare_weight shard best (seen, some weight) =
    if ltb_ℤ weight best.least_weight
    then record {
      least_weight = weight;
      busiest_worker = some shard;
      saw_healthy_worker = best.saw_healthy_worker || seen;
    }
    else record best { saw_healthy_worker = best.saw_healthy_worker || seen }

module _ {D R : Type 0} (p : Platform D R) (config : ResourceConfig) (job : Job D R)
    (worker_level : ℕ) (workers : AssocMap String RemoteWorker) (resources : WorkerResources) where
  -- The weight that is left on a healthy worker with resources on which the job can run.
  unfoldable pub weigh_worker : RemoteWorker → List ℤ → Outcome (Option ℤ)
  weigh_worker w amounts = job_can_run_on_worker p job worker_level w.worker >>= λ can.
      if not can
      then ok none
      else (weigh config.worker_resource_ids config.resource_id_to_weight amounts job.resources
            (pos 0)
          >>= λ weight. ok (if ltb_ℤ weight (pos 0) then none else some weight))

  -- The weight that a worker of the pool is compared by, if it may run the task; and whether it is
  -- healthy, and has resources.
  unfoldable pub weight_of : String → Outcome (Bool × Option ℤ)
  weight_of shard = or_fatal (find shard workers) >>= λ w.
      if not (is_healthy w) then ok (false, none) else elim (find shard resources) [
        | none ↦ ok (false, none)
        | some amounts ↦ weigh_worker w amounts >>= λ weight. ok (true, weight)
      ]

  unfoldable pub find_busiest : List String → Busiest → Outcome Busiest
  find_busiest [] best = ok best
  find_busiest (shard ∷ shards) best =
      weight_of shard >>= λ seen. find_busiest shards (compare_weight shard best seen)

  -- BusiestRemoteWorkerSelector::findWorker: the response, the worker that was found, and the
  -- resources that are left.
  unfoldable pub find_worker :
      List String → Outcome (TaskRunnerResponse × Option (BistroWorker × ℤ) × WorkerResources)
  find_worker pool =
      find_busiest pool
        (record { least_weight = int_max; busiest_worker = none; saw_healthy_worker = false })
      >>= λ best. elim best.busiest_worker [
        | none ↦ ok (
          if best.saw_healthy_worker
              then TaskRunnerResponse.did_not_run_task
              else TaskRunnerResponse.do_not_run_more_tasks,
          none,
          resources,
        )
        | some shard ↦ or_fatal (find shard resources) >>= λ amounts.
            take_all config.worker_resource_ids job.resources amounts >>= λ left.
            ok (TaskRunnerResponse.ran_task, worker_of workers shard, assign shard left resources)
      ]
