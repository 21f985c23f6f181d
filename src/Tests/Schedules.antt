-- ===== src/Tests/Schedules.antt =====
-- Two jobs that share the resource of one node.
use bistro.Base.{
  ℕ, zero, suc, ◌≡◌, ◌≢◌, ◌+◌, refl, subst, true, false, none, some, List, [], ◌∷◌, ok, arith, find,
  assign, nat_eq,
}
use bistro.Base.Int.{pos, ◌-ℤ◌}
use mathlib.Core.Option.{some_inj}
use bistro.Scheduling.{
  Node, NodeFields, JobWithNodes, Packed, TaskRunnerResponse, TaskRunnerCallback, traverse_up,
  collect, collect_node, amount_at, take_amount, apply_updates, finish_attempt, try_to_schedule,
}
use bistro.Scheduling.Policies.{
  Progress, run_one, run_pass, run_passes, round_robin, randomized_priority, size,
}
use bistro.Scheduling.Needs.{AllNeeds}
use bistro.Scheduling.Amounts.{IsNeeding, AllNonneg}
use bistro.Scheduling.Resources.{IsNonneg}
use bistro.Scheduling.Counts.{IsScheduled, IsScheduled-IsNonneg, IsScheduled-count}
use bistro.Scheduling.Rounds.{round_robin-total}

abbrev instance_node : NodeFields
instance_node = record { name = "instance"; level = 0; enabled = true; tags = []; offset = 0 }

abbrev task_node : Node
task_node =
    Node.under (record { name = "shard"; level = 1; enabled = true; tags = []; offset = 0 })
      (Node.at_root instance_node)

-- It needs two units of the instance's resource.
abbrev job : JobWithNodes
job = record {
  job = "job";
  priority = pos 1;
  resources = (0, pos 2 ∷ []) ∷ (1, []) ∷ [];
  nodes = task_node ∷ [];
}

abbrev table : Packed
table = (0, pos 3 ∷ []) ∷ (1, []) ∷ []

table-IsNonneg : IsNonneg table
unfolding amount_at find
table-IsNonneg zero zero = (refl, omega arith)
table-IsNonneg zero (suc i) = (ground arith, ground arith)
table-IsNonneg (suc zero) i = (ground arith, ground arith)
table-IsNonneg (suc (suc l)) i = (ground arith, ground arith)

job-IsNeeding : IsNeeding job.resources
unfolding AllNonneg find
job-IsNeeding = record {
  are_nonneg = λ level ds e.
      elim level as (λ l. find l job.resources ≡ some ds → AllNonneg ds) [
        | zero ↦ λ f. subst AllNonneg (some_inj.0 f) (refl, tt)
        | suc l ↦ elim l as (λ l'. find (suc l') job.resources ≡ some ds → AllNonneg ds) [
          | zero ↦ λ f. subst AllNonneg (some_inj.0 f) tt
          | suc l' ↦ λ f. absurd (ground arith)
        ]
      ]
        e;
}

job-AllNeeds : AllNeeds IsNeeding (job ∷ job ∷ [])
unfolding AllNeeds
job-AllNeeds = (job-IsNeeding, (job-IsNeeding, tt))

-- A runner that starts every task, and counts them.
abbrev runs : TaskRunnerCallback ℕ
runs j node n = ok (TaskRunnerResponse.ran_task, suc n)

abbrev first : ℕ → List JobWithNodes → ℕ
first draw jobs = 0

-- One task runs; the other does not find the resource.
abbrev end : Progress ℕ
end = record { stopped = false; scheduled = 1; packed = (0, pos 1 ∷ []) ∷ (1, []) ∷ []; owner = 1 }

scheduled : IsScheduled runs (job ∷ job ∷ []) first table 0 end
unfolding round_robin run_passes run_pass run_one size try_to_schedule traverse_up collect
    collect_node finish_attempt apply_updates take_amount amount_at find assign ◌-ℤ◌
scheduled = IsScheduled.by_round refl

IsScheduled-IsNonneg_example : IsNonneg end.packed
IsScheduled-IsNonneg_example =
    IsScheduled-IsNonneg runs (job ∷ job ∷ []) first table 0 end job-AllNeeds table-IsNonneg
      scheduled

IsScheduled-count_example : end.owner ≡ end.scheduled + 0
IsScheduled-count_example =
    IsScheduled-count runs (job ∷ job ∷ []) first table 0 end (λ n. n)
      (λ j node k k' r e. ground arith) scheduled

round_robin-total_example :
    (round_robin runs (job ∷ job ∷ []) (table, 0) ≢ ok none)
    × (randomized_priority runs first (job ∷ job ∷ []) (table, 0) ≢ ok none)
round_robin-total_example = round_robin-total runs first (job ∷ job ∷ []) table 0
