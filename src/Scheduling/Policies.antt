-- ===== src/Scheduling/Policies.antt =====
-- The scheduler policies of scheduler/*SchedulerPolicy.cpp. `nodes` lists a job's nodes from the back.
use bistro.Base.{
  ℕ, zero, suc, ◌+◌, Bool, true, false, Option, none, some, List, [], ◌∷◌, Outcome, ok, ◌>>=◌,
  length, ltb, is_nil, if◌then◌else◌, get_elem?, or_fatal, set, string_eq,
}
use bistro.Base.Int.{ltb_ℤ}
use bistro.Scheduling.{
  Node, JobWithNodes, Packed, TaskRunnerCallback, ran_task, did_not_run_task, do_not_run_more_tasks,
  try_to_schedule,
}

-- Where a loop over nodes or jobs stands: whether the policy returns, the number of tasks that it
-- scheduled, and the state.
pub record Progress (G : Type 0) : Type 0 where
  pub stopped : Bool
  pub scheduled : ℕ
  pub packed : Packed
  pub owner : G

abbrev pub with_nodes : JobWithNodes → List Node → JobWithNodes
with_nodes j ns = record j { nodes = ns }

-- The number of the jobs and of their nodes.
unfoldable pub size : List JobWithNodes → ℕ
size [] = 0
size (j ∷ js) = suc (length j.nodes + size js)

-- jobs.erase(jobs.begin() + i)
unfoldable pub erase_at : ℕ → List JobWithNodes → List JobWithNodes
erase_at i [] = []
erase_at zero (j ∷ js) = js
erase_at (suc i) (j ∷ js) = j ∷ erase_at i js

module _ {G : Type 0} (cb : TaskRunnerCallback G) where
  abbrev pub step_to : Bool → ℕ → Packed × G → Progress G
  step_to b n (p, g) = record { stopped = b; scheduled = n; packed = p; owner = g }

  -- The inner loop of the ranked and the long-tail policies: all nodes of a job.
  unfoldable pub run_all : JobWithNodes → List Node → Progress G → Outcome (Progress G)
  run_all j [] s = ok s
  run_all j (node ∷ rest) s =
      try_to_schedule node (with_nodes j (node ∷ rest)) cb (s.packed, s.owner)
      >>= λ (response, p, g). elim response [
        | ran_task ↦ run_all j rest (step_to false (suc s.scheduled) (p, g))
        | did_not_run_task ↦ run_all j rest (step_to false s.scheduled (p, g))
        | do_not_run_more_tasks ↦ ok (step_to true s.scheduled (p, g))
      ]

  unfoldable pub run_jobs : List JobWithNodes → Progress G → Outcome (Progress G)
  run_jobs [] s = ok s
  run_jobs (j ∷ js) s = run_all j j.nodes s >>= λ s'. if s'.stopped then ok s' else run_jobs js s'

  -- The inner loop of the round-robin and the randomized policies: the nodes of a job until a task of
  -- it runs, with the nodes that remain.
  unfoldable pub run_one : JobWithNodes → List Node → Progress G → Outcome (List Node × Progress G)
  run_one j [] s = ok ([], s)
  run_one j (node ∷ rest) s =
      try_to_schedule node (with_nodes j (node ∷ rest)) cb (s.packed, s.owner)
      >>= λ (response, p, g). elim response [
        | ran_task ↦ ok (rest, step_to false (suc s.scheduled) (p, g))
        | did_not_run_task ↦ run_one j rest (step_to false s.scheduled (p, g))
        | do_not_run_more_tasks ↦ ok (rest, step_to true s.scheduled (p, g))
      ]

  -- One pass of the round-robin policy over the jobs: those without nodes are erased.
  unfoldable pub run_pass :
      List JobWithNodes → Progress G → Outcome (List JobWithNodes × Progress G)
  run_pass [] s = ok ([], s)
  run_pass (j ∷ js) s =
      if is_nil j.nodes
      then run_pass js s
      else (run_one j j.nodes s >>= λ (rest, s').
          if s'.stopped
          then ok (with_nodes j rest ∷ js, s')
          else (run_pass js s' >>= λ (js', s''). ok (with_nodes j rest ∷ js', s'')))

  -- The passes, on fuel: none if it is used up.
  unfoldable pub run_passes : ℕ → List JobWithNodes → Progress G → Outcome (Option (Progress G))
  run_passes fuel [] s = ok (some s)
  run_passes zero (j ∷ js) s = ok none
  run_passes (suc fuel) (j ∷ js) s = run_pass (j ∷ js) s >>= λ (js', s').
      if s'.stopped then ok (some s') else run_passes fuel js' s'

  abbrev pub begin : Packed × G → Progress G
  begin p = step_to false 0 p

  -- The randomized policy, on fuel. `pick` stands for std::discrete_distribution over the priorities of
  -- the jobs that are left; its first argument tells the draws apart.
  module _ (pick : ℕ → List JobWithNodes → ℕ) where
    unfoldable pub run_random : ℕ → List JobWithNodes → Progress G → Outcome (Option (Progress G))
    run_random fuel [] s = ok (some s)
    run_random zero (j ∷ js) s = ok none
    run_random (suc fuel) (j ∷ js) s =
        let i = pick fuel (j ∷ js) in
        or_fatal (get_elem? (j ∷ js) i) >>= λ jwn.
        if is_nil jwn.nodes
        then run_random fuel (erase_at i (j ∷ js)) s
        else (run_one jwn jwn.nodes s >>= λ (rest, s').
            if s'.stopped
            then ok (some s')
            else run_random fuel (set (j ∷ js) i (with_nodes jwn rest)) s')

-- std::sort leaves the order of equal elements open; this order is stable.
unfoldable pub insert_by :
    (JobWithNodes → JobWithNodes → Bool) → JobWithNodes → List JobWithNodes → List JobWithNodes
insert_by before j [] = j ∷ []
insert_by before j (k ∷ ks) =
    let rest = insert_by before j ks in if before k j then k ∷ rest else j ∷ k ∷ ks

unfoldable pub sort_by :
    (JobWithNodes → JobWithNodes → Bool) → List JobWithNodes → List JobWithNodes
sort_by before [] = []
sort_by before (j ∷ js) = insert_by before j (sort_by before js)

unfoldable pub has_higher_priority : JobWithNodes → JobWithNodes → Bool
has_higher_priority a b = ltb_ℤ b.priority a.priority

unfoldable pub has_fewer_nodes : JobWithNodes → JobWithNodes → Bool
has_fewer_nodes a b = ltb (length a.nodes) (length b.nodes)

module _ {G : Type 0} (cb : TaskRunnerCallback G) where
  unfoldable pub ranked_priority : List JobWithNodes → Packed × G → Outcome (Progress G)
  ranked_priority jobs p = run_jobs cb (sort_by has_higher_priority jobs) (begin cb p)

  unfoldable pub long_tail : List JobWithNodes → Packed × G → Outcome (Progress G)
  long_tail jobs p = run_jobs cb (sort_by has_fewer_nodes jobs) (begin cb p)

  -- Fuel for every node and every job: enough, as each pass uses up a node or erases a job.
  unfoldable pub round_robin : List JobWithNodes → Packed × G → Outcome (Option (Progress G))
  round_robin jobs p = run_passes cb (size jobs) jobs (begin cb p)

  unfoldable pub randomized_priority :
      (ℕ → List JobWithNodes → ℕ) → List JobWithNodes → Packed × G → Outcome (Option (Progress G))
  randomized_priority pick jobs p = run_random cb pick (size jobs) jobs (begin cb p)
