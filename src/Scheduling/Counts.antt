-- ===== src/Scheduling/Counts.antt =====
-- What the policies return: no resource is overdrawn, and the count is that of the tasks that ran.
use bistro.Base.{ℕ, ◌+◌, ◌≡◌, refl, List, ok, some, arith, inl, inr}
use bistro.Scheduling.{
  Node, JobWithNodes, Packed, TaskRunnerResponse, TaskRunnerCallback, ran_task, did_not_run_task,
  do_not_run_more_tasks, try_to_schedule,
}
use bistro.Scheduling.Policies.{
  Progress, ranked_priority, long_tail, round_robin, randomized_priority, sort_by,
  has_higher_priority, has_fewer_nodes, size, begin,
}
use bistro.Scheduling.Invariants.{counted, run_jobs-Inv, run_passes-Inv, run_random-Inv}
use bistro.Scheduling.Needs.{AllNeeds, AllNeeds-Unit, sort_by-AllNeeds}
use bistro.Scheduling.Amounts.{IsNeeding}
use bistro.Scheduling.Resources.{IsNonneg, try_to_schedule-cases, try_to_schedule-IsNonneg}

counted-add : (r : TaskRunnerResponse) (n m : ℕ) → counted r (n + m) ≡ counted r n + m
counted-add ran_task n m = omega arith
counted-add did_not_run_task n m = refl
counted-add do_not_run_more_tasks n m = refl

module _ {G : Type 0} (cb : TaskRunnerCallback G) (jobs : List JobWithNodes)
    (pick : ℕ → List JobWithNodes → ℕ) (p : Packed) (g : G) (end : Progress G) where
  -- The four ways to schedule, each with its end.
  pub data IsScheduled : Type 0 where
    by_rank : ranked_priority cb jobs (p, g) ≡ ok end → IsScheduled
    by_tail : long_tail cb jobs (p, g) ≡ ok end → IsScheduled
    by_round : round_robin cb jobs (p, g) ≡ ok (some end) → IsScheduled
    by_chance : randomized_priority cb pick jobs (p, g) ≡ ok (some end) → IsScheduled

  -- What holds at the start and is kept by every attempt holds at the end.
  IsScheduled-Inv :
      (Inv : ℕ → Packed → G → Type 0) (Good : Packed → Type 0)
      → AllNeeds Good jobs
      → ((node : Node) (j : JobWithNodes) (n : ℕ) (q q' : Packed) (k k' : G)
            (r : TaskRunnerResponse)
          → Good j.resources
          → Inv n q k
          → try_to_schedule node j cb (q, k) ≡ ok (r, q', k')
          → Inv (counted r n) q' k')
      → Inv 0 p g
      → IsScheduled
      → Inv end.scheduled end.packed end.owner
  unfolding ranked_priority long_tail round_robin randomized_priority
  IsScheduled-Inv Inv Good a attempt h (by_rank e) =
      run_jobs-Inv cb Inv Good attempt (sort_by has_higher_priority jobs) (begin cb (p, g))
        (sort_by-AllNeeds Good has_higher_priority jobs a) h e
  IsScheduled-Inv Inv Good a attempt h (by_tail e) =
      run_jobs-Inv cb Inv Good attempt (sort_by has_fewer_nodes jobs) (begin cb (p, g))
        (sort_by-AllNeeds Good has_fewer_nodes jobs a) h e
  IsScheduled-Inv Inv Good a attempt h (by_round e) =
      run_passes-Inv cb Inv Good attempt (size jobs) jobs (begin cb (p, g)) end a h e
  IsScheduled-Inv Inv Good a attempt h (by_chance e) =
      run_random-Inv cb Inv Good attempt pick (size jobs) jobs (begin cb (p, g)) end a h e

  -- If no job needs a negative amount, and the resources are ints of which none is overdrawn before,
  -- none is overdrawn after any of the four policies has scheduled its tasks, whatever the
  -- runner answers.
  pub IsScheduled-IsNonneg :
      AllNeeds IsNeeding jobs → IsNonneg p → IsScheduled → IsNonneg end.packed
  IsScheduled-IsNonneg a h s =
      IsScheduled-Inv (λ n q k. IsNonneg q) IsNeeding a
        (λ node j n q q' k k' r needs i e. try_to_schedule-IsNonneg node j cb q q' k k' r needs i e)
        h s

  -- The number that a policy returns is that of the tasks that the runner started, for every count of
  -- them that the runner keeps.
  pub IsScheduled-count :
      (started : G → ℕ)
      → ((j : JobWithNodes) (node : Node) (k k' : G) (r : TaskRunnerResponse)
          → cb j node k ≡ ok (r, k')
          → started k' ≡ counted r (started k))
      → IsScheduled
      → started end.owner ≡ end.scheduled + started g
  IsScheduled-count started counts s =
      IsScheduled-Inv (λ n q k. started k ≡ n + started g) (λ _. Unit) (AllNeeds-Unit jobs)
        (λ node j n q q' k k' r u i e. elim (try_to_schedule-cases node j cb q q' k k' r e) [
          | inl (same_response, _, same_owner) ↦ ground (arith, i)
          | inr (us, _, called, _, _) ↦ ground (
            arith,
            i,
            counts j node k k' r called,
            counted-add r (started k) (started g),
            counted-add r n (started g),
          )
        ])
        (omega arith) s
