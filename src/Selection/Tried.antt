-- ===== src/Selection/Tried.antt =====
-- What a round of findWorker says of the shards that it tried, in terms of its visits.
use bistro.Base.{
  ℕ, String, Bool, true, ◌||◌, ◌≡◌, ◌⊎◌, refl, sym, ap, subst, ◌∙◌, Option, none, some, List, [],
  ◌∷◌, AssocMap, contains, same, same_refl, string_eq, Outcome, ok, >>=-eq-ok, ok-injective,
  if◌then◌else◌, inl, inr, Bool-cases, arith,
}
use bistro.Worker.{RemoteWorker}
use bistro.Scheduling.{TaskRunnerResponse}
use bistro.Filters.{Platform}
use bistro.Jobs.{Job}
use bistro.Pools.{RoundRobinWorkerPool}
use bistro.Selection.{WorkerResources, Selected, visit, worker_of, give_up, select}
use bistro.Selection.FirstFit.{first_fit, fit_at}

module _ {D R : Type 0} (p : Platform D R) (job : Job D R) (worker_level : ℕ)
    (workers : AssocMap String RemoteWorker) (resources : WorkerResources) where
  abbrev pub visited : String → Outcome (Bool × Option WorkerResources)
  visited s = visit p job worker_level workers s resources

  -- The visit that ends the search.
  pub record IsFoundBy (shards : List String) (r : Selected) : Type 0 where
    pub shard : String
    pub is_member : contains shard shards ≡ true
    pub healthy : Bool
    pub fits : visited shard ≡ ok (healthy, some r.worker_resources)
    pub is_found : r.found ≡ worker_of workers shard
    pub has_run : r.response ≡ TaskRunnerResponse.ran_task

  -- The same after other shards were tried, one of them healthy if `before` says so.
  pub record IsRefusedAfter (before : Bool) (shards : List String) (saw : Bool) (r : Selected)
      : Type 0 where
    pub untouched : r.worker_resources ≡ resources
    pub not_found : r.found ≡ none
    pub not_run : r.response ≡ (
        if saw
        then TaskRunnerResponse.did_not_run_task
        else TaskRunnerResponse.do_not_run_more_tasks)
    pub kept : before ≡ true → saw ≡ true
    pub refused :
        (s : String)
        → contains s shards ≡ true
        → (h : Bool) × (visited s ≡ ok (h, none)) × (h ≡ true → saw ≡ true)
    pub seen :
        saw ≡ true
        → (before ≡ true)
          ⊎ ((s : String) × (contains s shards ≡ true) × (visited s ≡ ok (true, none)))

  IsFoundBy-later :
      (x : String) {shards : List String} {r : Selected}
      → IsFoundBy shards r
      → IsFoundBy (x ∷ shards) r
  IsFoundBy-later x {shards = shards} f = record {
    shard = f.shard;
    is_member = ground (arith, f.is_member);
    healthy = f.healthy;
    fits = f.fits;
    is_found = f.is_found;
    has_run = f.has_run;
  }

  refused_first :
      (x : String) (h : Bool) (before : Bool) (shards : List String) (saw : Bool) {r : Selected}
      → visited x ≡ ok (h, none)
      → IsRefusedAfter (before || h) shards saw r
      → IsRefusedAfter before (x ∷ shards) saw r
  refused_first x h before shards saw {r = r} e t = record {
    untouched = t.untouched;
    not_found = t.not_found;
    not_run = t.not_run;
    kept = λ b. t.kept (ground arith);
    refused = λ s m. elim (Bool-cases (same x s)) [
      | inl q ↦ (h, ap visited (sym ((string_eq.beq_iff x s).0 q)) ∙ e, λ k. t.kept (ground arith))
      | inr q ↦ t.refused s (ground arith)
    ];
    seen = λ b. elim (t.seen b) [
      | inr (s, m, v) ↦ inr (s, ground arith, v)
      | inl o ↦ elim (Bool-cases before) [
        | inl y ↦ inl y
        | inr n ↦ inr (x, ground (arith, same_refl x), e ∙ ap (λ k. ok (k, none)) (ground arith))
      ]
    ];
  }

  IsFoundBy-here :
      (x : String) (pool : RoundRobinWorkerPool) (healthy : Bool) (left : WorkerResources)
      (shards : List String)
      → visited x ≡ ok (healthy, some left)
      → IsFoundBy (x ∷ shards) (select workers x pool left)
  unfolding select
  IsFoundBy-here x pool healthy left shards e = record {
    shard = x;
    is_member = ground (arith, same_refl x);
    healthy = healthy;
    fits = e;
    is_found = refl;
    has_run = refl;
  }

  pub first_fit-answers :
      (after : String → RoundRobinWorkerPool) (end : RoundRobinWorkerPool) (shards : List String)
      (before : Bool) {r : Selected}
      → first_fit p job worker_level workers after end shards before resources ≡ ok r
      → IsFoundBy shards r ⊎ ((saw : Bool) × IsRefusedAfter before shards saw r)
  unfolding first_fit give_up select
  first_fit-answers after end [] before {r = r} h =
      let e = ok-injective h in
      inr (
        before,
        record {
          untouched = ap (λ q. q.worker_resources) (sym e);
          not_found = ap (λ q. q.found) (sym e);
          not_run = ap (λ q. q.response) (sym e);
          kept = λ b. b;
          refused = λ s m. absurd (ground (arith, m));
          seen = λ b. inl b;
        },
      )
  first_fit-answers after end (x ∷ shards) before {r = r} h =
      let (o, e, k) = >>=-eq-ok (visited x) _ h in
      answered o e k (λ saw. first_fit-answers after end shards saw)
    where
      answered :
          (o : Bool × Option WorkerResources)
          → visited x ≡ ok o
          → fit_at workers x
              (after x)
              before
              (λ saw'. first_fit p job worker_level workers after end shards saw' resources)
              o
            ≡ ok r
          → ((saw : Bool)
              → first_fit p job worker_level workers after end shards saw resources ≡ ok r
              → IsFoundBy shards r ⊎ ((saw' : Bool) × IsRefusedAfter saw shards saw' r))
          → IsFoundBy (x ∷ shards) r ⊎ ((saw : Bool) × IsRefusedAfter before (x ∷ shards) saw r)
      answered (healthy, some left) e k go_on = inl (
          subst (IsFoundBy (x ∷ shards)) (ok-injective k)
            (IsFoundBy-here x (after x) healthy left shards e))
      answered (healthy, none) e k go_on = elim (go_on (before || healthy) k) [
        | inl f ↦ inl (IsFoundBy-later x f)
        | inr (saw, t) ↦ inr (saw, refused_first x healthy before shards saw e t)
      ]
