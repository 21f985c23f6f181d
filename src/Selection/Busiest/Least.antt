-- ===== src/Selection/Busiest/Least.antt =====
-- The worker that the busiest selector finds is left with the least weight.
use mathlib.Core.Option.{some_inj}
use bistro.Base.{
  ℕ, String, Bool, true, false, ◌≡◌, ◌⊎◌, refl, sym, ap, subst, ◌∙◌, Option, none, some, List, [],
  ◌∷◌, AssocMap, contains, same, string_eq, Outcome, ok, or_fatal, find, >>=-eq-ok, ok-injective,
  inl, inr, Bool-cases, Option-cases, arith,
}
use bistro.Base.Int.{ℤ, ltb_ℤ, ◌≤ℤ◌}
use bistro.Thrift.{BistroWorker}
use bistro.Worker.{RemoteWorker}
use bistro.Scheduling.{TaskRunnerResponse}
use bistro.Filters.{Platform}
use bistro.Jobs.{Job}
use bistro.Selection.{WorkerResources, worker_of}
use bistro.Selection.Busiest.{
  ResourceConfig, Busiest, int_max, weight_of, compare_weight, find_busiest, take_all, find_worker,
}

compare_weight-le :
    (s : String) (best : Busiest) (o : Bool × Option ℤ)
    → ((compare_weight s best o).least_weight ≤ℤ best.least_weight)
      × ((w : ℤ) → o.1 ≡ some w → (compare_weight s best o).least_weight ≤ℤ w)
unfolding compare_weight
compare_weight-le s best (seen, none) = (omega arith, λ w e. cc)
compare_weight-le s best (seen, some v) = (
  ground arith,
  λ w e.
      subst (λ x. (compare_weight s best (seen, some v)).least_weight ≤ℤ x) (some_inj.0 e)
        (ground arith),
)

-- The best worker so far, or the one that is compared, with its weight.
compare_weight-eq :
    (s t : String) (best : Busiest) (o : Bool × Option ℤ)
    → (compare_weight s best o).busiest_worker ≡ some t
    → (best.busiest_worker ≡ some t) × ((compare_weight s best o).least_weight ≡ best.least_weight)
      ⊎ (s ≡ t) × (o.1 ≡ some (compare_weight s best o).least_weight)
unfolding compare_weight
compare_weight-eq s t best (seen, none) e = inl (e, refl)
compare_weight-eq s t best (seen, some v) e = elim (Bool-cases (ltb_ℤ v best.least_weight)) [
  | inl q ↦ inr (some_inj.0 (rw (q) at e), rw (q) refl)
  | inr q ↦ inl (rw (q) at e, rw (q) refl)
]

module _ {D R : Type 0} (p : Platform D R) (config : ResourceConfig) (job : Job D R)
    (worker_level : ℕ) (workers : AssocMap String RemoteWorker) (resources : WorkerResources) where
  abbrev weighed : String → Outcome (Bool × Option ℤ)
  weighed = weight_of p config job worker_level workers resources

  find_busiest-le :
      (shards : List String) (best : Busiest) {best' : Busiest}
      → find_busiest p config job worker_level workers resources shards best ≡ ok best'
      → (best'.least_weight ≤ℤ best.least_weight)
        × ((s : String) (h : Bool) (w : ℤ)
            → contains s shards ≡ true
            → weighed s ≡ ok (h, some w)
            → best'.least_weight ≤ℤ w)
  unfolding find_busiest
  find_busiest-le [] best {best' = best'} e = (
    subst (λ b. b.least_weight ≤ℤ best.least_weight) (ok-injective e) (omega arith),
    λ s h w m. absurd (ground (arith, m)),
  )
  find_busiest-le (x ∷ shards) best {best' = best'} e =
      let (o, f, k) = >>=-eq-ok (weighed x) _ e in
      let (lower, all) = find_busiest-le shards (compare_weight x best o) k in
      let (step, here) = compare_weight-le x best o in
      (
        omega arith,
        λ s h w m g. elim (Bool-cases (same x s)) [
          | inl q ↦
              let same_weight : o.1 ≡ some w =
                ap (λ r. r.1)
                  (ok-injective (sym f ∙ ap weighed ((string_eq.beq_iff x s).0 q) ∙ g)) in
              let below = here w same_weight in omega arith
          | inr q ↦ all s h w (ground arith) g
        ],
      )

  find_busiest-eq :
      (shards : List String) (best : Busiest) (t : String) {best' : Busiest}
      → find_busiest p config job worker_level workers resources shards best ≡ ok best'
      → best'.busiest_worker ≡ some t
      → ((best.busiest_worker ≡ some t) × (best'.least_weight ≡ best.least_weight))
        ⊎ ((h : Bool) × (contains t shards ≡ true) × (weighed t ≡ ok (h, some best'.least_weight)))
  unfolding find_busiest
  find_busiest-eq [] best t e b = inl (
    ap (λ r. r.busiest_worker) (ok-injective e) ∙ b,
    ap (λ r. r.least_weight) (sym (ok-injective e)),
  )
  find_busiest-eq (x ∷ shards) best t e b =
      let (o, f, k) = >>=-eq-ok (weighed x) _ e in
      elim (find_busiest-eq shards (compare_weight x best o) t k b) [
        | inr (h, m, g) ↦ inr (h, ground arith, g)
        | inl (c, l) ↦ elim (compare_weight-eq x t best o c) [
          | inl (c', l') ↦ inl (c', l ∙ l')
          | inr (q, v) ↦ inr (
            o.0,
            ground (arith, (string_eq.beq_iff x t).1 q),
            ap weighed (sym q) ∙ f ∙ ap (λ y. ok (o.0, y)) (v ∙ ap some (sym l)),
          )
        ]
      ]

  pub record IsLeast (pool : List String) (found : Option (BistroWorker × ℤ)) : Type 0 where
    pub shard : String
    pub weight : ℤ
    pub is_seen : Bool
    pub is_member : contains shard pool ≡ true
    pub is_weighed : weighed shard ≡ ok (is_seen, some weight)
    pub is_found : found ≡ worker_of workers shard
    pub is_least :
        (s : String) (h : Bool) (w : ℤ)
        → contains s pool ≡ true
        → weighed s ≡ ok (h, some w)
        → weight ≤ℤ w

  -- If findWorker runs the task, then on a worker of the pool on which it fits, and on no other on
  -- which it fits does it leave less weight.
  pub find_worker-IsLeast :
      (pool : List String) {found : Option (BistroWorker × ℤ)} {left : WorkerResources}
      → find_worker p config job worker_level workers resources pool
        ≡ ok (TaskRunnerResponse.ran_task, found, left)
      → IsLeast pool found
  unfolding find_worker
  find_worker-IsLeast pool {found = found} {left = left} h =
      let none_yet : Busiest = record {
        least_weight = int_max;
        busiest_worker = none;
        saw_healthy_worker = false;
      } in
      let (best, e, k) =
        >>=-eq-ok (find_busiest p config job worker_level workers resources pool none_yet) _ h in
      elim (Option-cases best.busiest_worker) [
        | inl q ↦ elim (Bool-cases best.saw_healthy_worker) [
          | inl y ↦ absurd (ground (arith, rw (q, y) at k))
          | inr y ↦ absurd (ground (arith, rw (q, y) at k))
        ]
        | inr (s, q) ↦
            let (amounts, f, l) = >>=-eq-ok (or_fatal (find s resources)) _ (rw (q) at k) in
            let (rest, g, m) =
              >>=-eq-ok (take_all config.worker_resource_ids job.resources amounts) _ l in
            elim (find_busiest-eq pool none_yet s e q) [
              | inl o ↦ cc
              | inr (seen, member, weight) ↦ record {
                shard = s;
                weight = best.least_weight;
                is_seen = seen;
                is_member = member;
                is_weighed = weight;
                is_found = ap (λ r. r.1) (sym (ok-injective m));
                is_least = (find_busiest-le pool none_yet e).1;
              }
            ]
      ]
