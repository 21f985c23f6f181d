-- ===== src/Selection/Visits.antt =====
-- What a visit of the round-robin findWorker finds out about one worker.
use mathlib.Core.Option.{some_inj}
use bistro.Base.{
  ℕ, String, Bool, true, false, ◌≡◌, ◌⊎◌, refl, sym, ap, subst, ◌∙◌, Option, none, some, List, [],
  ◌∷◌, AssocMap, find, assign, string_eq, ok, or_fatal, >>=-eq-ok, ok-injective, inl, inr,
  Bool-cases, Option-cases, arith,
}
use bistro.Base.Int.{ℤ, pos, neg_part, ltb_ℤ, ◌-ℤ◌}
use bistro.Base.Word.{to_i32}
use bistro.Worker.{RemoteWorker, is_healthy}
use bistro.Filters.{Platform}
use bistro.Jobs.{Job}
use bistro.Selection.{WorkerResources, take_resources, job_can_run_on_worker, try_to_run, visit}

-- Each amount less what is needed of it, all of which are there.
unfoldable pub IsTaken : List ℤ → List ℤ → List ℤ → Type 0
IsTaken [] needs left = left ≡ []
IsTaken (a ∷ amounts) (n ∷ needs) (l ∷ left) =
    (l ≡ to_i32 (a -ℤ n)) × (neg_part l ≡ 0) × IsTaken amounts needs left
IsTaken _ _ _ = ⊥

-- One of the amounts does not suffice.
unfoldable pub IsShort : List ℤ → List ℤ → Type 0
IsShort (a ∷ amounts) (n ∷ needs) = (ltb_ℤ (to_i32 (a -ℤ n)) (pos 0) ≡ true) ⊎ IsShort amounts needs
IsShort _ _ = ⊥

take_resources-cases :
    (amounts needs : List ℤ) (r : Option (List ℤ))
    → take_resources amounts needs ≡ ok r
    → ((left : List ℤ) × (r ≡ some left) × IsTaken amounts needs left)
      ⊎ ((r ≡ none) × IsShort amounts needs)
unfolding take_resources IsTaken IsShort
take_resources-cases [] needs r e = inl ([], sym (ok-injective e), refl)
take_resources-cases (a ∷ amounts) [] r e = absurd (ground arith)
take_resources-cases (a ∷ amounts) (n ∷ needs) r e =
    elim (Bool-cases (ltb_ℤ (to_i32 (a -ℤ n)) (pos 0))) [
      | inl t ↦ inr (sym (ok-injective (rw (t) at e)), inl t)
      | inr t ↦
          let (others, taken, rest) = >>=-eq-ok (take_resources amounts needs) _ (rw (t) at e) in
          elim (take_resources-cases amounts needs others taken) [
            | inr (o, short) ↦ inr (sym (ok-injective (rw (o) at rest)), inr short)
            | inl (left, o, is_taken) ↦ inl (
              to_i32 (a -ℤ n) ∷ left,
              sym (ok-injective (rw (o) at rest)),
              (refl, ground arith, is_taken),
            )
          ]
    ]

module _ {D R : Type 0} (p : Platform D R) (job : Job D R) (worker_level : ℕ)
    (workers : AssocMap String RemoteWorker) (resources : WorkerResources) where
  -- The job passes the worker's filters and finds its resources there, and this is what is left.
  pub record Fits (w : RemoteWorker) (left : WorkerResources) : Type 0 where
    pub can_run : job_can_run_on_worker p job worker_level w.worker ≡ ok true
    pub amounts : List ℤ
    pub has_amounts : find w.worker.shard resources ≡ some amounts
    pub rest : List ℤ
    pub is_taken : IsTaken amounts job.resources rest
    pub is_left : left ≡ assign w.worker.shard rest resources

  -- The job does not pass the worker's filters, or the worker has no resources, or too few.
  pub data Lacks (w : RemoteWorker) : Type 0 where
    is_filtered : job_can_run_on_worker p job worker_level w.worker ≡ ok false → Lacks w
    is_unknown : find w.worker.shard resources ≡ none → Lacks w
    is_short :
        (amounts : List ℤ)
        → find w.worker.shard resources ≡ some amounts
        → IsShort amounts job.resources
        → Lacks w

  try_to_run-cases :
      (w : RemoteWorker) (r : Option WorkerResources)
      → try_to_run p job worker_level w.worker resources ≡ ok r
      → ((left : WorkerResources) × (r ≡ some left) × Fits w left) ⊎ ((r ≡ none) × Lacks w)
  unfolding try_to_run
  try_to_run-cases w r e =
      let (can, ran, e1) = >>=-eq-ok (job_can_run_on_worker p job worker_level w.worker) _ e in
      elim (Bool-cases can) [
        | inr c ↦ inr (sym (ok-injective (rw (c) at e1)), Lacks.is_filtered (ran ∙ ap ok c))
        | inl c ↦ elim (Option-cases (find w.worker.shard resources)) [
          | inl n ↦ inr (sym (ok-injective (rw (c, n) at e1)), Lacks.is_unknown n)
          | inr (amounts, n) ↦
              let (left, taken, e2) =
                >>=-eq-ok (take_resources amounts job.resources) _ (rw (c, n) at e1) in
              elim (take_resources-cases amounts job.resources left taken) [
                | inr (o, short) ↦
                    inr (sym (ok-injective (rw (o) at e2)), Lacks.is_short amounts n short)
                | inl (rest, o, is_taken) ↦ inl (
                  assign w.worker.shard rest resources,
                  sym (ok-injective (rw (o) at e2)),
                  record {
                    can_run = ran ∙ ap ok c;
                    amounts = amounts;
                    has_amounts = n;
                    rest = rest;
                    is_taken = is_taken;
                    is_left = refl;
                  },
                )
              ]
        ]
      ]

  -- A worker of the shard, healthy or not.
  abbrev pub IsWorker : String → RemoteWorker → Bool → Type 0
  IsWorker s w h = (find s workers ≡ some w) × (is_healthy w ≡ h)

  visit-parts :
      (s : String) (h : Bool) (r : Option WorkerResources)
      → visit p job worker_level workers s resources ≡ ok (h, r)
      → (w : RemoteWorker) × IsWorker s w h
        × (h ≡ true → try_to_run p job worker_level w.worker resources ≡ ok r)
        × (h ≡ false → r ≡ none)
  unfolding visit
  visit-parts s h r e =
      let (w, found, e1) = >>=-eq-ok (or_fatal (find s workers)) _ e in
      let is_there : find s workers ≡ some w = ground arith in
      elim (Bool-cases (is_healthy w)) [
        | inr t ↦ (w, (is_there, ground arith), (λ y. absurd (ground arith)), λ n. ground arith)
        | inl t ↦
            let (left, tried, e2) =
              >>=-eq-ok (try_to_run p job worker_level w.worker resources) _ (rw (t) at e1) in
            (
              w,
              (is_there, ground arith),
              (λ y. tried ∙ ap ok (ground arith)),
              λ n. absurd (ground arith),
            )
      ]

  pub visit-Fits :
      (s : String) (h : Bool) (left : WorkerResources)
      → visit p job worker_level workers s resources ≡ ok (h, some left)
      → (w : RemoteWorker) × IsWorker s w true × Fits w left
  visit-Fits s h left e =
      let (w, (found, health), tried, skipped) = visit-parts s h (some left) e in
      elim (Bool-cases h) [
        | inr n ↦ absurd (ground (arith, skipped n))
        | inl y ↦ elim (try_to_run-cases w (some left) (tried y)) [
          | inr (o, _) ↦ absurd (ground (arith, o))
          | inl (left', o, fits) ↦
              (w, (found, health ∙ y), subst (Fits w) (sym (some_inj.0 o)) fits)
        ]
      ]

  pub visit-Lacks :
      (s : String) (h : Bool)
      → visit p job worker_level workers s resources ≡ ok (h, none)
      → (w : RemoteWorker) × IsWorker s w h × (h ≡ true → Lacks w)
  visit-Lacks s h e =
      let (w, known, tried, _) = visit-parts s h none e in
      (
        w,
        known,
        λ y. elim (try_to_run-cases w none (tried y)) [
          | inl (left, o, _) ↦ absurd (ground (arith, o))
          | inr (_, lacks) ↦ lacks
        ],
      )
