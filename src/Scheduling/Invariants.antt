-- ===== src/Scheduling/Invariants.antt =====
-- What every attempt to run a task keeps, every policy keeps.
use bistro.Base.{
  ℕ, zero, suc, ◌≡◌, subst, true, false, some, List, [], ◌∷◌, ok, is_nil, if◌then◌else◌, >>=-eq-ok,
  ok-injective, Bool-cases, inl, inr, arith, or_fatal, get_elem?, set,
}
use bistro.Scheduling.{
  Node, JobWithNodes, Packed, TaskRunnerResponse, TaskRunnerCallback, ran_task, did_not_run_task,
  do_not_run_more_tasks, try_to_schedule,
}
use bistro.Scheduling.Policies.{
  Progress, with_nodes, run_all, run_jobs, run_one, run_pass, run_passes, run_random, erase_at,
  step_to,
}
use bistro.Scheduling.Needs.{AllNeeds, erase_at-AllNeeds, set-AllNeeds, get_elem?-AllNeeds}

-- The number of scheduled tasks after an attempt.
abbrev pub counted : TaskRunnerResponse → ℕ → ℕ
counted ran_task n = suc n
counted did_not_run_task n = n
counted do_not_run_more_tasks n = n

module _ {G : Type 0} (cb : TaskRunnerCallback G) (Inv : ℕ → Packed → G → Type 0)
    (Good : Packed → Type 0)
    (attempt : (node : Node) (j : JobWithNodes) (n : ℕ) (p p' : Packed) (g g' : G)
        (r : TaskRunnerResponse)
      → Good j.resources
      → Inv n p g
      → try_to_schedule node j cb (p, g) ≡ ok (r, p', g')
      → Inv (counted r n) p' g') where
  abbrev pub Holds : Progress G → Type 0
  Holds s = Inv s.scheduled s.packed s.owner

  pub run_all-Inv :
      (j : JobWithNodes) (ns : List Node) (s : Progress G) {s' : Progress G}
      → Good j.resources
      → Holds s
      → run_all cb j ns s ≡ ok s'
      → Holds s'
  unfolding run_all
  run_all-Inv j [] s good h e = subst Holds (ok-injective e) h
  run_all-Inv j (node ∷ rest) s {s'} good h e =
      let ((r, p, g), tried, e') =
        >>=-eq-ok (try_to_schedule node (with_nodes j (node ∷ rest)) cb (s.packed, s.owner)) _ e in
      go r p g
        (attempt node (with_nodes j (node ∷ rest)) s.scheduled s.packed p s.owner g r good h tried)
        e' (λ t k d. run_all-Inv j rest t good k d)
    where
      go :
          (r : TaskRunnerResponse) (p : Packed) (g : G)
          → Inv (counted r s.scheduled) p g
          → (elim r [
            | ran_task ↦ run_all cb j rest (step_to cb false (suc s.scheduled) (p, g))
            | did_not_run_task ↦ run_all cb j rest (step_to cb false s.scheduled (p, g))
            | do_not_run_more_tasks ↦ ok (step_to cb true s.scheduled (p, g))
          ])
            ≡ ok s'
          → ((t : Progress G) → Holds t → run_all cb j rest t ≡ ok s' → Holds s')
          → Holds s'
      go ran_task p g k e rec = rec (step_to cb false (suc s.scheduled) (p, g)) k e
      go did_not_run_task p g k e rec = rec (step_to cb false s.scheduled (p, g)) k e
      go do_not_run_more_tasks p g k e rec = subst Holds (ok-injective e) k

  pub run_one-Inv :
      (j : JobWithNodes) (ns : List Node) (s : Progress G) {r : List Node × Progress G}
      → Good j.resources
      → Holds s
      → run_one cb j ns s ≡ ok r
      → Holds r.1
  unfolding run_one
  run_one-Inv j [] s good h e = subst (λ q. Holds q.1) (ok-injective e) h
  run_one-Inv j (node ∷ rest) s {r = end} good h e =
      let ((r, p, g), tried, e') =
        >>=-eq-ok (try_to_schedule node (with_nodes j (node ∷ rest)) cb (s.packed, s.owner)) _ e in
      go r p g
        (attempt node (with_nodes j (node ∷ rest)) s.scheduled s.packed p s.owner g r good h tried)
        e' (λ t k d. run_one-Inv j rest t good k d)
    where
      go :
          (r : TaskRunnerResponse) (p : Packed) (g : G)
          → Inv (counted r s.scheduled) p g
          → (elim r [
            | ran_task ↦ ok (rest, step_to cb false (suc s.scheduled) (p, g))
            | did_not_run_task ↦ run_one cb j rest (step_to cb false s.scheduled (p, g))
            | do_not_run_more_tasks ↦ ok (rest, step_to cb true s.scheduled (p, g))
          ])
            ≡ ok end
          → ((t : Progress G) → Holds t → run_one cb j rest t ≡ ok end → Holds end.1)
          → Holds end.1
      go ran_task p g k e rec = subst (λ q. Holds q.1) (ok-injective e) k
      go did_not_run_task p g k e rec = rec (step_to cb false s.scheduled (p, g)) k e
      go do_not_run_more_tasks p g k e rec = subst (λ q. Holds q.1) (ok-injective e) k

  pub run_jobs-Inv :
      (js : List JobWithNodes) (s : Progress G) {s' : Progress G}
      → AllNeeds Good js
      → Holds s
      → run_jobs cb js s ≡ ok s'
      → Holds s'
  unfolding run_jobs AllNeeds
  run_jobs-Inv [] s a h e = subst Holds (ok-injective e) h
  run_jobs-Inv (j ∷ js) s a h e =
      let (t, ran, e') =
        >>=-eq-ok (run_all cb j j.nodes s) (λ t. if t.stopped then ok t else run_jobs cb js t) e in
      let k = run_all-Inv j j.nodes s a.0 h ran in
      elim (Bool-cases t.stopped) [
        | inl b ↦ subst Holds (ok-injective (rw (b) at e')) k
        | inr b ↦ run_jobs-Inv js t a.1 k (rw (b) at e')
      ]

  pub run_pass-Inv :
      (js : List JobWithNodes) (s : Progress G) {r : List JobWithNodes × Progress G}
      → AllNeeds Good js
      → Holds s
      → run_pass cb js s ≡ ok r
      → AllNeeds Good r.0 × Holds r.1
  unfolding run_pass AllNeeds
  run_pass-Inv [] s a h e = subst (λ q. AllNeeds Good q.0 × Holds q.1) (ok-injective e) (tt, h)
  run_pass-Inv (j ∷ js) s {r} a h e = elim (Bool-cases (is_nil j.nodes)) [
    | inl b ↦ run_pass-Inv js s a.1 h (rw (b) at e)
    | inr b ↦
        let ((rest, t), ran, e') = >>=-eq-ok (run_one cb j j.nodes s) _ (rw (b) at e) in
        let k = run_one-Inv j j.nodes s a.0 h ran in
        elim (Bool-cases t.stopped) [
          | inl c ↦ subst (λ q. AllNeeds Good q.0 × Holds q.1) (ok-injective (rw (c) at e')) (a, k)
          | inr c ↦
              let ((js', t'), passed, e'') = >>=-eq-ok (run_pass cb js t) _ (rw (c) at e') in
              let (later, held) = run_pass-Inv js t a.1 k passed in
              subst (λ q. AllNeeds Good q.0 × Holds q.1) (ok-injective e'') ((a.0, later), held)
        ]
  ]

  pub run_passes-Inv :
      (fuel : ℕ) (js : List JobWithNodes) (s s' : Progress G)
      → AllNeeds Good js
      → Holds s
      → run_passes cb fuel js s ≡ ok (some s')
      → Holds s'
  unfolding run_passes
  run_passes-Inv fuel [] s s' a h e = let same : s ≡ s' = ground arith in subst Holds same h
  run_passes-Inv zero (j ∷ js) s s' a h e = absurd (ground arith)
  run_passes-Inv (suc fuel) (j ∷ js) s s' a h e =
      let ((js', t), passed, e') = >>=-eq-ok (run_pass cb (j ∷ js) s) _ e in
      let (later, k) = run_pass-Inv (j ∷ js) s a h passed in
      elim (Bool-cases t.stopped) [
        | inl b ↦ let same : t ≡ s' = ground arith in subst Holds same k
        | inr b ↦ run_passes-Inv fuel js' t s' later k (rw (b) at e')
      ]

  pub run_random-Inv :
      (pick : ℕ → List JobWithNodes → ℕ) (fuel : ℕ) (js : List JobWithNodes) (s s' : Progress G)
      → AllNeeds Good js
      → Holds s
      → run_random cb pick fuel js s ≡ ok (some s')
      → Holds s'
  unfolding run_random
  run_random-Inv pick fuel [] s s' a h e = let same : s ≡ s' = ground arith in subst Holds same h
  run_random-Inv pick zero (j ∷ js) s s' a h e = absurd (ground arith)
  run_random-Inv pick (suc fuel) (j ∷ js) s s' a h e =
      let i = pick fuel (j ∷ js) in
      let (jwn, picked, e') = >>=-eq-ok (or_fatal (get_elem? (j ∷ js) i)) _ e in
      elim (Bool-cases (is_nil jwn.nodes)) [
        | inl b ↦
            run_random-Inv pick fuel (erase_at i (j ∷ js)) s s'
              (erase_at-AllNeeds Good i (j ∷ js) a) h (rw (b) at e')
        | inr b ↦
            let ((rest, t), ran, e'') = >>=-eq-ok (run_one cb jwn jwn.nodes s) _ (rw (b) at e') in
            let needs = get_elem?-AllNeeds Good (j ∷ js) i jwn a picked in
            let k = run_one-Inv jwn jwn.nodes s needs h ran in
            elim (Bool-cases t.stopped) [
              | inl c ↦ let same : t ≡ s' = ground arith in subst Holds same k
              | inr c ↦
                  run_random-Inv pick fuel (set (j ∷ js) i (with_nodes jwn rest)) t s'
                    (set-AllNeeds Good (j ∷ js) i (with_nodes jwn rest) needs a) k (rw (c) at e'')
            ]
      ]
