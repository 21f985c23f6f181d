-- ===== src/Scheduling/Rounds.antt =====
-- The loops of the round-robin and the randomized policies end.
use bistro.Base.{
  ℕ, zero, suc, ◌+◌, ◌-◌, ◌≤◌, ◌<◌, ◌≡◌, ◌≢◌, ap, subst, true, false, none, some, List, [], ◌∷◌, ok,
  is_nil, length, >>=-eq-ok, ok-injective, Bool-cases, inl, inr, arith, or_fatal, get_elem?, set,
}
use bistro.Scheduling.{
  Node, JobWithNodes, Packed, TaskRunnerResponse, TaskRunnerCallback, ran_task, did_not_run_task,
  do_not_run_more_tasks, try_to_schedule,
}
use bistro.Scheduling.Policies.{
  Progress, with_nodes, run_one, run_pass, run_passes, run_random, erase_at, step_to, round_robin,
  randomized_priority, size, begin,
}

module _ {G : Type 0} (cb : TaskRunnerCallback G) where
  -- A job's turn uses up nodes.
  run_one-shorter :
      (j : JobWithNodes) (ns : List Node) (s : Progress G) {r : List Node × Progress G}
      → run_one cb j ns s ≡ ok r
      → length r.0 ≤ length ns - 1
  unfolding run_one
  run_one-shorter j [] s e = subst (λ q. length q.0 ≤ 0 - 1) (ok-injective e) (omega arith)
  run_one-shorter j (node ∷ rest) s {r = end} e =
      let ((r, p, g), tried, e') =
        >>=-eq-ok (try_to_schedule node (with_nodes j (node ∷ rest)) cb (s.packed, s.owner)) _ e in
      go r p g e' (λ t d. run_one-shorter j rest t d)
    where
      go :
          (r : TaskRunnerResponse) (p : Packed) (g : G)
          → (elim r [
            | ran_task ↦ ok (rest, step_to cb false (suc s.scheduled) (p, g))
            | did_not_run_task ↦ run_one cb j rest (step_to cb false s.scheduled (p, g))
            | do_not_run_more_tasks ↦ ok (rest, step_to cb true s.scheduled (p, g))
          ])
            ≡ ok end
          → ((t : Progress G) → run_one cb j rest t ≡ ok end → length end.0 ≤ length rest - 1)
          → length end.0 ≤ suc (length rest) - 1
      go ran_task p g e rec =
          subst (λ q. length q.0 ≤ suc (length rest) - 1) (ok-injective e) (omega arith)
      go did_not_run_task p g e rec =
          let h = rec (step_to cb false s.scheduled (p, g)) e in omega arith
      go do_not_run_more_tasks p g e rec =
          subst (λ q. length q.0 ≤ suc (length rest) - 1) (ok-injective e) (omega arith)

  nonempty : (ns : List Node) → is_nil ns ≡ false → ◌<◌ 0 (length ns)
  nonempty [] e = absurd (ground arith)
  nonempty (n ∷ ns) e = omega arith

  -- A pass uses up a node or erases a job.
  run_pass-smaller :
      (js : List JobWithNodes) (s : Progress G) {r : List JobWithNodes × Progress G}
      → run_pass cb js s ≡ ok r
      → size r.0 ≤ size js - 1
  unfolding run_pass size
  run_pass-smaller [] s e = subst (λ q. size q.0 ≤ 0 - 1) (ok-injective e) (omega arith)
  run_pass-smaller (j ∷ js) s {r} e = elim (Bool-cases (is_nil j.nodes)) [
    | inl b ↦ let h = run_pass-smaller js s (rw (b) at e) in omega arith
    | inr b ↦
        let ((rest, t), ran, e') = >>=-eq-ok (run_one cb j j.nodes s) _ (rw (b) at e) in
        let used = run_one-shorter j j.nodes s ran in
        let some_nodes = nonempty j.nodes b in
        elim (Bool-cases t.stopped) [
          | inl c ↦
              subst (λ q. size q.0 ≤ suc (length j.nodes + size js) - 1)
                (ok-injective (rw (c) at e')) (omega arith)
          | inr c ↦
              let ((js', t'), passed, e'') = >>=-eq-ok (run_pass cb js t) _ (rw (c) at e') in
              let h = run_pass-smaller js t passed in
              subst (λ q. size q.0 ≤ suc (length j.nodes + size js) - 1) (ok-injective e'')
                (omega arith)
        ]
  ]

  run_passes-total :
      (fuel : ℕ) (js : List JobWithNodes) (s : Progress G)
      → size js ≤ fuel
      → run_passes cb fuel js s ≢ ok none
  unfolding run_passes size
  run_passes-total fuel [] s h e = ground arith
  run_passes-total zero (j ∷ js) s h e = absurd (omega arith)
  run_passes-total (suc fuel) (j ∷ js) s h e =
      let ((js', t), passed, e') = >>=-eq-ok (run_pass cb (j ∷ js) s) _ e in
      let less = run_pass-smaller (j ∷ js) s passed in
      elim (Bool-cases t.stopped) [
        | inl b ↦ ground arith
        | inr b ↦ run_passes-total fuel js' t (omega arith) (rw (b) at e')
      ]

get_elem?-size :
    (i : ℕ) (js : List JobWithNodes) {j : JobWithNodes} → get_elem? js i ≡ some j → ◌<◌ 0 (size js)
unfolding size
get_elem?-size i [] e = absurd (ground arith)
get_elem?-size i (k ∷ js) e = omega arith

erase_at-smaller :
    (i : ℕ) (js : List JobWithNodes) (j : JobWithNodes)
    → get_elem? js i ≡ some j
    → size (erase_at i js) ≤ size js - 1
unfolding erase_at size
erase_at-smaller i [] j e = absurd (ground arith)
erase_at-smaller zero (k ∷ js) j e = omega arith
erase_at-smaller (suc i) (k ∷ js) j e =
    let h = erase_at-smaller i js j e in let some_job = get_elem?-size i js e in omega arith

set-smaller :
    (i : ℕ) (js : List JobWithNodes) (j : JobWithNodes) (rest : List Node)
    → get_elem? js i ≡ some j
    → length rest < length j.nodes
    → size (set js i (with_nodes j rest)) < size js
unfolding size
set-smaller i [] j rest e h = absurd (ground arith)
set-smaller zero (k ∷ js) j rest e h =
    let same : k ≡ j = ground arith in
    let nodes : length k.nodes ≡ length j.nodes = ap (λ v. length v.nodes) same in omega arith
set-smaller (suc i) (k ∷ js) j rest e h = let less = set-smaller i js j rest e h in omega arith

module _ {G : Type 0} (cb : TaskRunnerCallback G) where
  run_random-total :
      (pick : ℕ → List JobWithNodes → ℕ) (fuel : ℕ) (js : List JobWithNodes) (s : Progress G)
      → size js ≤ fuel
      → run_random cb pick fuel js s ≢ ok none
  unfolding run_random size
  run_random-total pick fuel [] s h e = ground arith
  run_random-total pick zero (j ∷ js) s h e = absurd (omega arith)
  run_random-total pick (suc fuel) (j ∷ js) s h e =
      let i = pick fuel (j ∷ js) in
      let (jwn, picked, e') = >>=-eq-ok (or_fatal (get_elem? (j ∷ js) i)) _ e in
      let there : get_elem? (j ∷ js) i ≡ some jwn = ground arith in
      elim (Bool-cases (is_nil jwn.nodes)) [
        | inl b ↦
            let less = erase_at-smaller i (j ∷ js) jwn there in
            run_random-total pick fuel (erase_at i (j ∷ js)) s (omega arith) (rw (b) at e')
        | inr b ↦
            let ((rest, t), ran, e'') = >>=-eq-ok (run_one cb jwn jwn.nodes s) _ (rw (b) at e') in
            let used = run_one-shorter cb jwn jwn.nodes s ran in
            let some_nodes = nonempty cb jwn.nodes b in
            let less = set-smaller i (j ∷ js) jwn rest there (omega arith) in
            elim (Bool-cases t.stopped) [
              | inl c ↦ ground arith
              | inr c ↦
                  run_random-total pick fuel (set (j ∷ js) i (with_nodes jwn rest)) t (omega arith)
                    (rw (c) at e'')
            ]
      ]

  -- The round-robin and the randomized policies end: they never use up fuel for every node and every
  -- job, whatever the runner answers and whichever job is picked.
  pub round_robin-total :
      (pick : ℕ → List JobWithNodes → ℕ) (jobs : List JobWithNodes) (p : Packed) (g : G)
      → (round_robin cb jobs (p, g) ≢ ok none) × (randomized_priority cb pick jobs (p, g) ≢ ok none)
  unfolding round_robin randomized_priority
  round_robin-total pick jobs p g = (
    run_passes-total cb (size jobs) jobs (begin cb (p, g)) (omega arith),
    run_random-total pick (size jobs) jobs (begin cb (p, g)) (omega arith),
  )
