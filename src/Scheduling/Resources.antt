-- ===== src/Scheduling/Resources.antt =====
-- The table of resources: what an attempt to run a task takes from it.
use bistro.Base.{
  ◌<◌, ℕ, zero, suc, ◌≡◌, ◌≢◌, refl, sym, subst, ap, ◌∙◌, false, some, List, [], ◌∷◌, ok, arith,
  find, get_or, set, if◌then◌else◌, nat_eq, same, >>=-eq-ok, ok-injective, Option-cases, Bool-cases,
  inl, inr, find-assign, ◌⊎◌,
}
use bistro.Base.Int.{ℤ, pos, negsuc, pos_part, neg_part, ltb_ℤ, ◌-ℤ◌}
use bistro.Base.Word.{two_31, to_i32}
use bistro.Scheduling.{
  Packed, Node, JobWithNodes, Update, TaskRunnerResponse, ran_task, did_not_run_task,
  do_not_run_more_tasks, TaskRunnerCallback, amount_at, take_amount, apply_updates, finish_attempt,
  try_to_schedule, collect, traverse_up,
}
use bistro.Scheduling.Amounts.{IsNeeding, TakeNonneg, collect-TakeNonneg}

-- An int that is not negative.
abbrev pub IsAmount : ℤ → Type 0
IsAmount z = (neg_part z ≡ 0) × (pos_part z < two_31)

-- No resource is overdrawn.
abbrev pub IsNonneg : Packed → Type 0
IsNonneg packed = (level index : ℕ) → IsAmount (amount_at level index packed)

-- An entry of a list in which one was replaced is the new one or an old one.
get_or-set_either :
    (P : ℤ → Type 0) (xs : List ℤ) (i j : ℕ) (v d : ℤ)
    → P v
    → P (get_or xs j d)
    → P (get_or (set xs i v) j d)
get_or-set_either P [] i j v d new old = old
get_or-set_either P (x ∷ xs) zero zero v d new old = new
get_or-set_either P (x ∷ xs) zero (suc j) v d new old = old
get_or-set_either P (x ∷ xs) (suc i) zero v d new old = old
get_or-set_either P (x ∷ xs) (suc i) (suc j) v d new old = get_or-set_either P xs i j v d new old

-- What a level holds after a resource was taken from it.
amount_at-take_amount :
    (u : Update) (packed : Packed) (amounts : List ℤ) (level index : ℕ)
    → find u.level packed ≡ some amounts
    → amount_at level index (take_amount u packed) ≡ (
        if same u.level level
        then get_or
            (set amounts u.index (to_i32 (get_or amounts u.index (pos 0) -ℤ u.amount)))
            index
            (pos 0)
        else amount_at level index packed)
unfolding amount_at take_amount
amount_at-take_amount u packed amounts level index e = ground (
  arith,
  find-assign u.level level
      (set amounts u.index (to_i32 (get_or amounts u.index (pos 0) -ℤ u.amount))) packed,
)

-- The difference of an int and a part of it does not wrap around.
to_i32-IsAmount :
    (a d : ℤ) → IsAmount a → neg_part d ≡ 0 → ltb_ℤ a d ≡ false → IsAmount (to_i32 (a -ℤ d))
unfolding ◌-ℤ◌
to_i32-IsAmount (pos a) (pos d) h n l = ground arith
to_i32-IsAmount (negsuc a) d h n l = absurd (omega (arith, h))
to_i32-IsAmount (pos a) (negsuc d) h n l = absurd (omega (arith, n))

-- Taking no more than there is leaves no debt.
take_amount-IsNonneg :
    (u : Update) (packed : Packed)
    → ltb_ℤ (amount_at u.level u.index packed) u.amount ≡ false
    → neg_part u.amount ≡ 0
    → IsNonneg packed
    → IsNonneg (take_amount u packed)
unfolding amount_at take_amount
take_amount-IsNonneg u packed fits n h level index = elim (Option-cases (find u.level packed)) [
  | inl e ↦ ground (arith, h level index)
  | inr (amounts, e) ↦
      let after = amount_at-take_amount u packed amounts level index e in
      let same_amounts : amount_at u.level u.index packed ≡ get_or amounts u.index (pos 0) =
        ground arith in
      elim (Bool-cases (same u.level level)) [
        | inr other ↦ ground (arith, h level index)
        | inl here ↦
            let level_eq : u.level ≡ level = (nat_eq.beq_iff u.level level).0 here in
            let old : IsAmount (get_or amounts index (pos 0)) = ground (arith, h u.level index) in
            let new =
              to_i32-IsAmount (get_or amounts u.index (pos 0)) u.amount
                (subst IsAmount same_amounts (h u.level u.index)) n
                (ap (λ z. ltb_ℤ z u.amount) (sym same_amounts) ∙ fits) in
            subst IsAmount (sym (after ∙ rw (here) refl)) (
              get_or-set_either IsAmount amounts u.index index
                (to_i32 (get_or amounts u.index (pos 0) -ℤ u.amount)) (pos 0) new old)
      ]
]

apply_updates-IsNonneg :
    (us : List Update) (packed : Packed) {packed' : Packed}
    → TakeNonneg us
    → IsNonneg packed
    → apply_updates us packed ≡ ok packed'
    → IsNonneg packed'
unfolding apply_updates TakeNonneg
apply_updates-IsNonneg [] packed a h e = subst IsNonneg (ok-injective e) h
apply_updates-IsNonneg (u ∷ us) packed {packed'} a h e =
    let fits : ltb_ℤ (amount_at u.level u.index packed) u.amount ≡ false = ground arith in
    let rest : apply_updates us (take_amount u packed) ≡ ok packed' = ground arith in
    apply_updates-IsNonneg us (take_amount u packed) a.1 (take_amount-IsNonneg u packed fits a.0 h)
      rest

finish_attempt-cases :
    {G : Type 0} (us : List Update) (p p' : Packed) (a r : TaskRunnerResponse) (k g' : G)
    → finish_attempt us p (a, k) ≡ ok (r, p', g')
    → (a ≡ r) × (k ≡ g') × (r ≢ ran_task → p' ≡ p) × (r ≡ ran_task → apply_updates us p ≡ ok p')
unfolding finish_attempt
finish_attempt-cases us p p' ran_task r k g' e =
    let (q, applied, same_end) = >>=-eq-ok (apply_updates us p) _ e in
    (ground arith, ground arith, λ n. absurd (n (ground arith)), λ _. ground arith)
finish_attempt-cases us p p' did_not_run_task r k g' e =
    (ground arith, ground arith, λ n. ground arith, λ n. absurd (ground arith))
finish_attempt-cases us p p' do_not_run_more_tasks r k g' e =
    (ground arith, ground arith, λ n. ground arith, λ n. absurd (ground arith))

-- An attempt leaves the table as it was, or takes the updates of a task that ran.
pub try_to_schedule-cases :
    {G : Type 0} (node : Node) (j : JobWithNodes) (cb : TaskRunnerCallback G) (p p' : Packed)
    (g g' : G) (r : TaskRunnerResponse)
    → try_to_schedule node j cb (p, g) ≡ ok (r, p', g')
    → ((r ≡ did_not_run_task) × (p' ≡ p) × (g' ≡ g))
      ⊎ ((us : List Update) × (collect (traverse_up node) j.resources p ≡ ok (some us))
          × (cb j node g ≡ ok (r, g'))
          × (r ≢ ran_task → p' ≡ p)
          × (r ≡ ran_task → apply_updates us p ≡ ok p'))
unfolding try_to_schedule
try_to_schedule-cases node j cb p p' g g' r e =
    let (o, collected, e') = >>=-eq-ok (collect (traverse_up node) j.resources p) _ e in
    elim (Option-cases o) [
      | inl n ↦ inl (ground arith, ground arith, ground arith)
      | inr (us, n) ↦
          let ((r', k), called, e'') =
            >>=-eq-ok (cb j node g) (λ answer. finish_attempt us p answer) (rw (n) at e') in
          let (same_response, same_owner, kept, taken) =
            finish_attempt-cases us p p' r' r k g' e'' in
          inr (us, collected ∙ rw (n) refl, called ∙ cc, kept, taken)
    ]

pub try_to_schedule-IsNonneg :
    {G : Type 0} (node : Node) (j : JobWithNodes) (cb : TaskRunnerCallback G) (p p' : Packed)
    (g g' : G) (r : TaskRunnerResponse)
    → IsNeeding j.resources
    → IsNonneg p
    → try_to_schedule node j cb (p, g) ≡ ok (r, p', g')
    → IsNonneg p'
try_to_schedule-IsNonneg node j cb p p' g g' r needs h e =
    elim (try_to_schedule-cases node j cb p p' g g' r e) [
      | inl (_, same_table, _) ↦ subst IsNonneg (sym same_table) h
      | inr (us, collected, _, kept, taken) ↦
          go us r (collect-TakeNonneg (traverse_up node) j.resources p us needs collected) kept
            taken
    ]
  where
    go :
        (us : List Update) (a : TaskRunnerResponse)
        → TakeNonneg us
        → (a ≢ ran_task → p' ≡ p)
        → (a ≡ ran_task → apply_updates us p ≡ ok p')
        → IsNonneg p'
    go us ran_task some_left kept taken = apply_updates-IsNonneg us p some_left h (taken refl)
    go us did_not_run_task some_left kept taken =
        subst IsNonneg (sym (kept (λ t. absurd (ground arith)))) h
    go us do_not_run_more_tasks some_left kept taken =
        subst IsNonneg (sym (kept (λ t. absurd (ground arith)))) h
