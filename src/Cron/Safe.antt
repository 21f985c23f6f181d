-- ===== src/Cron/Safe.antt =====
-- The search raises none of its logic errors: it ends with an answer, or gives up.
use bistro.Base.{
  ℕ, zero, suc, ◌≤◌, ◌<◌, ◌==◌, true, false, not, ◌&&◌, ◌||◌, ◌≡◌, ◌⊎◌, inl, inr, refl, sym, subst,
  Option, String, ok, throw, Bool-cases, arith,
}
use bistro.Base.Int.{ℤ, pos, ltb_ℤ, eqb_ℤ, eqb_ℤ_iff, +ℤ_parts}
use bistro.Cron.Standard.{StandardCrontabItem, year, max_position}
use bistro.Cron.Search.{
  Calendar, Values, Progress, carry_from, move_on, find_step, steps_from, next_value_at,
  find_matching_positions, k_max_depth,
}
use bistro.Cron.Days.{IsCalendar}
use bistro.Cron.Fits.{IsProper, IsNext, steps_from-IsStep, next_value_at-IsNext}
use bistro.Cron.Dates.{
  HasDates, IsDated, IsDate, steps_from_total, next_value_at_total, set-IsDate, reset-IsDate,
}
use bistro.Cron.Times.{IsFirstTime}
use bistro.Cron.Found.{find_matching_positions-IsFirstTime}

module _ (cal : Calendar) (item : StandardCrontabItem) (calendar : IsCalendar cal)
    (dates : HasDates cal) (proper : IsProper item) (dated : IsDated item) where
  IsSafe : Progress → Type 0
  IsSafe (Progress.searching p u carry) =
      (c : ℕ) × (carry ≡ pos c) × (c ≤ 1) × (p < max_position) × IsDate cal item u
  IsSafe (Progress.finished found) = Unit

  carry_from-IsSafe :
      (p : ℕ) (u : Values) → IsDate cal item u → p < max_position → IsSafe (carry_from p u)
  unfolding carry_from IsSafe
  carry_from-IsSafe zero u date below = tt
  carry_from-IsSafe (suc q) u date below = (1, refl, omega arith, omega arith, date)

  move_on-IsSafe :
      (p : ℕ) (u : Values) (c : ℕ) (m : ℤ)
      → IsDate cal item u
      → p < max_position
      → IsNext cal item p u c m false
      → IsSafe (move_on item p u m)
  unfolding move_on IsSafe
  move_on-IsSafe p u c m date below next =
      let fits = next.fits refl in
      let range = proper.is_within p m below fits.is_match in
      elim (Bool-cases (suc p == max_position)) [
        | inl t ↦ rw (t) tt
        | inr t ↦
            let more : suc p < max_position = ground (arith, t, below) in
            elim (Bool-cases (eqb_ℤ m (u p))) [
              | inl e ↦
                  rw (t, e)
                    (
                      0,
                      refl,
                      omega arith,
                      more,
                      set-IsDate cal item calendar dates proper dated p u m date below range
                          fits.is_in_month (inl ((eqb_ℤ_iff m (u p)).0 e)),
                    )
              | inr e ↦
                  rw (t, e)
                    (
                      0,
                      refl,
                      omega arith,
                      more,
                      reset-IsDate cal item calendar dates proper dated p u m date below range
                          fits.is_in_month,
                    )
            ]
      ]

  -- A position with a next value moves on to it.
  pub find_step-move_on :
      (p : ℕ) (u : Values) (c : ℕ) {s m : ℤ}
      → p < max_position
      → c ≤ 1
      → steps_from cal item p u (pos c) ≡ ok s
      → next_value_at cal item p u s ≡ ok (m, false)
      → find_step cal item p u s ≡ ok (move_on item p u m)
  unfolding find_step
  find_step-move_on p u c {s} {m} below one e got =
      let step = steps_from-IsStep cal item calendar proper p u c one e in
      let next = next_value_at-IsNext cal item calendar proper p u c below one e got in
      let later = next.is_later refl in
      let skip = step.skips m (next.fits refl) later in
      let reach = step.reaches in
      let passes : not (ltb_ℤ m (u p) || (not (eqb_ℤ s (pos 0)) && eqb_ℤ m (u p))) ≡ true =
        ground (arith, skip, reach, +ℤ_parts (u p) s) in
      rw (got) (rw (passes) refl)

  find_step_total :
      (p : ℕ) (u : Values) (c : ℕ) (s : ℤ)
      → IsDate cal item u
      → p < max_position
      → c ≤ 1
      → steps_from cal item p u (pos c) ≡ ok s
      → (progress : Progress) × (find_step cal item p u s ≡ ok progress) × IsSafe progress
  unfolding find_step
  find_step_total p u c s date below one e =
      let step = steps_from-IsStep cal item calendar proper p u c one e in
      let (m, carry, got) =
        next_value_at_total cal item calendar dates proper dated p u s date below in
      let next = next_value_at-IsNext cal item calendar proper p u c below one e got in
      elim (Bool-cases carry) [
        | inl t ↦ (carry_from p u, rw (got) (rw (t) refl), carry_from-IsSafe p u date below)
        | inr t ↦ (
          move_on item p u m,
          find_step-move_on p u c below one e (rw (t) at got),
          move_on-IsSafe p u c m date below (rw (t) at next),
        )
      ]

  abbrev gave_up : String
  gave_up = "No matches in iterations. Does your selector never match?"

  find_safe :
      (depth p : ℕ) (u : Values) (c : ℕ)
      → IsDate cal item u
      → p < max_position
      → c ≤ 1
      → ((found : Option Values) × (find_matching_positions cal item depth p u (pos c) ≡ ok found))
        ⊎ (find_matching_positions cal item depth p u (pos c) ≡ throw gave_up)
  unfolding find_matching_positions IsSafe
  find_safe zero p u c date below one =
      let (s, e) = steps_from_total cal item calendar dates proper dated p u c date one in
      inr (rw (e) refl)
  find_safe (suc depth) p u c date below one =
      let (s, e) = steps_from_total cal item calendar dates proper dated p u c date one in
      let (progress, e', safe) = find_step_total p u c s date below one e in
      rw (e) (
        rw (e') (
          elim progress
              as (λ q.
                IsSafe q
                → ((found : Option Values) × ((elim q [
                  | Progress.finished found' ↦ ok found'
                  | Progress.searching r v carry ↦ find_matching_positions cal item depth r v carry
                ])
                      ≡ ok found))
                  ⊎ ((elim q [
                    | Progress.finished found' ↦ ok found'
                    | Progress.searching r v carry ↦
                        find_matching_positions cal item depth r v carry
                  ])
                      ≡ throw gave_up)) [
                        | Progress.finished found ↦ λ h. inl (found, refl)
                        | Progress.searching r v carry ↦ λ (c', same, one', below', date').
                            subst
                              (λ x.
                                ((found : Option Values) × (find_matching_positions cal item depth r
                                      v x
                                    ≡ ok found))
                                ⊎ (find_matching_positions cal item depth r v x ≡ throw gave_up))
                              (sym same) (find_safe depth r v c' date' below' one')
                      ]
            safe))

  -- For an item whose selectors are in order, with ranges that are not empty and values that
  -- boost::gregorian knows, in a calendar whose days of the week follow each other, and from a date in
  -- the ranges of the item's selectors on: the search gives up after 50 steps, or it ends
  -- with the first local time from there on that the item matches: one whose positions all fit, on a day
  -- that its month has and on which the selector of days of the week, if there is one, matches; it ends
  -- with none only if there is no such time. It raises none of the exceptions for broken invariants.
  pub find_matching_positions_first :
      (start : Values)
      → IsDate cal item start
      → ((found : Option Values) × (find_matching_positions cal item k_max_depth year start (pos 0)
            ≡ ok found)
          × IsFirstTime cal item start found)
        ⊎ (find_matching_positions cal item k_max_depth year start (pos 0)
            ≡ throw "No matches in iterations. Does your selector never match?")
  find_matching_positions_first start date =
      elim (find_safe k_max_depth year start 0 date (omega arith) (omega arith)) [
        | inl (found, e) ↦
            inl (found, e, find_matching_positions-IsFirstTime cal item start calendar proper e)
        | inr e ↦ inr e
      ]
