-- ===== src/Cron/Present.antt =====
-- A local time that an item matches is found from itself.
use bistro.Base.{
  ℕ, zero, suc, ◌+◌, ◌≤◌, ◌<◌, ◌==◌, ==_iff, ◌≡◌, inl, inr, refl, sym, ap, subst, ◌∙◌, some, ok,
  Bool-cases, arith,
}
use bistro.Base.Int.{ℤ, pos, eqb_ℤ_iff, eq_of_parts, +ℤ_parts}
use bistro.Cron.Standard.{StandardCrontabItem, year, max_position}
use bistro.Cron.Search.{Calendar, Values, set_val, move_on, find_matching_positions, k_max_depth}
use bistro.Cron.Days.{IsCalendar}
use bistro.Cron.Fits.{IsProper, Fits, next_value_at-IsNext}
use bistro.Cron.Dates.{HasDates, IsDated, IsDate, steps_from_total, next_value_at_total, set-IsDate}
use bistro.Cron.Order.{Same}
use bistro.Cron.Times.{IsTime, Fits-Same}
use bistro.Cron.Safe.{find_step-move_on}

module _ (cal : Calendar) (item : StandardCrontabItem) (calendar : IsCalendar cal)
    (dates : HasDates cal) (proper : IsProper item) (dated : IsDated item) where
  IsTime-Same : (u w : Values) → Same max_position u w → IsTime cal item u → IsTime cal item w
  IsTime-Same u w same time p below =
      Fits-Same cal item p u w (w p) (λ r h. same r (omega (arith, h, below)))
        (subst (Fits cal item p u) (same p below) (time p below))

  set_unchanged : (p : ℕ) (u : Values) (m : ℤ) → m ≡ u p → Same max_position u (set_val p m u)
  unfolding set_val
  set_unchanged p u m e r h = elim (Bool-cases (r == p)) [
    | inr t ↦ rw (t) refl
    | inl t ↦ rw (t) (ap u ((==_iff r p).0 t) ∙ sym e)
  ]

  find_present :
      (depth p : ℕ) (u : Values)
      → max_position ≤ p + depth
      → p < max_position
      → IsTime cal item u
      → IsDate cal item u
      → (w : Values) × (find_matching_positions cal item depth p u (pos 0) ≡ ok (some w))
        × Same max_position u w
  unfolding find_matching_positions move_on
  find_present zero p u enough below time date = absurd (omega (arith, enough, below))
  find_present (suc depth) p u enough below time date =
      let (s, e) = steps_from_total cal item calendar dates proper dated p u 0 date (omega arith) in
      let (m, carry, got) =
        next_value_at_total cal item calendar dates proper dated p u s date below in
      let next = next_value_at-IsNext cal item calendar proper p u 0 below (omega arith) e got in
      let (stays, least) =
        next.is_least (u p) (time p below) (omega (arith, +ℤ_parts (u p) (pos 0))) in
      let later = next.is_later stays in
      let same : m ≡ u p =
        eq_of_parts m (u p) (omega (arith, least, later, +ℤ_parts (u p) (pos 0))) in
      let moved =
        find_step-move_on cal item calendar dates proper dated p u 0 below (omega arith) e
          (rw (stays) at got) in
      let kept = set_unchanged p u m same in
      elim (Bool-cases (suc p == max_position)) [
        | inl t ↦ (set_val p m u, rw (e) (rw (moved) (rw (t) refl)), kept)
        | inr t ↦
            let more : suc p < max_position = ground (arith, t, below) in
            let date' =
              set-IsDate cal item calendar dates proper dated p u m date below
                (proper.is_within p m below (next.fits stays).is_match)
                (next.fits stays).is_in_month (inl same) in
            let (w, found, still) =
              find_present depth (suc p) (set_val p m u) (omega (arith, enough)) more
                (IsTime-Same u (set_val p m u) kept time) date' in
            (
              w,
              rw (e) (rw (moved) (rw (t) (rw ((eqb_ℤ_iff m (u p)).1 same) found))),
              λ r h. kept r h ∙ still r h,
            )
      ]

  -- From a local time that the item matches on, the search finds this time, without giving up.
  pub find_matching_positions-Same :
      (u : Values)
      → IsTime cal item u
      → IsDate cal item u
      → (w : Values) × (find_matching_positions cal item k_max_depth year u (pos 0) ≡ ok (some w))
        × Same max_position u w
  find_matching_positions-Same u time date =
      find_present k_max_depth year u (omega arith) (omega arith) time date
