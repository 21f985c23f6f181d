-- ===== src/Cron/Found.antt =====
-- The search finds the first local time that an item matches.
use bistro.Base.{
  ℕ, zero, suc, ◌<◌, ◌==◌, ==_iff, true, false, ◌≡◌, inl, inr, refl, sym, subst, Option, ok,
  >>=-eq-ok, >>-eq-ok, ok-injective, Bool-cases, arith,
}
use bistro.Base.Int.{ℤ, pos, eqb_ℤ, eqb_ℤ_iff}
use bistro.Cron.Standard.{StandardCrontabItem, year, max_position}
use bistro.Cron.Search.{
  Calendar, Values, Progress, set_val, reset_after, carry_from, move_on, find_step, steps_from,
  next_value_at, find_matching_positions, k_max_depth,
}
use bistro.Cron.Order.{Later, AtLeast, ◌<ℤ◌}
use bistro.Cron.Days.{IsCalendar}
use bistro.Cron.Fits.{IsProper, IsNext, next_value_at-IsNext}
use bistro.Cron.Times.{IsTime, IsFirstTime, Fits-Same, Going, ahead-cases}
use bistro.Cron.Moves.{set-Moved, reset-Moved, increased, Moved-Going, Moved-IsFirstTime}

module _ (cal : Calendar) (item : StandardCrontabItem) (start : Values) where
  IsProgress : Progress → Type 0
  IsProgress (Progress.searching p u carry) = (c : ℕ) × (carry ≡ pos c) × Going cal item start p u c
  IsProgress (Progress.finished found) = IsFirstTime cal item start found

  carried :
      (p : ℕ) {u : Values} {c : ℕ}
      → Going cal item start p u c
      → ((v : Values) → IsTime cal item v → AtLeast max_position start v → Later p u v)
      → IsProgress (carry_from p u)
  unfolding carry_from IsProgress IsFirstTime
  carried zero g ahead = λ v time from. absurd (omega (arith, Later.is_below (ahead v time from)))
  carried (suc q) g ahead = (
    1,
    refl,
    record {
      is_below = omega (arith, g.is_below);
      is_one = omega arith;
      fit = λ r h. g.fit r (omega arith);
      is_above = g.is_above;
      is_ahead = λ v time from. (λ z. absurd (omega (arith, z)), λ z. ahead v time from);
    },
  )

  carry_from-IsProgress :
      (p : ℕ) (u : Values) (c : ℕ) (m : ℤ)
      → Going cal item start p u c
      → IsNext cal item p u c m true
      → IsProgress (carry_from p u)
  unfolding carry_from IsProgress IsFirstTime
  carry_from-IsProgress p u c m g next =
      let ahead : (v : Values) → IsTime cal item v → AtLeast max_position start v → Later p u v =
        λ v time from. elim (ahead-cases cal item start p u c v g time from) [
          | inl l ↦ l
          | inr (same, le) ↦
              let fit =
                Fits-Same cal item p v u (v p) (λ r h. sym (same r h)) (time p g.is_below) in
              let (wrong, _) = next.is_least (v p) fit le in cc
        ] in
      carried p g ahead

  move_on-IsProgress :
      (proper : IsProper item) (p : ℕ) (u : Values) (c : ℕ) (m : ℤ)
      → Going cal item start p u c
      → IsNext cal item p u c m false
      → IsProgress (move_on item p u m)
  unfolding move_on IsProgress
  move_on-IsProgress proper p u c m g next = elim (Bool-cases (suc p == max_position)) [
    | inl t ↦
        let end = (==_iff (suc p) 5).0 t in
        rw (t) (
          Moved-IsFirstTime cal item start proper p u c m g next (set_val p m u)
            (set-Moved cal item start proper p u c m g next (inr end)) end)
    | inr t ↦
        let more : suc p < max_position = ground (arith, t, g.is_below) in
        elim (Bool-cases (eqb_ℤ m (u p))) [
          | inl e ↦
              rw (t, e)
                (
                  0,
                  refl,
                  Moved-Going cal item start proper p u c m g next (set_val p m u)
                      (set-Moved cal item start proper p u c m g next
                        (inl ((eqb_ℤ_iff m (u p)).0 e)))
                      more,
                )
          | inr e ↦
              let less : u p <ℤ m = elim (increased cal item start proper p u c m g next) [
                | inl same ↦ absurd (ground (arith, e, (eqb_ℤ_iff m (u p)).1 same))
                | inr less ↦ less
              ] in
              rw (t, e)
                (
                  0,
                  refl,
                  Moved-Going cal item start proper p u c m g next
                      (reset_after item p (set_val p m u))
                      (reset-Moved cal item start proper p u c m g next less) more,
                )
        ]
  ]

  find_step-IsProgress :
      (calendar : IsCalendar cal) (proper : IsProper item) (p : ℕ) (u : Values) (c : ℕ) {s : ℤ}
      {progress : Progress}
      → Going cal item start p u c
      → steps_from cal item p u (pos c) ≡ ok s
      → find_step cal item p u s ≡ ok progress
      → IsProgress progress
  unfolding find_step
  find_step-IsProgress calendar proper p u c {s} {progress} g e k =
      let ((m, carry), got, k1) = >>=-eq-ok (next_value_at cal item p u s) _ k in
      let next = next_value_at-IsNext cal item calendar proper p u c g.is_below g.is_one e got in
      elim (Bool-cases carry) [
        | inl t ↦
            subst IsProgress (ok-injective (rw (t) at k1))
              (carry_from-IsProgress p u c m g (rw (t) at next))
        | inr t ↦
            subst IsProgress (ok-injective (>>-eq-ok _ _ (rw (t) at k1)))
              (move_on-IsProgress proper p u c m g (rw (t) at next))
      ]

  find-IsFirstTime :
      (calendar : IsCalendar cal) (proper : IsProper item) (depth p : ℕ) (u : Values) (c : ℕ)
      {found : Option Values}
      → Going cal item start p u c
      → find_matching_positions cal item depth p u (pos c) ≡ ok found
      → IsFirstTime cal item start found
  unfolding find_matching_positions IsProgress
  find-IsFirstTime calendar proper zero p u c {found} g e =
      let (s, _, wrong) = >>=-eq-ok (steps_from cal item p u (pos c)) _ e in cc
  find-IsFirstTime calendar proper (suc depth) p u c {found} g e =
      let (s, stepped, e1) = >>=-eq-ok (steps_from cal item p u (pos c)) _ e in
      let (progress, moved, e2) = >>=-eq-ok (find_step cal item p u s) _ e1 in
      elim progress
          as (λ q.
            IsProgress q
            → (elim q [
              | Progress.finished found ↦ ok found
              | Progress.searching q vals' carry ↦
                  find_matching_positions cal item depth q vals' carry
            ])
              ≡ ok found
            → IsFirstTime cal item start found) [
              | Progress.finished found' ↦
                  λ h k. subst (IsFirstTime cal item start) (ok-injective k) h
              | Progress.searching q v carry ↦ λ (c', same, g') k.
                  find-IsFirstTime calendar proper depth q v c' g'
                    (subst (λ x. find_matching_positions cal item depth q v x ≡ ok found) same k)
            ]
        (find_step-IsProgress calendar proper p u c g stepped moved) e2

  -- If the search ends without an exception, it found the first local time from the start on that
  -- the item matches: one whose positions all fit, on a day that its month has and on which the
  -- selector of days of the week, if there is one, matches; or there is none.
  pub find_matching_positions-IsFirstTime :
      {found : Option Values}
      → IsCalendar cal
      → IsProper item
      → find_matching_positions cal item k_max_depth year start (pos 0) ≡ ok found
      → IsFirstTime cal item start found
  find_matching_positions-IsFirstTime calendar proper e =
      find-IsFirstTime calendar proper k_max_depth year start 0
        (record {
          is_below = omega arith;
          is_one = omega arith;
          fit = λ q h. absurd (omega arith);
          is_above = inl (λ r h. refl);
          is_ahead = λ v time from. (λ z. from, λ z. absurd (omega (arith, z)));
        })
        e
