-- ===== src/Cron/Search.antt =====
-- cron/StandardCrontabItem.cpp: the search of an item for the first local time that it matches, from
-- `findMatchingPositions` on. The code gives up after 50 steps, and so the search has that fuel.
use bistro.Base.{
  ℕ, zero, suc, ◌==◌, ltb, Bool, not, ◌&&◌, ◌||◌, Option, none, some, Outcome, ok, throw, require,
  ◌>>=◌, ◌>>◌, if◌then◌else◌,
}
use bistro.Base.Int.{ℤ, pos, ◌+ℤ◌, ◌-ℤ◌, ltb_ℤ, eqb_ℤ}
use bistro.Cron.{CrontabSelector, find_first_match}
use bistro.Cron.Standard.{
  StandardCrontabItem, year, month, day_of_month, max_position, k_days_in_week,
}

-- boost::gregorian: the day of the week of a date, from 0 for Sunday on, and the days of a month.
pub record Calendar : Type 0 where
  pub day_of_week : ℤ → ℤ → ℤ → Outcome ℤ
  pub end_of_month_day : ℤ → ℤ → ℤ

-- The values of a search, by their positions.
abbrev pub Values : Type 0
Values = ℕ → ℤ

unfoldable pub set_val : ℕ → ℤ → Values → Values
set_val p val vals = λ q. if q == p then val else vals q

-- Where the search stands, or what it found: local time values, or none if there are none.
pub data Progress : Type 0 where
  searching : ℕ → Values → ℤ → Progress
  finished : Option Values → Progress

abbrev pub k_max_depth : ℕ
k_max_depth = 50

module _ (cal : Calendar) where
  -- Sunday is 1.
  unfoldable pub get_day_of_week : Values → Outcome ℤ
  get_day_of_week vals =
      cal.day_of_week (vals year) (vals month) (vals day_of_month) >>= λ d. ok (d +ℤ pos 1)

  unfoldable pub get_end_of_month_day : Values → ℤ
  get_end_of_month_day vals = cal.end_of_month_day (vals year) (vals month)

  -- findMatchingDayOfWeek: the steps to the next day of the week.
  unfoldable pub find_matching_day_of_week : CrontabSelector → Values → ℤ → Outcome ℤ
  find_matching_day_of_week sel vals carry_steps = get_day_of_week vals >>= λ dow.
      require (not (ltb_ℤ dow (pos 1) || ltb_ℤ k_days_in_week dow || ltb_ℤ (pos 1) carry_steps))
        "bad weekday "
      >> (let (new_dow, carry_next) = find_first_match sel (dow +ℤ carry_steps) in
          if carry_next
          then require (not (ltb_ℤ dow new_dow)) "dow carried"
            >> ok (new_dow +ℤ k_days_in_week -ℤ dow)
          else require (not (ltb_ℤ new_dow dow)) "dow did not carry" >> ok (new_dow -ℤ dow))

unfoldable pub carry_from : ℕ → Values → Progress
carry_from p vals = elim p [ zero ↦ finished none | suc q ↦ searching q vals (pos 1) ]

module _ (item : StandardCrontabItem) where
  -- Positions after one that advanced start again from their least values.
  unfoldable pub reset_after : ℕ → Values → Values
  reset_after p vals =
      λ q. if ltb p q && ltb q max_position then (item.selectors q).min_val else vals q

  unfoldable pub move_on : ℕ → Values → ℤ → Progress
  move_on p vals new_val =
      let vals' = set_val p new_val vals in
      if suc p == max_position
      then finished (some vals')
      else searching (suc p) (if eqb_ℤ new_val (vals p) then vals' else reset_after p vals') (pos 0)

module _ (cal : Calendar) (item : StandardCrontabItem) where
  -- findMatchingPositions, up to findMatchingPositionsImpl.
  unfoldable pub steps_from : ℕ → Values → ℤ → Outcome ℤ
  steps_from p vals carry_steps = elim item.maybe_day_of_week_sel [
    | some sel ↦
        if p == day_of_month
        then find_matching_day_of_week cal sel vals carry_steps
        else require (not (ltb_ℤ (pos 1) carry_steps)) "bad carry_steps " >> ok carry_steps
    | none ↦ require (not (ltb_ℤ (pos 1) carry_steps)) "bad carry_steps " >> ok carry_steps
  ]

  -- The next value of a position, and whether it must carry.
  unfoldable pub next_value_at : ℕ → Values → ℤ → Outcome (ℤ × Bool)
  next_value_at p vals carry_steps =
      let sel = item.selectors p in
      require (not (ltb_ℤ (vals p) sel.min_val || ltb_ℤ sel.max_val (vals p))) "value not in range"
      >> (let (new_val, carry_next) = find_first_match sel (vals p +ℤ carry_steps) in
          ok (
            new_val,
            carry_next || ((p == day_of_month) && ltb_ℤ (get_end_of_month_day cal vals) new_val),
          ))

  -- findMatchingPositionsImpl, up to its recursive calls.
  unfoldable pub find_step : ℕ → Values → ℤ → Outcome Progress
  find_step p vals carry_steps = next_value_at p vals carry_steps >>= λ (new_val, carry_next).
      if carry_next
      then ok (carry_from p vals)
      else require
          (not
            (ltb_ℤ new_val (vals p) || (not (eqb_ℤ carry_steps (pos 0)) && eqb_ℤ new_val (vals p))))
          "value went down"
        >> ok (move_on item p vals new_val)

  unfoldable pub find_matching_positions : ℕ → ℕ → Values → ℤ → Outcome (Option Values)
  find_matching_positions zero p vals carry_steps = steps_from p vals carry_steps >>= λ steps.
      throw "No matches in iterations. Does your selector never match?"
  find_matching_positions (suc depth) p vals carry_steps =
      steps_from p vals carry_steps >>= λ steps. find_step p vals steps >>= λ progress.
      elim progress [
        | finished found ↦ ok found
        | searching q vals' carry ↦ find_matching_positions depth q vals' carry
      ]
