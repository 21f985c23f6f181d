-- ===== src/Cron/Dates.antt =====
-- A search stays among the dates that boost::gregorian knows, where each of its steps succeeds.
use bistro.Base.{
  ℕ, suc, ◌+◌, ◌≤◌, ◌<◌, ◌==◌, ==_iff, ltb, Bool, true, false, not, ◌&&◌, ◌||◌, ◌≡◌, ◌⊎◌, inl, inr,
  refl, sym, ap, subst, ◌∙◌, String, Outcome, ok, require, ◌>>◌, Bool-cases, Option-cases, arith,
}
use bistro.Base.Int.{ℤ, pos, ◌≤ℤ◌, ◌+ℤ◌, ◌-ℤ◌, pos_part, neg_part, ltb_ℤ}
use bistro.Cron.{CrontabSelector, find_first_match}
use bistro.Cron.First.{find_first_match-IsFirst}
use bistro.Cron.Multiples.{+ℤ-pos}
use bistro.Cron.Standard.{
  StandardCrontabItem, year, month, day_of_month, max_position, k_days_in_week,
}
use bistro.Cron.Search.{
  Calendar, Values, get_day_of_week, get_end_of_month_day, find_matching_day_of_week, set_val,
  reset_after, steps_from, next_value_at,
}
use bistro.Cron.Days.{IsCalendar, IsWeekly, pos_suc}
use bistro.Cron.Fits.{IsProper}

-- The dates of boost::gregorian, from 1400 to 9999, have days of the week, and a month has 28 days.
pub record HasDates (cal : Calendar) : Type 0 where
  pub is_known :
      (y m x : ℤ)
      → (pos 1400 ≤ℤ y) × (y ≤ℤ pos 9999)
      → (pos 1 ≤ℤ m) × (m ≤ℤ pos 12)
      → (pos 1 ≤ℤ x) × (x ≤ℤ cal.end_of_month_day y m)
      → (d : ℤ) × (cal.day_of_week y m x ≡ ok d)
  pub is_long : (y m : ℤ) → pos 28 ≤ℤ cal.end_of_month_day y m

-- The years, months and days of an item are some of boost::gregorian.
pub record IsDated (item : StandardCrontabItem) : Type 0 where
  pub has_years :
      (pos 1400 ≤ℤ (item.selectors year).min_val) × ((item.selectors year).max_val ≤ℤ pos 9999)
  pub has_months :
      (pos 1 ≤ℤ (item.selectors month).min_val) × ((item.selectors month).max_val ≤ℤ pos 12)
  pub has_days : (item.selectors day_of_month).min_val ≡ pos 1
  pub has_values :
      (p : ℕ) → p < max_position → (item.selectors p).min_val ≤ℤ (item.selectors p).max_val

require-passes {ℓ} :
    {A : Type ℓ} (b : Bool) (message : String) (rest : Outcome A)
    → b ≡ true
    → (require b message >> rest) ≡ rest
require-passes true message rest h = refl
require-passes false message rest h = cc

module _ (cal : Calendar) (item : StandardCrontabItem) where
  -- The values are in range, and make a date.
  pub record IsDate (u : Values) : Type 0 where
    pub in_range :
        (p : ℕ)
        → p < max_position
        → ((item.selectors p).min_val ≤ℤ u p) × (u p ≤ℤ (item.selectors p).max_val)
    pub in_month : u day_of_month ≤ℤ get_end_of_month_day cal u

  module _ (calendar : IsCalendar cal) (dates : HasDates cal) (proper : IsProper item)
      (dated : IsDated item) where
    day_of_week_total :
        (u : Values)
        → IsDate u
        → (k : ℕ) × (k < 7) × (cal.day_of_week (u year) (u month) (u day_of_month) ≡ ok (pos k))
    unfolding get_end_of_month_day
    day_of_week_total u date =
        let (y1, y2) = date.in_range 0 (omega arith) in
        let (m1, m2) = date.in_range 1 (omega arith) in
        let (d1, d2) = date.in_range 2 (omega arith) in
        let (a1, a2) = dated.has_years in
        let (b1, b2) = dated.has_months in
        let one = dated.has_days in
        let (d, on) =
          dates.is_known (u year) (u month) (u day_of_month)
            (omega (arith, a1, y1), omega (arith, a2, y2))
            (omega (arith, b1, m1), omega (arith, b2, m2))
            (omega (arith, d1, ap pos_part one, ap neg_part one), date.in_month) in
        let (k, same, small) = calendar.is_day (u year) (u month) (u day_of_month) d on in
        (k, small, on ∙ ap ok same)

    detour_total :
        (sel : CrontabSelector) (u : Values) (c : ℕ)
        → IsWeekly sel
        → IsDate u
        → c ≤ 1
        → (s : ℤ) × (find_matching_day_of_week cal sel u (pos c) ≡ ok s)
    unfolding find_matching_day_of_week get_day_of_week
    detour_total sel u c weekly date one =
        let (k, small, now) = day_of_week_total u date in
        let first =
          find_first_match-IsFirst sel (pos (suc k + c)) weekly.is_selector
            (omega (arith, weekly.has_period)) in
        let d = (find_first_match sel (pos (suc k + c))).0 in
        let test : not (
              ltb_ℤ (pos (suc k)) (pos 1)
              || ltb_ℤ k_days_in_week (pos (suc k))
              || ltb_ℤ (pos 1) (pos c))
            ≡ true =
          ground arith in
        elim (Bool-cases (find_first_match sel (pos (suc k + c))).1) [
          | inl t ↦
              let before = first.is_wrapped t d first.is_match in
              let passes : not (ltb_ℤ (pos (suc k)) d) ≡ true = ground (arith, before) in
              (
                d +ℤ k_days_in_week -ℤ pos (suc k),
                rw (now) (
                    rw (pos_suc k) (rw (test) (rw (+ℤ-pos (suc k) c) (rw (t) (rw (passes) refl))))),
              )
          | inr t ↦
              let later = first.is_later t in
              let passes : not (ltb_ℤ d (pos (suc k))) ≡ true = ground (arith, later) in
              (
                d -ℤ pos (suc k),
                rw (now) (
                    rw (pos_suc k) (rw (test) (rw (+ℤ-pos (suc k) c) (rw (t) (rw (passes) refl))))),
              )
        ]

    pub steps_from_total :
        (p : ℕ) (u : Values) (c : ℕ)
        → IsDate u
        → c ≤ 1
        → (s : ℤ) × (steps_from cal item p u (pos c) ≡ ok s)
    unfolding steps_from
    steps_from_total p u c date one =
        let plain : (require (not (ltb_ℤ (pos 1) (pos c))) "bad carry_steps " >> ok (pos c))
            ≡ ok (pos c) =
          require-passes _ "bad carry_steps " _ (ground arith) in
        elim (Option-cases item.maybe_day_of_week_sel) [
          | inl q ↦ (pos c, rw (q) plain)
          | inr (sel, q) ↦ elim (Bool-cases (p == day_of_month)) [
            | inr t ↦ (pos c, rw (q) (rw (t) plain))
            | inl t ↦
                let (s, e) = detour_total sel u c (proper.is_weekly sel q) date one in
                (s, rw (q) (rw (t) e))
          ]
        ]

    pub next_value_at_total :
        (p : ℕ) (u : Values) (s : ℤ)
        → IsDate u
        → p < max_position
        → (m : ℤ) × (carry : Bool) × (next_value_at cal item p u s ≡ ok (m, carry))
    unfolding next_value_at
    next_value_at_total p u s date below =
        let (low, high) = date.in_range p below in
        let found = find_first_match (item.selectors p) (u p +ℤ s) in
        (
          found.0,
          found.1 || ((p == day_of_month) && ltb_ℤ (get_end_of_month_day cal u) found.0),
          require-passes
              (not
                (ltb_ℤ (u p) (item.selectors p).min_val || ltb_ℤ (item.selectors p).max_val (u p)))
              "value not in range" _ (ground (arith, low, high)),
        )

    -- Another date, by what it shares with this one.
    IsDate-alike :
        (u w : Values)
        → ((p : ℕ)
            → p < max_position
            → ((item.selectors p).min_val ≤ℤ w p) × (w p ≤ℤ (item.selectors p).max_val))
        → (w 2 ≡ pos 1) ⊎ ((u 0 ≡ w 0) × (u 1 ≡ w 1) × (w 2 ≤ℤ get_end_of_month_day cal u))
        → IsDate w
    unfolding get_end_of_month_day
    IsDate-alike u w range (inl first) = record {
      in_range = range;
      in_month =
          let long = dates.is_long (w 0) (w 1) in
          omega (arith, long, ap pos_part first, ap neg_part first);
    }
    IsDate-alike u w range (inr (y, m, le)) = record {
      in_range = range;
      in_month =
          subst (λ a. w 2 ≤ℤ cal.end_of_month_day a (w 1)) y
            (subst (λ b. w 2 ≤ℤ cal.end_of_month_day (u 0) b) m le);
    }

    module _ (p : ℕ) (u : Values) (m : ℤ) (date : IsDate u) (below : p < max_position)
        (fits : ((item.selectors p).min_val ≤ℤ m) × (m ≤ℤ (item.selectors p).max_val))
        (short : p ≡ day_of_month → m ≤ℤ get_end_of_month_day cal u) where
      set_in_range :
          (r : ℕ)
          → r < max_position
          → ((item.selectors r).min_val ≤ℤ set_val p m u r)
            × (set_val p m u r ≤ℤ (item.selectors r).max_val)
      unfolding set_val
      set_in_range r h = elim (Bool-cases (r == p)) [
        | inr t ↦ rw (t) (date.in_range r h)
        | inl t ↦
            let at : r ≡ p = (==_iff r p).0 t in
            rw (t) (
              subst (λ q. ((item.selectors q).min_val ≤ℤ m) × (m ≤ℤ (item.selectors q).max_val))
                (sym at) fits)
      ]

      set_day : set_val p m u 2 ≤ℤ get_end_of_month_day cal u
      unfolding set_val
      set_day = elim (Bool-cases (2 == p)) [
        | inr t ↦ rw (t) date.in_month
        | inl t ↦ rw (t) (short (sym ((==_iff 2 p).0 t)))
      ]

      set_other : (r : ℕ) → (m ≡ u p) ⊎ (r < p) → u r ≡ set_val p m u r
      unfolding set_val
      set_other r (inr h) = ground arith
      set_other r (inl e) = elim (Bool-cases (r == p)) [
        | inr t ↦ rw (t) refl
        | inl t ↦ rw (t) (ap u ((==_iff r p).0 t) ∙ sym e)
      ]

      pub set-IsDate : (m ≡ u p) ⊎ (1 < p) → IsDate (set_val p m u)
      set-IsDate why = IsDate-alike u (set_val p m u) set_in_range (
          inr (
            elim why [ inl e ↦ set_other 0 (inl e) | inr h ↦ set_other 0 (inr (omega arith)) ],
            elim why [ inl e ↦ set_other 1 (inl e) | inr h ↦ set_other 1 (inr h) ],
            set_day,
          ))

      reset_in_range :
          (r : ℕ)
          → r < max_position
          → ((item.selectors r).min_val ≤ℤ reset_after item p (set_val p m u) r)
            × (reset_after item p (set_val p m u) r ≤ℤ (item.selectors r).max_val)
      unfolding reset_after
      reset_in_range r h = elim (Bool-cases (ltb p r && ltb r max_position)) [
        | inl t ↦ rw (t) (omega arith, dated.has_values r h)
        | inr t ↦ rw (t) (set_in_range r h)
      ]

      pub reset-IsDate : IsDate (reset_after item p (set_val p m u))
      unfolding reset_after
      reset-IsDate =
          IsDate-alike u (reset_after item p (set_val p m u)) reset_in_range
            (elim (Bool-cases (ltb p 2)) [
              | inl t ↦ inl (rw (t) dated.has_days)
              | inr t ↦
                  let late : 1 < p = ground (arith, t) in
                  inr (
                    set_other 0 (inr (omega (arith, late))) ∙ ground (arith, late),
                    set_other 1 (inr late) ∙ ground (arith, late),
                    rw (t) set_day,
                  )
            ])
