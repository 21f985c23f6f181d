-- ===== src/Tests/Crons.antt =====
-- Half past every hour of a Monday, in a calendar whose months have 31 days and begin on a Sunday.
use native.Mathlib.Nat.{mod-add-mod, mod-lt}
use mathlib.Core.Option.{some_inj}
use bistro.Base.{
  ◌==◌, if◌then◌else◌, ◌≤◌, ℕ, zero, suc, ◌+◌, ◌%◌, ◌<◌, ◌≡◌, ◌⊎◌, refl, sym, ap, subst, ◌∙◌, true,
  false, Bool, none, some, Option, List, [], ◌∷◌, String, Outcome, ok, throw, arith, ok-injective,
}
use bistro.Base.Int.{ℤ, pos, negsuc, ◌≤ℤ◌, ◌+ℤ◌, ◌-ℤ◌, pos_part, neg_part}
use bistro.Base.Dynamic.{Dynamic, Items, Fields}
use bistro.Cron.{CrontabSelector, find_first_match}
use bistro.Cron.Matches.{matches, IsSelector, IsFirst, Sorted}
use bistro.Cron.First.{find_first_match-IsFirst}
use bistro.Cron.Standard.{StandardCrontabItem, selectors_at, make_item, year, max_position}
use bistro.Cron.Search.{
  get_end_of_month_day, Calendar, Values, find_matching_positions, k_max_depth,
}
use bistro.Cron.Order.{Same}
use bistro.Cron.Days.{IsCalendar, OnDay}
use bistro.Cron.Fits.{IsProper}
use bistro.Cron.Times.{IsTime, IsFirstTime}
use bistro.Cron.Dates.{HasDates, IsDated, IsDate}
use bistro.Cron.Safe.{find_matching_positions_first}
use bistro.Cron.Present.{find_matching_positions-Same}
use bistro.Cron.Made.{HasRanges, make_item-IsProper}

-- From 5 to 50 in steps of 20.
abbrev spaced_minutes : CrontabSelector
spaced_minutes = record {
  sorted_values = [];
  start = pos 5;
  end_ = pos 50;
  period = pos 20;
  min_val = pos 0;
  max_val = pos 59;
}

spaced_minutes-IsSelector : IsSelector spaced_minutes
unfolding Sorted
spaced_minutes-IsSelector = record {
  is_sorted = tt;
  is_range = (omega arith, omega arith);
  is_periodic = omega arith;
}

find_first_match-IsFirst_example :
    IsFirst spaced_minutes
      (pos 12)
      (find_first_match spaced_minutes (pos 12)).0
      (find_first_match spaced_minutes (pos 12)).1
find_first_match-IsFirst_example =
    find_first_match-IsFirst spaced_minutes (pos 12) spaced_minutes-IsSelector (omega arith)

abbrev as_int : Dynamic → Outcome ℤ
as_int (Dynamic.int n) = ok n
as_int _ = throw "TypeError"

abbrev weekday : ℤ → Outcome ℤ
weekday (pos (suc n)) = ok (pos (n % 7))
weekday _ = throw "bad day"

abbrev sundays : Calendar
sundays = record { day_of_week = λ y m x. weekday x; end_of_month_day = λ y m. pos 31 }

add_suc : (n j : ℕ) → pos (suc n) +ℤ pos j ≡ pos (suc (n + j))
unfolding ◌+ℤ◌
add_suc n j = ground arith

weekday-next :
    (x : ℤ) (k j : ℕ) → weekday x ≡ ok (pos k) → weekday (x +ℤ pos j) ≡ ok (pos ((k + j) % 7))
weekday-next (pos (suc n)) k j e =
    ap weekday (add_suc n j)
    ∙ ap (λ z. ok (pos z))
        (sym (mod-add-mod n 7 j) ∙ ap (λ z. (z + j) % 7) (ap pos_part (ok-injective e)))
weekday-next (pos zero) k j e = cc
weekday-next (negsuc n) k j e = cc

weekday-known : (x d : ℤ) → weekday x ≡ ok d → (k : ℕ) × (d ≡ pos k) × (k < 7)
weekday-known (pos (suc n)) d e = (n % 7, sym (ok-injective e), mod-lt n (omega arith))
weekday-known (pos zero) d e = cc
weekday-known (negsuc n) d e = cc

weekday_total : (x : ℤ) → pos 1 ≤ℤ x → (d : ℤ) × (weekday x ≡ ok d)
weekday_total (pos (suc n)) h = (pos (n % 7), refl)
weekday_total (pos zero) h = absurd (omega (arith, h))
weekday_total (negsuc n) h = absurd (omega (arith, h))

sundays-IsCalendar : IsCalendar sundays
sundays-IsCalendar = record {
  is_day = λ y m x d e. weekday-known x d e;
  is_next = λ y m x k j e le. weekday-next x k j e;
  is_short = λ y m. omega arith;
}

sundays-HasDates : HasDates sundays
sundays-HasDates = record {
  is_known = λ y m x years months days. weekday_total x days.0;
  is_long = λ y m. omega arith;
}

abbrev fields : Fields
fields = Fields.field "minute" (Dynamic.array (Items.item (Dynamic.int (pos 30)) Items.nil)) (
    Fields.field "day_of_week" (Dynamic.string "Mon") (
      Fields.field "dst_fixes"
        (Dynamic.array (
          Items.item (Dynamic.string "skip")
            (Items.item (Dynamic.string "repeat_use_both") Items.nil)))
        Fields.end))

abbrev whole : ℕ → ℕ → CrontabSelector
whole from to = record {
  sorted_values = [];
  start = pos from;
  end_ = pos to;
  period = pos 1;
  min_val = pos from;
  max_val = pos to;
}

abbrev just : ℕ → ℕ → ℕ → CrontabSelector
just v from to = record (whole from to) { sorted_values = pos v ∷ [] }

abbrev mondays : StandardCrontabItem
mondays = record {
  dst_fixes = 6;
  selectors =
      selectors_at as_int (whole 1969 9999) (whole 1 12) (whole 1 31) (whole 0 23) (just 30 0 59);
  maybe_day_of_week_sel = some (just 2 1 7);
}

mondays_lem : make_item as_int fields ≡ ok mondays
unfolding make_item bistro.Cron.make_selector bistro.Cron.Standard.get_default
    bistro.Base.Dynamic.get_ptr bistro.Cron.parse_fields bistro.Cron.parse_values
    bistro.Cron.parse_value bistro.Cron.value_of
    bistro.Cron.Standard.maybe_make_day_of_week_selector bistro.Cron.Standard.parse_day_of_week
    bistro.Cron.lower bistro.Cron.lower_char bistro.Cron.Standard.parse_dst_fixes
    bistro.Cron.Standard.add_fixes bistro.Cron.Standard.add_fix bistro.Cron.Standard.add_policy
    bistro.Cron.Standard.check_keys bistro.Base.Int.◌-ℤ◌ bistro.Cron.Standard.parse_month_name
    bistro.Cron.all_values bistro.Cron.insert_value bistro.Cron.parse_field bistro.Cron.sort_values
mondays_lem = refl

mondays-HasRanges : HasRanges mondays
mondays-HasRanges = record {
  has_values = λ p below. ground arith;
  has_days = λ sel e. subst (λ s. s.start ≤ℤ s.end_) (some_inj.0 e) (omega arith);
}

mondays-IsProper : IsProper mondays × IsDated mondays
mondays-IsProper = make_item-IsProper as_int fields mondays_lem mondays-HasRanges

make_item-IsProper_example : IsProper mondays × IsDated mondays
make_item-IsProper_example = make_item-IsProper as_int fields mondays_lem mondays-HasRanges

-- A local time, from the year to the minute.
abbrev values : ℕ → ℕ → ℕ → ℕ → ℕ → Values
values y m d h n p =
    if p == 0
    then pos y
    else if p == 1
    then pos m
    else if p == 2
    then pos d
    else if p == 3
    then pos h
    else pos n

-- A Tuesday.
abbrev tuesday : Values
tuesday = values 2024 1 3 5 40

in_ranges :
    (y m d h n p : ℕ)
    → p < max_position
    → (1969 ≤ y) × (y ≤ 9999)
    → (1 ≤ m) × (m ≤ 12)
    → (1 ≤ d) × (d ≤ 31)
    → (h ≤ 23) × (n ≤ 59)
    → ((mondays.selectors p).min_val ≤ℤ values y m d h n p)
      × (values y m d h n p ≤ℤ (mondays.selectors p).max_val)
in_ranges y m d h n zero below ys ms ds ts = (omega (arith, ys), omega (arith, ys))
in_ranges y m d h n (suc zero) below ys ms ds ts = (omega (arith, ms), omega (arith, ms))
in_ranges y m d h n (suc (suc zero)) below ys ms ds ts = (omega (arith, ds), omega (arith, ds))
in_ranges y m d h n (suc (suc (suc zero))) below ys ms ds ts = (omega arith, omega (arith, ts))
in_ranges y m d h n (suc (suc (suc (suc zero)))) below ys ms ds ts =
    (omega arith, omega (arith, ts))
in_ranges y m d h n (suc (suc (suc (suc (suc p))))) below ys ms ds ts =
    absurd (omega (arith, below))

tuesday-IsDate : IsDate sundays mondays tuesday
unfolding get_end_of_month_day
tuesday-IsDate = record {
  in_range = λ p below.
      in_ranges 2024 1 3 5 40 p below (omega arith, omega arith) (omega arith, omega arith)
        (omega arith, omega arith) (omega arith, omega arith);
  in_month = omega arith;
}

find_matching_positions_first_example :
    ((found : Option Values) × (find_matching_positions sundays mondays k_max_depth year tuesday
          (pos 0)
        ≡ ok found)
      × IsFirstTime sundays mondays tuesday found)
    ⊎ (find_matching_positions sundays mondays k_max_depth year tuesday (pos 0)
        ≡ throw "No matches in iterations. Does your selector never match?")
find_matching_positions_first_example =
    find_matching_positions_first sundays mondays sundays-IsCalendar sundays-HasDates
      mondays-IsProper.0 mondays-IsProper.1 tuesday tuesday-IsDate

-- The next Monday.
abbrev monday : Values
monday = values 2024 1 9 0 30

abbrev read : Outcome (Option Values) → List ℤ
read (ok (some v)) = v 0 ∷ v 1 ∷ v 2 ∷ v 3 ∷ v 4 ∷ []
read _ = []

monday_lem :
    read (find_matching_positions sundays mondays k_max_depth year tuesday (pos 0))
    ≡ pos 2024 ∷ pos 1 ∷ pos 9 ∷ pos 0 ∷ pos 30 ∷ []
unfolding find_matching_positions bistro.Cron.Search.steps_from bistro.Cron.Search.find_step
    bistro.Cron.Search.next_value_at find_first_match ◌+ℤ◌ ◌-ℤ◌ bistro.Cron.Search.move_on
    bistro.Cron.Search.set_val bistro.Cron.Search.find_matching_day_of_week
    bistro.Cron.Search.get_day_of_week bistro.Cron.lower_bound get_end_of_month_day
    bistro.Cron.Search.reset_after
monday_lem = refl

monday-IsTime : IsTime sundays mondays monday
unfolding matches OnDay get_end_of_month_day ◌-ℤ◌ ◌+ℤ◌
monday-IsTime zero below = record {
  is_match = refl;
  is_in_month = λ e. cc;
  is_on_day = λ sel e o. cc;
}
monday-IsTime (suc zero) below = record {
  is_match = refl;
  is_in_month = λ e. cc;
  is_on_day = λ sel e o. cc;
}
monday-IsTime (suc (suc zero)) below = record {
  is_match = refl;
  is_in_month = λ e. omega arith;
  is_on_day =
      λ sel e o. subst (λ s. OnDay sundays s monday (pos 9)) (some_inj.0 o) (pos 1, refl, refl);
}
monday-IsTime (suc (suc (suc zero))) below = record {
  is_match = refl;
  is_in_month = λ e. cc;
  is_on_day = λ sel e o. cc;
}
monday-IsTime (suc (suc (suc (suc zero)))) below = record {
  is_match = refl;
  is_in_month = λ e. cc;
  is_on_day = λ sel e o. cc;
}
monday-IsTime (suc (suc (suc (suc (suc p))))) below = absurd (omega (arith, below))

monday-IsDate : IsDate sundays mondays monday
unfolding get_end_of_month_day
monday-IsDate = record {
  in_range = λ p below.
      in_ranges 2024 1 9 0 30 p below (omega arith, omega arith) (omega arith, omega arith)
        (omega arith, omega arith) (omega arith, omega arith);
  in_month = omega arith;
}

find_matching_positions-Same_example :
    (w : Values) × (find_matching_positions sundays mondays k_max_depth year monday (pos 0)
      ≡ ok (some w))
    × Same max_position monday w
find_matching_positions-Same_example =
    find_matching_positions-Same sundays mondays sundays-IsCalendar sundays-HasDates
      mondays-IsProper.0 mondays-IsProper.1 monday monday-IsTime monday-IsDate
