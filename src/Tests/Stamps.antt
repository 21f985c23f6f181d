-- ===== src/Tests/Stamps.antt =====
-- A clock that is put forward from 2:00 to 3:00 on the day of the epoch, and one that is put back from
-- 2:00 to 1:00. An item matches at half past 1 and half past 2 of any day.
use bistro.Base.{
  ◌==◌, if◌then◌else◌, ℕ, ◌+◌, ◌*◌, ◌/◌, ◌%◌, ◌≡◌, refl, true, false, none, some, List, [], ◌∷◌, ok,
}
use bistro.Base.Int.{ℤ, pos, ◌+ℤ◌, ◌-ℤ◌, pos_part, ltb_ℤ}
use bistro.Cron.{CrontabSelector}
use bistro.Cron.Standard.{StandardCrontabItem}
use bistro.Cron.Search.{Calendar}
use bistro.Cron.Clock.{TimeZone, LocalDateTime}
use bistro.Cron.Stamps.{Labels, find_first_timestamp}

abbrev january : Labels
january = record {
  values_of = λ l q.
      if q == 0
      then pos 1970
      else if q == 1
      then pos 1
      else if q == 2
      then pos (1 + pos_part l / 86400)
      else if q == 3
      then pos (pos_part l / 3600 % 24)
      else pos (pos_part l / 60 % 60);
  seconds_of = λ l. pos (pos_part l % 60);
  label_of = λ vals. ok (
      pos (86400 * pos_part (vals 2) + 3600 * pos_part (vals 3) + 60 * pos_part (vals 4))
      -ℤ pos 86400);
}

abbrev any_day : Calendar
any_day = record { day_of_week = λ y m x. ok (pos 0); end_of_month_day = λ y m. pos 31 }

abbrev spans : ℕ → ℕ → List ℤ → CrontabSelector
spans from to chosen = record {
  sorted_values = chosen;
  start = pos from;
  end_ = pos to;
  period = pos 1;
  min_val = pos from;
  max_val = pos to;
}

abbrev half_past : ℕ → StandardCrontabItem
half_past fixes = record {
  dst_fixes = fixes;
  selectors = λ p.
      if p == 0
      then spans 1969 9999 []
      else if p == 1
      then spans 1 12 []
      else if p == 2
      then spans 1 31 []
      else if p == 3
      then spans 0 23 (pos 1 ∷ pos 2 ∷ [])
      else spans 0 59 (pos 30 ∷ []);
  maybe_day_of_week_sel = none;
}

abbrev forward : TimeZone
forward =
    TimeZone.boost_zone
      (λ label is_dst.
        if ltb_ℤ label (pos 7200)
        then if is_dst then LocalDateTime.dst_not_valid else LocalDateTime.valid false label
        else if ltb_ℤ label (pos 10800)
        then LocalDateTime.time_label_invalid
        else if is_dst
        then LocalDateTime.valid true (label -ℤ pos 3600)
        else LocalDateTime.dst_not_valid)
      (λ t. if ltb_ℤ t (pos 7200) then t else t +ℤ pos 3600)

abbrev back : TimeZone
back =
    TimeZone.boost_zone
      (λ label is_dst.
        if is_dst
        then if ltb_ℤ label (pos 7200)
          then LocalDateTime.valid true (label -ℤ pos 3600)
          else LocalDateTime.dst_not_valid
        else if ltb_ℤ label (pos 3600)
        then LocalDateTime.dst_not_valid
        else LocalDateTime.valid false label)
      (λ t. if ltb_ℤ t (pos 3600) then t +ℤ pos 3600 else t)

skip_lem :
    find_first_timestamp forward january any_day (half_past 6) 3 (pos 5401)
    ≡ ok (some (some (pos 88200)))
unfolding find_first_timestamp bistro.Cron.Stamps.find_first_match_impl
    bistro.Cron.Stamps.find_utc_timestamps_for_first_match bistro.Cron.Stamps.values_at
    bistro.Cron.Clock.to_local bistro.Cron.Stamps.round_up ◌+ℤ◌ ◌-ℤ◌
    bistro.Cron.Search.find_matching_positions bistro.Cron.Search.steps_from
    bistro.Cron.Search.find_step bistro.Cron.Search.next_value_at bistro.Cron.find_first_match
    bistro.Cron.Search.move_on bistro.Cron.Search.set_val bistro.Cron.Search.get_end_of_month_day
    bistro.Cron.lower_bound bistro.Cron.Clock.boost_timestamps bistro.Cron.Clock.get_both_in_order
    bistro.Cron.Clock.get_unique bistro.Cron.Clock.is_ambiguous bistro.Cron.Clock.is_not_a_time
    bistro.Cron.Clock.saved bistro.Cron.Clock.to_utc bistro.Cron.Clock.zone_timestamps
    bistro.Cron.Search.carry_from bistro.Cron.Search.reset_after bistro.Cron.Stamps.choose
    bistro.Cron.Stamps.find_pre_skip_utc_time bistro.Cron.Stamps.find_rewind_time
    bistro.Cron.Stamps.find_time_before bistro.Cron.Stamps.first_from
    bistro.Cron.Stamps.is_before_rewind bistro.Cron.Stamps.is_time_before_rewind
    bistro.Cron.Stamps.not_earlier bistro.Cron.Stamps.rewound
skip_lem = refl

unskip_lem :
    find_first_timestamp forward january any_day (half_past 7) 3 (pos 5401)
    ≡ ok (some (some (pos 7199)))
unfolding find_first_timestamp bistro.Cron.Stamps.find_first_match_impl
    bistro.Cron.Stamps.find_utc_timestamps_for_first_match bistro.Cron.Stamps.values_at
    bistro.Cron.Clock.to_local bistro.Cron.Stamps.round_up ◌+ℤ◌ ◌-ℤ◌
    bistro.Cron.Search.find_matching_positions bistro.Cron.Search.steps_from
    bistro.Cron.Search.find_step bistro.Cron.Search.next_value_at bistro.Cron.find_first_match
    bistro.Cron.Search.move_on bistro.Cron.Search.set_val bistro.Cron.Search.get_end_of_month_day
    bistro.Cron.lower_bound bistro.Cron.Clock.boost_timestamps bistro.Cron.Clock.get_both_in_order
    bistro.Cron.Clock.get_unique bistro.Cron.Clock.is_ambiguous bistro.Cron.Clock.is_not_a_time
    bistro.Cron.Clock.saved bistro.Cron.Clock.to_utc bistro.Cron.Clock.zone_timestamps
    bistro.Cron.Search.carry_from bistro.Cron.Search.reset_after bistro.Cron.Stamps.choose
    bistro.Cron.Stamps.find_pre_skip_utc_time bistro.Cron.Stamps.find_rewind_time
    bistro.Cron.Stamps.find_time_before bistro.Cron.Stamps.first_from
    bistro.Cron.Stamps.is_before_rewind bistro.Cron.Stamps.is_time_before_rewind
    bistro.Cron.Stamps.not_earlier bistro.Cron.Stamps.rewound
unskip_lem = refl

use_early_lem :
    find_first_timestamp back january any_day (half_past 6) 3 (pos 0) ≡ ok (some (some (pos 1800)))
unfolding find_first_timestamp bistro.Cron.Stamps.find_first_match_impl
    bistro.Cron.Stamps.find_utc_timestamps_for_first_match bistro.Cron.Stamps.values_at
    bistro.Cron.Clock.to_local bistro.Cron.Stamps.round_up ◌+ℤ◌ ◌-ℤ◌
    bistro.Cron.Search.find_matching_positions bistro.Cron.Search.steps_from
    bistro.Cron.Search.find_step bistro.Cron.Search.next_value_at bistro.Cron.find_first_match
    bistro.Cron.Search.move_on bistro.Cron.Search.set_val bistro.Cron.Search.get_end_of_month_day
    bistro.Cron.lower_bound bistro.Cron.Clock.boost_timestamps bistro.Cron.Clock.get_both_in_order
    bistro.Cron.Clock.get_unique bistro.Cron.Clock.is_ambiguous bistro.Cron.Clock.is_not_a_time
    bistro.Cron.Clock.saved bistro.Cron.Clock.to_utc bistro.Cron.Clock.zone_timestamps
    bistro.Cron.Search.carry_from bistro.Cron.Search.reset_after bistro.Cron.Stamps.choose
    bistro.Cron.Stamps.find_pre_skip_utc_time bistro.Cron.Stamps.find_rewind_time
    bistro.Cron.Stamps.find_time_before bistro.Cron.Stamps.first_from
    bistro.Cron.Stamps.is_before_rewind bistro.Cron.Stamps.is_time_before_rewind
    bistro.Cron.Stamps.not_earlier bistro.Cron.Stamps.rewound
use_early_lem = refl

use_late_lem :
    find_first_timestamp back january any_day (half_past 6) 3 (pos 1801)
    ≡ ok (some (some (pos 5400)))
unfolding find_first_timestamp bistro.Cron.Stamps.find_first_match_impl
    bistro.Cron.Stamps.find_utc_timestamps_for_first_match bistro.Cron.Stamps.values_at
    bistro.Cron.Clock.to_local bistro.Cron.Stamps.round_up ◌+ℤ◌ ◌-ℤ◌
    bistro.Cron.Search.find_matching_positions bistro.Cron.Search.steps_from
    bistro.Cron.Search.find_step bistro.Cron.Search.next_value_at bistro.Cron.find_first_match
    bistro.Cron.Search.move_on bistro.Cron.Search.set_val bistro.Cron.Search.get_end_of_month_day
    bistro.Cron.lower_bound bistro.Cron.Clock.boost_timestamps bistro.Cron.Clock.get_both_in_order
    bistro.Cron.Clock.get_unique bistro.Cron.Clock.is_ambiguous bistro.Cron.Clock.is_not_a_time
    bistro.Cron.Clock.saved bistro.Cron.Clock.to_utc bistro.Cron.Clock.zone_timestamps
    bistro.Cron.Search.carry_from bistro.Cron.Search.reset_after bistro.Cron.Stamps.choose
    bistro.Cron.Stamps.find_pre_skip_utc_time bistro.Cron.Stamps.find_rewind_time
    bistro.Cron.Stamps.find_time_before bistro.Cron.Stamps.first_from
    bistro.Cron.Stamps.is_before_rewind bistro.Cron.Stamps.is_time_before_rewind
    bistro.Cron.Stamps.not_earlier bistro.Cron.Stamps.rewound
use_late_lem = refl

only_early_lem :
    find_first_timestamp back january any_day (half_past 2) 3 (pos 1801)
    ≡ ok (some (some (pos 9000)))
unfolding find_first_timestamp bistro.Cron.Stamps.find_first_match_impl
    bistro.Cron.Stamps.find_utc_timestamps_for_first_match bistro.Cron.Stamps.values_at
    bistro.Cron.Clock.to_local bistro.Cron.Stamps.round_up ◌+ℤ◌ ◌-ℤ◌
    bistro.Cron.Search.find_matching_positions bistro.Cron.Search.steps_from
    bistro.Cron.Search.find_step bistro.Cron.Search.next_value_at bistro.Cron.find_first_match
    bistro.Cron.Search.move_on bistro.Cron.Search.set_val bistro.Cron.Search.get_end_of_month_day
    bistro.Cron.lower_bound bistro.Cron.Clock.boost_timestamps bistro.Cron.Clock.get_both_in_order
    bistro.Cron.Clock.get_unique bistro.Cron.Clock.is_ambiguous bistro.Cron.Clock.is_not_a_time
    bistro.Cron.Clock.saved bistro.Cron.Clock.to_utc bistro.Cron.Clock.zone_timestamps
    bistro.Cron.Search.carry_from bistro.Cron.Search.reset_after bistro.Cron.Stamps.choose
    bistro.Cron.Stamps.find_pre_skip_utc_time bistro.Cron.Stamps.find_rewind_time
    bistro.Cron.Stamps.find_time_before bistro.Cron.Stamps.first_from
    bistro.Cron.Stamps.is_before_rewind bistro.Cron.Stamps.is_time_before_rewind
    bistro.Cron.Stamps.not_earlier bistro.Cron.Stamps.rewound
only_early_lem = refl
