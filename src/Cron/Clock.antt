-- ===== src/Cron/Clock.antt =====
-- cron/utils/date_time.{h,cpp}: the timestamps of a local time. A local time is the number of seconds
-- that its label is away from that of the epoch. What boost::local_time and the C library know of time
-- zones is a parameter.
use bistro.Base.{
  Bool, true, false, not, ◌&&◌, ◌||◌, Option, none, some, Outcome, ok, throw, require, ◌>>=◌, ◌>>◌,
  if◌then◌else◌,
}
use bistro.Base.Int.{ℤ, pos, negsuc, ltb_ℤ, eqb_ℤ}

-- What boost::local_time::local_date_time makes of a label and a guess of `is_dst`.
pub data LocalDateTime : Type 0 where
  dst_not_valid time_label_invalid : LocalDateTime
  valid : Bool → ℤ → LocalDateTime

-- A time zone of boost, or that of the system: mktime and localtime_r, with tm_isdst.
pub data TimeZone : Type 0 where
  boost_zone : (ℤ → Bool → LocalDateTime) → (ℤ → ℤ) → TimeZone
  system_zone : (ℤ → Bool → ℤ) → (ℤ → Option (ℤ × ℤ)) → (ℤ → ℤ) → TimeZone

-- utcPTimeToTimezoneLocalPTime
unfoldable pub to_local : TimeZone → ℤ → ℤ
to_local (boost_zone make local) t = local t
to_local (system_zone mktime localtime local) t = local t

pub record UtcTimestampsForLocalTime : Type 0 where
  pub dst_time : ℤ
  pub non_dst_time : ℤ

abbrev pub k_not_a_time : ℤ
k_not_a_time = negsuc 0

unfoldable pub is_not_a_time : UtcTimestampsForLocalTime → Bool
is_not_a_time ts = eqb_ℤ ts.dst_time k_not_a_time && eqb_ℤ ts.non_dst_time k_not_a_time

unfoldable pub is_ambiguous : UtcTimestampsForLocalTime → Bool
is_ambiguous ts = not (eqb_ℤ ts.dst_time k_not_a_time) && not (eqb_ℤ ts.non_dst_time k_not_a_time)

unfoldable pub get_unique : UtcTimestampsForLocalTime → Outcome ℤ
get_unique ts =
    if is_ambiguous ts
    then throw "Local time maps to both"
    else if not (eqb_ℤ ts.dst_time k_not_a_time)
    then ok ts.dst_time
    else if not (eqb_ℤ ts.non_dst_time k_not_a_time)
    then ok ts.non_dst_time
    else throw "This local time was skipped due to DST"

unfoldable pub get_both_in_order : UtcTimestampsForLocalTime → Outcome (ℤ × ℤ)
get_both_in_order ts =
    require (is_ambiguous ts) "not ambiguous"
    >> ok (
        if ltb_ℤ ts.dst_time ts.non_dst_time
        then (ts.dst_time, ts.non_dst_time)
        else (ts.non_dst_time, ts.dst_time))

abbrev pub no_timestamps : UtcTimestampsForLocalTime
no_timestamps = record { dst_time = k_not_a_time; non_dst_time = k_not_a_time }

-- save_timestamp_if_valid of the boost time zones; none for a label that was skipped.
unfoldable pub saved : LocalDateTime → Bool → Option ℤ
saved dst_not_valid is_dst = some k_not_a_time
saved time_label_invalid is_dst = none
saved (valid true t) is_dst = some (if is_dst then t else k_not_a_time)
saved (valid false t) is_dst = some (if is_dst then k_not_a_time else t)

unfoldable pub boost_timestamps : (ℤ → Bool → LocalDateTime) → ℤ → UtcTimestampsForLocalTime
boost_timestamps make label = elim (saved (make label true) true) [
  | none ↦ no_timestamps
  | some dst ↦ elim (saved (make label false) false) [
    | none ↦ record { dst_time = dst; non_dst_time = k_not_a_time }
    | some non_dst ↦ record { dst_time = dst; non_dst_time = non_dst }
  ]
]

-- A guess of the system's time zone: the timestamp, whether tm_isdst was negative, and whether there
-- was no timestamp.
pub record Guess : Type 0 where
  pub time : ℤ
  pub is_negative : Bool
  pub is_missing : Bool

unfoldable pub guess : (ℤ → Bool → ℤ) → (ℤ → Option (ℤ × ℤ)) → ℤ → Bool → Outcome Guess
guess mktime localtime label is_dst =
    let t = mktime label is_dst in
    if eqb_ℤ t (negsuc 0)
    then ok (record { time = k_not_a_time; is_negative = false; is_missing = true })
    else elim (localtime t) [
      | none ↦ throw "localtime_r error"
      | some (new_label, new_isdst) ↦ ok (record {
        time =
            if eqb_ℤ label new_label
              && not (eqb_ℤ new_isdst (pos 0) && is_dst || ltb_ℤ (pos 0) new_isdst && not is_dst)
            then t
            else k_not_a_time;
        is_negative = ltb_ℤ new_isdst (pos 0);
        is_missing = false;
      })
    ]

unfoldable pub system_timestamps :
    (ℤ → Bool → ℤ) → (ℤ → Option (ℤ × ℤ)) → ℤ → Outcome UtcTimestampsForLocalTime
system_timestamps mktime localtime label = guess mktime localtime label false >>= λ std.
    guess mktime localtime label true >>= λ dst.
    let res : UtcTimestampsForLocalTime = record { dst_time = dst.time; non_dst_time = std.time } in
    require (not ((std.is_negative || dst.is_negative) && not (is_ambiguous res)))
      "negative tm_isdst but time label is unambiguous"
    >> ((if not std.is_missing && not dst.is_missing
          then require
              (not
                (std.is_negative && not dst.is_negative || dst.is_negative && not std.is_negative))
              "one tm_isdst negative but not both"
          else require (not (std.is_missing && dst.is_missing))
              "mktime failed for both is_dst choices")
        >> ok res)

unfoldable pub zone_timestamps : TimeZone → ℤ → Outcome UtcTimestampsForLocalTime
zone_timestamps (boost_zone make local) label = ok (boost_timestamps make label)
zone_timestamps (system_zone mktime localtime local) label =
    system_timestamps mktime localtime label

-- timezoneLocalPTimeToUTCTimestamps
unfoldable pub to_utc : TimeZone → ℤ → Outcome UtcTimestampsForLocalTime
to_utc zone label = zone_timestamps zone label >>= λ res.
    require (not (is_ambiguous res && eqb_ℤ res.dst_time res.non_dst_time))
      "local time maps regardless of tm_isdst"
    >> ok res
