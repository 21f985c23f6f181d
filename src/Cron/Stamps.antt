-- ===== src/Cron/Stamps.antt =====
-- cron/StandardCrontabItem.cpp: from the first local time that an item matches to a timestamp, over the
-- times that daylight-saving changes skip or repeat. The code may call itself without end, and so it
-- runs on fuel here; none is out of fuel. The ranges that it bisects are searched from their beginning.
use Prim.Native.Nat.{bit_and}
use bistro.Base.{
  ℕ, zero, suc, ◌*◌, ◌==◌, ltb, Bool, true, false, not, ◌&&◌, ◌||◌, Option, none, some, List, [],
  ◌∷◌, Outcome, ok, require, ◌>>=◌, ◌>>◌, if◌then◌else◌, ◌⊎◌, inl, inr,
}
use bistro.Base.Int.{ℤ, pos, pos_part, ◌+ℤ◌, ◌-ℤ◌, ltb_ℤ, eqb_ℤ}
use bistro.Cron.{rem_ℤ}
use bistro.Cron.Standard.{StandardCrontabItem, year}
use bistro.Cron.Search.{Calendar, Values, find_matching_positions, k_max_depth}
use bistro.Cron.Clock.{
  TimeZone, UtcTimestampsForLocalTime, to_local, to_utc, is_not_a_time, is_ambiguous, get_unique,
  get_both_in_order,
}

-- boost::posix_time: the values and the seconds of a local time, and the local time of values.
pub record Labels : Type 0 where
  pub values_of : ℤ → Values
  pub seconds_of : ℤ → ℤ
  pub label_of : Values → Outcome ℤ

unfoldable pub is_before_rewind : ℤ → UtcTimestampsForLocalTime → Outcome Bool
is_before_rewind t ts =
    require (eqb_ℤ t ts.dst_time || eqb_ℤ t ts.non_dst_time) "not in"
    >> (require (is_ambiguous ts) "not ambiguous in local tz"
        >> ok
            (eqb_ℤ t (if ltb_ℤ ts.non_dst_time ts.dst_time then ts.non_dst_time else ts.dst_time)))

-- The first of n integers from a on that passes a test, or the one after them.
unfoldable pub first_from : (ℤ → Outcome Bool) → ℕ → ℤ → Outcome ℤ
first_from test zero a = ok a
first_from test (suc n) a =
    test a >>= λ passes. elim passes [ true ↦ ok a | false ↦ first_from test n (a +ℤ pos 1) ]

abbrev pub distance : ℤ → ℤ → ℕ
distance a b = pos_part (b -ℤ a)

module _ (zone : TimeZone) where
  unfoldable pub is_time_before_rewind : ℤ → Outcome Bool
  is_time_before_rewind t = to_utc zone (to_local zone t) >>= is_before_rewind t

  unfoldable pub find_rewind_time : ℤ → ℤ → Outcome ℤ
  find_rewind_time a b = is_time_before_rewind a >>= λ early. is_time_before_rewind b >>= λ late.
      require (early && not late) "bad ambiguous pair: "
      >> (first_from (λ t. is_time_before_rewind t >>= λ r. ok (not r)) (distance a (b +ℤ pos 1)) a
          >>= λ rewind_t. require (not (ltb_ℤ b rewind_t)) "No DST rewind" >> ok rewind_t)

  -- The loop over hours, each with the check that it is within a day.
  unfoldable pub find_time_before : List ℕ → ℤ → Outcome ℤ
  find_time_before [] not_a_time = ok not_a_time
  find_time_before (h ∷ hours) not_a_time =
      let first_pt = not_a_time -ℤ pos (3600 * h) in
      to_utc zone first_pt >>= λ ts.
      if not (is_not_a_time ts)
      then ok first_pt
      else (require (not (ltb 24 h)) "No valid time found 24h before"
          >> find_time_before hours not_a_time)

  unfoldable pub find_pre_skip_utc_time : ℤ → Outcome ℤ
  find_pre_skip_utc_time not_a_time =
      find_time_before (1 ∷ 2 ∷ 3 ∷ 6 ∷ 12 ∷ 24 ∷ 25 ∷ []) not_a_time >>= λ first_pt.
      first_from (λ pt. to_utc zone pt >>= λ ts. ok (is_not_a_time ts))
        (distance first_pt not_a_time) first_pt
      >>= λ first_non_time. to_utc zone (first_non_time -ℤ pos 1) >>= get_unique

-- MatchComputeState, for a local time.
unfoldable pub values_at : Labels → ℤ → Outcome Values
values_at labels local_pt =
    require (eqb_ℤ (labels.seconds_of local_pt) (pos 0)) "nonzero seconds in "
    >> ok (labels.values_of local_pt)

-- A timestamp that goes back in time is an exception.
unfoldable pub not_earlier : ℤ → Option (Option ℤ) → Outcome (Option (Option ℤ))
not_earlier t (some (some found)) =
    require (not (ltb_ℤ found t)) "findFirstMatch went back in time " >> ok (some (some found))
not_earlier t found = ok found

abbrev pub max_time : UtcTimestampsForLocalTime → ℤ
max_time ts = if ltb_ℤ ts.dst_time ts.non_dst_time then ts.non_dst_time else ts.dst_time

unfoldable pub round_up : ℤ → ℤ
round_up t = t +ℤ rem_ℤ (pos 60 -ℤ rem_ℤ t (pos 60)) (pos 60)

abbrev pub has_bit : ℕ → ℕ → Bool
has_bit bits b = not (bit_and bits b == 0)

module _ (zone : TimeZone) where
  -- Where the search must start again: the beginning of the ambiguous times around t, if the match is
  -- after them and t is in them, before the clock is put back.
  unfoldable pub rewound :
      ℤ → UtcTimestampsForLocalTime → UtcTimestampsForLocalTime → Outcome (Option ℤ)
  rewound t ts utc_ts = elim (is_ambiguous ts) [
    | false ↦ ok none
    | true ↦ is_before_rewind t ts >>= λ before. elim before [
      | false ↦ ok none
      | true ↦ get_both_in_order ts >>= λ (early, late).
          find_rewind_time zone early late >>= λ rewind_t.
          let first_ambiguous = early -ℤ (late -ℤ rewind_t) in
          let first_unambiguous = late +ℤ (rewind_t -ℤ early) in
          ok (
            if not (eqb_ℤ t first_ambiguous) && not (ltb_ℤ (max_time utc_ts) first_unambiguous)
            then some first_ambiguous
            else none)
    ]
  ]

module _ (zone : TimeZone) (labels : Labels) (cal : Calendar) (item : StandardCrontabItem) where
  -- The local time that is found, with its timestamps.
  unfoldable pub find_utc_timestamps_for_first_match :
      ℕ → ℤ → Outcome (Option (Option (ℤ × UtcTimestampsForLocalTime)))
  find_utc_timestamps_for_first_match zero t = ok none
  find_utc_timestamps_for_first_match (suc fuel) t =
      let local_pt = to_local zone t in
      values_at labels local_pt >>= λ start.
      find_matching_positions cal item k_max_depth year start (pos 0) >>= λ found. elim found [
        | none ↦ ok (some none)
        | some vals ↦ labels.label_of vals >>= λ match_pt. to_utc zone match_pt >>= λ utc_ts.
            to_utc zone local_pt >>= λ ts. rewound zone t ts utc_ts >>= λ again. elim again [
              | none ↦ ok (some (some (match_pt, utc_ts)))
              | some first ↦ find_utc_timestamps_for_first_match fuel first
            ]
      ]

  -- What is done with a local time that is found: a timestamp, or another search from a later one.
  unfoldable pub choose : ℤ → ℤ → UtcTimestampsForLocalTime → Outcome (ℤ ⊎ ℤ)
  choose t match_pt utc_ts = elim (is_not_a_time utc_ts) [
    | true ↦ find_pre_skip_utc_time zone match_pt >>= λ pre_skip.
        require (not (ltb_ℤ pre_skip t)) "Input was after skip: "
        >> ok (if has_bit item.dst_fixes 1 then inl pre_skip else inr (pre_skip +ℤ pos 1))
    | false ↦ elim (is_ambiguous utc_ts) [
      | true ↦ get_both_in_order utc_ts >>= λ (early, late). ok (
          if not (ltb_ℤ early t)
          then if has_bit item.dst_fixes 2 then inl early else inr (early +ℤ pos 1)
          else if has_bit item.dst_fixes 4
          then inl late
          else inr (late +ℤ pos 1))
      | false ↦ get_unique utc_ts >>= λ unique. ok (inl unique)
    ]
  ]

  unfoldable pub find_first_match_impl : ℕ → ℤ → Outcome (Option (Option ℤ))
  find_first_match_impl zero t = ok none
  find_first_match_impl (suc fuel) t =
      let at = round_up t in
      find_utc_timestamps_for_first_match (suc fuel) at >>= λ found. elim found [
        | none ↦ ok none
        | some nothing ↦ elim nothing [
          | none ↦ ok (some none)
          | some (match_pt, utc_ts) ↦ choose at match_pt utc_ts >>= λ chosen. elim chosen [
            | inl result ↦ ok (some (some result))
            | inr later ↦ find_first_match_impl fuel later >>= not_earlier later
          ]
        ]
      ]

  unfoldable pub find_first_timestamp : ℕ → ℤ → Outcome (Option (Option ℤ))
  find_first_timestamp fuel t = find_first_match_impl fuel t >>= not_earlier t
