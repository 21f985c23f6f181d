-- ===== src/Cron/Standard.antt =====
-- cron/StandardCrontabItem.{h,cpp}: the constructor, and the search for the first local time that an
-- item matches. A position is its number, and the values of a search are a function of it. What
-- boost::gregorian knows of dates is a parameter, and so is folly::dynamic::asInt.
use Prim.Native.Nat.{bit_and, bit_or}
use text.Mathlib.Text.{◌==◌ as str_eq}
use bistro.Base.{
  ℕ, ◌==◌, String, Bool, true, false, not, ◌&&◌, ◌||◌, Option, none, some, Outcome, ok, throw,
  require, ◌>>=◌, ◌>>◌, if◌then◌else◌,
}
use bistro.Base.Int.{ℤ, pos}
use bistro.Base.Dynamic.{Dynamic, Items, Fields, get_ptr}
use bistro.Cron.{CrontabSelector, make_selector}

-- StandardCrontabItem::Position
abbrev pub year : ℕ
year = 0

abbrev pub month : ℕ
month = 1

abbrev pub day_of_month : ℕ
day_of_month = 2

abbrev pub hour : ℕ
hour = 3

abbrev pub minute : ℕ
minute = 4

abbrev pub max_position : ℕ
max_position = 5

pub record StandardCrontabItem : Type 0 where
  pub dst_fixes : ℕ
  pub selectors : ℕ → CrontabSelector
  pub maybe_day_of_week_sel : Option CrontabSelector

unfoldable pub parse_month_name : String → Outcome ℤ
parse_month_name s =
    if str_eq s "jan" || str_eq s "january"
    then ok (pos 1)
    else if str_eq s "feb" || str_eq s "february"
    then ok (pos 2)
    else if str_eq s "mar" || str_eq s "march"
    then ok (pos 3)
    else if str_eq s "apr" || str_eq s "april"
    then ok (pos 4)
    else if str_eq s "may"
    then ok (pos 5)
    else if str_eq s "jun" || str_eq s "june"
    then ok (pos 6)
    else if str_eq s "jul" || str_eq s "july"
    then ok (pos 7)
    else if str_eq s "aug" || str_eq s "august"
    then ok (pos 8)
    else if str_eq s "sep" || str_eq s "september"
    then ok (pos 9)
    else if str_eq s "oct" || str_eq s "october"
    then ok (pos 10)
    else if str_eq s "nov" || str_eq s "november"
    then ok (pos 11)
    else if str_eq s "dec" || str_eq s "december"
    then ok (pos 12)
    else throw "Unknown month: "

unfoldable pub parse_day_of_week : String → Outcome ℤ
parse_day_of_week s =
    if str_eq s "sun" || str_eq s "sunday"
    then ok (pos 1)
    else if str_eq s "mon" || str_eq s "monday"
    then ok (pos 2)
    else if str_eq s "tue" || str_eq s "tuesday"
    then ok (pos 3)
    else if str_eq s "wed" || str_eq s "wednesday"
    then ok (pos 4)
    else if str_eq s "thu" || str_eq s "thursday"
    then ok (pos 5)
    else if str_eq s "fri" || str_eq s "friday"
    then ok (pos 6)
    else if str_eq s "sat" || str_eq s "saturday"
    then ok (pos 7)
    else throw "Unknown day of week: "

abbrev pub k_days_in_week : ℤ
k_days_in_week = pos 7

-- getDefault(key): an empty object if the key is missing.
unfoldable pub get_default : String → Fields → Dynamic
get_default key fields = elim (get_ptr key fields) [ none ↦ Dynamic.object Fields.end | some d ↦ d ]

-- The policies that have a fix so far, and the fixes.
unfoldable pub add_policy : ℕ → ℕ → ℕ × ℕ → Outcome (ℕ × ℕ)
add_policy policy fixes (policies, dst_fixes) =
    require (bit_and policies policy == 0) "DST policy already had a fix"
    >> ok (bit_or policies policy, bit_or dst_fixes fixes)

unfoldable pub add_fix : Dynamic → ℕ × ℕ → Outcome (ℕ × ℕ)
add_fix (Dynamic.string name) =
    if str_eq name "skip"
    then add_policy 1 0
    else if str_eq name "unskip"
    then add_policy 1 1
    else if str_eq name "repeat_use_only_early"
    then add_policy 2 2
    else if str_eq name "repeat_use_only_late"
    then add_policy 2 4
    else if str_eq name "repeat_use_both"
    then add_policy 2 6
    else λ _. throw "Unknown dst_fixes entry: "
add_fix _ = λ _. throw "Unknown dst_fixes entry: "

unfoldable pub add_fixes : Items → ℕ × ℕ → Outcome (ℕ × ℕ)
add_fixes Items.nil fixes = ok fixes
add_fixes (Items.item d ds) fixes = add_fix d fixes >>= add_fixes ds

unfoldable pub parse_dst_fixes : Fields → Outcome ℕ
parse_dst_fixes fields = elim (get_ptr "dst_fixes" fields) [
  | some (Dynamic.array ds) ↦ add_fixes ds (0, 0) >>= λ (policies, dst_fixes).
      require (bit_and policies 3 == 3) "\"dst_fixes\" needs DST policy rules" >> ok dst_fixes
  | _ ↦ throw "Specify DST handling in the \"dst_fixes\" list"
]

-- The loop of the constructor over the keys.
unfoldable pub check_keys : Fields → Outcome (Unit {0})
check_keys Fields.end = ok tt
check_keys (Fields.field key d fields) =
    require
      (str_eq key "day_of_month"
        || str_eq key "day_of_week"
        || str_eq key "minute"
        || str_eq key "year"
        || str_eq key "month"
        || str_eq key "hour"
        || str_eq key "dst_fixes")
      "Unknown crontab item key: "
    >> check_keys fields

abbrev pub has_key : String → Fields → Bool
has_key key fields = elim (get_ptr key fields) [ none ↦ false | some d ↦ true ]

module _ (as_int : Dynamic → Outcome ℤ) where
  unfoldable pub maybe_make_day_of_week_selector : Fields → Outcome (Option CrontabSelector)
  maybe_make_day_of_week_selector fields = elim (get_ptr "day_of_week" fields) [
    | none ↦ ok none
    | some d ↦ make_selector as_int (some parse_day_of_week) (pos 1) k_days_in_week d >>= λ sel.
        ok (some sel)
  ]

  abbrev pub selectors_at :
      CrontabSelector
      → CrontabSelector
      → CrontabSelector
      → CrontabSelector
      → CrontabSelector
      → ℕ
      → CrontabSelector
  selectors_at y m d h n p =
      if p == year
      then y
      else if p == month
      then m
      else if p == day_of_month
      then d
      else if p == hour
      then h
      else n

  -- The constructor.
  unfoldable pub make_item : Fields → Outcome StandardCrontabItem
  make_item d = make_selector as_int none (pos 1969) (pos 9999) (get_default "year" d) >>= λ y.
      make_selector as_int (some parse_month_name) (pos 1) (pos 12) (get_default "month" d) >>= λ m.
      make_selector as_int none (pos 1) (pos 31) (get_default "day_of_month" d) >>= λ dom.
      make_selector as_int none (pos 0) (pos 23) (get_default "hour" d) >>= λ h.
      make_selector as_int none (pos 0) (pos 59) (get_default "minute" d) >>= λ n.
      maybe_make_day_of_week_selector d >>= λ dow. parse_dst_fixes d >>= λ dst_fixes.
      check_keys d
      >> (require (not (has_key "day_of_month" d && has_key "day_of_week" d))
            "Cannot have both day_of_month and day_of_week"
          >> (require (has_key "minute" d) "Must have \"minute\" selector"
              >> ok (record {
                dst_fixes = dst_fixes;
                selectors = selectors_at y m dom h n;
                maybe_day_of_week_sel = dow;
              })))
