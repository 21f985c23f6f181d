-- ===== src/Cron/Made.antt =====
-- The items that the constructor makes.
use bistro.Base.{
  ℕ, ◌-◌, ◌≤◌, ◌<◌, Bool, true, false, not, ◌&&◌, ◌≡◌, ◌⊎◌, inl, inr, sym, ap, subst, ◌∙◌, Option,
  none, some, String, is_nil, same, Bool-cases, Option-cases, Outcome, ok, require, >>=-eq-ok,
  >>-eq-ok, ok-injective, arith,
}
use mathlib.Core.Option.{some_inj}
use native.Mathlib.Nat.{mod-one}
use bistro.Cron.Multiples.{ -ℤ-pos}
use bistro.Base.Int.{ℤ, pos, ◌≤ℤ◌, pos_part, neg_part, ltb_ℤ, int_eq}
use bistro.Base.Dynamic.{Dynamic, Fields, get_ptr}
use bistro.Cron.{CrontabSelector, all_values, make_selector, parse_fields}
use bistro.Cron.Matches.{matches, IsSelector}
use bistro.Cron.Built.{IsBuilt, make_selector-IsBuilt}
use bistro.Cron.Standard.{
  StandardCrontabItem, max_position, parse_month_name, parse_day_of_week, get_default,
  maybe_make_day_of_week_selector, selectors_at, make_item, parse_dst_fixes, check_keys, has_key,
}
use bistro.Cron.Days.{nonneg}
use bistro.Cron.Fits.{IsProper, require-holds}
use bistro.Cron.Dates.{IsDated}

-- The ranges of an item's selectors are not empty, which the constructor does not check.
pub record HasRanges (item : StandardCrontabItem) : Type 0 where
  pub has_values : (p : ℕ) → p < max_position → (item.selectors p).start ≤ℤ (item.selectors p).end_
  pub has_days :
      (sel : CrontabSelector) → item.maybe_day_of_week_sel ≡ some sel → sel.start ≤ℤ sel.end_

module _ (as_int : Dynamic → Outcome ℤ) (str_to_value : Option (String → Outcome ℤ))
    (min_val max_val : ℤ) (s : CrontabSelector)
    (built : IsBuilt as_int str_to_value min_val max_val s) where
  IsBuilt-matches : (x : ℤ) → matches s x ≡ true → (min_val ≤ℤ x) × (x ≤ℤ max_val)
  unfolding matches
  IsBuilt-matches x m = elim (Bool-cases (is_nil s.sorted_values)) [
    | inr t ↦ built.is_permitted x (rw (t) at m)
    | inl t ↦
        let m' = rw (t) at m in
        let (low, _) = built.starts in
        let (_, high) = built.ends in
        let late : ltb_ℤ x s.start ≡ false = ground (arith, m') in
        let early : ltb_ℤ s.end_ x ≡ false = ground (arith, m') in
        (ground (arith, low, late), ground (arith, high, early))
  ]

  IsBuilt-IsSelector : pos 0 ≤ℤ min_val → s.start ≤ℤ s.end_ → IsSelector s
  IsBuilt-IsSelector low ordered =
      let (from, _) = built.starts in
      record {
        is_sorted = built.is_sorted;
        is_range = (omega (arith, low, from), ordered);
        is_periodic = built.is_periodic.0;
      }

  IsBuilt-period : (n : ℕ) → max_val ≤ℤ pos n → pos_part s.period ≤ n
  IsBuilt-period n le =
      let (one, most) = built.is_periodic in
      let (k, same) = nonneg s.period (omega (arith, one)) in
      omega (arith, most, le, ap pos_part same, ap neg_part same)

position-cases : (p : ℕ) → p < max_position → (p ≡ 0) ⊎ (p ≡ 1) ⊎ (p ≡ 2) ⊎ (p ≡ 3) ⊎ (p ≡ 4)
position-cases p below = omega arith

none-some {ℓ} : {A : Type ℓ} {a : A} → none ≡ some a → ⊥
none-some h = cc

true-false : (true ≡ false) → ⊥
true-false h = cc

is_there : Option Dynamic → Bool
is_there none = false
is_there (some d) = true

has_key-some :
    (key : String) (fields : Fields) {d : Dynamic}
    → get_ptr key fields ≡ some d
    → has_key key fields ≡ true
unfolding is_there
has_key-some key fields h = ap is_there h

all_days-matches :
    (as_int : Dynamic → Outcome ℤ) (x : ℤ)
    → pos 1 ≤ℤ x
    → x ≤ℤ pos 31
    → matches (all_values as_int none (pos 1) (pos 31)) x ≡ true
unfolding matches all_values
all_days-matches as_int x from to =
    let (k, same) = nonneg x (omega (arith, from)) in
    let low : 1 ≤ k = omega (arith, from, ap pos_part same, ap neg_part same) in
    let high : k ≤ 31 = omega (arith, to, ap pos_part same, ap neg_part same) in
    rw (same) (rw (-ℤ-pos k 1 low) (rw (mod-one (k - 1)) (ground arith)))

day_of_week-IsBuilt :
    (as_int : Dynamic → Outcome ℤ) (fields : Fields) {dow : Option CrontabSelector}
    {sel : CrontabSelector}
    → maybe_make_day_of_week_selector as_int fields ≡ ok dow
    → dow ≡ some sel
    → IsBuilt as_int (some parse_day_of_week) (pos 1) (pos 7) sel
unfolding maybe_make_day_of_week_selector
day_of_week-IsBuilt as_int fields {dow} {sel} e q =
    elim (Option-cases (get_ptr "day_of_week" fields)) [
      | inl t ↦ absurd (none-some (ok-injective (rw (t, maybe_make_day_of_week_selector) at e) ∙ q))
      | inr (found, t) ↦
          let (s, got, end) =
            >>=-eq-ok (make_selector as_int (some parse_day_of_week) (pos 1) (pos 7) found) _
              (rw (t, maybe_make_day_of_week_selector) at e) in
          subst (IsBuilt as_int (some parse_day_of_week) (pos 1) (pos 7))
            (some_inj.0 (ok-injective end ∙ q))
            (make_selector-IsBuilt as_int (some parse_day_of_week) (pos 1) (pos 7) (omega arith)
              (omega arith) (omega arith) found got)
    ]

-- With a selector of days of the week, that of days of the month is the default.
day_of_month-every :
    (as_int : Dynamic → Outcome ℤ) (fields : Fields) {dow : Option CrontabSelector}
    {sel d : CrontabSelector}
    → maybe_make_day_of_week_selector as_int fields ≡ ok dow
    → dow ≡ some sel
    → (has_key "day_of_month" fields && has_key "day_of_week" fields) ≡ false
    → make_selector as_int none (pos 1) (pos 31) (get_default "day_of_month" fields) ≡ ok d
    → d ≡ all_values as_int none (pos 1) (pos 31)
unfolding maybe_make_day_of_week_selector get_default make_selector parse_fields
day_of_month-every as_int fields {dow} {sel} {d} e q apart de =
    elim (Option-cases (get_ptr "day_of_week" fields)) [
      | inl t ↦ absurd (none-some (ok-injective (rw (t, maybe_make_day_of_week_selector) at e) ∙ q))
      | inr (found, t) ↦ elim (Option-cases (get_ptr "day_of_month" fields)) [
        | inl r ↦ sym (ok-injective (rw (r, get_default) at de))
        | inr (other, r) ↦ absurd (
            true-false (
              sym (
                ap (λ b. b && has_key "day_of_week" fields) (has_key-some "day_of_month" fields r)
                ∙ has_key-some "day_of_week" fields t)
              ∙ apart))
      ]
    ]

-- The selectors of an item, each with its own permissible values.
module _ (as_int : Dynamic → Outcome ℤ) (y m d h n : CrontabSelector)
    (year_built : IsBuilt as_int none (pos 1969) (pos 9999) y)
    (month_built : IsBuilt as_int (some parse_month_name) (pos 1) (pos 12) m)
    (day_built : IsBuilt as_int none (pos 1) (pos 31) d)
    (hour_built : IsBuilt as_int none (pos 0) (pos 23) h)
    (minute_built : IsBuilt as_int none (pos 0) (pos 59) n) where
  abbrev selectors : ℕ → CrontabSelector
  selectors = selectors_at as_int y m d h n

  record IsBuiltAt (p : ℕ) : Type 0 where
    parser : Option (String → Outcome ℤ)
    low : ℤ
    high : ℤ
    is_low : pos 0 ≤ℤ low
    is_high : high ≤ℤ pos 9999
    is_ordered : low ≤ℤ high
    is_built : IsBuilt as_int parser low high (selectors p)

  built_at : (p : ℕ) → p < max_position → IsBuiltAt p
  built_at p below = elim (position-cases p below) [
    | inl e ↦ subst IsBuiltAt (sym e) (record {
      parser = none;
      low = pos 1969;
      high = pos 9999;
      is_low = omega arith;
      is_high = omega arith;
      is_ordered = omega arith;
      is_built = year_built;
    })
    | inr (inl e) ↦ subst IsBuiltAt (sym e) (record {
      parser = some parse_month_name;
      low = pos 1;
      high = pos 12;
      is_low = omega arith;
      is_high = omega arith;
      is_ordered = omega arith;
      is_built = month_built;
    })
    | inr (inr (inl e)) ↦ subst IsBuiltAt (sym e) (record {
      parser = none;
      low = pos 1;
      high = pos 31;
      is_low = omega arith;
      is_high = omega arith;
      is_ordered = omega arith;
      is_built = day_built;
    })
    | inr (inr (inr (inl e))) ↦ subst IsBuiltAt (sym e) (record {
      parser = none;
      low = pos 0;
      high = pos 23;
      is_low = omega arith;
      is_high = omega arith;
      is_ordered = omega arith;
      is_built = hour_built;
    })
    | inr (inr (inr (inr e))) ↦ subst IsBuiltAt (sym e) (record {
      parser = none;
      low = pos 0;
      high = pos 59;
      is_low = omega arith;
      is_high = omega arith;
      is_ordered = omega arith;
      is_built = minute_built;
    })
  ]

  module _ (fixes : ℕ) (dow : Option CrontabSelector)
      (dow_built : (sel : CrontabSelector)
        → dow ≡ some sel
        → IsBuilt as_int (some parse_day_of_week) (pos 1) (pos 7) sel)
      (every : (sel : CrontabSelector)
        → dow ≡ some sel
        → d ≡ all_values as_int none (pos 1) (pos 31)) where
    abbrev made : StandardCrontabItem
    made = record { dst_fixes = fixes; selectors = selectors; maybe_day_of_week_sel = dow }

    made-IsProper : HasRanges made → IsProper made
    made-IsProper ranges = record {
      is_selector = λ p below.
          let b = built_at p below in
          IsBuilt-IsSelector as_int b.parser b.low b.high (selectors p) b.is_built b.is_low
            (ranges.has_values p below);
      is_bounded = λ p below.
          let b = built_at p below in
          let s = b.is_built in
          (
            subst (λ z. pos 0 ≤ℤ z) (sym s.has_min) b.is_low,
            subst (λ z. z ≤ℤ pos 9999) (sym s.has_max) b.is_high,
            IsBuilt-period as_int b.parser b.low b.high (selectors p) s 9999 b.is_high,
          );
      is_within = λ p x below m.
          let b = built_at p below in
          let s = b.is_built in
          let (from, to) = IsBuilt-matches as_int b.parser b.low b.high (selectors p) s x m in
          (subst (λ z. z ≤ℤ x) (sym s.has_min) from, subst (λ z. x ≤ℤ z) (sym s.has_max) to);
      is_weekly = λ sel e. record {
        is_selector =
            IsBuilt-IsSelector as_int (some parse_day_of_week) (pos 1) (pos 7) sel (dow_built sel e)
              (omega arith) (ranges.has_days sel e);
        is_within = λ x m.
            IsBuilt-matches as_int (some parse_day_of_week) (pos 1) (pos 7) sel (dow_built sel e) x
              m;
        has_period =
            IsBuilt-period as_int (some parse_day_of_week) (pos 1) (pos 7) sel (dow_built sel e) 7
              (omega arith);
      };
      is_every_day = λ sel x e. (
        subst (λ z. pos 1 ≤ℤ z) (sym day_built.has_min) (omega arith),
        λ from to.
            subst (λ z. matches z x ≡ true) (sym (every sel e)) (all_days-matches as_int x from to),
      );
    }

    made-IsDated : IsDated made
    made-IsDated = record {
      has_years = (
        subst (λ z. pos 1400 ≤ℤ z) (sym year_built.has_min) (omega arith),
        subst (λ z. z ≤ℤ pos 9999) (sym year_built.has_max) (omega arith),
      );
      has_months = (
        subst (λ z. pos 1 ≤ℤ z) (sym month_built.has_min) (omega arith),
        subst (λ z. z ≤ℤ pos 12) (sym month_built.has_max) (omega arith),
      );
      has_days = day_built.has_min;
      has_values = λ p below.
          let b = built_at p below in
          subst (λ z. z ≤ℤ (selectors p).max_val) (sym b.is_built.has_min)
            (subst (λ z. b.low ≤ℤ z) (sym b.is_built.has_max) b.is_ordered);
    }

-- An item that the constructor makes, and whose ranges are not empty, has selectors in order, with
-- values among those that boost::gregorian knows; with a selector of days of the week it has none of
-- days of the month.
pub make_item-IsProper :
    (as_int : Dynamic → Outcome ℤ) (fields : Fields) {item : StandardCrontabItem}
    → make_item as_int fields ≡ ok item
    → HasRanges item
    → IsProper item × IsDated item
unfolding make_item
make_item-IsProper as_int fields {item} e ranges =
    let (y, ye, e1) =
      >>=-eq-ok (make_selector as_int none (pos 1969) (pos 9999) (get_default "year" fields)) _ e in
    let (m, me, e2) =
      >>=-eq-ok
        (make_selector as_int (some parse_month_name) (pos 1) (pos 12) (get_default "month" fields))
        _ e1 in
    let (d, de, e3) =
      >>=-eq-ok (make_selector as_int none (pos 1) (pos 31) (get_default "day_of_month" fields)) _
        e2 in
    let (h, he, e4) =
      >>=-eq-ok (make_selector as_int none (pos 0) (pos 23) (get_default "hour" fields)) _ e3 in
    let (n, ne, e5) =
      >>=-eq-ok (make_selector as_int none (pos 0) (pos 59) (get_default "minute" fields)) _ e4 in
    let (dow, we, e6) = >>=-eq-ok (maybe_make_day_of_week_selector as_int fields) _ e5 in
    let (fixes, fe, e7) = >>=-eq-ok (parse_dst_fixes fields) _ e6 in
    let e8 = >>-eq-ok (check_keys fields) _ e7 in
    let both = has_key "day_of_month" fields && has_key "day_of_week" fields in
    let apart : both ≡ false =
      require-holds both "Cannot have both day_of_month and day_of_week" _ e8 in
    let e9 = >>-eq-ok (require (not both) "Cannot have both day_of_month and day_of_week") _ e8 in
    let e10 = >>-eq-ok (require (has_key "minute" fields) "Must have \"minute\" selector") _ e9 in
    let year_built =
      make_selector-IsBuilt as_int none (pos 1969) (pos 9999) (omega arith) (omega arith)
        (omega arith) (get_default "year" fields) ye in
    let month_built =
      make_selector-IsBuilt as_int (some parse_month_name) (pos 1) (pos 12) (omega arith)
        (omega arith) (omega arith) (get_default "month" fields) me in
    let day_built =
      make_selector-IsBuilt as_int none (pos 1) (pos 31) (omega arith) (omega arith) (omega arith)
        (get_default "day_of_month" fields) de in
    let hour_built =
      make_selector-IsBuilt as_int none (pos 0) (pos 23) (omega arith) (omega arith) (omega arith)
        (get_default "hour" fields) he in
    let minute_built =
      make_selector-IsBuilt as_int none (pos 0) (pos 59) (omega arith) (omega arith) (omega arith)
        (get_default "minute" fields) ne in
    let end = ok-injective e10 in
    let dow_built : (sel : CrontabSelector)
        → dow ≡ some sel
        → IsBuilt as_int (some parse_day_of_week) (pos 1) (pos 7) sel =
      λ sel q. day_of_week-IsBuilt as_int fields we q in
    let every : (sel : CrontabSelector)
        → dow ≡ some sel
        → d ≡ all_values as_int none (pos 1) (pos 31) =
      λ sel q. day_of_month-every as_int fields we q apart de in
    let ranges' = subst HasRanges (sym end) ranges in
    let proper =
      made-IsProper as_int y m d h n year_built month_built day_built hour_built minute_built fixes
        dow dow_built every ranges' in
    let dated =
      made-IsDated as_int y m d h n year_built month_built day_built hour_built minute_built fixes
        dow dow_built every in
    (subst IsProper end proper, subst IsDated end dated)
