-- ===== src/Cron/Days.antt =====
-- The detour over the day of the week finds the next day that its selector matches.
use bistro.Base.{
  ℕ, suc, ◌+◌, ◌-◌, ◌%◌, ◌≤◌, ◌<◌, Bool, true, not, ◌||◌, ◌≡◌, ◌⊎◌, inl, inr, refl, sym, ap, subst,
  ◌∙◌, ok, require, ◌>>◌, >>=-eq-ok, >>-eq-ok, ok-injective, if◌then◌else◌, Bool-cases, arith,
}
use bistro.Base.Int.{
  ℤ, pos, negsuc, ◌≤ℤ◌, ◌+ℤ◌, ◌-ℤ◌, pos_part, neg_part, ltb_ℤ, eq_of_parts, +ℤ_parts,
}
use bistro.Cron.{CrontabSelector, find_first_match}
use bistro.Cron.Matches.{matches, IsSelector, IsFirst}
use bistro.Cron.First.{find_first_match-IsFirst}
use bistro.Cron.Multiples.{+ℤ-pos}
use bistro.Cron.Standard.{year, month, day_of_month, k_days_in_week}
use bistro.Cron.Search.{
  Calendar, Values, get_day_of_week, get_end_of_month_day, find_matching_day_of_week,
}

-- What is documented of boost::gregorian: days of the week are 0 to 6, and follow each other to the
-- end of a month, which has at most 31 days.
pub record IsCalendar (cal : Calendar) : Type 0 where
  pub is_day : (y m x d : ℤ) → cal.day_of_week y m x ≡ ok d → (k : ℕ) × (d ≡ pos k) × (k < 7)
  pub is_next :
      (y m x : ℤ) (k j : ℕ)
      → cal.day_of_week y m x ≡ ok (pos k)
      → x +ℤ pos j ≤ℤ cal.end_of_month_day y m
      → cal.day_of_week y m (x +ℤ pos j) ≡ ok (pos ((k + j) % 7))
  pub is_short : (y m : ℤ) → cal.end_of_month_day y m ≤ℤ pos 31

-- A selector of days of the week.
pub record IsWeekly (sel : CrontabSelector) : Type 0 where
  pub is_selector : IsSelector sel
  pub is_within : (x : ℤ) → matches sel x ≡ true → (pos 1 ≤ℤ x) × (x ≤ℤ pos 7)
  pub has_period : pos_part sel.period ≤ 7

unfoldable pub OnDay : Calendar → CrontabSelector → Values → ℤ → Type 0
OnDay cal sel u x =
    (d : ℤ) × (cal.day_of_week (u year) (u month) x ≡ ok d) × (matches sel (d +ℤ pos 1) ≡ true)

pub nonneg : (x : ℤ) → pos 0 ≤ℤ x → (n : ℕ) × (x ≡ pos n)
nonneg (pos n) h = (n, refl)
nonneg (negsuc n) h = absurd (omega (arith, h))

lt_or_le : (a b : ℕ) → (a < b) ⊎ (b ≤ a)
lt_or_le a b = omega arith

pub pos_suc : (n : ℕ) → pos n +ℤ pos 1 ≡ pos (suc n)
unfolding ◌+ℤ◌
pos_suc n = ground arith

difference : (a b : ℤ) → a ≤ℤ b → (j : ℕ) × (b ≡ a +ℤ pos j)
difference a b le = (
  pos_part b + neg_part a - (pos_part a + neg_part b),
  eq_of_parts b _
      (omega (arith, +ℤ_parts a (pos (pos_part b + neg_part a - (pos_part a + neg_part b))))),
)

offset_le : (a x : ℤ) (c j : ℕ) → x ≡ a +ℤ pos j → a +ℤ pos c ≤ℤ x → c ≤ j
offset_le a x c j e le =
    omega (arith, ap pos_part e, ap neg_part e, +ℤ_parts a (pos c), +ℤ_parts a (pos j))

+ℤ-le : (a : ℤ) (c j : ℕ) → c ≤ j → a +ℤ pos c ≤ℤ a +ℤ pos j
+ℤ-le a c j le = omega (arith, +ℤ_parts a (pos c), +ℤ_parts a (pos j))

module _ (sel : CrontabSelector) (k c w : ℕ) (carry : Bool) (small : k < 7) (one : c ≤ 1)
    (first : IsFirst sel (pos (suc k + c)) (pos w) carry) (low : 1 ≤ w) (high : w ≤ 7) where
  abbrev steps : ℕ
  steps = if carry then w + 7 - suc k else w - suc k

  steps-least : (j : ℕ) → c ≤ j → matches sel (pos (suc ((k + j) % 7))) ≡ true → steps ≤ j
  steps-least j le m = elim (Bool-cases carry) [
    | inl q ↦
        let above : w + 0 ≤ suc ((k + j) % 7) + 0 =
          first.is_least (pos (suc ((k + j) % 7))) m (inl q) in
        let below : suc ((k + j) % 7) + 0 < suc k + c + 0 =
          ground (arith, first.is_wrapped q (pos (suc ((k + j) % 7))) m) in
        rw (q) (omega arith)
    | inr q ↦ elim (lt_or_le (k + j) 7) [
      | inl h ↦
          let above : w + 0 ≤ suc ((k + j) % 7) + 0 =
            first.is_least (pos (suc ((k + j) % 7))) m (inr (omega arith)) in
          rw (q) (omega arith)
      | inr h ↦ rw (q) (omega arith)
    ]
  ]

  steps_bounds : (c ≤ steps) × (steps ≤ 14)
  steps_bounds = elim (Bool-cases carry) [
    | inl q ↦ rw (q) (omega arith, omega arith)
    | inr q ↦ let later = first.is_later q in rw (q) (omega arith, omega arith)
  ]

  steps-matches : matches sel (pos (suc ((k + steps) % 7))) ≡ true
  steps-matches = elim (Bool-cases carry) [
    | inl q ↦ subst (λ n. matches sel (pos n) ≡ true) (rw (q) (omega arith)) first.is_match
    | inr q ↦
        let later = first.is_later q in
        subst (λ n. matches sel (pos n) ≡ true) (rw (q) (omega arith)) first.is_match
  ]

module _ (cal : Calendar) (calendar : IsCalendar cal) (sel : CrontabSelector)
    (weekly : IsWeekly sel) (u : Values) where
  abbrev today : ℤ
  today = u day_of_month

  -- What the detour's steps leave out, and where they lead.
  pub record IsNextDay (c : ℕ) (steps : ℤ) : Type 0 where
    pub is_step : pos c ≤ℤ steps
    pub is_small : steps ≤ℤ pos 14
    pub is_least :
        (x : ℤ)
        → OnDay cal sel u x
        → x ≤ℤ get_end_of_month_day cal u
        → today +ℤ pos c ≤ℤ x
        → today +ℤ steps ≤ℤ x
    pub is_day : today +ℤ steps ≤ℤ get_end_of_month_day cal u → OnDay cal sel u (today +ℤ steps)

  module _ (k : ℕ) (now : cal.day_of_week (u year) (u month) today ≡ ok (pos k)) where
    OnDay-matches :
        (j : ℕ)
        → today +ℤ pos j ≤ℤ get_end_of_month_day cal u
        → OnDay cal sel u (today +ℤ pos j)
        → matches sel (pos (suc ((k + j) % 7))) ≡ true
    unfolding get_end_of_month_day OnDay
    OnDay-matches j in_month (d, on, m) =
        let next = calendar.is_next (u year) (u month) today k j now in_month in
        let same : d ≡ pos ((k + j) % 7) = ok-injective (sym on ∙ next) in
        subst (λ n. matches sel n ≡ true) (ap (λ n. n +ℤ pos 1) same ∙ pos_suc ((k + j) % 7)) m

    matches-OnDay :
        (j : ℕ)
        → today +ℤ pos j ≤ℤ get_end_of_month_day cal u
        → matches sel (pos (suc ((k + j) % 7))) ≡ true
        → OnDay cal sel u (today +ℤ pos j)
    unfolding get_end_of_month_day OnDay
    matches-OnDay j in_month m =
        let next = calendar.is_next (u year) (u month) today k j now in_month in
        (pos ((k + j) % 7), next, subst (λ n. matches sel n ≡ true) (sym (pos_suc ((k + j) % 7))) m)

    next_day :
        (c w : ℕ) (carry : Bool) (small : k < 7) (one : c ≤ 1)
        (first : IsFirst sel (pos (suc k + c)) (pos w) carry) (low : 1 ≤ w) (high : w ≤ 7)
        → IsNextDay c (pos (steps sel k c w carry small one first low high))
    next_day c w carry small one first low high =
        let s = steps sel k c w carry small one first low high in
        let bounds = steps_bounds sel k c w carry small one first low high in
        record {
          is_step = ground (arith, bounds.0);
          is_small = ground (arith, bounds.1);
          is_least = λ x on in_month from.
              let (j, e) = difference today x (omega (arith, from, +ℤ_parts today (pos c))) in
              let m =
                OnDay-matches j (subst (λ y. y ≤ℤ get_end_of_month_day cal u) e in_month)
                  (subst (OnDay cal sel u) e on) in
              let least =
                steps-least sel k c w carry small one first low high j
                  (offset_le today x c j e from) m in
              subst (λ y. today +ℤ pos s ≤ℤ y) (sym e) (+ℤ-le today s j least);
          is_day = λ in_month.
              matches-OnDay s in_month (steps-matches sel k c w carry small one first low high);
        }

  carry_gap :
      (w k : ℕ) → 1 ≤ w → k < 7 → pos w +ℤ k_days_in_week -ℤ pos (suc k) ≡ pos (w + 7 - suc k)
  unfolding ◌+ℤ◌ ◌-ℤ◌
  carry_gap w k low small = ground arith

  plain_gap : (w k : ℕ) → suc k ≤ w → pos w -ℤ pos (suc k) ≡ pos (w - suc k)
  unfolding ◌-ℤ◌
  plain_gap w k le = ground arith

  -- The detour, for a day that is found.
  detour :
      (k c : ℕ) (new_dow : ℤ) (carry : Bool) {s : ℤ}
      → cal.day_of_week (u year) (u month) today ≡ ok (pos k)
      → k < 7
      → c ≤ 1
      → IsFirst sel (pos (suc k + c)) new_dow carry
      → (if carry
          then require (not (ltb_ℤ (pos (suc k)) new_dow)) "dow carried"
            >> ok (new_dow +ℤ k_days_in_week -ℤ pos (suc k))
          else require (not (ltb_ℤ new_dow (pos (suc k)))) "dow did not carry"
            >> ok (new_dow -ℤ pos (suc k)))
        ≡ ok s
      → IsNextDay c s
  detour k c new_dow carry {s} now small one first e =
      let (from, to) = weekly.is_within new_dow first.is_match in
      let (w, same) = nonneg new_dow (omega (arith, from)) in
      let low : 1 ≤ w = omega (arith, from, ap pos_part same, ap neg_part same) in
      let high : w ≤ 7 = omega (arith, to, ap pos_part same, ap neg_part same) in
      let first' = subst (λ n. IsFirst sel (pos (suc k + c)) n carry) same first in
      let next = next_day k now c w carry small one first' low high in
      elim (Bool-cases carry) [
        | inl q ↦
            let end = ok-injective (>>-eq-ok _ _ (rw (q) at e)) in
            subst (IsNextDay c)
              (sym (carry_gap w k low small)
                ∙ ap (λ n. n +ℤ k_days_in_week -ℤ pos (suc k)) (sym same)
                ∙ end)
              (rw (q) at next)
        | inr q ↦
            let later = first'.is_later q in
            let end = ok-injective (>>-eq-ok _ _ (rw (q) at e)) in
            subst (IsNextDay c)
              (sym (plain_gap w k (omega (arith, later)))
                ∙ ap (λ n. n -ℤ pos (suc k)) (sym same)
                ∙ end)
              (rw (q) at next)
      ]

  -- findMatchingDayOfWeek goes to the next day of the month that its selector matches.
  pub find_matching_day_of_week-IsNextDay :
      (c : ℕ) {s : ℤ} → c ≤ 1 → find_matching_day_of_week cal sel u (pos c) ≡ ok s → IsNextDay c s
  unfolding find_matching_day_of_week get_day_of_week
  find_matching_day_of_week-IsNextDay c {s} one e =
      let (dow, got, e1) = >>=-eq-ok (get_day_of_week cal u) _ e in
      let (d, on, end) = >>=-eq-ok (cal.day_of_week (u year) (u month) today) _ got in
      let (k, same, small) = calendar.is_day (u year) (u month) today d on in
      let now : cal.day_of_week (u year) (u month) today ≡ ok (pos k) = on ∙ ap ok same in
      let here : dow ≡ pos (suc k) =
        sym (ok-injective end) ∙ ap (λ n. n +ℤ pos 1) same ∙ pos_suc k in
      let e2 =
        >>-eq-ok
          (require
            (not (
              ltb_ℤ (pos (suc k)) (pos 1)
              || ltb_ℤ k_days_in_week (pos (suc k))
              || ltb_ℤ (pos 1) (pos c)))
            "bad weekday ")
          _ (rw (here) at e1) in
      let first =
        find_first_match-IsFirst sel (pos (suc k + c)) weekly.is_selector
          (omega (arith, weekly.has_period)) in
      detour k c (find_first_match sel (pos (suc k + c))).0
        (find_first_match sel (pos (suc k + c))).1 now small one first (rw (+ℤ-pos (suc k) c) at e2)
