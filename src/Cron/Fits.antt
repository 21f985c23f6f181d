-- ===== src/Cron/Fits.antt =====
-- One position of a search: the next value that fits the values before it.
use bistro.Base.{
  ℕ, String, ◌+◌, ◌≤◌, ◌<◌, ◌==◌, ==_iff, Bool, true, false, not, ◌&&◌, ◌||◌, ◌≡◌, inl, inr, refl,
  sym, ap, subst, ◌∙◌, some, Outcome, ok, require, ◌>>◌, >>-eq-ok, ok-injective, Bool-cases,
  Option-cases, arith,
}
use mathlib.Core.Option.{some_inj}
use bistro.Base.Int.{ℤ, pos, ◌≤ℤ◌, ◌+ℤ◌, pos_part, neg_part, ltb_ℤ, eq_of_parts, +ℤ_parts}
use bistro.Cron.{CrontabSelector, find_first_match}
use bistro.Cron.Matches.{matches, IsSelector, IsFirst}
use bistro.Cron.First.{find_first_match-IsFirst}
use bistro.Cron.Multiples.{+ℤ-pos}
use bistro.Cron.Standard.{StandardCrontabItem, year, month, day_of_month, max_position}
use bistro.Cron.Search.{Calendar, Values, get_end_of_month_day, steps_from, next_value_at}
use bistro.Cron.Days.{IsCalendar, IsWeekly, OnDay, find_matching_day_of_week-IsNextDay, nonneg}

-- The selectors of an item, as its constructor makes them from ranges that are not empty.
pub record IsProper (item : StandardCrontabItem) : Type 0 where
  pub is_selector : (p : ℕ) → p < max_position → IsSelector (item.selectors p)
  pub is_bounded :
      (p : ℕ)
      → p < max_position
      → (pos 0 ≤ℤ (item.selectors p).min_val)
        × ((item.selectors p).max_val ≤ℤ pos 9999)
        × (pos_part (item.selectors p).period ≤ 9999)
  pub is_within :
      (p : ℕ) (x : ℤ)
      → p < max_position
      → matches (item.selectors p) x ≡ true
      → ((item.selectors p).min_val ≤ℤ x) × (x ≤ℤ (item.selectors p).max_val)
  pub is_weekly : (sel : CrontabSelector) → item.maybe_day_of_week_sel ≡ some sel → IsWeekly sel
  pub is_every_day :
      (sel : CrontabSelector) (x : ℤ)
      → item.maybe_day_of_week_sel ≡ some sel
      → (pos 1 ≤ℤ (item.selectors day_of_month).min_val)
        × (pos 1 ≤ℤ x → x ≤ℤ pos 31 → matches (item.selectors day_of_month) x ≡ true)

pub require-holds {ℓ} :
    {A : Type ℓ} (b : Bool) (message : String) (rest : Outcome A) {a : A}
    → (require (not b) message >> rest) ≡ ok a
    → b ≡ false
require-holds false message rest e = refl
require-holds true message rest e = cc

module _ (cal : Calendar) (item : StandardCrontabItem) where
  -- The value x fits at a position, after the values of u before it.
  pub record Fits (p : ℕ) (u : Values) (x : ℤ) : Type 0 where
    pub is_match : matches (item.selectors p) x ≡ true
    pub is_in_month : p ≡ day_of_month → x ≤ℤ get_end_of_month_day cal u
    pub is_on_day :
        (sel : CrontabSelector)
        → p ≡ day_of_month
        → item.maybe_day_of_week_sel ≡ some sel
        → OnDay cal sel u x

  -- The next value, or none if it must carry.
  pub record IsNext (p : ℕ) (u : Values) (c : ℕ) (m : ℤ) (carry : Bool) : Type 0 where
    pub fits : carry ≡ false → Fits p u m
    pub is_later : carry ≡ false → u p +ℤ pos c ≤ℤ m
    pub is_least : (x : ℤ) → Fits p u x → u p +ℤ pos c ≤ℤ x → (carry ≡ false) × (m ≤ℤ x)

  -- The steps leave out nothing that fits.
  pub record IsStep (p : ℕ) (u : Values) (c : ℕ) (s : ℤ) : Type 0 where
    pub reaches : pos c ≤ℤ s
    pub is_small : s ≤ℤ pos 14
    pub skips : (x : ℤ) → Fits p u x → u p +ℤ pos c ≤ℤ x → u p +ℤ s ≤ℤ x
    pub lands :
        (sel : CrontabSelector)
        → p ≡ day_of_month
        → item.maybe_day_of_week_sel ≡ some sel
        → u p +ℤ s ≤ℤ get_end_of_month_day cal u
        → OnDay cal sel u (u p +ℤ s)

  module _ (calendar : IsCalendar cal) (proper : IsProper item) where
    plain-IsStep :
        (p : ℕ) (u : Values) (c : ℕ) {s : ℤ}
        → c ≤ 1
        → ((sel : CrontabSelector) → p ≡ day_of_month → item.maybe_day_of_week_sel ≡ some sel → ⊥)
        → (require (not (ltb_ℤ (pos 1) (pos c))) "bad carry_steps " >> ok (pos c)) ≡ ok s
        → IsStep p u c s
    plain-IsStep p u c one other e =
        subst (IsStep p u c)
          (ok-injective (>>-eq-ok (require (not (ltb_ℤ (pos 1) (pos c))) "bad carry_steps ") _ e))
          (record {
            reaches = omega arith;
            is_small = omega arith;
            skips = λ x f le. le;
            lands = λ sel at on le. absurd (other sel at on);
          })

    pub steps_from-IsStep :
        (p : ℕ) (u : Values) (c : ℕ) {s : ℤ}
        → c ≤ 1
        → steps_from cal item p u (pos c) ≡ ok s
        → IsStep p u c s
    unfolding steps_from
    steps_from-IsStep p u c {s} one e = elim (Option-cases item.maybe_day_of_week_sel) [
      | inl q ↦ plain-IsStep p u c one (λ sel at on. cc) (rw (q) at e)
      | inr (sel, q) ↦ elim (Bool-cases (p == day_of_month)) [
        | inr t ↦
            plain-IsStep p u c one (λ sel' at on. ground (arith, t, at)) (rw (t) at (rw (q) at e))
        | inl t ↦
            let at : p ≡ 2 = (==_iff p 2).0 t in
            let next =
              find_matching_day_of_week-IsNextDay cal calendar sel (proper.is_weekly sel q) u c one
                (rw (t) at (rw (q) at e)) in
            subst (λ r. IsStep r u c s) (sym at)
              (record {
                reaches = next.is_step;
                is_small = omega (arith, next.is_small);
                skips = λ x f le. next.is_least x (f.is_on_day sel refl q) (f.is_in_month refl) le;
                lands = λ sel' here on le.
                    subst (λ z. OnDay cal z u (u 2 +ℤ s)) (some_inj.0 (sym q ∙ on))
                      (next.is_day le);
              })
      ]
    ]

    module _ (p : ℕ) (u : Values) (c : ℕ) (s : ℤ) (t : ℕ) (below : p < max_position)
        (step : IsStep p u c s) (now : u p +ℤ s ≡ pos t) where
      -- The landing, if it is a match of the selector of days.
      at_landing :
          (sel : CrontabSelector) (m : ℤ)
          → p ≡ day_of_month
          → item.maybe_day_of_week_sel ≡ some sel
          → (item.selectors p).min_val ≤ℤ u p
          → IsFirst (item.selectors p) (pos t) m false
          → m ≤ℤ get_end_of_month_day cal u
          → OnDay cal sel u m
      unfolding get_end_of_month_day
      at_landing sel m at on from first in_month =
          let (low, all) = proper.is_every_day sel (pos t) on in
          let later = first.is_later refl in
          let short = calendar.is_short (u year) (u month) in
          let start = subst (λ r. pos 1 ≤ℤ (item.selectors r).min_val) (sym at) low in
          let big : 1 ≤ t = omega (
            arith,
            start,
            from,
            step.reaches,
            ap pos_part now,
            ap neg_part now,
            +ℤ_parts (u p) s,
          ) in
          let here =
            subst (λ r. matches (item.selectors r) (pos t) ≡ true) (sym at)
              (all (omega (arith, big)) (omega (arith, later, in_month, short))) in
          let least = first.is_least (pos t) here (inr (omega arith)) in
          let same : pos t ≡ m = eq_of_parts (pos t) m (omega (arith, least, later)) in
          subst (OnDay cal sel u) (now ∙ same) (
            step.lands sel at on
              (subst (λ x. x ≤ℤ get_end_of_month_day cal u) (sym (now ∙ same)) in_month))

      -- The next value of the position, with the check of the end of the month.
      end-IsNext :
          (m : ℤ) (wraps : Bool)
          → (item.selectors p).min_val ≤ℤ u p
          → IsFirst (item.selectors p) (pos t) m wraps
          → IsNext p u c m (wraps || ((p == day_of_month) && ltb_ℤ (get_end_of_month_day cal u) m))
      end-IsNext m true from first = record {
        fits = λ n. cc;
        is_later = λ n. cc;
        is_least = λ x f le.
            let skip = subst (λ y. y ≤ℤ x) now (step.skips x f le) in
            let before = first.is_wrapped refl x f.is_match in
            absurd (ground (arith, skip, before));
      }
      end-IsNext m false from first =
          elim (Bool-cases ((p == day_of_month) && ltb_ℤ (get_end_of_month_day cal u) m)) [
            | inl q ↦ rw (q) (record {
              fits = λ n. cc;
              is_later = λ n. cc;
              is_least = λ x f le.
                  let skip = subst (λ y. y ≤ℤ x) now (step.skips x f le) in
                  let least = first.is_least x f.is_match (inr skip) in
                  let at : p ≡ day_of_month = ground (arith, q) in
                  let in_month = f.is_in_month at in absurd (ground (arith, q, least, in_month));
            })
            | inr q ↦
                let in_month : p ≡ day_of_month → m ≤ℤ get_end_of_month_day cal u =
                  λ at. ground (arith, q, at) in
                let later = first.is_later refl in
                rw (q) (record {
                  fits = λ n. record {
                    is_match = first.is_match;
                    is_in_month = in_month;
                    is_on_day = λ sel at on. at_landing sel m at on from first (in_month at);
                  };
                  is_later = λ n. omega (
                    arith,
                    later,
                    step.reaches,
                    ap pos_part now,
                    ap neg_part now,
                    +ℤ_parts (u p) s,
                    +ℤ_parts (u p) (pos c),
                  );
                  is_least = λ x f le.
                      let skip = subst (λ y. y ≤ℤ x) now (step.skips x f le) in
                      (refl, first.is_least x f.is_match (inr skip));
                })
          ]

    pub next_value_at-IsNext :
        (p : ℕ) (u : Values) (c : ℕ) {s m : ℤ} {carry : Bool}
        → p < max_position
        → c ≤ 1
        → steps_from cal item p u (pos c) ≡ ok s
        → next_value_at cal item p u s ≡ ok (m, carry)
        → IsNext p u c m carry
    unfolding next_value_at
    next_value_at-IsNext p u c {s} {m} {carry} below one e k =
        let step = steps_from-IsStep p u c one e in
        let sel = item.selectors p in
        let out = ltb_ℤ (u p) sel.min_val || ltb_ℤ sel.max_val (u p) in
        let k1 = >>-eq-ok (require (not out) "value not in range") _ k in
        let inside : out ≡ false = require-holds out "value not in range" _ k in
        let (low, high, period) = proper.is_bounded p below in
        let from : sel.min_val ≤ℤ u p = ground (arith, inside) in
        let to : u p ≤ℤ sel.max_val = ground (arith, inside) in
        let (a, here) = nonneg (u p) (omega (arith, low, from)) in
        let (b, far) = nonneg s (omega (arith, step.reaches)) in
        let now : u p +ℤ s ≡ pos (a + b) =
          ap (λ x. x +ℤ s) here ∙ ap (λ x. pos a +ℤ x) far ∙ +ℤ-pos a b in
        let bound : a ≤ 9999 = omega (arith, to, high, ap pos_part here, ap neg_part here) in
        let bound' : b ≤ 14 = omega (arith, step.is_small, ap pos_part far, ap neg_part far) in
        let first =
          find_first_match-IsFirst sel (pos (a + b)) (proper.is_selector p below)
            (omega (arith, bound, bound', period)) in
        let end = ok-injective (rw (now) at k1) in
        subst (λ r. IsNext p u c r.0 r.1) end
          (end-IsNext p u c s (a + b) below step now (find_first_match sel (pos (a + b))).0
            (find_first_match sel (pos (a + b))).1 from first)
