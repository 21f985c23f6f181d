-- ===== src/Cron/Times.antt =====
-- Local times that an item matches, and where a search for the first of them stands.
use bistro.Base.{
  ℕ, suc, ◌≤◌, ◌<◌, ◌≡◌, ◌⊎◌, inl, inr, refl, sym, ap, subst, ◌∙◌, Option, none, some, arith,
}
use bistro.Base.Int.{ℤ, pos, ◌≤ℤ◌, ◌+ℤ◌, +ℤ_parts}
use bistro.Cron.Standard.{StandardCrontabItem, max_position}
use bistro.Cron.Search.{Calendar, Values, get_end_of_month_day}
use bistro.Cron.Order.{Same, Later, AtLeast, Later-split, AtLeast-split}
use bistro.Cron.Days.{OnDay}
use bistro.Cron.Fits.{Fits}

one-cases : (c : ℕ) → c ≤ 1 → (c ≡ 0) ⊎ (c ≡ 1)
one-cases c h = omega arith

pub last-cases : (q p : ℕ) → q < suc p → (q < p) ⊎ (q ≡ p)
last-cases q p h = omega arith

pub three-cases : (r p : ℕ) → (r < p) ⊎ (r ≡ p) ⊎ (p < r)
three-cases r p = omega arith

module _ (cal : Calendar) (item : StandardCrontabItem) where
  -- Each position fits those before it.
  abbrev pub IsTime : Values → Type 0
  IsTime v = (p : ℕ) → p < max_position → Fits cal item p v (v p)

  -- The first time from u on.
  unfoldable pub IsFirstTime : Values → Option Values → Type 0
  IsFirstTime u none = (v : Values) → IsTime v → AtLeast max_position u v → ⊥
  IsFirstTime u (some w) =
      IsTime w
      × AtLeast max_position u w
      × ((v : Values) → IsTime v → AtLeast max_position u v → AtLeast max_position w v)

  pub Fits-Same :
      (p : ℕ) (u v : Values) (x : ℤ) → Same p u v → Fits cal item p u x → Fits cal item p v x
  unfolding get_end_of_month_day OnDay
  Fits-Same p u v x same f = record {
    is_match = f.is_match;
    is_in_month = λ at.
        let y = same 0 (omega (arith, at)) in
        let m = same 1 (omega (arith, at)) in
        let h = f.is_in_month at in
        subst (λ a. x ≤ℤ cal.end_of_month_day a (v 1)) y
          (subst (λ b. x ≤ℤ cal.end_of_month_day (u 0) b) m h);
    is_on_day = λ sel at on.
        let y = same 0 (omega (arith, at)) in
        let m = same 1 (omega (arith, at)) in
        let (d, now, match) = f.is_on_day sel at on in
        (
          d,
          ap (λ a. cal.day_of_week a (v 1) x) (sym y)
              ∙ ap (λ b. cal.day_of_week (u 0) b x) (sym m)
              ∙ now,
          match,
        );
  }

  module _ (start : Values) where
    -- Where the search stands: the positions before p fit, and no time from the start on was missed.
    pub record Going (p : ℕ) (u : Values) (c : ℕ) : Type 0 where
      pub is_below : p < max_position
      pub is_one : c ≤ 1
      pub fit : (q : ℕ) → q < p → Fits cal item q u (u q)
      pub is_above : AtLeast max_position start u
      pub is_ahead :
          (v : Values)
          → IsTime v
          → AtLeast max_position start v
          → (c ≡ 0 → AtLeast max_position u v) × (c ≡ 1 → Later (suc p) u v)

    pub ahead-cases :
        (p : ℕ) (u : Values) (c : ℕ) (v : Values)
        → Going p u c
        → IsTime v
        → AtLeast max_position start v
        → Later p u v ⊎ (Same p u v × (u p +ℤ pos c ≤ℤ v p))
    ahead-cases p u c v g time from =
        let (plain, carried) = g.is_ahead v time from in
        elim (one-cases c g.is_one) [
          | inl z ↦ elim (AtLeast-split max_position p g.is_below (plain z)) [
            | inl l ↦ inl l
            | inr (same, le) ↦ inr (same, omega (arith, le, z, +ℤ_parts (u p) (pos c)))
          ]
          | inr z ↦ elim (Later-split (suc p) p (carried z)) [
            | inl l ↦ inl l
            | inr (same, le, less) ↦
                let less' = less refl in inr (same, omega (arith, less', z, +ℤ_parts (u p) (pos c)))
          ]
        ]
