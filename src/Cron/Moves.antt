-- ===== src/Cron/Moves.antt =====
-- A position that moves on to its next value keeps the search on course.
use bistro.Base.{
  ℕ, suc, ◌<◌, false, ◌≡◌, ◌⊎◌, inl, inr, refl, sym, ap, subst, ◌∙◌, some, Bool-cases, arith,
}
use bistro.Base.Int.{ℤ, pos, ◌≤ℤ◌, pos_part, neg_part, eqb_ℤ, eqb_ℤ_iff, +ℤ_parts}
use bistro.Cron.Standard.{StandardCrontabItem, max_position}
use bistro.Cron.Search.{Calendar, Values, set_val, reset_after}
use bistro.Cron.Order.{
  Same, AtLeast, ◌<ℤ◌, Later-mono, Later-Same, AtLeast-pointwise, AtLeast-trans,
}
use bistro.Cron.Fits.{IsProper, Fits, IsNext}
use bistro.Cron.Times.{three-cases, last-cases, IsTime, IsFirstTime, Fits-Same, Going, ahead-cases}

module _ (cal : Calendar) (item : StandardCrontabItem) (start : Values) where
  module _ (proper : IsProper item) (p : ℕ) (u : Values) (c : ℕ) (m : ℤ)
      (g : Going cal item start p u c) (next : IsNext cal item p u c m false) where
    -- The values after the move: later positions stay, or start again if this one advanced.
    pub record Moved (w : Values) : Type 0 where
      is_same : Same p u w
      is_set : w p ≡ m
      is_rest :
          ((m ≡ u p) × ((r : ℕ) → p < r → r < max_position → w r ≡ u r))
          ⊎ ((u p <ℤ m) × ((r : ℕ) → p < r → r < max_position → w r ≡ (item.selectors r).min_val))

    Moved-fit : (w : Values) → Moved w → (q : ℕ) → q < suc p → Fits cal item q w (w q)
    Moved-fit w moved q h = elim (last-cases q p h) [
      | inl before ↦
          let same : Same q u w = λ r k. moved.is_same r (omega arith) in
          subst (Fits cal item q w) (moved.is_same q before)
            (Fits-Same cal item q u w (u q) same (g.fit q before))
      | inr here ↦
          let fits = Fits-Same cal item p u w m moved.is_same (next.fits refl) in
          subst (λ r. Fits cal item r w (w r)) (sym here)
            (subst (Fits cal item p w) (sym moved.is_set) fits)
    ]

    all-Same :
        (w : Values)
        → Same p u w
        → w p ≡ m
        → m ≡ u p
        → ((r : ℕ) → p < r → r < max_position → w r ≡ u r)
        → Same max_position u w
    all-Same w same set e rest r h = elim (three-cases r p) [
      | inl before ↦ same r before
      | inr (inl here) ↦ subst (λ q. u q ≡ w q) (sym here) (sym e ∙ sym set)
      | inr (inr after) ↦ sym (rest r after h)
    ]

    Moved-AtLeast : (w : Values) → Moved w → AtLeast max_position u w
    Moved-AtLeast w moved = elim moved.is_rest [
      | inl (e, rest) ↦ inl (all-Same w moved.is_same moved.is_set e rest)
      | inr (less, rest) ↦ inr (record {
        position = p;
        is_below = g.is_below;
        is_same = moved.is_same;
        is_less = subst (λ x. u p <ℤ x) (sym moved.is_set) less;
      })
    ]

    Moved-ahead :
        (w : Values)
        → Moved w
        → (v : Values) → IsTime cal item v
        → AtLeast max_position start v
        → AtLeast max_position w v
    Moved-ahead w moved v time from = elim (ahead-cases cal item start p u c v g time from) [
      | inl l ↦ inr (Later-mono (omega (arith, g.is_below)) (Later-Same p moved.is_same l))
      | inr (same, le) ↦
          let fit = Fits-Same cal item p v u (v p) (λ r h. sym (same r h)) (time p g.is_below) in
          let (_, least) = next.is_least (v p) fit le in
          elim moved.is_rest [
            | inl (e, rest) ↦
                let later = next.is_later refl in
                let none : c ≡ 0 =
                  omega (arith, later, ap pos_part e, ap neg_part e, +ℤ_parts (u p) (pos c)) in
                let ahead = g.is_ahead v time from in
                AtLeast-trans max_position
                  (inl (λ r h. sym (all-Same w moved.is_same moved.is_set e rest r h)))
                  (ahead.0 none)
            | inr (less, rest) ↦
                AtLeast-pointwise p max_position (λ r h. sym (moved.is_same r h) ∙ same r h)
                  (λ r low high. elim (three-cases r p) [
                    | inl before ↦ absurd (omega (arith, low))
                    | inr (inl here) ↦
                        subst (λ q. w q ≤ℤ v q) (sym here)
                          (subst (λ x. x ≤ℤ v p) (sym moved.is_set) least)
                    | inr (inr after) ↦
                        subst (λ x. x ≤ℤ v r) (sym (rest r after high))
                          (proper.is_within r (v r) high (Fits.is_match (time r high))).0
                  ])
                  (omega (arith, g.is_below))
          ]
    ]

    set-Same : Same p u (set_val p m u)
    unfolding set_val
    set-Same r h = ground arith

    set-at : set_val p m u p ≡ m
    unfolding set_val
    set-at = ground arith

    set_later : (r : ℕ) → p < r → set_val p m u r ≡ u r
    unfolding set_val
    set_later r h = ground arith

    pub increased : (m ≡ u p) ⊎ (u p <ℤ m)
    increased =
        let later = next.is_later refl in
        elim (Bool-cases (eqb_ℤ m (u p))) [
          | inl q ↦ inl ((eqb_ℤ_iff m (u p)).0 q)
          | inr q ↦ inr (ground (arith, q, later, +ℤ_parts (u p) (pos c)))
        ]

    pub set-Moved : (m ≡ u p) ⊎ (suc p ≡ max_position) → Moved (set_val p m u)
    set-Moved why = record {
      is_same = set-Same;
      is_set = set-at;
      is_rest = elim increased [
        | inl e ↦ inl (e, λ r h k. set_later r h)
        | inr less ↦ elim why [
          | inl e ↦ inl (e, λ r h k. set_later r h)
          | inr end ↦ inr (less, λ r h k. absurd (omega arith))
        ]
      ];
    }

    pub reset-Moved : u p <ℤ m → Moved (reset_after item p (set_val p m u))
    unfolding reset_after
    reset-Moved less = record {
      is_same = λ r h. set-Same r h ∙ ground arith;
      is_set = ground arith ∙ set-at;
      is_rest = inr (less, λ r h k. ground arith);
    }

    pub Moved-Going :
        (w : Values) → Moved w → suc p < max_position → Going cal item start (suc p) w 0
    Moved-Going w moved h = record {
      is_below = h;
      is_one = omega arith;
      fit = Moved-fit w moved;
      is_above = AtLeast-trans max_position g.is_above (Moved-AtLeast w moved);
      is_ahead =
          λ v time from. (λ z. Moved-ahead w moved v time from, λ z. absurd (omega (arith, z)));
    }

    pub Moved-IsFirstTime :
        (w : Values) → Moved w → suc p ≡ max_position → IsFirstTime cal item start (some w)
    unfolding IsFirstTime
    Moved-IsFirstTime w moved h = (
      λ q k. Moved-fit w moved q (omega (arith, h, k)),
      AtLeast-trans max_position g.is_above (Moved-AtLeast w moved),
      Moved-ahead w moved,
    )
