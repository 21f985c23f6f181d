-- ===== src/Cron/Order.antt =====
-- The order of local times: by the first position in which they differ.
use bistro.Base.{ℕ, zero, suc, ◌+◌, ◌≤◌, ◌<◌, ◌≡◌, ◌⊎◌, inl, inr, sym, ap, subst, ◌∙◌, arith}
use bistro.Base.Int.{ℤ, ◌≤ℤ◌, pos_part, neg_part, eq_of_parts}
use bistro.Cron.Search.{Values}

infix 50 ◌<ℤ◌
abbrev pub ◌<ℤ◌ : ℤ → ℤ → Type 0
a <ℤ b = pos_part a + neg_part b < pos_part b + neg_part a

-- In all of the first n positions, or in an earlier one.
abbrev pub Same : ℕ → Values → Values → Type 0
Same n u v = (r : ℕ) → r < n → u r ≡ v r

pub record Later (n : ℕ) (u v : Values) : Type 0 where
  pub position : ℕ
  pub is_below : position < n
  pub is_same : Same position u v
  pub is_less : u position <ℤ v position

abbrev pub AtLeast : ℕ → Values → Values → Type 0
AtLeast n u v = Same n u v ⊎ Later n u v

compare-cases : (a b : ℕ) → (a < b) ⊎ (a ≡ b) ⊎ (b < a)
compare-cases a b = omega arith

pub Later-mono : {m n : ℕ} {u v : Values} → m ≤ n → Later m u v → Later n u v
Later-mono le l = record {
  position = l.position;
  is_below = omega (arith, l.is_below);
  is_same = l.is_same;
  is_less = l.is_less;
}

pub Later-Same : (n : ℕ) {u u' v : Values} → Same n u u' → Later n u v → Later n u' v
Later-Same n {u} {u'} {v} same l = record {
  position = l.position;
  is_below = l.is_below;
  is_same = λ r h. sym (same r (omega (arith, l.is_below))) ∙ l.is_same r h;
  is_less = subst (λ x. x <ℤ v l.position) (same l.position l.is_below) l.is_less;
}

-- What an order of n positions says of the position p.
pub Later-split :
    (n p : ℕ) {u v : Values}
    → Later n u v
    → Later p u v ⊎ (Same p u v × (u p ≤ℤ v p) × ((n ≡ suc p) → u p <ℤ v p))
Later-split n p {u} {v} l = elim (compare-cases l.position p) [
  | inl before ↦ inl (record {
    position = l.position;
    is_below = before;
    is_same = l.is_same;
    is_less = l.is_less;
  })
  | inr (inl here) ↦
      let less : u p <ℤ v p = subst (λ q. u q <ℤ v q) here l.is_less in
      inr (λ r h. l.is_same r (omega (arith, h, here)), omega (arith, less), λ e. less)
  | inr (inr after) ↦
      let same = l.is_same p after in
      inr (
        λ r h. l.is_same r (omega arith),
        omega (arith, ap pos_part same, ap neg_part same),
        λ e. absurd (omega (arith, l.is_below)),
      )
]

pub AtLeast-split :
    (n p : ℕ) {u v : Values} → p < n → AtLeast n u v → Later p u v ⊎ (Same p u v × (u p ≤ℤ v p))
AtLeast-split n p {u} {v} below (inl same) = inr (
  λ r h. same r (omega arith),
  omega (arith, ap pos_part (same p below), ap neg_part (same p below)),
)
AtLeast-split n p {u} {v} below (inr l) = elim (Later-split n p l) [
  | inl e ↦ inl e
  | inr (same, le, _) ↦ inr (same, le)
]

≤ℤ-cases : (a b : ℤ) → a ≤ℤ b → (a ≡ b) ⊎ (a <ℤ b)
≤ℤ-cases a b le = ground (arith, eq_of_parts a b)

AtLeast-suc : (n : ℕ) {u v : Values} → AtLeast n u v → u n ≤ℤ v n → AtLeast (suc n) u v
AtLeast-suc n {u} {v} (inr l) le = inr (Later-mono (omega arith) l)
AtLeast-suc n {u} {v} (inl same) le = elim (≤ℤ-cases (u n) (v n) le) [
  | inr less ↦ inr (record { position = n; is_below = omega arith; is_same = same; is_less = less })
  | inl e ↦ inl (λ r h. elim (compare-cases r n) [
    | inl before ↦ same r before
    | inr (inl here) ↦ subst (λ q. u q ≡ v q) (sym here) e
    | inr (inr after) ↦ absurd (omega arith)
  ])
]

-- Each position after the first m is no less.
pub AtLeast-pointwise :
    (m n : ℕ) {u v : Values}
    → Same m u v
    → ((r : ℕ) → m ≤ r → r < n → u r ≤ℤ v r)
    → m ≤ n
    → AtLeast n u v
AtLeast-pointwise m zero {u} {v} same le h = inl (λ r k. absurd (omega arith))
AtLeast-pointwise m (suc n) {u} {v} same le h = elim (compare-cases m (suc n)) [
  | inl before ↦
      AtLeast-suc n (AtLeast-pointwise m n same (λ r k l. le r k (omega arith)) (omega arith))
        (le n (omega arith) (omega arith))
  | inr (inl here) ↦ inl (subst (λ k. Same k u v) here same)
  | inr (inr after) ↦ absurd (omega arith)
]

pub AtLeast-trans : (n : ℕ) {u v w : Values} → AtLeast n u v → AtLeast n v w → AtLeast n u w
AtLeast-trans n {u} {v} {w} (inl same) (inl same') = inl (λ r h. same r h ∙ same' r h)
AtLeast-trans n {u} {v} {w} (inl same) (inr l) = inr (Later-Same n (λ r h. sym (same r h)) l)
AtLeast-trans n {u} {v} {w} (inr l) other = elim (AtLeast-split n l.position l.is_below other) [
  | inl earlier ↦ inr (record {
    position = earlier.position;
    is_below = omega (arith, earlier.is_below, l.is_below);
    is_same = λ r h. l.is_same r (omega (arith, earlier.is_below, h)) ∙ earlier.is_same r h;
    is_less =
        subst (λ x. x <ℤ w earlier.position) (sym (l.is_same earlier.position earlier.is_below))
          earlier.is_less;
  })
  | inr (same, le) ↦ inr (record {
    position = l.position;
    is_below = l.is_below;
    is_same = λ r h. l.is_same r h ∙ same r h;
    is_less = omega (arith, l.is_less, le);
  })
]
