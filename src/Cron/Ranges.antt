-- ===== src/Cron/Ranges.antt =====
-- The first match of a range.
use native.Mathlib.Nat.{zero-mod, sub_self}
use bistro.Base.{
  ℕ, ◌+◌, ◌-◌, ◌%◌, ◌≤◌, ◌<◌, Bool, true, false, ◌≡◌, inl, inr, refl, ap, ◌∙◌, [], same, Bool-cases,
  if◌then◌else◌, arith,
}
use bistro.Base.Int.{ℤ, pos, negsuc, pos_part, neg_part, ltb_ℤ, int_eq}
use bistro.Base.Word.{two_63}
use bistro.Cron.{CrontabSelector, find_first_match}
use bistro.Cron.Matches.{matches, IsFirst}
use bistro.Cron.Multiples.{
  ltb-cases, next_multiple, le-next_multiple, add_sub, next_multiple-mod, next_multiple-le, -ℤ-pos,
  next_value,
}

module _ (start end_ min_val max_val : ℤ) where
  abbrev pub spaced : ℕ → CrontabSelector
  spaced p = record {
    sorted_values = [];
    start = start;
    end_ = end_;
    period = pos p;
    min_val = min_val;
    max_val = max_val;
  }

-- A value of a range, by its distance from the start.
matches_distance :
    (b n p e : ℕ) (min_val max_val : ℤ)
    → matches (spaced (pos b) (pos e) min_val max_val p) (pos n) ≡ true
    → (b ≤ n) × (n ≤ e) × ((n - b) % p ≡ 0)
unfolding matches
matches_distance b n p e min_val max_val m =
    let low : b ≤ n = ground arith in
    let high : n ≤ e = ground arith in
    let plain : p + 0 ≡ p = omega arith in
    let m' = rw (plain) at (rw (-ℤ-pos n b low) at m) in (low, high, ground (arith, m'))

matches_at :
    (b n p e : ℕ) (min_val max_val : ℤ)
    → b ≤ n
    → n ≤ e
    → (n - b) % p ≡ 0
    → matches (spaced (pos b) (pos e) min_val max_val p) (pos n) ≡ true
unfolding matches
matches_at b n p e min_val max_val low high h =
    let plain : p + 0 ≡ p = omega arith in rw (-ℤ-pos n b low, plain, h) (ground arith)

module _ (b e p : ℕ) (min_val max_val : ℤ) (periodic : 0 < p) (nonempty : b ≤ e) where
  abbrev pub range : CrontabSelector
  range = spaced (pos b) (pos e) min_val max_val p

  abbrev pub IsFirstIn : ℤ → ℤ × Bool → Type 0
  IsFirstIn t found = IsFirst range t found.0 found.1

  start-matches : matches range (pos b) ≡ true
  start-matches =
      matches_at b b p e min_val max_val (omega arith) nonempty (rw (sub_self b) (zero-mod p))

  matches-nonneg :
      (n : ℤ)
      → matches range n ≡ true
      → (k : ℕ) × (n ≡ pos k) × (b ≤ k) × (k ≤ e) × ((k - b) % p ≡ 0)
  unfolding matches
  matches-nonneg (pos k) m =
      let (low, high, h) = matches_distance b k p e min_val max_val m in (k, refl, low, high, h)
  matches-nonneg (negsuc k) m = absurd (ground (arith, m))

  range-IsFirst_before : (t : ℤ) → ltb_ℤ t (pos b) ≡ true → IsFirstIn t (pos b, false)
  range-IsFirst_before t early = record {
    is_match = start-matches;
    is_later = λ c. ground arith;
    is_least =
        λ n m c. let (k, same, low, high, h) = matches-nonneg n m in rw (same) (omega (arith, low));
    is_wrapped = λ c. cc;
  }

  range-IsFirst_from :
      (a : ℕ)
      → b ≤ a
      → a + p < two_63
      → IsFirstIn (pos a) (
          if ltb_ℤ (pos e) (pos (b + next_multiple (a - b) p))
          then (pos b, true)
          else (pos (b + next_multiple (a - b) p), false))
  range-IsFirst_from a late small =
      elim (Bool-cases (ltb_ℤ (pos e) (pos (b + next_multiple (a - b) p)))) [
        | inl q ↦ rw (q) (record {
          is_match = start-matches;
          is_later = λ c. cc;
          is_least = λ n m c.
              let (k, same, low, high, h) = matches-nonneg n m in rw (same) (omega (arith, low));
          is_wrapped = λ c n m.
              let (k, same, low, high, h) = matches-nonneg n m in
              elim (ltb-cases k a) [
                | inl before ↦ rw (same) (ground arith)
                | inr after ↦
                    let far = next_multiple-le (a - b) (k - b) p periodic (omega arith) h in
                    absurd (ground arith)
              ];
        })
        | inr q ↦ rw (q) (record {
          is_match =
              matches_at b (b + next_multiple (a - b) p) p e min_val max_val (omega arith)
                (ground arith)
                (ap (λ k. k % p) (add_sub b (next_multiple (a - b) p))
                  ∙ next_multiple-mod (a - b) p periodic);
          is_later = λ c. omega (arith, le-next_multiple (a - b) p);
          is_least = λ n m c.
              let (k, same, low, high, h) = matches-nonneg n m in
              elim c [
                | inl w ↦ cc
                | inr after ↦
                    let far =
                      next_multiple-le (a - b) (k - b) p periodic
                        (omega (arith, ap pos_part same, ap neg_part same)) h in
                    rw (same) (omega (arith, far, low))
              ];
          is_wrapped = λ c. cc;
        })
      ]

  pub range-IsFirst : (t : ℤ) → pos_part t + p < two_63 → IsFirstIn t (find_first_match range t)
  unfolding find_first_match
  range-IsFirst (negsuc k) small =
      let q : ltb_ℤ (negsuc k) (pos b) ≡ true = ground arith in
      rw (q) (range-IsFirst_before (negsuc k) q)
  range-IsFirst (pos a) small = elim (Bool-cases (ltb_ℤ (pos a) (pos b))) [
    | inl q ↦ rw (q) (range-IsFirst_before (pos a) q)
    | inr q ↦ rw (q) (
        rw (next_value a b p periodic (ground arith) small)
          (range-IsFirst_from a (ground arith) small))
  ]
