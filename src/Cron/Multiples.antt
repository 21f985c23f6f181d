-- ===== src/Cron/Multiples.antt =====
-- The next multiple of a period, in the arithmetic of findFirstMatch.
use native.Mathlib.Nat.{mod-add-mod, add-mod-mod, mod-eq_of_lt, mod_self, mod-lt, eq-zero-or-pos}
use bistro.Base.{ℕ, ◌+◌, ◌-◌, ◌%◌, ◌≤◌, ◌<◌, ◌≡◌, ◌⊎◌, inl, inr, sym, ap, ◌∙◌, arith}
use bistro.Base.Int.{pos, ◌+ℤ◌, ◌-ℤ◌, int_eq}
use bistro.Base.Word.{two_63, from_u64-to_u64}
use bistro.Cron.{to_i64, rem_ℤ}

pub ltb-cases : (a b : ℕ) → (a < b) ⊎ (b ≤ a)
ltb-cases a b = omega arith

-- The next multiple of a positive period.
pub next_multiple : ℕ → ℕ → ℕ
next_multiple x p = x + (p - x % p) % p

pub le-next_multiple : (x p : ℕ) → x ≤ next_multiple x p
unfolding next_multiple
le-next_multiple x p = omega arith

pub add_sub : (b x : ℕ) → b + x - b ≡ x
add_sub b x = omega arith

pub next_multiple-mod : (x p : ℕ) → 0 < p → next_multiple x p % p ≡ 0
unfolding next_multiple
next_multiple-mod x p h =
    let r = x % p in
    let bound : r < p = mod-lt x h in
    add-mod-mod x (p - r) p
    ∙ sym (mod-add-mod x p (p - r))
    ∙ ap (λ k. k % p) (omega arith)
    ∙ mod_self p

pub next_multiple-le : (x y p : ℕ) → 0 < p → x ≤ y → y % p ≡ 0 → next_multiple x p ≤ y
unfolding next_multiple
next_multiple-le x y p h le e =
    let bound : x % p < p = mod-lt x h in
    elim (eq-zero-or-pos (x % p)) [
      | inl z ↦
          let whole : p - x % p ≡ p = omega arith in
          let none_left : (p - x % p) % p ≡ 0 = ap (λ k. k % p) whole ∙ mod_self p in omega arith
      | inr z ↦
          let rest : (p - x % p) % p ≡ p - x % p = mod-eq_of_lt (omega arith) in
          elim (ltb-cases (x % p + (y - x)) p) [
            | inr far ↦ omega arith
            | inl near ↦
                let whole : x % p + (y - x) ≡ 0 =
                  sym (mod-eq_of_lt near)
                  ∙ mod-add-mod x p (y - x)
                  ∙ ap (λ k. k % p) (omega arith)
                  ∙ e in
                absurd (omega arith)
          ]
    ]

pub to_i64-pos : (n : ℕ) → n < two_63 → to_i64 (pos n) ≡ pos n
to_i64-pos n h = from_u64-to_u64 (pos n) (h, omega arith)

pub -ℤ-pos : (a b : ℕ) → b ≤ a → pos a -ℤ pos b ≡ pos (a - b)
unfolding ◌-ℤ◌
-ℤ-pos a b h = ground arith

pub +ℤ-pos : (a b : ℕ) → pos a +ℤ pos b ≡ pos (a + b)
unfolding ◌+ℤ◌
+ℤ-pos a b = ground arith

pub next_value :
    (a b p : ℕ)
    → 0 < p
    → b ≤ a
    → a + p < two_63
    → to_i64 (pos a +ℤ rem_ℤ (to_i64 (pos p -ℤ rem_ℤ (to_i64 (pos a -ℤ pos b)) (pos p))) (pos p))
      ≡ pos (b + next_multiple (a - b) p)
unfolding next_multiple
next_value a b p h le small =
    let plain : p + 0 ≡ p = omega arith in
    let bound : (a - b) % p < p = mod-lt (a - b) h in
    let below : (p - (a - b) % p) % p < p = mod-lt (p - (a - b) % p) h in
    rw
      (
        -ℤ-pos a b le,
        to_i64-pos (a - b) (omega arith),
        plain,
        -ℤ-pos p ((a - b) % p) (omega arith),
        to_i64-pos (p - (a - b) % p) (omega arith),
        plain,
        +ℤ-pos a ((p - (a - b) % p) % p),
        to_i64-pos (a + (p - (a - b) % p) % p) (omega arith),
      )
      (ap pos (omega arith))
