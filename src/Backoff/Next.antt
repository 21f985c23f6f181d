-- ===== src/Backoff/Next.antt =====
-- How the backoff of a task grows.
use bistro.Base.{
  ℕ, suc, true, false, none, some, List, [], ◌∷◌, ◌<◌, ◌≤◌, ◌≡◌, ◌≢◌, refl, arith, ok, Bool-cases,
  inl, inr, length, if◌then◌else◌,
}
use bistro.Base.Int.{ℤ, ltb_ℤ}
use bistro.Backoff.{JobBackoffSettings, back, upper_bound, get_next, wait, no_more}
use bistro.Backoff.Parse.{◌<ℤ◌}

-- How many of the values are longer than `x`.
pub count_above : List ℤ → ℤ → ℕ
count_above [] x = 0
count_above (v ∷ vs) x = if ltb_ℤ x v then suc (count_above vs x) else count_above vs x

pub count_above-le-length : (vs : List ℤ) (x : ℤ) → count_above vs x ≤ length vs
unfolding count_above
count_above-le-length [] x = omega arith
count_above-le-length (v ∷ vs) x = ground (arith, count_above-le-length vs x)

count_above_mono : (vs : List ℤ) (x y : ℤ) → ◌<ℤ◌ x y → count_above vs y ≤ count_above vs x
unfolding count_above
count_above_mono [] x y h = omega arith
count_above_mono (v ∷ vs) x y h = ground (arith, count_above_mono vs x y h)

upper_bound-lt : (vs : List ℤ) (x v : ℤ) → upper_bound vs x ≡ some v → ◌<ℤ◌ x v
unfolding upper_bound
upper_bound-lt [] x v e = cc
upper_bound-lt (w ∷ vs) x v e = ground (arith, upper_bound-lt vs x v)

pub count_above-upper_bound :
    (vs : List ℤ) (x v : ℤ) → upper_bound vs x ≡ some v → count_above vs v < count_above vs x
unfolding upper_bound count_above
count_above-upper_bound [] x v e = cc
count_above-upper_bound (w ∷ vs) x v e = elim (Bool-cases (ltb_ℤ x w)) [
  | inl t ↦ ground (arith, count_above_mono vs x w)
  | inr t ↦ ground (arith, count_above-upper_bound vs x v, upper_bound-lt vs x v)
]

pub back-some : (vs : List ℤ) → vs ≢ [] → (b : ℤ) × (back vs ≡ some b)
back-some [] h = absurd (h refl)
back-some (v ∷ []) h = (v, refl)
back-some (v ∷ w ∷ vs) h = back-some (w ∷ vs) (λ e. cc)

pub get_next-longer :
    (s : JobBackoffSettings) (x v : ℤ)
    → upper_bound s.values x ≡ some v
    → get_next s (wait x) ≡ ok (wait v)
unfolding get_next
get_next-longer s x v e = ground arith

pub get_next-stops :
    (s : JobBackoffSettings) (x : ℤ)
    → s.repeat ≡ false
    → upper_bound s.values x ≡ none
    → get_next s (wait x) ≡ ok no_more
unfolding get_next
get_next-stops s x r e = ground arith

pub get_next-repeats :
    (s : JobBackoffSettings) (x v : ℤ)
    → s.repeat ≡ true
    → upper_bound s.values x ≡ none
    → back s.values ≡ some v
    → get_next s (wait x) ≡ ok (wait v)
unfolding get_next
get_next-repeats s x v r e b = ground arith
