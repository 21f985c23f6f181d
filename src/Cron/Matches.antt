-- ===== src/Cron/Matches.antt =====
-- What a selector matches, and which match comes first.
use bistro.Base.{
  Bool, true, false, not, ◌&&◌, ◌≡◌, ◌⊎◌, List, [], ◌∷◌, is_nil, contains, if◌then◌else◌,
}
use bistro.Base.Int.{ℤ, pos, ◌≤ℤ◌, ◌-ℤ◌, ltb_ℤ, eqb_ℤ, int_eq}
use bistro.Cron.{CrontabSelector, rem_ℤ}

-- The values that are listed, or those from `start` to `end_` in steps of `period`.
unfoldable pub matches : CrontabSelector → ℤ → Bool
matches s n =
    if is_nil s.sorted_values
    then not (ltb_ℤ n s.start)
      && not (ltb_ℤ s.end_ n)
      && eqb_ℤ (rem_ℤ (n -ℤ s.start) s.period) (pos 0)
    else contains n s.sorted_values

unfoldable pub Sorted : List ℤ → Type 0
Sorted [] = Unit
Sorted (v ∷ vs) = ((w : ℤ) → contains w vs ≡ true → v ≤ℤ w) × Sorted vs

-- The numbers that a selector computes with stay far from overflow, as for all but epochs.
pub record IsSelector (s : CrontabSelector) : Type 0 where
  pub is_sorted : Sorted s.sorted_values
  pub is_range : (pos 0 ≤ℤ s.start) × (s.start ≤ℤ s.end_)
  pub is_periodic : pos 1 ≤ℤ s.period

pub record IsFirst (s : CrontabSelector) (t : ℤ) (m : ℤ) (carry : Bool) : Type 0 where
  pub is_match : matches s m ≡ true
  pub is_later : carry ≡ false → t ≤ℤ m
  pub is_least : (n : ℤ) → matches s n ≡ true → (carry ≡ true) ⊎ (t ≤ℤ n) → m ≤ℤ n
  pub is_wrapped : carry ≡ true → (n : ℤ) → matches s n ≡ true → ltb_ℤ n t ≡ true
