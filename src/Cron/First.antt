-- ===== src/Cron/First.antt =====
-- findFirstMatch finds the first match.
use mathlib.Core.Option.{some_inj}
use bistro.Base.{
  ◌+◌, ◌<◌, true, ◌≡◌, ◌⊎◌, inl, inr, refl, ap, subst, none, some, List, [], ◌∷◌, contains, same,
  Bool-cases, Option-cases, arith,
}
use bistro.Base.Int.{ℤ, pos, negsuc, ◌≤ℤ◌, pos_part, neg_part, ltb_ℤ, int_eq, eqb_ℤ_iff}
use bistro.Base.Word.{two_63}
use bistro.Cron.{CrontabSelector, lower_bound, find_first_match}
use bistro.Cron.Matches.{matches, Sorted, IsSelector, IsFirst}
use bistro.Cron.Ranges.{range-IsFirst}

pub contains-cases :
    (n v : ℤ) (vs : List ℤ) → contains n (v ∷ vs) ≡ true → (v ≡ n) ⊎ (contains n vs ≡ true)
contains-cases n v vs m = elim (Bool-cases (same v n)) [
  | inl y ↦ inl ((eqb_ℤ_iff v n).0 y)
  | inr y ↦ inr (rw (y) at m)
]

pub contains_head : (v : ℤ) (vs : List ℤ) → contains v (v ∷ vs) ≡ true
contains_head v vs = rw ((eqb_ℤ_iff v v).1 refl) refl

pub contains_tail : (n v : ℤ) (vs : List ℤ) → contains n vs ≡ true → contains n (v ∷ vs) ≡ true
contains_tail n v vs m = ground arith

lower_bound-none :
    (vs : List ℤ) (t : ℤ)
    → lower_bound vs t ≡ none
    → (n : ℤ) → contains n vs ≡ true
    → ltb_ℤ n t ≡ true
unfolding lower_bound
lower_bound-none [] t e n m = cc
lower_bound-none (v ∷ vs) t e n m = elim (Bool-cases (ltb_ℤ v t)) [
  | inr q ↦ absurd (ground (arith, rw (q) at e))
  | inl q ↦ elim (contains-cases n v vs m) [
    | inl y ↦ subst (λ x. ltb_ℤ x t ≡ true) y q
    | inr y ↦ lower_bound-none vs t (rw (q) at e) n y
  ]
]

lower_bound-some :
    (vs : List ℤ) (t w : ℤ)
    → Sorted vs
    → lower_bound vs t ≡ some w
    → (contains w vs ≡ true) × (t ≤ℤ w) × ((n : ℤ) → contains n vs ≡ true → t ≤ℤ n → w ≤ℤ n)
unfolding lower_bound Sorted
lower_bound-some [] t w d e = cc
lower_bound-some (v ∷ vs) t w d e = elim (Bool-cases (ltb_ℤ v t)) [
  | inr q ↦
      let found : v ≡ w = some_inj.0 (rw (q) at e) in
      subst
        (λ x.
          (contains x (v ∷ vs) ≡ true)
          × (t ≤ℤ x)
          × ((n : ℤ) → contains n (v ∷ vs) ≡ true → t ≤ℤ n → x ≤ℤ n))
        found
        (
          contains_head v vs,
          ground arith,
          λ n k l. elim (contains-cases n v vs k) [
            | inl y ↦ subst (λ x. v ≤ℤ x) y (omega arith)
            | inr y ↦ d.0 n y
          ],
        )
  | inl q ↦
      let (m, le, least) = lower_bound-some vs t w d.1 (rw (q) at e) in
      (
        contains_tail w v vs m,
        le,
        λ n k l. elim (contains-cases n v vs k) [
          | inl y ↦ absurd (ground (arith, q, ap pos_part y, ap neg_part y))
          | inr y ↦ least n y l
        ],
      )
]

module _ (v : ℤ) (vs : List ℤ) (start end_ period min_val max_val : ℤ) where
  abbrev listed : CrontabSelector
  listed = record {
    sorted_values = v ∷ vs;
    start = start;
    end_ = end_;
    period = period;
    min_val = min_val;
    max_val = max_val;
  }

  list-IsFirst :
      (t : ℤ)
      → Sorted (v ∷ vs)
      → IsFirst listed t (find_first_match listed t).0 (find_first_match listed t).1
  unfolding find_first_match matches Sorted
  list-IsFirst t d = elim (Option-cases (lower_bound (v ∷ vs) t)) [
    | inl q ↦
        rw (q, find_first_match)
          (record {
            is_match = contains_head v vs;
            is_later = λ c. cc;
            is_least = λ n m c. elim (contains-cases n v vs m) [
              | inl y ↦ subst (λ x. v ≤ℤ x) y (omega arith)
              | inr y ↦ d.0 n y
            ];
            is_wrapped = λ c. lower_bound-none (v ∷ vs) t q;
          })
    | inr (w, q) ↦
        let (member, later, least) = lower_bound-some (v ∷ vs) t w d q in
        rw (q, find_first_match)
          (record {
            is_match = member;
            is_later = λ c. later;
            is_least = λ n m c. elim c [ inl z ↦ cc | inr after ↦ least n m after ];
            is_wrapped = λ c. cc;
          })
  ]

IsFirst-at :
    (values : List ℤ) (start end_ period min_val max_val t : ℤ)
    → let s : CrontabSelector = record {
      sorted_values = values;
      start = start;
      end_ = end_;
      period = period;
      min_val = min_val;
      max_val = max_val;
    } in
      IsSelector s
      → pos_part t + pos_part period < two_63
      → IsFirst s t (find_first_match s t).0 (find_first_match s t).1
IsFirst-at (v ∷ vs) start end_ period min_val max_val t h small =
    list-IsFirst v vs start end_ period min_val max_val t h.is_sorted
IsFirst-at [] (pos b) (pos e) (pos p) min_val max_val t h small =
    range-IsFirst b e p min_val max_val (omega (arith, h.is_periodic)) (omega (arith, h.is_range.1))
      t small
IsFirst-at [] (negsuc b) end_ period min_val max_val t h small =
    absurd (omega (arith, h.is_range.0))
IsFirst-at [] (pos b) (negsuc e) period min_val max_val t h small =
    absurd (omega (arith, h.is_range.1))
IsFirst-at [] (pos b) (pos e) (negsuc p) min_val max_val t h small =
    absurd (omega (arith, h.is_periodic))

-- In a selector whose values are sorted, whose range from start to end is not empty and begins at 0 or
-- later, and whose period is positive, and from a value `t` that together with the period fits an
-- int64_t: findFirstMatch finds the least match that is not before `t`; if there is none, it wraps
-- around to the least of all matches.
pub find_first_match-IsFirst :
    (s : CrontabSelector) (t : ℤ)
    → IsSelector s
    → pos_part t + pos_part s.period < two_63
    → IsFirst s t (find_first_match s t).0 (find_first_match s t).1
find_first_match-IsFirst s t h small =
    IsFirst-at s.sorted_values s.start s.end_ s.period s.min_val s.max_val t h small
