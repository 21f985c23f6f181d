-- ===== src/History/Shards.antt =====
-- The sets of shards that the steps of the history merge into hold no shard twice.
use mathlib.Core.List.{append_assoc, append-nil}
use bistro.Base.{
  contains, false, ◌||◌, ◌≡◌, refl, sym, ap, ◌∙◌, Option, none, some, List, [], ◌∷◌, ◌++◌, subst,
  ok, >>=-eq-ok, ok-injective, String, same, string_eq, inl, inr, Bool-cases, arith,
}
use bistro.History.{HistoryStep, remove, add_shards, remove_shard, merge_history_step}

contains-append :
    (s : String) (xs ys : List String) → contains s (xs ++ ys) ≡ (contains s xs || contains s ys)
contains-append s [] ys = refl
contains-append s (x ∷ xs) ys = ground (arith, contains-append s xs ys)

-- The shards `xs` are not in `set` and differ from each other.
pub AreNew : List String → List String → Type 0
AreNew set [] = Unit
AreNew set (x ∷ xs) = (contains x set ≡ false) × AreNew (set ++ (x ∷ [])) xs

AreNew-add_shards :
    (xs set : List String) {r : List String}
    → add_shards xs set ≡ ok r
    → AreNew set xs × (r ≡ set ++ xs)
unfolding add_shards AreNew
AreNew-add_shards [] set h = (tt, sym (ok-injective h) ∙ sym (append-nil set))
AreNew-add_shards (x ∷ xs) set h = elim (Bool-cases (contains x set)) [
  | inl t ↦ absurd (ground arith)
  | inr t ↦
      let rest = AreNew-add_shards xs (set ++ (x ∷ [])) (rw (t) at h) in
      ((t, rest.0), rest.1 ∙ append_assoc set (x ∷ []) xs)
]

pub add_shards-AreNew : (xs set : List String) → AreNew set xs → add_shards xs set ≡ ok (set ++ xs)
unfolding add_shards AreNew
add_shards-AreNew [] set h = ap ok (sym (append-nil set))
add_shards-AreNew (x ∷ xs) set (n, h) =
    rw (n) (add_shards-AreNew xs (set ++ (x ∷ [])) h ∙ ap ok (append_assoc set (x ∷ []) xs))

AreNew-append :
    (xs ys set : List String) → AreNew set xs → AreNew (set ++ xs) ys → AreNew set (xs ++ ys)
unfolding AreNew
AreNew-append [] ys set h k = subst (λ s. AreNew s ys) (append-nil set) k
AreNew-append (x ∷ xs) ys set (n, h) k = (
  n,
  AreNew-append xs ys (set ++ (x ∷ [])) h
      (subst (λ s. AreNew s ys) (sym (append_assoc set (x ∷ []) xs)) k),
)

-- Every shard of the first set is one of the second.
abbrev IsWithin : List String → List String → Type 0
IsWithin small large = (y : String) → contains y large ≡ false → contains y small ≡ false

IsWithin-append :
    (small large : List String) (x : String)
    → IsWithin small large
    → IsWithin (small ++ (x ∷ [])) (large ++ (x ∷ []))
IsWithin-append small large x h y n =
    ground (arith, h y, contains-append y small (x ∷ []), contains-append y large (x ∷ []))

AreNew-within :
    (xs small large : List String) → IsWithin small large → AreNew large xs → AreNew small xs
unfolding AreNew
AreNew-within [] small large h k = tt
AreNew-within (x ∷ xs) small large h (n, k) =
    (h x n, AreNew-within xs _ _ (IsWithin-append small large x h) k)

AreNew-remove : (s : String) (xs set : List String) → AreNew set xs → AreNew set (remove s xs)
unfolding AreNew
AreNew-remove s [] set h = tt
AreNew-remove s (x ∷ xs) set (n, h) = elim (Bool-cases (same x s)) [
  | inl t ↦ rw (t) (
      AreNew-within xs set (set ++ (x ∷ [])) (λ y m. ground (arith, contains-append y set (x ∷ [])))
        h)
  | inr t ↦ rw (t) (n, AreNew-remove s xs (set ++ (x ∷ [])) h)
]

-- No shard is there twice.
abbrev pub IsDistinct : List String → Type 0
IsDistinct set = AreNew [] set

pub IsDistinct-nil : IsDistinct []
unfolding AreNew
IsDistinct-nil = tt

remove_shard-IsDistinct :
    (removed : Option String) (set : List String) {r : List String}
    → IsDistinct set
    → remove_shard removed set ≡ ok r
    → IsDistinct r
unfolding remove_shard
remove_shard-IsDistinct none set d h = subst IsDistinct (ok-injective h) d
remove_shard-IsDistinct (some s) set d h = elim (Bool-cases (contains s set)) [
  | inl t ↦ subst IsDistinct (ok-injective (rw (t) at h)) (AreNew-remove s set [] d)
  | inr t ↦ absurd (ground arith)
]

pub merge_history_step-IsDistinct :
    (step : HistoryStep) (set : List String) {r : List String}
    → IsDistinct set
    → merge_history_step step set ≡ ok r
    → IsDistinct r
unfolding merge_history_step
merge_history_step-IsDistinct step set d h =
    let (left, e, k) = >>=-eq-ok (remove_shard step.removed set) (add_shards step.added) h in
    let (new, sum) = AreNew-add_shards step.added left k in
    subst IsDistinct (sym sum)
      (AreNew-append left step.added [] (remove_shard-IsDistinct step.removed set d e) new)
