-- ===== src/History/Pruning.antt =====
-- Pruning the history forgets no worker.
use bistro.Base.{
  ℕ, true, false, ◌≡◌, refl, sym, ap, ◌∙◌, none, List, [], ◌∷◌, ◌++◌, Outcome, ok, fatal, ◌>>=◌,
  >>=-eq-ok, after_check, ok-injective, String, if◌then◌else◌, ◌==◌, ==_iff, inl, inr, Bool-cases,
  arith,
}
use bistro.WorkerSet.{earlier}
use bistro.History.{HistoryStep, History, add_shards, merge_history_step, prune_steps}
use bistro.History.Shards.{IsDistinct, add_shards-AreNew, merge_history_step-IsDistinct}

-- The set of workers at a version, if the history is replayed on a set up to there.
unfoldable pub workers_at : ℕ → History → List String → Outcome (List String)
workers_at v [] set = fatal
workers_at v ((u, step) ∷ history) set = merge_history_step step set >>= λ merged.
    if u == v then ok merged else workers_at v history merged

workers_at-nil : (v : ℕ) (set : List String) → workers_at v [] [] ≡ workers_at v [] set
unfolding workers_at
workers_at-nil v set = refl

abbrev pub merged_step : List String → HistoryStep
merged_step set = record { removed = none; added = set }

merge-merged_step :
    (set : List String) → IsDistinct set → merge_history_step (merged_step set) [] ≡ ok set
unfolding merge_history_step bistro.History.remove_shard
merge-merged_step set d = add_shards-AreNew set [] d

workers_at-merged_step :
    (v u : ℕ) (step : HistoryStep) (history : History) (set : List String) {merged : List String}
    → IsDistinct merged
    → merge_history_step step set ≡ ok merged
    → workers_at v ((u, merged_step merged) ∷ history) [] ≡ workers_at v ((u, step) ∷ history) set
unfolding workers_at
workers_at-merged_step v u step history set {merged = merged} d e =
    rw (e, merge-merged_step merged d) refl

-- A version that is not before the first referenced one is none that is erased.
is_other :
    (first u v : ℕ) → earlier u first ≡ ok true → earlier v first ≡ ok false → (u == v) ≡ false
is_other first u v e late = elim (Bool-cases (u == v)) [
  | inl t ↦ absurd (ground (arith, ap (λ x. earlier x first) ((==_iff u v).0 t)))
  | inr t ↦ t
]

workers_at-erased :
    (first v u : ℕ) (step : HistoryStep) (history : History) (set : List String)
    {merged : List String}
    → merge_history_step step set ≡ ok merged
    → earlier u first ≡ ok true
    → earlier v first ≡ ok false
    → workers_at v ((u, step) ∷ history) set ≡ workers_at v history merged
unfolding workers_at
workers_at-erased first v u step history set e before late =
    rw (e, is_other first u v before late) refl

prune_steps-base :
    (first : ℕ) (set : List String) {kept : History}
    → prune_steps first [] set ≡ ok kept
    → kept ≡ []
unfolding prune_steps
prune_steps-base first [] h = sym (ok-injective h)
prune_steps-base first (s ∷ set) h = absurd (ground arith)

-- What the loop keeps, for the shards that it collected so far.
pub workers_at-prune_steps :
    (first v : ℕ) (history : History) (set : List String) {kept : History}
    → IsDistinct set
    → prune_steps first history set ≡ ok kept
    → earlier v first ≡ ok false
    → workers_at v kept [] ≡ workers_at v history set
unfolding prune_steps
workers_at-prune_steps first v [] set d h late =
    ap (λ k. workers_at v k []) (prune_steps-base first set h) ∙ workers_at-nil v set
workers_at-prune_steps first v ((u, step) ∷ history) set d h late =
    let (unused, e, k) = >>=-eq-ok (earlier u first) _ h in
    elim (Bool-cases unused) [
      | inl t ↦
          let (merged, m, rest) = >>=-eq-ok (merge_history_step step set) _ (rw (t) at k) in
          workers_at-prune_steps first v history merged (merge_history_step-IsDistinct step set d m)
            rest late
          ∙ sym (workers_at-erased first v u step history set m (e ∙ ap ok t) late)
      | inr t ↦
          let next = after_check (first == u) _ (rw (t) at k) in
          let (merged, m, rest) = >>=-eq-ok (merge_history_step step set) _ next in
          ap (λ l. workers_at v l []) (sym (ok-injective rest))
          ∙ workers_at-merged_step v u step history set (merge_history_step-IsDistinct step set d m)
              m
    ]

-- Every version of the steps is before the first referenced one.
unfoldable pub AllErased : ℕ → History → Type 0
AllErased first [] = Unit
AllErased first ((u, step) ∷ history) = (earlier u first ≡ ok true) × AllErased first history

pub prune_steps-append :
    (first : ℕ) (erased rest : History) (step : HistoryStep) (set : List String)
    {merged : List String}
    → AllErased first erased
    → earlier first first ≡ ok false
    → workers_at first (erased ++ ((first, step) ∷ rest)) set ≡ ok merged
    → prune_steps first (erased ++ ((first, step) ∷ rest)) set
      ≡ ok ((first, merged_step merged) ∷ rest)
unfolding prune_steps workers_at AllErased
prune_steps-append first [] rest step set a late h =
    let (merged, m, k) = >>=-eq-ok (merge_history_step step set) _ h in
    let same : (first == first) ≡ true = (==_iff first first).1 refl in
    rw (late, same, m, ok-injective (rw (same) at k)) refl
prune_steps-append first ((u, other) ∷ erased) rest step set (before, a) late h =
    let (merged, m, k) = >>=-eq-ok (merge_history_step other set) _ h in
    rw (before, m)
      (prune_steps-append first erased rest step merged a late
        (rw (is_other first u first before late) at k))
