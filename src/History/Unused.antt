-- ===== src/History/Unused.antt =====
-- What pruneUnusedHistoryVersions leaves of the history.
use bistro.Base.{
  after_check, ℕ, ◌-◌, ◌<◌, true, false, ◌≡◌, sym, ap, none, some, List, [], ◌∷◌, ◌++◌, ok,
  ok-injective, String, if◌then◌else◌, ltb, leb, inl, inr, Bool-cases, arith,
}
use bistro.Base.Word.{two_64}
use bistro.WorkerSet.{earlier}
use bistro.Worker.{RemoteWorker}
use bistro.History.{
  HistoryStep, History, first_referenced_version, prune_established, prune_unused_history_versions,
}
use bistro.History.Shards.{IsDistinct-nil}
use bistro.History.Pruning.{
  workers_at, workers_at-prune_steps, AllErased, prune_steps-append, merged_step,
}

earlier_self : (v : ℕ) → v < two_64 → earlier v v ≡ ok false
unfolding earlier
earlier_self v h = ground arith

module _ (initial indirect : ℕ) (pool : List RemoteWorker) (history : History) where
  -- Where pruning returns, the set of workers at a version that is not before the first referenced
  -- one stays as it was.
  pub workers_at-prune_unused_history_versions :
      (v first : ℕ) {kept : History}
      → prune_unused_history_versions initial indirect pool history ≡ ok kept
      → first_referenced_version pool none ≡ ok (some first)
      → earlier v first ≡ ok false
      → workers_at v kept [] ≡ workers_at v history []
  unfolding prune_unused_history_versions prune_established
  workers_at-prune_unused_history_versions v first h e late =
      let k =
        after_check (leb indirect initial)
          (if ltb 0 (initial - indirect)
            then ok history
            else prune_established initial pool history)
          h in
      elim (Bool-cases (ltb 0 (initial - indirect))) [
        | inl t ↦ ap (λ l. workers_at v l []) (sym (ok-injective (rw (t) at k)))
        | inr t ↦ workers_at-prune_steps first v history [] IsDistinct-nil (rw (t, e) at k) late
      ]

-- If no worker is in limbo, the history holds the first referenced version after only earlier ones,
-- and can be replayed up to there, then pruning succeeds: it erases just the earlier versions, and
-- the first that it keeps adds the workers of the set at that version, and removes none.
pub prune_unused_history_versions-append :
    (initial : ℕ) (pool : List RemoteWorker) (erased rest : History) (step : HistoryStep)
    (first : ℕ) {merged : List String}
    → first < two_64
    → first_referenced_version pool none ≡ ok (some first)
    → AllErased first erased
    → workers_at first (erased ++ ((first, step) ∷ rest)) [] ≡ ok merged
    → prune_unused_history_versions initial initial pool (erased ++ ((first, step) ∷ rest))
      ≡ ok ((first, merged_step merged) ∷ rest)
unfolding prune_unused_history_versions prune_established
prune_unused_history_versions-append initial pool erased rest step first lt e a h =
    let enough : leb initial initial ≡ true = ground arith in
    let no_limbo : ltb 0 (initial - initial) ≡ false = ground arith in
    rw (enough, no_limbo, e)
      (prune_steps-append first erased rest step [] a (earlier_self first lt) h)
