-- ===== src/Runner/Failures.antt =====
-- A job's backoff settings decide how often its tasks are retried.
use bistro.Base.{
  ℕ, zero, suc, ◌+◌, ◌<◌, ◌≡◌, refl, true, false, Option, none, some, List, [], ◌∷◌, ok, arith,
  length, Bool-cases, Option-cases, inl, inr, ◌≤◌, subst,
}
use bistro.Base.Int.{ℤ, pos, negsuc, pos_part, neg_part, ltb_ℤ}
use bistro.Base.Word.{two_31, to_u32, to_i32}
use bistro.Base.Dynamic.{Fields}
use bistro.Backoff.{JobBackoffSettings, BackoffDuration, upper_bound, get_next, wait, no_more}
use bistro.Backoff.{back}
use bistro.Backoff.Next.{
  count_above, count_above-le-length, count_above-upper_bound, get_next-stops, get_next-longer,
  get_next-repeats, back-some,
}
use bistro.Backoff.Parse.{◌<ℤ◌, IsIncreasing, IsValid}
use bistro.Backoff.RoundTrip.{FitInt}
use bistro.Thrift.{RunningTask}
use bistro.Status.Bits.{all_set, replace_bit}
use bistro.Status.{
  TaskStatus, running, error_backoff, is_failed, has_saved_backoff, uses_backoff, prev_backoff,
  apply_backoff, update, configured_backoff_duration,
}
use bistro.Status.Update.{HasSaved, prev_backoff-total}
use bistro.Runner.{next_backoff, fail_once, fail_times}

-- A status that may be retried, with the wait that its job gave it.
pub record IsRetried (s : TaskStatus) (seconds : ℤ) : Type 0 where
  pub not_failed : is_failed s ≡ false
  pub saved : HasSaved s
  pub configured : configured_backoff_duration s ≡ ok (wait seconds)

-- The wait is a positive int.
abbrev pub IsWait : ℤ → Type 0
IsWait v = ◌<ℤ◌ (pos 0) v × (pos_part v < two_31)

to_i32-to_u32 : (v : ℤ) → IsWait v → to_i32 (pos (to_u32 v)) ≡ v
to_i32-to_u32 (pos n) h = ground arith
to_i32-to_u32 (negsuc n) h = absurd (omega arith)

upper_bound-IsWait :
    (lo : ℤ) (vs : List ℤ) (x v : ℤ)
    → neg_part lo ≤ pos_part lo
    → IsIncreasing lo vs
    → FitInt vs
    → upper_bound vs x ≡ some v
    → IsWait v
unfolding upper_bound
upper_bound-IsWait lo [] x v p g f e = cc
upper_bound-IsWait lo (w ∷ vs) x v p g f e = elim (Bool-cases (ltb_ℤ x w)) [
  | inl t ↦ let same : w ≡ v = ground arith in subst IsWait same (omega arith)
  | inr t ↦ upper_bound-IsWait w vs x v (omega arith) g.1 f.1 (rw (t, upper_bound) at e)
]

back-IsWait :
    (lo : ℤ) (vs : List ℤ) (v : ℤ)
    → neg_part lo ≤ pos_part lo
    → IsIncreasing lo vs
    → FitInt vs
    → back vs ≡ some v
    → IsWait v
back-IsWait lo [] v p g f e = cc
back-IsWait lo (w ∷ []) v p g f e =
    let same : w ≡ v = ground arith in subst IsWait same (omega arith)
back-IsWait lo (w ∷ u ∷ vs) v p g f e = back-IsWait w (u ∷ vs) v (omega arith) g.1 f.1 e

-- Recording that a task runs stores the running status.
update-eq-running :
    (s : TaskStatus) (rt : RunningTask) (now : ℤ)
    → HasSaved s
    → update s rt (running now none) ≡ ok (running now none)
unfolding update apply_backoff uses_backoff all_set
update-eq-running s rt now h = let (z, e) = prev_backoff-total s rt h in rw e

-- A running status has no backoff of its own.
update-running :
    (rt : RunningTask) (now : ℤ) (new : TaskStatus)
    → update (running now none) rt new
      ≡ apply_backoff new rt (pos (to_u32 rt.next_backoff_duration.seconds))
unfolding update prev_backoff has_saved_backoff all_set
update-running rt now new = refl

module _ (settings : JobBackoffSettings) (task : RunningTask) (now : ℤ) (d : Option Fields) where
  abbrev retried : ℤ → TaskStatus
  retried v = record (error_backoff now d) { backoff_duration = to_u32 v }

  retried-IsRetried : (v : ℤ) → IsWait v → IsRetried (retried v) v
  unfolding is_failed has_saved_backoff configured_backoff_duration all_set
  retried-IsRetried v w = record {
    not_failed = refl;
    saved = λ h. cc;
    configured = rw (to_i32-to_u32 v w);
  }

  fail_once_started :
      (s : TaskStatus) (x : ℤ) (next : BackoffDuration)
      → IsRetried s x
      → get_next settings (wait x) ≡ ok next
      → fail_once settings task now d s
        ≡ apply_backoff
            (error_backoff now d)
            (record task { next_backoff_duration = next })
            (pos (to_u32 next.seconds))
  unfolding fail_once next_backoff
  fail_once_started s x next r g =
      let rt = record task { next_backoff_duration = next } in
      rw (r.configured, g, update-eq-running s rt now r.saved)
        (update-running rt now (error_backoff now d))

  fail_once-retried :
      (s : TaskStatus) (x v : ℤ)
      → IsRetried s x
      → get_next settings (wait x) ≡ ok (wait v)
      → fail_once settings task now d s ≡ ok (retried v)
  unfolding apply_backoff uses_backoff all_set
  fail_once-retried s x v r g = fail_once_started s x (wait v) r g

  fail_once_failed :
      (s : TaskStatus) (x : ℤ)
      → IsRetried s x
      → get_next settings (wait x) ≡ ok no_more
      → (t : TaskStatus) × (fail_once settings task now d s ≡ ok t) × (is_failed t ≡ true)
  unfolding apply_backoff uses_backoff all_set is_failed replace_bit
  fail_once_failed s x r g = (_, fail_once_started s x no_more r g, refl)

  -- Settings that repeat always give a wait.
  next_wait :
      (x : ℤ)
      → IsValid settings
      → FitInt settings.values
      → settings.repeat ≡ true
      → (w : ℤ) × IsWait w × (get_next settings (wait x) ≡ ok (wait w))
  next_wait x v f r = elim (Option-cases (upper_bound settings.values x)) [
    | inl e ↦
        let (b, last) = back-some settings.values (v.repeats_some r) in
        (
          b,
          back-IsWait (pos 0) settings.values b (omega arith) v.increasing f last,
          get_next-repeats settings x b r e last,
        )
    | inr (w, e) ↦ (
      w,
      upper_bound-IsWait (pos 0) settings.values x w (omega arith) v.increasing f e,
      get_next-longer settings x w e,
    )
  ]

  fail_times_stopped :
      (n : ℕ) (s : TaskStatus) → is_failed s ≡ true → fail_times settings task now d n s ≡ ok s
  unfolding fail_times
  fail_times_stopped zero s e = refl
  fail_times_stopped (suc n) s e = rw e

  -- One retry for each value above the present wait, and then the failure for good.
  fail_times_from :
      (n : ℕ) (s : TaskStatus) (x : ℤ)
      → IsValid settings
      → FitInt settings.values
      → settings.repeat ≡ false
      → IsRetried s x
      → count_above settings.values x < n
      → (t : TaskStatus) × (fail_times settings task now d n s ≡ ok t) × (is_failed t ≡ true)
  unfolding fail_times
  fail_times_from zero s x v f r h c = absurd (omega arith)
  fail_times_from (suc n) s x v f r h c = elim (Option-cases (upper_bound settings.values x)) [
    | inl e ↦
        let (t, once, failed) = fail_once_failed s x h (get_next-stops settings x r e) in
        (t, rw (h.not_failed, once) (fail_times_stopped n t failed), failed)
    | inr (w, e) ↦
        let w' = upper_bound-IsWait (pos 0) settings.values x w (omega arith) v.increasing f e in
        let fewer = count_above-upper_bound settings.values x w e in
        let (t, rest, failed) =
          fail_times_from n (retried w) w v f r (retried-IsRetried w w') (omega arith) in
        (
          t,
          rw (h.not_failed, fail_once-retried s x w h (get_next-longer settings x w e)) rest,
          failed,
        )
  ]

  -- Under settings that end in "fail", a task that keeps failing is failed for good after one
  -- failure more than there are values at most, whatever wait it starts with, and nothing aborts on
  -- the way.
  pub fail_times-is_failed :
      (s : TaskStatus) (x : ℤ)
      → IsValid settings
      → FitInt settings.values
      → settings.repeat ≡ false
      → IsRetried s x
      → (t : TaskStatus) × (fail_times settings task now d (length settings.values + 1) s ≡ ok t)
        × (is_failed t ≡ true)
  fail_times-is_failed s x v f r h =
      fail_times_from _ s x v f r h (omega (arith, count_above-le-length settings.values x))

  fail_times-IsWait :
      (n : ℕ) (s : TaskStatus) (x : ℤ)
      → IsValid settings
      → FitInt settings.values
      → settings.repeat ≡ true
      → IsRetried s x
      → IsWait x
      → (t : TaskStatus) × (y : ℤ) × (fail_times settings task now d n s ≡ ok t)
        × IsRetried t y
        × IsWait y
  unfolding fail_times
  fail_times-IsWait zero s x v f r h i = (s, x, refl, h, i)
  fail_times-IsWait (suc n) s x v f r h i =
      let (w, w', g) = next_wait x v f r in
      let (t, y, rest, retry, last) =
        fail_times-IsWait n (retried w) w v f r (retried-IsRetried w w') w' in
      (t, y, rw (h.not_failed, fail_once-retried s x w h g) rest, retry, last)

  -- Under settings that end in "repeat" a task that may be retried, whatever wait it has, is retried
  -- however often it fails: after each failure it has a positive wait and is not failed for good, and
  -- nothing aborts on the way.
  pub fail_times-IsRetried :
      (n : ℕ) (s : TaskStatus) (x : ℤ)
      → IsValid settings
      → FitInt settings.values
      → settings.repeat ≡ true
      → IsRetried s x
      → (t : TaskStatus) × (y : ℤ) × (fail_times settings task now d (suc n) s ≡ ok t)
        × IsRetried t y
        × IsWait y
  unfolding fail_times
  fail_times-IsRetried n s x v f r h =
      let (w, w', g) = next_wait x v f r in
      let (t, y, rest, retry, last) =
        fail_times-IsWait n (retried w) w v f r (retried-IsRetried w w') w' in
      (t, y, rw (h.not_failed, fail_once-retried s x w h g) rest, retry, last)
