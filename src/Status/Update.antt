-- ===== src/Status/Update.antt =====
-- TaskStatus::update: it never aborts on the statuses that the scheduler makes, and what it stores.
use bistro.Base.{
  ℕ, ◌+◌, ◌<◌, ◌≡◌, ◌∙◌, sym, ap, if◌then◌else◌, true, false, Bool, not, ◌&&◌, ◌||◌, ok-injective,
  arith, ◌==◌, ok, fatal, Bool-cases, inl, inr,
}
use bistro.Base.Int.{ℤ, pos, negsuc}
use bistro.Base.Word.{two_16, two_32, to_u32}
use bistro.Thrift.{RunningTask}
use bistro.Status.Bits
use bistro.Status.Bits.{bit, all_set, replace_bit}
use bistro.Status.Tables.{
  all_set-error, all_set-failed, all_set-has_saved_backoff, replace_bit-failed,
}
use bistro.Status.{
  TaskStatus, is_failed, uses_backoff, has_saved_backoff, saved_backoff, prev_backoff,
  apply_backoff, update,
}

-- How many of Unstarted, Running, Done, Incomplete, Failed and Error are set.
abbrev pub current : ℕ → ℕ
current b = bit b 1 + bit b 2 + bit b 4 + bit b 8 + bit b 16 + bit b 32

-- A status that says it holds a saved backoff holds one.
abbrev pub HasSaved : TaskStatus → Type 0
HasSaved s = has_saved_backoff s ≡ true → (z : ℤ) × (saved_backoff s ≡ ok z)

pub record IsWellFormed (s : TaskStatus) : Type 0 where
  pub fits : s.bits < two_16
  pub one : current s.bits ≡ 1
  pub backoff_fits : s.backoff_duration < two_32
  pub saved : HasSaved s

-- What update assumes of a new status.
pub record IsReported (s : TaskStatus) : Type 0 where
  pub well_formed : IsWellFormed s
  pub advances_on_error :
      uses_backoff s ≡ true
      → all_set s.bits Bits.does_not_advance_backoff ≡ false
      → all_set s.bits Bits.error ≡ true

-- It uses a backoff and advances it, and there is none left.
abbrev pub is_exhausted : TaskStatus → RunningTask → Bool
is_exhausted s rt =
    uses_backoff s
    && not (all_set s.bits Bits.does_not_advance_backoff)
    && rt.next_backoff_duration.no_more_backoffs

pub prev_backoff-total :
    (s : TaskStatus) (rt : RunningTask) → HasSaved s → (z : ℤ) × (prev_backoff s rt ≡ ok z)
unfolding prev_backoff
prev_backoff-total s rt h = elim (Bool-cases (has_saved_backoff s)) [
  | inl e ↦ let (z, r) = h e in (z, rw e r)
  | inr e ↦ (
    pos (
        if s.backoff_duration == 0
        then to_u32 rt.next_backoff_duration.seconds
        else s.backoff_duration),
    rw e,
  )
]

to_u32-lt : (z : ℤ) → to_u32 z < two_32
to_u32-lt (pos n) = omega arith
to_u32-lt (negsuc n) = omega arith

-- The failing branch swaps the Error bit for the Failed bit and keeps every other one.
failed_bits :
    (b : ℕ)
    → b < two_16
    → current b ≡ 1
    → all_set b Bits.error ≡ true
    → let c = replace_bit b Bits.error Bits.failed in
      (c < two_16) × (current c ≡ 1) × (bit c 16 ≡ 1) × (bit c 2048 ≡ bit b 2048)
failed_bits b lt one e =
    let set : bit b 32 ≡ 1 = ground (arith, all_set-error b) in
    rw (replace_bit-failed b lt) (omega arith)

-- What apply_backoff stores, one fact for each branch.
module _ (new : TaskStatus) (rt : RunningTask) (prev : ℤ) where
  abbrev next_seconds : ℕ
  next_seconds = to_u32 rt.next_backoff_duration.seconds

  apply_backoff_unused : uses_backoff new ≡ false → apply_backoff new rt prev ≡ ok new
  unfolding apply_backoff
  apply_backoff_unused u = ground arith

  apply_backoff_reuses :
      uses_backoff new ≡ true
      → all_set new.bits Bits.does_not_advance_backoff ≡ true
      → apply_backoff new rt prev ≡ ok (record new { backoff_duration = to_u32 prev })
  unfolding apply_backoff
  apply_backoff_reuses u d = ground arith

  apply_backoff_advances :
      uses_backoff new ≡ true
      → all_set new.bits Bits.does_not_advance_backoff ≡ false
      → rt.next_backoff_duration.no_more_backoffs ≡ false
      → apply_backoff new rt prev ≡ ok (record new { backoff_duration = next_seconds })
  unfolding apply_backoff
  apply_backoff_advances u d m = ground arith

  apply_backoff_fails :
      uses_backoff new ≡ true
      → all_set new.bits Bits.does_not_advance_backoff ≡ false
      → rt.next_backoff_duration.no_more_backoffs ≡ true
      → all_set new.bits Bits.error ≡ true
      → apply_backoff new rt prev
        ≡ ok (record new {
          backoff_duration = next_seconds;
          bits = replace_bit new.bits Bits.error Bits.failed;
        })
  unfolding apply_backoff
  apply_backoff_fails u d m e = ground arith

IsWellFormed-backoff :
    (s : TaskStatus) (n : ℕ)
    → n < two_32
    → IsWellFormed s
    → IsWellFormed (record s { backoff_duration = n })
unfolding has_saved_backoff saved_backoff
IsWellFormed-backoff s n h w = record {
  fits = w.fits;
  one = w.one;
  backoff_fits = h;
  saved = w.saved;
}

IsWellFormed-failed :
    (s : TaskStatus) (n : ℕ)
    → n < two_32
    → all_set s.bits Bits.error ≡ true
    → IsWellFormed s
    → IsWellFormed
        (record s { backoff_duration = n; bits = replace_bit s.bits Bits.error Bits.failed })
unfolding has_saved_backoff saved_backoff
IsWellFormed-failed s n h e w =
    let (fits, one, _, kept) = failed_bits s.bits w.fits w.one e in
    record {
      fits = fits;
      one = one;
      backoff_fits = h;
      saved = λ t. w.saved (
          all_set-has_saved_backoff s.bits
          ∙ ap (λ k. k == 1) (sym kept)
          ∙ sym (all_set-has_saved_backoff _)
          ∙ t);
    }

apply_backoff-IsWellFormed :
    (new : TaskStatus) (rt : RunningTask) (prev : ℤ)
    → IsReported new
    → (t : TaskStatus) × (apply_backoff new rt prev ≡ ok t) × IsWellFormed t
apply_backoff-IsWellFormed new rt prev r = elim (Bool-cases (uses_backoff new)) [
  | inr u ↦ (new, apply_backoff_unused new rt prev u, r.well_formed)
  | inl u ↦ elim (Bool-cases (all_set new.bits Bits.does_not_advance_backoff)) [
    | inl d ↦ (
      _,
      apply_backoff_reuses new rt prev u d,
      IsWellFormed-backoff new _ (to_u32-lt prev) r.well_formed,
    )
    | inr d ↦ elim (Bool-cases rt.next_backoff_duration.no_more_backoffs) [
      | inr m ↦ (
        _,
        apply_backoff_advances new rt prev u d m,
        IsWellFormed-backoff new _ (to_u32-lt rt.next_backoff_duration.seconds) r.well_formed,
      )
      | inl m ↦
          let e = r.advances_on_error u d in
          (
            _,
            apply_backoff_fails new rt prev u d m e,
            IsWellFormed-failed new _ (to_u32-lt rt.next_backoff_duration.seconds) e r.well_formed,
          )
    ]
  ]
]

-- A status is failed for good by itself, or because its task has no more backoffs.
apply_backoff-is_failed :
    (new : TaskStatus) (rt : RunningTask) (prev : ℤ) {t : TaskStatus}
    → IsReported new
    → apply_backoff new rt prev ≡ ok t
    → is_failed t ≡ (is_failed new || is_exhausted new rt)
unfolding is_failed
apply_backoff-is_failed new rt prev r e = elim (Bool-cases (uses_backoff new)) [
  | inr u ↦
      let same_status = ok-injective (sym (apply_backoff_unused new rt prev u) ∙ e) in
      ap is_failed (sym same_status) ∙ ground arith
  | inl u ↦ elim (Bool-cases (all_set new.bits Bits.does_not_advance_backoff)) [
    | inl d ↦
        let same_status = ok-injective (sym (apply_backoff_reuses new rt prev u d) ∙ e) in
        ap is_failed (sym same_status) ∙ ground arith
    | inr d ↦ elim (Bool-cases rt.next_backoff_duration.no_more_backoffs) [
      | inr m ↦
          let same_status = ok-injective (sym (apply_backoff_advances new rt prev u d m) ∙ e) in
          ap is_failed (sym same_status) ∙ ground arith
      | inl m ↦
          let error = r.advances_on_error u d in
          let same_status = ok-injective (sym (apply_backoff_fails new rt prev u d m error) ∙ e) in
          let (_, _, failed, _) = failed_bits new.bits r.well_formed.fits r.well_formed.one error in
          ap is_failed (sym same_status) ∙ all_set-failed _ ∙ rw (failed, u, d, m) ground arith
    ]
  ]
]

-- Updating a status whose saved backoff is readable with a well-formed status that has the Error bit
-- if it uses a backoff and advances it succeeds. The result is well formed: exactly one of the six
-- status bits is set, the backoff fits 32 bits, and a saved backoff is readable. It is failed exactly
-- if the new status is, or uses a backoff and advances it when the task has no more backoffs.
pub update-IsWellFormed :
    (s : TaskStatus) (rt : RunningTask) (new : TaskStatus)
    → HasSaved s
    → IsReported new
    → (t : TaskStatus) × (update s rt new ≡ ok t)
      × IsWellFormed t
      × (is_failed t ≡ (is_failed new || is_exhausted new rt))
unfolding update
update-IsWellFormed s rt new h r =
    let (prev, e) = prev_backoff-total s rt h in
    let (t, applied, well) = apply_backoff-IsWellFormed new rt prev r in
    (t, rw (e) applied, well, apply_backoff-is_failed new rt prev r applied)

-- A status that uses a backoff, advances it and has no Error bit aborts the scheduler when the
-- task has no more backoffs.
pub update_aborts :
    (s : TaskStatus) (rt : RunningTask) (new : TaskStatus)
    → HasSaved s
    → uses_backoff new ≡ true
    → all_set new.bits Bits.does_not_advance_backoff ≡ false
    → all_set new.bits Bits.error ≡ false
    → rt.next_backoff_duration.no_more_backoffs ≡ true
    → update s rt new ≡ fatal
unfolding update
update_aborts s rt new h u d e m =
    let (prev, p) = prev_backoff-total s rt h in rw p (unfold apply_backoff in ground arith)
