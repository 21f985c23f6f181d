-- ===== src/Status/Forgive.antt =====
-- TaskStatus::forgive.
use bistro.Base.{
  ◌<◌, ◌≡◌, ◌∙◌, ◌&&◌, sym, ap, refl, Bool, true, false, some, arith, ◌==◌, ok, Bool-cases, inl,
  inr, Option-cases, if◌then◌else◌,
}
use bistro.Base.Int.{ℤ, pos, ltb_ℤ, ◌+ℤ◌}
use bistro.Base.Word.{two_16}
use bistro.Base.Dynamic.{Dynamic, Fields, set_key, get_ptr-set_key}
use bistro.Status.Bits
use bistro.Status.Bits.{bit, all_set, replace_bit}
use bistro.Status.Tables.{
  all_set-failed, all_set-uses_backoff, all_set-has_saved_backoff, replace_bit-error,
}
use bistro.Status.{
  TaskStatus, k_saved_backoff, is_failed, uses_backoff, has_saved_backoff, saved_backoff, forgive,
  unfail, zero_saved, is_in_backoff,
}
use bistro.Status.Update.{current, IsWellFormed}

-- Without the Failed bit, and with all others as they were but Error.
unfail_bits :
    (s : TaskStatus)
    → s.bits < two_16
    → current s.bits ≡ 1
    → let c = (unfail s).bits in
      (c < two_16)
      × (current c ≡ 1)
      × (bit c 16 ≡ 0)
      × (bit c 64 ≡ bit s.bits 64)
      × (bit c 2048 ≡ bit s.bits 2048)
unfail_bits s lt one = elim (Bool-cases (all_set s.bits Bits.failed)) [
  | inl e ↦
      let set : bit s.bits 16 ≡ 1 = ground (arith, all_set-failed s.bits) in
      rw (e, replace_bit-error s.bits lt) (omega arith)
  | inr e ↦
      let clear : bit s.bits 16 ≡ 0 = ground (arith, all_set-failed s.bits) in
      rw e (lt, one, clear, refl, refl)
]

module _ (s : TaskStatus) (w : IsWellFormed s) where
  unfail-uses_backoff : uses_backoff (unfail s) ≡ uses_backoff s
  unfolding uses_backoff
  unfail-uses_backoff =
      let (lt, _, _, kept, _) = unfail_bits s w.fits w.one in
      all_set-uses_backoff _ ∙ ap (λ k. k == 1) kept ∙ sym (all_set-uses_backoff s.bits)

  unfail-has_saved_backoff : has_saved_backoff (unfail s) ≡ has_saved_backoff s
  unfolding has_saved_backoff
  unfail-has_saved_backoff =
      let (lt, _, _, _, kept) = unfail_bits s w.fits w.one in
      all_set-has_saved_backoff _ ∙ ap (λ k. k == 1) kept ∙ sym (all_set-has_saved_backoff s.bits)

  unfail-is_failed : is_failed (unfail s) ≡ false
  unfolding is_failed
  unfail-is_failed =
      let (lt, _, clear, _, _) = unfail_bits s w.fits w.one in
      all_set-failed _ ∙ ap (λ k. k == 1) clear

-- A readable saved backoff becomes zero.
zero_saved-ok :
    (s : TaskStatus) (z : ℤ)
    → saved_backoff s ≡ ok z
    → (d : Fields) × (zero_saved s
        ≡ ok (record s { data' = some (set_key k_saved_backoff (Dynamic.int (pos 0)) d) }))
unfolding saved_backoff
zero_saved-ok s z e = elim (Option-cases s.data') [
  | inl n ↦ absurd (ground arith)
  | inr (d, n) ↦ (d, ground arith)
]

saved_backoff-set :
    (s : TaskStatus) (d : Fields)
    → saved_backoff (record s { data' = some (set_key k_saved_backoff (Dynamic.int (pos 0)) d) })
      ≡ ok (pos 0)
unfolding saved_backoff
saved_backoff-set s d = rw (get_ptr-set_key k_saved_backoff k_saved_backoff (Dynamic.int (pos 0)) d)

-- The backoff of the forgiven status at a time.
abbrev pub forgiven_backoff : TaskStatus → ℤ → Bool
forgiven_backoff s time =
    if has_saved_backoff s then is_in_backoff s time else uses_backoff s && ltb_ℤ time s.timestamp

-- What forgiving `s` makes of it.
pub record IsForgiven (s t : TaskStatus) : Type 0 where
  pub well_formed : IsWellFormed t
  pub not_failed : is_failed t ≡ false
  pub backoff : (time : ℤ) → is_in_backoff t time ≡ forgiven_backoff s time

unfail-IsWellFormed : (s : TaskStatus) → IsWellFormed s → IsWellFormed (unfail s)
unfolding saved_backoff
unfail-IsWellFormed s w =
    let (lt, one, _, _, _) = unfail_bits s w.fits w.one in
    record {
      fits = lt;
      one = one;
      backoff_fits = w.backoff_fits;
      saved = λ h. w.saved (sym (unfail-has_saved_backoff s w) ∙ h);
    }

module _ (s : TaskStatus) (w : IsWellFormed s) where
  forgive_unused : uses_backoff s ≡ false → forgive s ≡ ok (unfail s)
  unfolding forgive
  forgive_unused u = rw (unfail-uses_backoff s w, u)

  forgive_plain :
      uses_backoff s ≡ true
      → has_saved_backoff s ≡ false
      → forgive s ≡ ok (record (unfail s) { backoff_duration = 0 })
  unfolding forgive
  forgive_plain u h = rw (unfail-uses_backoff s w, unfail-has_saved_backoff s w, u, h)

  forgive_saved :
      uses_backoff s ≡ true → has_saved_backoff s ≡ true → forgive s ≡ zero_saved (unfail s)
  unfolding forgive
  forgive_saved u h = rw (unfail-uses_backoff s w, unfail-has_saved_backoff s w, u, h)

  IsForgiven-unused : uses_backoff s ≡ false → IsForgiven s (unfail s)
  unfolding is_in_backoff
  IsForgiven-unused u = record {
    well_formed = unfail-IsWellFormed s w;
    not_failed = unfail-is_failed s w;
    backoff = λ time. ground (arith, unfail-uses_backoff s w);
  }

  IsForgiven-plain :
      uses_backoff s ≡ true
      → has_saved_backoff s ≡ false
      → IsForgiven s (record (unfail s) { backoff_duration = 0 })
  unfolding is_in_backoff ◌+ℤ◌ uses_backoff is_failed has_saved_backoff saved_backoff
  IsForgiven-plain u h =
      let v = unfail-IsWellFormed s w in
      record {
        well_formed = record {
          fits = v.fits;
          one = v.one;
          backoff_fits = omega arith;
          saved = v.saved;
        };
        not_failed = unfail-is_failed s w;
        backoff = λ time. ground (arith, unfail-uses_backoff s w);
      }

  IsForgiven-saved :
      (d : Fields)
      → uses_backoff s ≡ true
      → has_saved_backoff s ≡ true
      → IsForgiven s
          (record (unfail s) { data' = some (set_key k_saved_backoff (Dynamic.int (pos 0)) d) })
  unfolding is_in_backoff uses_backoff is_failed has_saved_backoff
  IsForgiven-saved d u h =
      let v = unfail-IsWellFormed s w in
      record {
        well_formed = record {
          fits = v.fits;
          one = v.one;
          backoff_fits = v.backoff_fits;
          saved = λ _. (pos 0, saved_backoff-set (unfail s) d);
        };
        not_failed = unfail-is_failed s w;
        backoff = λ time. ground (arith, unfail-uses_backoff s w);
      }

-- Forgiving a well-formed status succeeds. The result is well formed and not failed. A status with
-- a saved backoff, which a lost worker left, is in backoff at exactly the same times as before; any
-- other is in backoff only before the time of its update.
pub forgive-IsForgiven :
    (s : TaskStatus) → IsWellFormed s → (t : TaskStatus) × (forgive s ≡ ok t) × IsForgiven s t
forgive-IsForgiven s w = elim (Bool-cases (uses_backoff s)) [
  | inr u ↦ (unfail s, forgive_unused s w u, IsForgiven-unused s w u)
  | inl u ↦ elim (Bool-cases (has_saved_backoff s)) [
    | inr h ↦ (_, forgive_plain s w u h, IsForgiven-plain s w u h)
    | inl h ↦
        let (z, e) = (unfail-IsWellFormed s w).saved (unfail-has_saved_backoff s w ∙ h) in
        let (d, zeroed) = zero_saved-ok (unfail s) z e in
        (_, forgive_saved s w u h ∙ zeroed, IsForgiven-saved s w d u h)
  ]
]
