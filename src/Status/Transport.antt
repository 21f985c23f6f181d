-- ===== src/Status/Transport.antt =====
-- A status on its way from one process to another, and a report that stops the scheduler.
use bistro.Base.{ℕ, ◌<◌, ◌≡◌, refl, String, true, Option, none, some, ok, fatal, arith}
use bistro.Base.Int.{ℤ, pos}
use bistro.Base.Word.{two_64}
use bistro.Base.Dynamic.{Dynamic, Fields, get_ptr, erase_key}
use bistro.Thrift.{RunningTask}
use bistro.Status.Bits.{bit}
use bistro.Status.Tables.{all_set-error, all_set-uses_backoff, all_set-does_not_advance}
use bistro.Status.{TaskStatus, make, k_saved_backoff, uses_backoff, update}
use bistro.Status.Json.{
  Folly, make_data_ptr, from_simple_label, check_bits, reported_data, from_string,
  to_dynamic_no_time,
}
use bistro.Status.Update.{HasSaved, update_aborts}
use bistro.Status.Reports.{check_bits-IsAccepted, from_string-bits}

-- The data of a status without the private key, and absent if nothing else is in it.
abbrev pub public_data : Option Fields → Option Fields
public_data none = none
public_data (some d) = make_data_ptr (some (erase_key k_saved_backoff d))

module _ (folly : Folly) (now : ℤ) (raw : String)
    (unlabelled : from_simple_label now raw none ≡ none) where
  reported_data-to_dynamic :
      (s : TaskStatus) (d : Option Fields)
      → s.data' ≡ d
      → (f : Option Fields) × (reported_data folly now (to_dynamic_no_time s) ≡ ok f)
        × (make_data_ptr f ≡ public_data d)
  unfolding reported_data to_dynamic_no_time get_ptr make_data_ptr
  reported_data-to_dynamic s none e = (none, rw e, refl)
  reported_data-to_dynamic s (some d) e = (some (erase_key k_saved_backoff d), rw e, refl)

  -- A status whose bits may be reported, sent as the JSON that toDynamicNoTime makes, arrives with
  -- the same bits and the same data, without the private saved backoff, and at the reader's time.
  pub from_string-to_dynamic :
      (s : TaskStatus)
      → folly.parse_json raw ≡ some (Dynamic.object (to_dynamic_no_time s))
      → check_bits s.bits ≡ ok s.bits
      → from_string folly now raw ≡ make now s.bits (public_data s.data')
  unfolding to_dynamic_no_time get_ptr
  from_string-to_dynamic s p c =
      let (f, reported, e) = reported_data-to_dynamic s s.data' refl in
      let (_, accepted) = check_bits-IsAccepted s.bits s.bits c in
      rw (← e) (
        from_string-bits folly now raw (to_dynamic_no_time s) f s.bits s.bits unlabelled p refl
          reported (omega arith) c)

  -- A report whose bits pass checkBits, use a backoff, advance it and have no Error bit stops the
  -- scheduler when the task has no more backoffs, whatever status was stored.
  pub from_string_aborts :
      (d : Fields) (fields : Option Fields) (b : ℕ) (s : TaskStatus) (rt : RunningTask)
      → folly.parse_json raw ≡ some (Dynamic.object d)
      → get_ptr "result_bits" d ≡ some (Dynamic.int (pos b))
      → reported_data folly now d ≡ ok fields
      → b < two_64
      → check_bits b ≡ ok b
      → bit b 64 ≡ 1
      → bit b 512 ≡ 0
      → bit b 32 ≡ 0
      → HasSaved s
      → rt.next_backoff_duration.no_more_backoffs ≡ true
      → update s rt (from_string folly now raw) ≡ fatal
  unfolding uses_backoff
  from_string_aborts d fields b s rt p g f lt c uses advances no_error saved no_more =
      rw (from_string-bits folly now raw d fields b b unlabelled p g f lt c) (
        update_aborts s rt (make now b (make_data_ptr fields)) saved
          (ground (arith, all_set-uses_backoff b)) (ground (arith, all_set-does_not_advance b))
          (ground (arith, all_set-error b)) no_more)
