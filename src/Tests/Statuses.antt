-- ===== src/Tests/Statuses.antt =====
-- Statuses, and the reports that they come from.
use bistro.Base.{◌||◌, ◌≡◌, refl, none, some, ok, fatal, arith}
use bistro.Base.Int.{pos}
use bistro.Base.Dynamic.{Dynamic, Fields, get_ptr}
use bistro.Backoff.{no_more}
use bistro.Status.Bits.{all_set}
use bistro.Status.{is_failed, TaskStatus, uses_backoff, has_saved_backoff, update, forgive, make}
use bistro.Status.Json.{
  Folly, check_bits, from_simple_label, from_string, reported_data, to_dynamic_no_time,
}
use bistro.Status.Update.{HasSaved, IsWellFormed, IsReported, is_exhausted, update-IsWellFormed}
use bistro.Status.Forgive.{IsForgiven, forgive-IsForgiven}
use bistro.Status.Reports.{IsFresh, from_string-IsFresh}
use bistro.Status.Transport.{public_data, from_string-to_dynamic, from_string_aborts}
use bistro.Tests.Samples.{task, task_with, status_of}

-- A reader that takes every text for the given object.
abbrev reads : Fields → Folly
reads d = record {
  parse_json = λ s. some (Dynamic.object d);
  as_int = λ v. elim v [ Dynamic.int z ↦ some z | _ ↦ none ];
  as_string = λ v. elim v [ Dynamic.string s ↦ some s | _ ↦ none ];
  as_int-int = λ z. refl;
  as_string-string = λ s. refl;
}

abbrev running_status : TaskStatus
running_status = status_of 2 0

running_saved : HasSaved running_status
unfolding has_saved_backoff all_set
running_saved e = ground arith

-- Error, UsesBackoff
abbrev error_status : TaskStatus
error_status = status_of 96 0

error_IsWellFormed : IsWellFormed error_status
unfolding has_saved_backoff all_set
error_IsWellFormed = record {
  fits = omega arith;
  one = refl;
  backoff_fits = omega arith;
  saved = λ e. ground arith;
}

error_IsReported : IsReported error_status
unfolding uses_backoff all_set
error_IsReported = record { well_formed = error_IsWellFormed; advances_on_error = λ u d. refl }

update-IsWellFormed_example :
    (t : TaskStatus) × (update running_status task error_status ≡ ok t)
    × IsWellFormed t
    × (is_failed t ≡ (is_failed error_status || is_exhausted error_status task))
update-IsWellFormed_example =
    update-IsWellFormed running_status task error_status running_saved error_IsReported

forgive-IsForgiven_example :
    (t : TaskStatus) × (forgive error_status ≡ ok t) × IsForgiven error_status t
forgive-IsForgiven_example = forgive-IsForgiven error_status error_IsWellFormed

abbrev report : Fields
report = Fields.field "result_bits" (Dynamic.int (pos 68)) Fields.end

from_string-IsFresh_example : IsFresh (from_string (reads report) (pos 100) "{}")
from_string-IsFresh_example = from_string-IsFresh (reads report) (pos 100) "{}"

from_string-to_dynamic_example :
    from_string (reads (to_dynamic_no_time error_status)) (pos 7) "{}"
    ≡ make (pos 7) error_status.bits (public_data error_status.data')
unfolding from_simple_label check_bits
from_string-to_dynamic_example =
    from_string-to_dynamic (reads (to_dynamic_no_time error_status)) (pos 7) "{}" refl error_status
      refl refl

from_string_aborts_example :
    update running_status (task_with no_more) (from_string (reads report) (pos 7) "{}") ≡ fatal
unfolding from_simple_label check_bits get_ptr reported_data
from_string_aborts_example =
    from_string_aborts (reads report) (pos 7) "{}" refl report none 68 running_status
      (task_with no_more) refl refl refl (omega arith) refl refl refl refl running_saved refl
