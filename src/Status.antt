-- ===== src/Status.antt =====
-- statuses/TaskStatus.{h,cpp}: the status of one task. The clock `time(nullptr)` is an argument
-- `now`. `data_` is a JSON object or absent; a time_t is an unbounded integer.
pub mod Bits
pub mod Tables
pub mod Update
pub mod Forgive
pub mod Json
pub mod Reports
pub mod Transport
use Prim.Native.Nat.{bit_or}
use Bits
use Bits.{all_set, replace_bit}
use bistro.Base.{
  ℕ, ◌+◌, String, Bool, true, false, Option, none, some, ◌&&◌, Outcome, ok, throw, fatal, or_fatal,
  or_throw, ◌>>=◌, ◌>>◌, if◌then◌else◌, ◌==◌,
}
use bistro.Base.Int.{ℤ, pos, ◌+ℤ◌, ltb_ℤ}
use bistro.Base.Word.{to_u32, to_i32}
use bistro.Base.Dynamic
use bistro.Base.Dynamic.{Dynamic, Fields, get_ptr, set_key, get_int}
use bistro.Backoff.{BackoffDuration}
use bistro.Thrift.{RunningTask}

pub record TaskStatus : Type 0 where
  pub data' : Option Fields
  pub timestamp : ℤ
  pub backoff_duration : ℕ
  pub bits : ℕ

abbrev pub k_saved_backoff : String
k_saved_backoff = "__bistro_saved_backoff"

abbrev pub k_exception : String
k_exception = "exception"

-- The private constructors.
abbrev pub make : ℤ → ℕ → Option Fields → TaskStatus
make now bits d = record { data' = d; timestamp = now; backoff_duration = 0; bits = bits }

abbrev pub exception_data : String → Option Fields
exception_data msg = some (Fields.field k_exception (Dynamic.string msg) Fields.end)

module _ (now : ℤ) where
  abbrev pub running : Option Fields → TaskStatus
  running d = make now Bits.running d

  abbrev pub done : Option Fields → TaskStatus
  done d = make now Bits.done d

  abbrev pub failed : Option Fields → TaskStatus
  failed d = make now Bits.failed d

  abbrev pub incomplete : Option Fields → TaskStatus
  incomplete d = make now Bits.incomplete d

  abbrev pub was_not_running : TaskStatus
  was_not_running = make now (bit_or Bits.error Bits.overwriteable) none

  abbrev pub incomplete_backoff : Option Fields → TaskStatus
  incomplete_backoff d =
      make now (bit_or (bit_or Bits.incomplete Bits.uses_backoff) Bits.does_not_advance_backoff) d

  abbrev pub error_backoff : Option Fields → TaskStatus
  error_backoff d = make now (bit_or Bits.error Bits.uses_backoff) d

  abbrev pub worker_lost : String → ℕ → TaskStatus
  worker_lost shard saved_backoff =
      make now
        (bit_or (bit_or (bit_or Bits.error Bits.uses_backoff) Bits.has_saved_backoff)
          Bits.overwriteable)
        (some (
          Fields.field "worker_shard" (Dynamic.string shard) (
            Fields.field k_exception (Dynamic.string "Remote worker lost (crashed? network down?)")
              (Fields.field k_saved_backoff (Dynamic.int (pos saved_backoff)) Fields.end))))

  abbrev pub never_started : String → TaskStatus
  never_started msg = make now Bits.error (exception_data msg)

unfoldable pub is_empty : TaskStatus → Bool
is_empty s = s.bits == Bits.empty

unfoldable pub is_running : TaskStatus → Bool
is_running s = all_set s.bits Bits.running

unfoldable pub is_done : TaskStatus → Bool
is_done s = all_set s.bits Bits.done

unfoldable pub is_failed : TaskStatus → Bool
is_failed s = all_set s.bits Bits.failed

unfoldable pub is_overwriteable : TaskStatus → Bool
is_overwriteable s = all_set s.bits Bits.overwriteable

unfoldable pub uses_backoff : TaskStatus → Bool
uses_backoff s = all_set s.bits Bits.uses_backoff

unfoldable pub has_saved_backoff : TaskStatus → Bool
has_saved_backoff s = all_set s.bits Bits.has_saved_backoff

unfoldable pub mark_overwriteable : TaskStatus → TaskStatus
mark_overwriteable s = record s { bits = bit_or s.bits Bits.overwriteable }

unfoldable pub is_in_backoff : TaskStatus → ℤ → Bool
is_in_backoff s cur_time = uses_backoff s && ltb_ℤ cur_time (s.timestamp +ℤ pos s.backoff_duration)

-- data_->at(kBistroSavedBackoff).getInt(): a null data_ is undefined behaviour, a missing key or a
-- value of another type throws.
unfoldable pub saved_backoff : TaskStatus → Outcome ℤ
saved_backoff s = do
  d ← or_fatal s.data'
  v ← or_throw (get_ptr k_saved_backoff d) "out_of_range"
  or_throw (get_int v) "TypeError"

-- The first part of update: the backoff that a status reuses if it does not advance it.
unfoldable pub prev_backoff : TaskStatus → RunningTask → Outcome ℤ
prev_backoff s rt =
    if has_saved_backoff s
    then saved_backoff s
    else ok (
        pos (
          if s.backoff_duration == 0
          then to_u32 rt.next_backoff_duration.seconds
          else s.backoff_duration))

-- The rest of update, on the new status.
unfoldable pub apply_backoff : TaskStatus → RunningTask → ℤ → Outcome TaskStatus
apply_backoff new rt prev =
    if uses_backoff new
    then if all_set new.bits Bits.does_not_advance_backoff
      then ok (record new { backoff_duration = to_u32 prev })
      else if rt.next_backoff_duration.no_more_backoffs
      then if all_set new.bits Bits.error
        then ok (record new {
          backoff_duration = to_u32 rt.next_backoff_duration.seconds;
          bits = replace_bit new.bits Bits.error Bits.failed;
        })
        else fatal
      else ok (record new { backoff_duration = to_u32 rt.next_backoff_duration.seconds })
    else ok new

unfoldable pub update : TaskStatus → RunningTask → TaskStatus → Outcome TaskStatus
update s rt new = prev_backoff s rt >>= apply_backoff new rt

-- The second part of forgive: data_->at(kBistroSavedBackoff) = 0.
abbrev zero_saved : TaskStatus → Outcome TaskStatus
zero_saved s = elim s.data' [
  | none ↦ ok s
  | some d ↦ or_throw (get_ptr k_saved_backoff d) "out_of_range" >>= λ _.
      ok (record s { data' = some (set_key k_saved_backoff (Dynamic.int (pos 0)) d) })
]

abbrev unfail : TaskStatus → TaskStatus
unfail s = record s {
  bits = if all_set s.bits Bits.failed then replace_bit s.bits Bits.failed Bits.error else s.bits;
}

unfoldable pub forgive : TaskStatus → Outcome TaskStatus
forgive s =
    let t = unfail s in
    if uses_backoff t
    then if has_saved_backoff t then zero_saved t else ok (record t { backoff_duration = 0 })
    else ok t

unfoldable pub configured_backoff_duration : TaskStatus → Outcome BackoffDuration
configured_backoff_duration s =
    if is_failed s
    then ok (record { no_more_backoffs = true; seconds = pos 0 })
    else if has_saved_backoff s
    then (saved_backoff s >>= λ z. ok (record { no_more_backoffs = false; seconds = to_i32 z }))
    else ok (record { no_more_backoffs = false; seconds = to_i32 (pos s.backoff_duration) })
