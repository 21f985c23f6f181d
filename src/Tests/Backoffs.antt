-- ===== src/Tests/Backoffs.antt =====
-- Backoff settings, retries, and the hashes and versions of worker sets.
use bistro.Base.{ℕ, suc, ◌≡◌, ◌+◌, ◌%◌, refl, true, false, none, [], ◌∷◌, ok, arith, length}
use mathlib.Core.List.{perm_append_singleton}
use bistro.Base.Int.{ℤ, pos}
use bistro.Base.Word.{two_64}
use bistro.Base.Dynamic.{Dynamic, Items}
use bistro.Backoff.{parse, parse_items, accept_value, finish, to_dynamic}
use bistro.Backoff.Parse.{IsValid, parse-IsValid}
use bistro.Backoff.RoundTrip.{FitInt, parse-to_dynamic}
use bistro.Thrift.{InstanceId}
use bistro.Status.Bits.{all_set}
use bistro.Status.{
  TaskStatus, is_failed, has_saved_backoff, uses_backoff, configured_backoff_duration,
}
use bistro.Runner.{fail_times}
use bistro.Runner.Failures.{IsRetried, IsWait, fail_times-is_failed, fail_times-IsRetried}
use bistro.WorkerSet.{earlier, remove_worker_id_from_hash}
use bistro.WorkerSet.Versions.{earlier-add}
use bistro.WorkerSet.Hash.{hash_of, remove_worker_id-hash_of}
use bistro.Tests.Samples.{settings_fail, settings_repeat, status_of, task, instance_at}

abbrev setting : Dynamic
setting = Dynamic.array (
    Items.item (Dynamic.int (pos 15))
      (Items.item (Dynamic.int (pos 30)) (Items.item (Dynamic.string "repeat") Items.nil)))

parse-IsValid_example : IsValid settings_repeat
unfolding parse parse_items accept_value finish
parse-IsValid_example = parse-IsValid setting {s = settings_repeat} refl

settings_fail-IsValid : IsValid settings_fail
settings_fail-IsValid = record {
  increasing = (omega arith, (omega arith, tt));
  repeats_some = λ e. absurd (ground arith);
}

settings_repeat-IsValid : IsValid settings_repeat
settings_repeat-IsValid = record {
  increasing = (omega arith, (omega arith, tt));
  repeats_some = λ e n. ground arith;
}

fit : FitInt settings_fail.values
fit = (omega arith, (omega arith, tt))

parse-to_dynamic_example : parse (to_dynamic settings_fail) ≡ ok settings_fail
parse-to_dynamic_example = parse-to_dynamic settings_fail settings_fail-IsValid fit

-- A task that waits 15 seconds after an error.
abbrev waiting : TaskStatus
waiting = status_of 96 15

waiting-IsRetried : IsRetried waiting (pos 15)
unfolding is_failed has_saved_backoff uses_backoff all_set configured_backoff_duration
waiting-IsRetried = record {
  not_failed = refl;
  saved = λ e. absurd (ground arith);
  configured = refl;
}

fail_times-is_failed_example :
    (t : TaskStatus) × (fail_times settings_fail task
        (pos 100)
        none
        (length settings_fail.values + 1)
        waiting
      ≡ ok t)
    × (is_failed t ≡ true)
fail_times-is_failed_example =
    fail_times-is_failed settings_fail task (pos 100) none waiting (pos 15) settings_fail-IsValid
      fit refl waiting-IsRetried

fail_times-IsRetried_example :
    (t : TaskStatus) × (y : ℤ) × (fail_times settings_repeat task (pos 100) none (suc 4) waiting
      ≡ ok t)
    × IsRetried t y
    × IsWait y
fail_times-IsRetried_example =
    fail_times-IsRetried settings_repeat task (pos 100) none 4 waiting (pos 15)
      settings_repeat-IsValid fit refl waiting-IsRetried

abbrev last_version : ℕ
last_version = 18446744073709551615

-- The counter wraps around.
earlier-add_example :
    (earlier last_version ((last_version + 3) % two_64) ≡ ok true)
    × (earlier ((last_version + 3) % two_64) last_version ≡ ok false)
earlier-add_example = earlier-add last_version 3 (omega arith) (omega arith) (omega arith)

abbrev first_id : InstanceId
first_id = instance_at 1 2

abbrev second_id : InstanceId
second_id = instance_at 3 4

-- The worker that came first leaves.
remove_worker_id-hash_of_example :
    remove_worker_id_from_hash (hash_of (second_id ∷ first_id ∷ [])) first_id
    ≡ ok (hash_of (second_id ∷ []))
remove_worker_id-hash_of_example =
    remove_worker_id-hash_of (second_id ∷ first_id ∷ []) (second_id ∷ []) first_id
      (perm_append_singleton first_id (second_id ∷ []))
