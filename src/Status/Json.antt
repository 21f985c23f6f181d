-- ===== src/Status/Json.antt =====
-- TaskStatus::fromString and toDynamic: how a status travels from a task through its worker to the
-- scheduler. The JSON parser and the conversions of a value are folly's, so they are parameters.
use Prim.Native.Nat.{bit_and}
use Prim.Native.String.{◌++◌}
use text.Mathlib.Text.{◌==◌ as str_eq}
use bistro.Base.{
  ℕ, ◌+◌, ◌-◌, ◌%◌, ◌≡◌, String, Option, none, some, List, [], ◌∷◌, Outcome, ok, throw, fatal,
  require, or_throw, ◌>>=◌, ◌>>◌, if◌then◌else◌, ◌==◌, ◌||◌, ◌&&◌, not,
}
use bistro.Base.Int.{ℤ, pos}
use bistro.Base.Word.{two_16, to_u64}
use bistro.Base.Dynamic.{Dynamic, Fields, get_ptr, erase_key, as_object}
use bistro.Status.Bits
use bistro.Status.{
  TaskStatus, make, done, incomplete, incomplete_backoff, error_backoff, failed, exception_data,
  k_saved_backoff, uses_backoff,
}

-- folly::parseJson, asInt and asString: nothing stands for an exception. An integer is its own
-- integer value, and a string its own text.
pub record Folly : Type 0 where
  pub parse_json : String → Option Dynamic
  pub as_int : Dynamic → Option ℤ
  pub as_string : Dynamic → Option String
  pub as_int-int : (z : ℤ) → as_int (Dynamic.int z) ≡ some z
  pub as_string-string : (s : String) → as_string (Dynamic.string s) ≡ some s

-- An empty object is not stored.
unfoldable pub make_data_ptr : Option Fields → Option Fields
make_data_ptr none = none
make_data_ptr (some Fields.end) = none
make_data_ptr (some (Fields.field k v fs)) = some (Fields.field k v fs)

unfoldable pub from_simple_label : ℤ → String → Option Fields → Option TaskStatus
from_simple_label now label d =
    if str_eq label "done"
    then some (done now (make_data_ptr d))
    else if str_eq label "incomplete"
    then some (incomplete now (make_data_ptr d))
    else if str_eq label "incomplete_backoff"
    then some (incomplete_backoff now (make_data_ptr d))
    else if str_eq label "backoff" || str_eq label "error_backoff"
    then some (error_backoff now (make_data_ptr d))
    else if str_eq label "failed"
    then some (failed now (make_data_ptr d))
    else none

-- x & ~c: the bits of x that c has too are taken away.
abbrev pub clear : ℕ → ℕ → ℕ
clear x c = x - bit_and x c

abbrev pub private_bits : ℕ
private_bits = Bits.unstarted + Bits.avoided + Bits.disabled + Bits.has_saved_backoff

abbrev pub clear_all : ℕ → List ℕ → ℕ
clear_all x [] = x
clear_all x (c ∷ cs) = clear_all (clear x c) cs

abbrev pub reportable : List ℕ
reportable =
    Bits.running ∷ Bits.done ∷ Bits.incomplete ∷ Bits.failed ∷ Bits.error ∷ Bits.uses_backoff
    ∷ Bits.does_not_advance_backoff ∷ Bits.overwriteable ∷ []

-- `bits` is the 64-bit pattern of the int64_t.
unfoldable pub check_bits : ℕ → Outcome ℕ
check_bits bits =
    require (bit_and bits private_bits == 0)
      "Don't report Unstarted, Avoided, Disabled, or HasSavedBackoff bits"
    >> (let one = bit_and bits Bits.exactly_one in
        require (not (one == 0 || not (bit_and one (one - 1) == 0)))
          "Set exactly one required bit (Running, Done, ...)")
    >> require (clear_all bits reportable == 0) "Encountered unknown bit(s): "
    >> ok (bits % two_16)

module _ (folly : Folly) (now : ℤ) where
  open folly use {parse_json, as_int, as_string}

  -- The "data" key, without the private saved backoff.
  unfoldable pub reported_data : Fields → Outcome (Option Fields)
  reported_data d = elim (get_ptr "data" d) [
    | none ↦ ok none
    | some v ↦ or_throw (as_object v) "TypeError" >>= λ fs. ok (some (erase_key k_saved_backoff fs))
  ]

  abbrev pub need_result : String
  need_result = "Need a valid \"result\" or \"result_bits\" key"

  unfoldable pub by_label : Fields → Option Fields → Outcome TaskStatus
  by_label d fields = elim (get_ptr "result" d) [
    | none ↦ throw need_result
    | some r ↦ or_throw (as_string r) "TypeError" >>= λ label.
        or_throw (from_simple_label now label fields) need_result
  ]

  -- The body of the `try` block.
  unfoldable pub parse_object : Fields → Outcome TaskStatus
  parse_object d = do
    fields ← reported_data d
    elim (get_ptr "result_bits" d) [
      | some b ↦ do
        z ← or_throw (as_int b) "TypeError"
        bits ← check_bits (to_u64 z)
        ok (make now bits (make_data_ptr fields))
      | none ↦ by_label d fields
    ]

  unfoldable pub parse_status : String → Outcome TaskStatus
  parse_status raw = do
    v ← or_throw (parse_json raw) "json parse error"
    d ← or_throw (as_object v) "TypeError"
    parse_object d

  abbrev pub cannot_parse : String → String → TaskStatus
  cannot_parse raw error =
      error_backoff now (exception_data ("Cannot parse status: " ++ raw ++ ", " ++ error))

  abbrev pub catch : String → Outcome TaskStatus → TaskStatus
  catch raw (ok s) = s
  catch raw (throw e) = cannot_parse raw e
  catch raw fatal = cannot_parse raw ""

  unfoldable pub from_string : String → TaskStatus
  from_string raw = elim (from_simple_label now raw none) [
    | some s ↦ s
    | none ↦ catch raw (parse_status raw)
  ]

unfoldable pub to_dynamic_no_time : TaskStatus → Fields
to_dynamic_no_time s = Fields.field "result_bits" (Dynamic.int (pos s.bits)) (elim s.data' [
  | none ↦ Fields.end
  | some d ↦ Fields.field "data" (Dynamic.object d) Fields.end
])

-- With the time and the effective backoff; the keys differ from those above.
unfoldable pub to_dynamic : TaskStatus → Fields
to_dynamic s =
    let rest =
      if uses_backoff s && not (s.backoff_duration == 0)
      then Fields.field "backoff_duration" (Dynamic.int (pos s.backoff_duration))
          (to_dynamic_no_time s)
      else to_dynamic_no_time s in
    Fields.field "time" (Dynamic.int s.timestamp) rest
