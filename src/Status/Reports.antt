-- ===== src/Status/Reports.antt =====
-- What TaskStatus::fromString makes of a report.
use Prim.Native.Nat.{bit_and}
use bistro.Base.{
  ℕ, ◌+◌, ◌%◌, ◌≤◌, ◌<◌, ◌≡◌, sym, subst, ap, refl, String, Bool, true, false, Option, none, some,
  Outcome, ok, throw, fatal, arith, Option-cases, inl, inr, ◌==◌, ◌&&◌, ◌||◌, not, ok-injective,
  or_throw, >>=-eq-ok,
}
use bistro.Base.Int.{ℤ, pos}
use bistro.Base.Word.{two_16, two_64, to_u64}
use bistro.Base.Bitwise.{
  bit_and_2, bit_and_4, bit_and_8, bit_and_16, bit_and_32, bit_and_64, bit_and_512, bit_and_1024,
}
use bistro.Base.Dynamic.{Dynamic, Fields, get_ptr, as_object}
use bistro.Status.Bits.{bit, all_16, all_16_sound}
use bistro.Status.Tables.{all_set-has_saved_backoff}
use bistro.Status.{TaskStatus, make, has_saved_backoff}
use bistro.Status.Json.{
  Folly, make_data_ptr, from_simple_label, clear, clear_all, reportable, check_bits, reported_data,
  by_label, parse_object, parse_status, from_string, catch,
}
use bistro.Status.Update.{current, IsWellFormed}

clear_le : (x c : ℕ) → x ≤ clear x c + bit_and x c
clear_le x c = omega arith

-- Only the reportable bits can be set in a number that they clear.
clear_all-le : (b : ℕ) → clear_all b reportable ≡ 0 → b ≤ 1662
clear_all-le b h =
    let x1 = clear b 2 in
    let x2 = clear x1 4 in
    let x3 = clear x2 8 in
    let x4 = clear x3 16 in
    let x5 = clear x4 32 in
    let x6 = clear x5 64 in
    let x7 = clear x6 512 in
    omega (
      arith,
      bit_and_2 b,
      bit_and_4 x1,
      bit_and_8 x2,
      bit_and_16 x3,
      bit_and_32 x4,
      bit_and_64 x5,
      bit_and_512 x6,
      bit_and_1024 x7,
    )

accepts : ℕ → Bool
accepts b = elim (check_bits b) [ ok r ↦ true | throw e ↦ false | fatal ↦ false ]

accepts_table : all_16 (λ b. not (accepts b) || current b == 1 && bit b 2048 == 0) ≡ true
unfolding accepts check_bits all_16
accepts_table = refl

-- Bits that checkBits accepts have exactly one status bit, and no private or unknown ones.
pub record IsAccepted (b : ℕ) : Type 0 where
  pub small : b ≤ 1662
  pub one : current b ≡ 1
  pub unsaved : bit b 2048 ≡ 0

check_bits-small : (b r : ℕ) → check_bits b ≡ ok r → (b ≤ 1662) × (r ≡ b)
unfolding check_bits
check_bits-small b r h =
    let cleared : clear_all b reportable ≡ 0 = ground arith in
    let le = clear_all-le b cleared in let e : b % two_16 ≡ r = ground arith in (le, omega arith)

accepts_of_ok : (b r : ℕ) → check_bits b ≡ ok r → accepts b ≡ true
unfolding accepts
accepts_of_ok b r h = rw (h, accepts)

pub check_bits-IsAccepted : (b r : ℕ) → check_bits b ≡ ok r → (r ≡ b) × IsAccepted b
check_bits-IsAccepted b r h =
    let (le, e) = check_bits-small b r h in
    let row =
      all_16_sound (λ b. not (accepts b) || current b == 1 && bit b 2048 == 0) b accepts_table
        (omega arith) in
    let accepted = accepts_of_ok b r h in
    (e, record { small = le; one = ground arith; unsaved = ground arith })

-- A status as it comes from a report: nothing private is set.
pub record IsFresh (s : TaskStatus) : Type 0 where
  pub accepted : IsAccepted s.bits
  pub no_backoff : s.backoff_duration ≡ 0

IsFresh-unsaved : (s : TaskStatus) → IsFresh s → has_saved_backoff s ≡ false
unfolding has_saved_backoff
IsFresh-unsaved s f = ground (arith, all_set-has_saved_backoff s.bits)

pub IsFresh-IsWellFormed : (s : TaskStatus) → IsFresh s → IsWellFormed s
IsFresh-IsWellFormed s f = record {
  fits = omega arith;
  one = f.accepted.one;
  backoff_fits = omega arith;
  saved = λ h. absurd (cc (IsFresh-unsaved s f));
}

from_simple_label-IsFresh :
    (now : ℤ) (label : String) (d : Option Fields) (s : TaskStatus)
    → from_simple_label now label d ≡ some s
    → IsFresh s
unfolding from_simple_label
from_simple_label-IsFresh now label d s h = ground arith

or_throw-eq-ok : {A : Type 0} (o : Option A) (m : String) {a : A} → or_throw o m ≡ ok a → o ≡ some a
or_throw-eq-ok none m h = cc
or_throw-eq-ok (some b) m h = ap some (ok-injective h)

module _ (folly : Folly) (now : ℤ) where
  by_label-IsFresh :
      (d : Fields) (fields : Option Fields) (s : TaskStatus)
      → by_label folly now d fields ≡ ok s
      → IsFresh s
  unfolding by_label
  by_label-IsFresh d fields s h = elim (Option-cases (get_ptr "result" d)) [
    | inl e ↦ absurd (ground arith)
    | inr (r, e) ↦
        let (label, _, h') =
          >>=-eq-ok (or_throw (folly.as_string r) "TypeError") _ (rw (e, by_label) at h) in
        from_simple_label-IsFresh now label fields s (or_throw-eq-ok _ _ h')
  ]

  parse_object-IsFresh : (d : Fields) (s : TaskStatus) → parse_object folly now d ≡ ok s → IsFresh s
  unfolding parse_object
  parse_object-IsFresh d s h =
      let (fields, _, h') = >>=-eq-ok (reported_data folly now d) _ h in
      elim (Option-cases (get_ptr "result_bits" d)) [
        | inl e ↦ by_label-IsFresh d fields s (rw e at h')
        | inr (b, e) ↦
            let (z, _, h1) = >>=-eq-ok (or_throw (folly.as_int b) "TypeError") _ (rw e at h') in
            let (bits, checked, h2) = >>=-eq-ok (check_bits (to_u64 z)) _ h1 in
            let (same_bits, accepted) = check_bits-IsAccepted (to_u64 z) bits checked in
            subst IsFresh (ok-injective h2)
              (record { accepted = subst IsAccepted (sym same_bits) accepted; no_backoff = refl })
      ]

  catch-IsFresh :
      (raw : String) (o : Outcome TaskStatus)
      → ((s : TaskStatus) → o ≡ ok s → IsFresh s)
      → IsFresh (catch folly now raw o)
  catch-IsFresh raw (ok s) h = h s refl
  catch-IsFresh raw (throw e) h = record { accepted = omega arith; no_backoff = refl }
  catch-IsFresh raw fatal h = record { accepted = omega arith; no_backoff = refl }

  -- Whatever a task or a worker reports, the status read from it is one that update handles as an
  -- ordinary one: it has exactly one status bit, and neither the private HasSavedBackoff bit nor an
  -- unknown one.
  pub from_string-IsFresh : (raw : String) → IsFresh (from_string folly now raw)
  unfolding from_string parse_status
  from_string-IsFresh raw = elim (Option-cases (from_simple_label now raw none)) [
    | inr (s, e) ↦ rw (e, from_string) (from_simple_label-IsFresh now raw none s e)
    | inl e ↦
        rw (e, from_string)
          (catch-IsFresh raw (parse_status folly now raw) λ s h.
            let (v, _, h1) = >>=-eq-ok (or_throw (folly.parse_json raw) "json parse error") _ h in
            let (d, _, h2) = >>=-eq-ok (or_throw (as_object v) "TypeError") _ h1 in
            parse_object-IsFresh d s h2)
  ]

  -- A reader of JSON text that is no simple label, with an accepted "result_bits" key.
  pub from_string-bits :
      (raw : String) (d : Fields) (fields : Option Fields) (b r : ℕ)
      → from_simple_label now raw none ≡ none
      → folly.parse_json raw ≡ some (Dynamic.object d)
      → get_ptr "result_bits" d ≡ some (Dynamic.int (pos b))
      → reported_data folly now d ≡ ok fields
      → b < two_64
      → check_bits b ≡ ok r
      → from_string folly now raw ≡ make now r (make_data_ptr fields)
  unfolding from_string parse_status parse_object
  from_string-bits raw d fields b r l p g f lt c =
      let e : b % two_64 ≡ b = omega arith in
      rw (l, from_string, p, parse_status, f, parse_object, g, folly.as_int-int (pos b), e, c)
