-- ===== src/Status/Bits.antt =====
-- statuses/TaskStatus.h: enum class TaskStatusBits, an unsigned short, and its operators.
use Prim.Native.Nat.{bit_and, bit_or}
use bistro.Base.{
  if◌then◌else◌, ℕ, zero, suc, ◌+◌, ◌-◌, ◌*◌, ◌/◌, ◌%◌, ◌<◌, ◌≡◌, Bool, true, false, arith, ◌==◌,
}
use bistro.Base.Word.{two_16}

abbrev pub empty : ℕ
empty = 0

abbrev pub unstarted : ℕ
unstarted = 1

abbrev pub running : ℕ
running = 2

abbrev pub done : ℕ
done = 4

abbrev pub incomplete : ℕ
incomplete = 8

abbrev pub failed : ℕ
failed = 16

abbrev pub error : ℕ
error = 32

abbrev pub exactly_one : ℕ
exactly_one = 63

abbrev pub uses_backoff : ℕ
uses_backoff = 64

abbrev pub avoided : ℕ
avoided = 128

abbrev pub disabled : ℕ
disabled = 256

abbrev pub does_not_advance_backoff : ℕ
does_not_advance_backoff = 512

abbrev pub overwriteable : ℕ
overwriteable = 1024

abbrev pub has_saved_backoff : ℕ
has_saved_backoff = 2048

unfoldable pub all_set : ℕ → ℕ → Bool
all_set where' which_bits = bit_and where' which_bits == which_bits

-- ~what is taken in the 16 bits of the enum.
unfoldable pub replace_bit : ℕ → ℕ → ℕ → ℕ
replace_bit where' what with' = bit_or with' (bit_and where' (two_16 - 1 - what))

-- The k-th bit as a number, for a single bit `which`.
abbrev pub bit : ℕ → ℕ → ℕ
bit b which = b / which % 2

-- Does a test hold of the first `count` numbers? By evaluation.
pub passes : (ℕ → Bool) → ℕ → Bool
passes test zero = true
passes test (suc count) = let rest = passes test count in if test count then rest else false

passes-at : (test : ℕ → Bool) (count i : ℕ) → i < count → passes test count ≡ true → test i ≡ true
unfolding passes
passes-at test (suc count) i below held = ground (arith, passes-at test count i)
passes-at test zero i below held = absurd (omega arith)

unfoldable pub all_16 : (ℕ → Bool) → Bool
unfolding passes
all_16 p = passes (λ hi. passes (λ lo. p (hi * 256 + lo)) 256) 256

pub all_16_sound : (p : ℕ → Bool) (b : ℕ) → all_16 p ≡ true → b < two_16 → p b ≡ true
unfolding all_16
all_16_sound p b h lt =
    let row =
      passes-at (λ hi. passes (λ lo. p (hi * 256 + lo)) 256) 256 (b / 256) (omega arith) h in
    let cell = passes-at (λ lo. p (b / 256 * 256 + lo)) 256 (b % 256) (omega arith) row in
    let e : b / 256 * 256 + b % 256 ≡ b = omega arith in rw e at cell
