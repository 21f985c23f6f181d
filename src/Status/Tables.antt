-- ===== src/Status/Tables.antt =====
-- The bit tests of a status as arithmetic, which `omega` reads; what exchanging a bit does, by
-- evaluation at every 16-bit value.
use bistro.Base.{ℕ, ◌+◌, ◌-◌, ◌*◌, ◌<◌, ◌≡◌, refl, true, arith, ◌==◌, ==_iff}
use bistro.Base.Word.{two_16}
use bistro.Base.Bitwise.{
  bit_and_2, bit_and_4, bit_and_16, bit_and_32, bit_and_64, bit_and_512, bit_and_1024, bit_and_2048,
}
use bistro.Status.Bits
use bistro.Status.Bits.{bit, all_set, replace_bit, all_16, all_16_sound}

pub all_set-running : (b : ℕ) → all_set b Bits.running ≡ (bit b 2 == 1)
unfolding all_set
all_set-running b = ground (arith, bit_and_2 b)

pub all_set-done : (b : ℕ) → all_set b Bits.done ≡ (bit b 4 == 1)
unfolding all_set
all_set-done b = ground (arith, bit_and_4 b)

pub all_set-failed : (b : ℕ) → all_set b Bits.failed ≡ (bit b 16 == 1)
unfolding all_set
all_set-failed b = ground (arith, bit_and_16 b)

pub all_set-error : (b : ℕ) → all_set b Bits.error ≡ (bit b 32 == 1)
unfolding all_set
all_set-error b = ground (arith, bit_and_32 b)

pub all_set-uses_backoff : (b : ℕ) → all_set b Bits.uses_backoff ≡ (bit b 64 == 1)
unfolding all_set
all_set-uses_backoff b = ground (arith, bit_and_64 b)

pub all_set-does_not_advance : (b : ℕ) → all_set b Bits.does_not_advance_backoff ≡ (bit b 512 == 1)
unfolding all_set
all_set-does_not_advance b = ground (arith, bit_and_512 b)

pub all_set-overwriteable : (b : ℕ) → all_set b Bits.overwriteable ≡ (bit b 1024 == 1)
unfolding all_set
all_set-overwriteable b = ground (arith, bit_and_1024 b)

pub all_set-has_saved_backoff : (b : ℕ) → all_set b Bits.has_saved_backoff ≡ (bit b 2048 == 1)
unfolding all_set
all_set-has_saved_backoff b = ground (arith, bit_and_2048 b)

fail_table : all_16 (λ b. replace_bit b 32 16 == b - 32 * bit b 32 + 16 * (1 - bit b 16)) ≡ true
unfolding all_16 replace_bit
fail_table = refl

unfail_table : all_16 (λ b. replace_bit b 16 32 == b - 16 * bit b 16 + 32 * (1 - bit b 32)) ≡ true
unfolding all_16 replace_bit
unfail_table = refl

pub replace_bit-failed :
    (b : ℕ)
    → b < two_16
    → replace_bit b Bits.error Bits.failed ≡ b - 32 * bit b 32 + 16 * (1 - bit b 16)
replace_bit-failed b lt = (==_iff _ _).0 (
    all_16_sound (λ b. replace_bit b 32 16 == b - 32 * bit b 32 + 16 * (1 - bit b 16)) b fail_table
      lt)

pub replace_bit-error :
    (b : ℕ)
    → b < two_16
    → replace_bit b Bits.failed Bits.error ≡ b - 16 * bit b 16 + 32 * (1 - bit b 32)
replace_bit-error b lt = (==_iff _ _).0 (
    all_16_sound (λ b. replace_bit b 16 32 == b - 16 * bit b 16 + 32 * (1 - bit b 32)) b
      unfail_table lt)
