-- ===== src/Base/Word.antt =====
-- Fixed-width integers. An unsigned value is a number below 2 ^ w; a conversion from a wider type
-- keeps the low bits, as two's complement hardware does.
use bistro.Base.{ℕ, ◌+◌, ◌-◌, ◌%◌, ◌<◌, ◌≡◌, arith, ltb, if◌then◌else◌}
use bistro.Base.Int.{ℤ, pos, negsuc, pos_part, neg_part}

abbrev pub two_16 : ℕ
two_16 = 65536

abbrev pub two_31 : ℕ
two_31 = 2147483648

abbrev pub two_32 : ℕ
two_32 = 4294967296

abbrev pub two_63 : ℕ
two_63 = 9223372036854775808

abbrev pub two_64 : ℕ
two_64 = 18446744073709551616

-- static_cast<uint32_t>(z)
abbrev pub to_u32 : ℤ → ℕ
to_u32 (pos n) = n % two_32
to_u32 (negsuc n) = two_32 - 1 - n % two_32

-- static_cast<int32_t>(z)
abbrev pub to_i32 : ℤ → ℤ
to_i32 z = let u = to_u32 z in if ltb u two_31 then pos u else negsuc (two_32 - 1 - u)

-- static_cast<uint64_t>(z)
abbrev pub to_u64 : ℤ → ℕ
to_u64 (pos n) = n % two_64
to_u64 (negsuc n) = two_64 - 1 - n % two_64

-- static_cast<int64_t>(v) of a uint64_t
abbrev pub from_u64 : ℕ → ℤ
from_u64 v = if ltb v two_63 then pos v else negsuc (two_64 - 1 - v)

-- The range of int64_t.
abbrev pub IsI64 : ℤ → Type 0
IsI64 z = (pos_part z < two_63) × (neg_part z < two_63 + 1)

-- A value in range survives the conversion.
pub to_i32-pos : (n : ℕ) → n < two_31 → to_i32 (pos n) ≡ pos n
to_i32-pos n h = ground arith

pub from_u64-to_u64 : (z : ℤ) → IsI64 z → from_u64 (to_u64 z) ≡ z
from_u64-to_u64 (pos n) h = ground arith
from_u64-to_u64 (negsuc n) h = ground arith
