-- ===== src/Base/Bitwise.antt =====
-- The bits of a number, whatever its width: what `&` with a single bit gives.
use Prim.Native.Nat.{bit_and, digits, bit_and-bitwise, min}
use bistro.Base.{ℕ, zero, suc, ◌+◌, ◌*◌, ◌/◌, ◌%◌, ◌≤◌, ◌≡◌, refl, arith}

-- The definition behind the native operation, which takes fuel for the digits of `x`.
abbrev masked : ℕ → ℕ → ℕ → ℕ
masked fuel x m = digits (λ _. zero) min fuel x m

masked_enough : (f g x m : ℕ) → x ≤ f → x ≤ g → masked f x m ≡ masked g x m
masked_enough zero zero x m le le' = refl
masked_enough (suc f) (suc g) zero m le le' = refl
masked_enough (suc f) (suc g) (suc x) m le le' =
    let half = suc x / 2 in
    omega (arith, masked_enough f g half (m / 2) (omega arith) (omega arith))
masked_enough (suc f) zero zero m le le' = refl
masked_enough (suc f) zero (suc x) m le le' = absurd (omega arith)
masked_enough zero (suc g) zero m le le' = refl
masked_enough zero (suc g) (suc x) m le le' = absurd (omega arith)

bit_and_none : (m : ℕ) → bit_and 0 m ≡ 0
bit_and_none m = bit_and-bitwise 0 m

-- The lowest digit of `x & m` is the smaller of theirs.
bit_and_digit : (x m : ℕ) → bit_and x m ≡ 2 * bit_and (x / 2) (m / 2) + min (x % 2) (m % 2)
bit_and_digit zero m = omega (arith, bit_and_none m, bit_and_none (m / 2))
bit_and_digit (suc x) m =
    let half = suc x / 2 in
    omega (
      arith,
      bit_and-bitwise (suc x) m,
      bit_and-bitwise half (m / 2),
      masked_enough x half half (m / 2) (omega arith) (omega arith),
    )

bit_and_zero : (x m : ℕ) → m ≡ 0 → (n : ℕ) → x ≤ n → bit_and x m ≡ 0
bit_and_zero zero m e n le = bit_and_none m
bit_and_zero (suc x) m e zero le = absurd (omega arith)
bit_and_zero (suc x) m e (suc n) le =
    omega (
      arith,
      bit_and_digit (suc x) m,
      bit_and_zero (suc x / 2) (m / 2) (omega arith) n (omega arith),
    )

-- x & (2 m) is twice (x / 2) & m.
bit_and_even : (x m k : ℕ) → k ≡ 2 * m → bit_and x k ≡ 2 * bit_and (x / 2) m
bit_and_even x m k e =
    let h : k / 2 ≡ m = omega arith in let digit = bit_and_digit x k in omega (arith, rw h at digit)

pub bit_and_1 : (x : ℕ) → bit_and x 1 ≡ x % 2
bit_and_1 x = omega (arith, bit_and_digit x 1, bit_and_zero (x / 2) 0 refl (x / 2) (omega arith))

pub bit_and_2 : (x : ℕ) → bit_and x 2 ≡ 2 * (x / 2 % 2)
bit_and_2 x = omega (arith, bit_and_even x 1 2 refl, bit_and_1 (x / 2))

pub bit_and_4 : (x : ℕ) → bit_and x 4 ≡ 4 * (x / 4 % 2)
bit_and_4 x = omega (arith, bit_and_even x 2 4 refl, bit_and_2 (x / 2))

pub bit_and_8 : (x : ℕ) → bit_and x 8 ≡ 8 * (x / 8 % 2)
bit_and_8 x = omega (arith, bit_and_even x 4 8 refl, bit_and_4 (x / 2))

pub bit_and_16 : (x : ℕ) → bit_and x 16 ≡ 16 * (x / 16 % 2)
bit_and_16 x = omega (arith, bit_and_even x 8 16 refl, bit_and_8 (x / 2))

pub bit_and_32 : (x : ℕ) → bit_and x 32 ≡ 32 * (x / 32 % 2)
bit_and_32 x = omega (arith, bit_and_even x 16 32 refl, bit_and_16 (x / 2))

pub bit_and_64 : (x : ℕ) → bit_and x 64 ≡ 64 * (x / 64 % 2)
bit_and_64 x = omega (arith, bit_and_even x 32 64 refl, bit_and_32 (x / 2))

pub bit_and_512 : (x : ℕ) → bit_and x 512 ≡ 512 * (x / 512 % 2)
bit_and_512 x = omega (
  arith,
  bit_and_even x 256 512 refl,
  bit_and_even (x / 2) 128 256 refl,
  bit_and_even (x / 2 / 2) 64 128 refl,
  bit_and_64 (x / 2 / 2 / 2),
)

pub bit_and_1024 : (x : ℕ) → bit_and x 1024 ≡ 1024 * (x / 1024 % 2)
bit_and_1024 x = omega (arith, bit_and_even x 512 1024 refl, bit_and_512 (x / 2))

pub bit_and_2048 : (x : ℕ) → bit_and x 2048 ≡ 2048 * (x / 2048 % 2)
bit_and_2048 x = omega (arith, bit_and_even x 1024 2048 refl, bit_and_1024 (x / 2))

-- x & (2 m + 1) keeps the lowest digit.
bit_and_odd : (x m k : ℕ) → k ≡ 2 * m + 1 → bit_and x k ≡ 2 * bit_and (x / 2) m + x % 2
bit_and_odd x m k e =
    let h : k / 2 ≡ m = omega arith in let digit = bit_and_digit x k in omega (arith, rw h at digit)

pub bit_and_63 : (x : ℕ) → bit_and x 63 ≡ x % 64
bit_and_63 x = omega (
  arith,
  bit_and_odd x 31 63 refl,
  bit_and_odd (x / 2) 15 31 refl,
  bit_and_odd (x / 2 / 2) 7 15 refl,
  bit_and_odd (x / 2 / 2 / 2) 3 7 refl,
  bit_and_odd (x / 2 / 2 / 2 / 2) 1 3 refl,
  bit_and_1 (x / 2 / 2 / 2 / 2 / 2),
)
