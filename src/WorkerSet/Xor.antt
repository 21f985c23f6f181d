-- ===== src/WorkerSet/Xor.antt =====
-- The laws of ^ on numbers of any width, digit by digit.
use Prim.Native.Nat.{bit_xor, digits, bit_xor-bitwise, differ}
use bistro.Base.{ℕ, zero, suc, ◌+◌, ◌*◌, ◌/◌, ◌%◌, ◌≤◌, ◌≡◌, refl, arith}

abbrev xor_digits : ℕ → ℕ → ℕ → ℕ
xor_digits fuel x m = digits (λ b. b) differ fuel x m

xor_enough : (f g x m : ℕ) → x ≤ f → x ≤ g → xor_digits f x m ≡ xor_digits g x m
xor_enough zero zero x m le le' = refl
xor_enough (suc f) (suc g) zero m le le' = refl
xor_enough (suc f) (suc g) (suc x) m le le' =
    let half = suc x / 2 in omega (arith, xor_enough f g half (m / 2) (omega arith) (omega arith))
xor_enough (suc f) zero zero m le le' = refl
xor_enough (suc f) zero (suc x) m le le' = absurd (omega arith)
xor_enough zero (suc g) zero m le le' = refl
xor_enough zero (suc g) (suc x) m le le' = absurd (omega arith)

pub xor_zero : (m : ℕ) → bit_xor 0 m ≡ m
xor_zero m = bit_xor-bitwise 0 m

differ-digits : (a b : ℕ) → a ≤ 1 → b ≤ 1 → differ a b ≡ (a + b) % 2
differ-digits zero b p q = omega arith
differ-digits (suc zero) zero p q = refl
differ-digits (suc zero) (suc zero) p q = refl
differ-digits (suc zero) (suc (suc b)) p q = absurd (omega arith)
differ-digits (suc (suc a)) b p q = absurd (omega arith)

-- The lowest digit of `x ^ m` is the parity of theirs.
xor_digit : (x m : ℕ) → bit_xor x m ≡ 2 * bit_xor (x / 2) (m / 2) + (x % 2 + m % 2) % 2
xor_digit zero m = omega (arith, xor_zero m, xor_zero (m / 2))
xor_digit (suc x) m =
    let half = suc x / 2 in
    omega (
      arith,
      bit_xor-bitwise (suc x) m,
      bit_xor-bitwise half (m / 2),
      xor_enough x half half (m / 2) (omega arith) (omega arith),
      differ-digits (suc x % 2) (m % 2) (omega arith) (omega arith),
    )

xor_half : (x m : ℕ) → bit_xor x m / 2 ≡ bit_xor (x / 2) (m / 2)
xor_half x m = omega (arith, xor_digit x m)

xor_parity : (x m : ℕ) → bit_xor x m % 2 ≡ (x % 2 + m % 2) % 2
xor_parity x m = omega (arith, xor_digit x m)

xor_cancel_below : (n x m : ℕ) → x + m ≤ n → bit_xor (bit_xor x m) m ≡ x
xor_cancel_below n zero zero le = refl
xor_cancel_below zero (suc x) m le = absurd (omega arith)
xor_cancel_below zero zero (suc m) le = absurd (omega arith)
xor_cancel_below (suc n) x m le =
    let high : bit_xor (bit_xor x m / 2) (m / 2) ≡ x / 2 =
      rw (xor_half x m) (xor_cancel_below n (x / 2) (m / 2) (omega arith)) in
    omega (arith, xor_digit (bit_xor x m) m, high, xor_parity x m)

-- Adding a value twice takes it away.
pub xor_cancel : (x m : ℕ) → bit_xor (bit_xor x m) m ≡ x
xor_cancel x m = xor_cancel_below (x + m) x m (omega arith)

xor_swap_below : (n x a b : ℕ) → x + a + b ≤ n → bit_xor (bit_xor x a) b ≡ bit_xor (bit_xor x b) a
xor_swap_below n zero zero zero le = refl
xor_swap_below zero (suc x) a b le = absurd (omega arith)
xor_swap_below zero zero (suc a) b le = absurd (omega arith)
xor_swap_below zero zero zero (suc b) le = absurd (omega arith)
xor_swap_below (suc n) x a b le =
    let high : bit_xor (bit_xor x a / 2) (b / 2) ≡ bit_xor (bit_xor x b / 2) (a / 2) =
      rw (xor_half x a, xor_half x b) (xor_swap_below n (x / 2) (a / 2) (b / 2) (omega arith)) in
    omega (
      arith,
      xor_digit (bit_xor x a) b,
      xor_digit (bit_xor x b) a,
      high,
      xor_parity x a,
      xor_parity x b,
    )

-- The order of additions does not matter.
pub xor_swap : (x a b : ℕ) → bit_xor (bit_xor x a) b ≡ bit_xor (bit_xor x b) a
xor_swap x a b = xor_swap_below (x + a + b) x a b (omega arith)
