-- ===== src/Prelude/Bits.antt =====
-- Laws of `bit_xor` and `bit_or` at variables, from their definition by digits.
use Prim.Native.Nat.{
  ℕ, zero, suc, ◌+◌, ◌*◌, ◌/◌, ◌%◌, ◌≤◌, max, digits, differ, bit_or, bit_xor, bit_or-bitwise,
  bit_xor-bitwise,
}
use mathlib.Core.Path.{◌≡◌, refl}
use native.Mathlib.Omega.{arith}

zero-bit_xor : (b : ℕ) → bit_xor 0 b ≡ b
zero-bit_xor b = bit_xor-bitwise 0 b

zero-bit_or : (b : ℕ) → bit_or 0 b ≡ b
zero-bit_or b = bit_or-bitwise 0 b

abbrev xor_digits : ℕ → ℕ → ℕ → ℕ
xor_digits n a b = digits (λ b. b) differ n a b

xor_digits_fuel : (n m a b : ℕ) → a ≤ n → a ≤ m → xor_digits n a b ≡ xor_digits m a b
xor_digits_fuel zero zero a b h k = refl
xor_digits_fuel zero (suc m) zero b h k = refl
xor_digits_fuel zero (suc m) (suc a) b h k = absurd (omega arith)
xor_digits_fuel (suc n) zero zero b h k = refl
xor_digits_fuel (suc n) zero (suc a) b h k = absurd (omega arith)
xor_digits_fuel (suc n) (suc m) zero b h k = refl
xor_digits_fuel (suc n) (suc m) (suc a) b h k =
    omega (arith, xor_digits_fuel n m (suc a / 2) (b / 2) (omega arith) (omega arith))

pub bit_xor_step : (a b : ℕ) → bit_xor a b ≡ bit_xor (a / 2) (b / 2) * 2 + differ (a % 2) (b % 2)
bit_xor_step zero b = omega (arith, zero-bit_xor b, zero-bit_xor (b / 2))
bit_xor_step (suc a) b = omega (
  arith,
  bit_xor-bitwise (suc a) b,
  bit_xor-bitwise (suc a / 2) (b / 2),
  xor_digits_fuel a (suc a / 2) (suc a / 2) (b / 2) (omega arith) (omega arith),
)

abbrev or_digits : ℕ → ℕ → ℕ → ℕ
or_digits n a b = digits (λ b. b) max n a b

or_digits_fuel : (n m a b : ℕ) → a ≤ n → a ≤ m → or_digits n a b ≡ or_digits m a b
or_digits_fuel zero zero a b h k = refl
or_digits_fuel zero (suc m) zero b h k = refl
or_digits_fuel zero (suc m) (suc a) b h k = absurd (omega arith)
or_digits_fuel (suc n) zero zero b h k = refl
or_digits_fuel (suc n) zero (suc a) b h k = absurd (omega arith)
or_digits_fuel (suc n) (suc m) zero b h k = refl
or_digits_fuel (suc n) (suc m) (suc a) b h k =
    omega (arith, or_digits_fuel n m (suc a / 2) (b / 2) (omega arith) (omega arith))

pub bit_or_step : (a b : ℕ) → bit_or a b ≡ bit_or (a / 2) (b / 2) * 2 + max (a % 2) (b % 2)
bit_or_step zero b = omega (arith, zero-bit_or b, zero-bit_or (b / 2))
bit_or_step (suc a) b = omega (
  arith,
  bit_or-bitwise (suc a) b,
  bit_or-bitwise (suc a / 2) (b / 2),
  or_digits_fuel a (suc a / 2) (suc a / 2) (b / 2) (omega arith) (omega arith),
)

differ_self : (x : ℕ) → differ x x ≡ 0
differ_self zero = refl
differ_self (suc x) = differ_self x

differ-eq_zero : (x y : ℕ) → differ x y ≡ 0 → x ≡ y
differ-eq_zero zero y h = omega arith
differ-eq_zero (suc x) zero h = absurd (omega arith)
differ-eq_zero (suc x) (suc y) h = omega (arith, differ-eq_zero x y h)

xor_self_below : (n a : ℕ) → a ≤ n → bit_xor a a ≡ 0
xor_self_below n zero h = zero-bit_xor 0
xor_self_below zero (suc a) h = absurd (omega arith)
xor_self_below (suc n) (suc a) h = omega (
  arith,
  bit_xor_step (suc a) (suc a),
  differ_self (suc a % 2),
  xor_self_below n (suc a / 2) (omega arith),
)

pub bit_xor_self : (a : ℕ) → bit_xor a a ≡ 0
bit_xor_self a = xor_self_below a a (omega arith)

xor-eq_zero_below : (n a b : ℕ) → a ≤ n → bit_xor a b ≡ 0 → a ≡ b
xor-eq_zero_below n zero b h e = omega (arith, zero-bit_xor b)
xor-eq_zero_below zero (suc a) b h e = absurd (omega arith)
xor-eq_zero_below (suc n) (suc a) b h e =
    let s = bit_xor_step (suc a) b in
    let high : bit_xor (suc a / 2) (b / 2) ≡ 0 = omega arith in
    let low : differ (suc a % 2) (b % 2) ≡ 0 = omega arith in
    omega (
      arith,
      xor-eq_zero_below n (suc a / 2) (b / 2) (omega arith) high,
      differ-eq_zero (suc a % 2) (b % 2) low,
    )

pub bit_xor-eq_zero : (a b : ℕ) → bit_xor a b ≡ 0 → a ≡ b
bit_xor-eq_zero a b = xor-eq_zero_below a a b (omega arith)

or-eq_zero_below : (n a b : ℕ) → a ≤ n → bit_or a b ≡ 0 → (a ≡ 0) × (b ≡ 0)
or-eq_zero_below n zero b h e = (omega arith, omega (arith, zero-bit_or b))
or-eq_zero_below zero (suc a) b h e = absurd (omega arith)
or-eq_zero_below (suc n) (suc a) b h e =
    let s = bit_or_step (suc a) b in
    let high : bit_or (suc a / 2) (b / 2) ≡ 0 = omega arith in
    let r = or-eq_zero_below n (suc a / 2) (b / 2) (omega arith) high in (omega arith, omega arith)

pub bit_or-eq_zero : (a b : ℕ) → bit_or a b ≡ 0 → (a ≡ 0) × (b ≡ 0)
bit_or-eq_zero a b = or-eq_zero_below a a b (omega arith)
