-- ===== src/Prelude/Bits.antt =====
-- `>>`, `|` and `& 1` at variables: what the native operations satisfy there.
use Prim.Native.Nat.{max, bit_or, bit_and, bit_or-bitwise, bit_and-bitwise, digits, min}
use native.Mathlib.Nat.{pow-suc}
use binapi.Prelude.{ℕ, zero, suc, ◌+◌, ◌*◌, ◌/◌, ◌%◌, ◌^◌, ◌≤◌, ◌<◌, ◌≡◌, refl, ap, arith}

abbrev or_digits : ℕ → ℕ → ℕ → ℕ
or_digits = digits (λ b. b) max

or_digits_zero : (n b : ℕ) → or_digits n 0 b ≡ b
or_digits_zero zero b = refl
or_digits_zero (suc n) b = refl

or_digits_fuel : (n m a b : ℕ) → a ≤ n → a ≤ m → or_digits n a b ≡ or_digits m a b
or_digits_fuel n m zero b h k = omega (arith, or_digits_zero n b, or_digits_zero m b)
or_digits_fuel zero m (suc a) b h k = absurd (omega arith)
or_digits_fuel (suc n) zero (suc a) b h k = absurd (omega arith)
or_digits_fuel (suc n) (suc m) (suc a) b h k =
    omega (arith, or_digits_fuel n m (suc a / 2) (b / 2) (omega arith) (omega arith))

zero-bit_or : (b : ℕ) → bit_or 0 b ≡ b
zero-bit_or b = bit_or-bitwise 0 b

bit_or_step : (a b : ℕ) → bit_or a b ≡ bit_or (a / 2) (b / 2) * 2 + max (a % 2) (b % 2)
bit_or_step zero b = omega (arith, zero-bit_or b, zero-bit_or (b / 2))
bit_or_step (suc a) b = omega (
  arith,
  bit_or-bitwise (suc a) b,
  bit_or-bitwise (suc a / 2) (b / 2),
  or_digits_fuel a (suc a / 2) (suc a / 2) (b / 2) (omega arith) (omega arith),
)

bit_or-zero_fuel : (n a : ℕ) → a ≤ n → bit_or a 0 ≡ a
bit_or-zero_fuel n zero h = refl
bit_or-zero_fuel zero (suc a) h = absurd (omega arith)
bit_or-zero_fuel (suc n) (suc a) h =
    omega (arith, bit_or_step (suc a) 0, bit_or-zero_fuel n (suc a / 2) (omega arith))

pub bit_or-zero : (a : ℕ) → bit_or a 0 ≡ a
bit_or-zero a = bit_or-zero_fuel a a (omega arith)

-- Where the digits do not overlap, `|` adds.
pub bit_or_disjoint : (k m x : ℕ) → x < 2 ^ k → bit_or (m * 2 ^ k) x ≡ m * 2 ^ k + x
bit_or_disjoint zero m zero h = omega (arith, bit_or-zero (m * 2 ^ 0))
bit_or_disjoint zero m (suc x) h = absurd (omega arith)
bit_or_disjoint (suc k) m x h = omega (
  arith,
  shifted,
  halved,
  bit_or_step (m * 2 ^ suc k) x,
  bit_or_disjoint k m (x / 2) (omega (arith, pow-suc 2 k)),
)
  where
    shifted : m * 2 ^ suc k ≡ m * 2 ^ k * 2
    shifted = omega (arith, ap (λ (t : ℕ). m * t) (pow-suc 2 k))

    halved : bit_or (m * 2 ^ suc k / 2) (x / 2) ≡ bit_or (m * 2 ^ k) (x / 2)
    halved = ap (λ (t : ℕ). bit_or t (x / 2)) (omega (arith, shifted))

and_digits_fuel_zero : (n a : ℕ) → digits (λ b. zero) min n a 0 ≡ 0
and_digits_fuel_zero zero a = refl
and_digits_fuel_zero (suc n) zero = refl
and_digits_fuel_zero (suc n) (suc a) = omega (arith, and_digits_fuel_zero n (suc a / 2))

-- `x & 1` is the lowest digit.
pub bit_and-one : (a : ℕ) → bit_and a 1 ≡ a % 2
bit_and-one zero = refl
bit_and-one (suc a) = omega (arith, bit_and-bitwise (suc a) 1, and_digits_fuel_zero a (suc a / 2))
