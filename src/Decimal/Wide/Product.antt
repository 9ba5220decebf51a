-- ===== src/Decimal/Wide/Product.antt =====
-- `mul256` is exact.
use mathlib.Core.Path.{ap₂}
use binapi.Prelude.{ℕ, ◌+◌, ◌-◌, ◌*◌, ◌/◌, ◌%◌, ◌^◌, ◌≤◌, ◌<◌, ◌≡◌, ◌∙◌, arith, ltb, if◌then◌else◌}
use binapi.Prelude.Int.{ℤ, pos, negsuc, pos_part, neg_part}
use binapi.Decimal.Wide.{Uint256, wide_value, u64_mod, u128_mod, to_unsigned, mul256}

product_bound : (x y : ℕ) → x < u64_mod → y < u64_mod → x * y ≤ (u64_mod - 1) * (u64_mod - 1)
product_bound x y h k = grind arith

-- The carries of the schoolbook product, over the four partial products.
carry : (p00 p01 p10 p11 : ℕ) → Uint256
carry p00 p01 p10 p11 =
    let mid = (p01 + p10) % u128_mod in
    let mid_carry : ℕ = if ltb mid p01 then 1 else 0 in
    let lo = (p00 + mid * 2 ^ 64 % u128_mod) % u128_mod in
    let lo_carry : ℕ = if ltb lo p00 then 1 else 0 in
    record {
      lo = lo;
      hi = (p11 + mid / 2 ^ 64 + mid_carry * 2 ^ 64 % u128_mod + lo_carry) % u128_mod;
    }

abbrev top : ℕ
top = (u64_mod - 1) * (u64_mod - 1)

carry_lem :
    (p00 p01 p10 p11 : ℕ)
    → p00 ≤ top
    → p01 ≤ top
    → p10 ≤ top
    → p11 ≤ top
    → wide_value (carry p00 p01 p10 p11) ≡ p11 * u128_mod + (p01 + p10) * u64_mod + p00
unfolding carry
carry_lem p00 p01 p10 p11 h k l m = ground arith

-- A product by halves.
halves_mul :
    (a0 a1 b0 b1 : ℕ)
    → a1 * b1 * u128_mod + (a0 * b1 + a1 * b0) * u64_mod + a0 * b0
      ≡ (a1 * u64_mod + a0) * (b1 * u64_mod + b0)
halves_mul a0 a1 b0 b1 = omega arith

fits : (x y : ℕ) → x < u64_mod → y < u64_mod → x * y % u128_mod ≡ x * y
fits x y h k = omega (arith, product_bound x y h k)

halves_value : (a : ℕ) → a < u128_mod → a / 2 ^ 64 % u64_mod * u64_mod + a % u64_mod ≡ a
halves_value a h = omega arith

mul256-carry :
    (a b : ℕ)
    → mul256 a b
      ≡ carry
          (a % u64_mod * (b % u64_mod))
          (a % u64_mod * (b / 2 ^ 64 % u64_mod))
          (a / 2 ^ 64 % u64_mod * (b % u64_mod))
          (a / 2 ^ 64 % u64_mod * (b / 2 ^ 64 % u64_mod))
unfolding mul256 carry
mul256-carry a b = rw (
  fits (a % u64_mod) (b % u64_mod) (omega arith) (omega arith),
  fits (a % u64_mod) (b / 2 ^ 64 % u64_mod) (omega arith) (omega arith),
  fits (a / 2 ^ 64 % u64_mod) (b % u64_mod) (omega arith) (omega arith),
  fits (a / 2 ^ 64 % u64_mod) (b / 2 ^ 64 % u64_mod) (omega arith) (omega arith),
)

-- For two numbers below 2^128, the two halves that mul256 gives are the exact product.
pub mul256_lem : (a b : ℕ) → a < u128_mod → b < u128_mod → wide_value (mul256 a b) ≡ a * b
mul256_lem a b ha hb =
    let a0 : ℕ = a % u64_mod in
    let a1 : ℕ = a / 2 ^ 64 % u64_mod in
    let b0 : ℕ = b % u64_mod in
    let b1 : ℕ = b / 2 ^ 64 % u64_mod in
    rw (mul256-carry a b) (
      carry_lem (a0 * b0) (a0 * b1) (a1 * b0) (a1 * b1)
        (product_bound a0 b0 (omega arith) (omega arith))
        (product_bound a0 b1 (omega arith) (omega arith))
        (product_bound a1 b0 (omega arith) (omega arith))
        (product_bound a1 b1 (omega arith) (omega arith))
      ∙ halves_mul a0 a1 b0 b1
      ∙ ap₂ (λ (x y : ℕ). x * y) (halves_value a ha) (halves_value b hb))

-- Both halves are `uint128_t`.
pub mul256_halves : (a b : ℕ) → ((mul256 a b).lo < u128_mod) × ((mul256 a b).hi < u128_mod)
unfolding mul256
mul256_halves a b = omega arith

-- `to_unsigned` is the absolute value, at the lowest `int128_t` too.
pub to_unsigned_lem :
    (v : ℤ) → pos_part v < 2 ^ 127 → neg_part v ≤ 2 ^ 127 → to_unsigned v ≡ pos_part v + neg_part v
unfolding to_unsigned
to_unsigned_lem (pos n) h k = omega arith
to_unsigned_lem (negsuc n) h k = omega arith
