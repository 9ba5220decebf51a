-- ===== src/Decimal/Arith/Product.antt =====
-- `mul` and `operator*` against exact integer arithmetic.
use mathlib.Core.Path.{ap₂}
use binapi.Prelude.{ℕ, ◌*◌, ◌/◌, ◌^◌, ◌≤◌, ◌<◌, ◌≡◌, ◌∙◌, refl, subst, arith, inl, inr}
use binapi.Prelude.Int.{magnitude}
use binapi.Decimal.Arith.Pack.{signed, Quotient, magnitude_bound, pack_lem}
use binapi.Decimal.{Decimal, scale_factor, IsInt128}
use binapi.Decimal.Wide.{Uint256, wide_value, to_unsigned, mul256, divmod256}
use binapi.Decimal.Wide.Product.{mul256_lem, mul256_halves, to_unsigned_lem}
use binapi.Decimal.Wide.Quotient.{Divides, divmod256_lem}
use binapi.Decimal.Arith.{Outcome, ok, throws, overflow_error, mul, times, signs_differ}

mul_bound : (x y : ℕ) → x ≤ 2 ^ 127 → y ≤ 2 ^ 127 → x * y ≤ 2 ^ 254
mul_bound x y h k = grind arith

-- For two decimals in the range of int128_t, mul gives the product of the raw values over the
-- scale, truncated towards zero, if that is below 2^127 in magnitude, and marks no overflow; if it
-- is not, it marks an overflow. In both cases the error is the remainder of that division with the
-- sign of the product.
pub mul_lem :
    (a b : Decimal)
    → IsInt128 a.value
    → IsInt128 b.value
    → Quotient
        (signs_differ a.value b.value)
        (magnitude a.value * magnitude b.value)
        scale_factor
        (mul a b)
unfolding mul
mul_lem a b ha hb =
    subst (λ t. Quotient (signs_differ a.value b.value) t scale_factor (mul a b)) exact
      (pack_lem product scale_factor _ divided (signs_differ a.value b.value) (omega arith)
        (omega (arith, divided, exact, mul_bound x y hx hy)))
  where
    x : ℕ
    x = magnitude a.value

    y : ℕ
    y = magnitude b.value

    hx : x ≤ 2 ^ 127
    hx = magnitude_bound a.value ha

    hy : y ≤ 2 ^ 127
    hy = magnitude_bound b.value hb

    ex : to_unsigned a.value ≡ x
    ex = to_unsigned_lem a.value ha.below ha.above

    ey : to_unsigned b.value ≡ y
    ey = to_unsigned_lem b.value hb.below hb.above

    product : Uint256
    product = mul256 (to_unsigned a.value) (to_unsigned b.value)

    exact : wide_value product ≡ x * y
    exact = mul256_lem _ _ (omega (arith, ex)) (omega (arith, ey)) ∙ ap₂ (λ (s t : ℕ). s * t) ex ey

    divided : Divides product scale_factor (divmod256 product scale_factor)
    divided =
        divmod256_lem product scale_factor (mul256_halves _ _).0 (mul256_halves _ _).1 (omega arith)
          (omega arith)

abbrev pub TimesResult : Decimal → Decimal → Outcome Decimal → Type 0
TimesResult a b (throws e) =
    (2 ^ 127 ≤ magnitude a.value * magnitude b.value / scale_factor) × (e ≡ overflow_error)
TimesResult a b (ok p) =
    (magnitude a.value * magnitude b.value / scale_factor < 2 ^ 127)
    × (p.value
        ≡ signed (signs_differ a.value b.value)
            (magnitude a.value * magnitude b.value / scale_factor))

-- For two decimals in the range of int128_t, operator* gives the product over the scale, truncated
-- towards zero, where that is below 2^127 in magnitude, and throws overflow_error where it is not.
pub times_lem : (a b : Decimal) → IsInt128 a.value → IsInt128 b.value → TimesResult a b (times a b)
unfolding times
times_lem a b ha hb = elim (mul_lem a b ha hb).quotient [
  | inl (below, fits, exact) ↦ rw fits (below, exact)
  | inr (above, over) ↦ rw over (above, refl)
]
