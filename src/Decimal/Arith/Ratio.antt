-- ===== src/Decimal/Arith/Ratio.antt =====
-- `div` against exact integer arithmetic.
use mathlib.Core.Bool.{false≢true}
use mathlib.Core.Path.{subst₂}
use binapi.Prelude.{
  ℕ, ◌+◌, ◌*◌, ◌^◌, ◌≤◌, ◌<◌, ◌≡◌, ◌∙◌, refl, sym, ap, ◌≢◌, Bool, arith, ltb, Bool-cases, inl, inr,
}
use binapi.Prelude.Int.{pos, ◌==ℤ◌, magnitude, ==ℤ-zero, zero_of_magnitude}
use binapi.Decimal.Arith.Pack.{Quotient, magnitude_bound, pack_lem}
use binapi.Decimal.{Decimal, scale_factor, IsInt128}
use binapi.Decimal.Wide.{Uint256, wide_value, DivmodResult, to_unsigned, mul256, divmod256}
use binapi.Decimal.Wide.Product.{mul256_lem, mul256_halves, to_unsigned_lem}
use binapi.Decimal.Wide.Quotient.{Divides, divmod256_lem}
use binapi.Decimal.Arith.{
  DecimalResult, Outcome, ok, throws, domain_error, pack_result, div, signs_differ,
}

le-mul : (q d : ℕ) → 0 < d → q ≤ q * d
le-mul q d h = grind arith

module _ (a b : Decimal) (ha : IsInt128 a.value) (hb : IsInt128 b.value) where
  x : ℕ
  x = magnitude a.value

  y : ℕ
  y = magnitude b.value

  ratio : DivmodResult
  ratio = divmod256 (mul256 (to_unsigned a.value) scale_factor) (to_unsigned b.value)

  quotient_bound : (q r d n : ℕ) → 0 < d → q * d + r ≡ n → n ≤ 2 ^ 127 * scale_factor → q < 2 ^ 255
  quotient_bound q r d n h e k = omega (arith, le-mul q d h)

  -- `a * scale / b`, for a divisor other than zero.
  div_nonzero :
      0 < y
      → Quotient
          (signs_differ a.value b.value)
          (x * scale_factor)
          y
          (pack_result ratio.quotient ratio.remainder (signs_differ a.value b.value))
  unfolding ratio x y
  div_nonzero h =
      subst₂ (λ s t. Quotient neg s t (pack_result ratio.quotient ratio.remainder neg)) exact ey
        (pack_lem numerator d ratio divided (signs_differ a.value b.value)
          (omega (arith, ey, magnitude_bound b.value hb))
          (omega (
            arith,
            quotient_bound (wide_value ratio.quotient) ratio.remainder d _ (omega (arith, ey))
                divided.0 (omega (arith, exact, magnitude_bound a.value ha)),
          )))
    where
      neg : Bool
      neg = signs_differ a.value b.value

      d : ℕ
      d = to_unsigned b.value

      ex : to_unsigned a.value ≡ x
      ex = to_unsigned_lem a.value ha.below ha.above

      ey : d ≡ y
      ey = to_unsigned_lem b.value hb.below hb.above

      numerator : Uint256
      numerator = mul256 (to_unsigned a.value) scale_factor

      exact : wide_value numerator ≡ x * scale_factor
      exact =
          mul256_lem (to_unsigned a.value) scale_factor
            (omega (arith, ex, magnitude_bound a.value ha)) (omega arith)
          ∙ ap (λ (t : ℕ). t * scale_factor) ex

      divided : Divides numerator d ratio
      divided =
          divmod256_lem numerator d (mul256_halves _ _).0 (mul256_halves _ _).1
            (omega (arith, ey, magnitude_bound b.value hb)) (omega (arith, ey))

abbrev pub DivResult : Decimal → Decimal → Outcome DecimalResult → Type 0
DivResult a b (throws e) = (b.value ≡ pos 0) × (e ≡ domain_error)
DivResult a b (ok r) =
    (b.value ≢ pos 0)
    × Quotient (signs_differ a.value b.value) (magnitude a.value * scale_factor) (magnitude b.value)
        r

-- For two decimals in the range of int128_t, div throws domain_error if the divisor is zero, and
-- only then. If not, it gives the dividend times the scale over the divisor, truncated towards
-- zero, if that is below 2^127 in magnitude, and marks no overflow; if it is not, it marks an
-- overflow. In both cases the error is the remainder with the sign of the quotient.
pub div_lem : (a b : Decimal) → IsInt128 a.value → IsInt128 b.value → DivResult a b (div a b)
unfolding div
div_lem a b ha hb = elim (Bool-cases (b.value ==ℤ pos 0)) [
  | inl zero ↦ rw zero (zero_of_magnitude b.value ((==ℤ-zero b.value).0 zero), refl)
  | inr other ↦ rw other (
    (λ e. absurd (false≢true (sym other ∙ (==ℤ-zero b.value).1 (ap magnitude e)))),
    unfold ratio x y in
        div_nonzero a b ha hb (elim (Bool-cases (ltb 0 (magnitude b.value))) [
          | inl above ↦ ground arith
          | inr at_zero ↦ absurd (false≢true (sym other ∙ (==ℤ-zero b.value).1 (ground arith)))
        ]),
  )
]
