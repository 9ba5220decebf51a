-- ===== src/Decimal/Arith/Pack.antt =====
-- `pack_result`: what a packed quotient and remainder stand for.
use native.Mathlib.Nat.{div-eq_of_lt-le, div-add-mod'}
use binapi.Prelude.{
  ℕ, ◌*◌, ◌/◌, ◌%◌, ◌^◌, ◌≤◌, ◌<◌, ◌≡◌, ap, Bool, true, false, arith, ltb, Bool-cases, inl, inr,
  ◌⊎◌,
}
use binapi.Prelude.Int.{ℤ, pos, negsuc, magnitude, ◌-ℤ◌}
use binapi.Decimal.{negate, IsInt128}
use binapi.Decimal.Wide.{Uint256, wide_value, DivmodResult}
use binapi.Decimal.Wide.Quotient.{Divides}
use binapi.Decimal.Arith.{DecimalResult, has_overflow, pack_result}

-- A magnitude with a sign.
abbrev pub signed : Bool → ℕ → ℤ
signed true n = negate (pos n)
signed false n = pos n

-- `r` is the quotient `n / d`, truncated, and its remainder; where the quotient is 2 ^ 127 or more
-- it is marked as an overflow, and where it is less it is not.
pub record Quotient (negative : Bool) (n d : ℕ) (r : DecimalResult) : Type 0 where
  pub quotient :
      ((n / d < 2 ^ 127) × (has_overflow r ≡ false) × (r.value.value ≡ signed negative (n / d)))
      ⊎ ((2 ^ 127 ≤ n / d) × (has_overflow r ≡ true))
  pub remainder : r.error ≡ signed negative (n % d)

pub magnitude_bound : (v : ℤ) → IsInt128 v → magnitude v ≤ 2 ^ 127
magnitude_bound (pos n) h = omega arith
magnitude_bound (negsuc n) h = omega arith

module _ (n : Uint256) (d : ℕ) (r : DivmodResult) (h : Divides n d r) where
  quotient_lem : wide_value n / d ≡ wide_value r.quotient
  quotient_lem = div-eq_of_lt-le d (omega (arith, h)) (omega (arith, h))

  remainder_lem : wide_value n % d ≡ r.remainder
  remainder_lem =
      omega (arith, h, div-add-mod' (wide_value n) d, ap (λ (t : ℕ). t * d) quotient_lem)

  pub pack_lem :
      (negative : Bool)
      → d ≤ 2 ^ 127
      → r.quotient.hi < 2 ^ 127
      → Quotient negative (wide_value n) d (pack_result r.quotient r.remainder negative)
  unfolding pack_result has_overflow ◌-ℤ◌
  pack_lem negative small hi = elim (Bool-cases (ltb (wide_value n / d) (2 ^ 127))) [
    | inl below ↦ elim negative [
      | true ↦ record {
        quotient =
            inl (ground arith, ground (arith, h, quotient_lem), ground (arith, h, quotient_lem));
        remainder = ground (arith, h, remainder_lem);
      }
      | false ↦ record {
        quotient =
            inl (ground arith, ground (arith, h, quotient_lem), ground (arith, h, quotient_lem));
        remainder = ground (arith, h, remainder_lem);
      }
    ]
    | inr above ↦ elim negative [
      | true ↦ record {
        quotient = inr (ground arith, ground (arith, h, quotient_lem));
        remainder = ground (arith, h, remainder_lem);
      }
      | false ↦ record {
        quotient = inr (ground arith, ground (arith, h, quotient_lem));
        remainder = ground (arith, h, remainder_lem);
      }
    ]
  ]
