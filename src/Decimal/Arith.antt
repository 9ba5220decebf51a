-- ===== src/Decimal/Arith.antt =====
-- src/binapi2/fapi/decimal.cpp: `pack_result`, `mul`, `div` and `operator*`.
pub mod Pack
pub mod Product
pub mod Ratio
use Prim.Native.Nat.{bit_and}
use mathlib.Core.Bool.{xor}
use binapi.Prelude.{
  ℕ, ◌+◌, ◌-◌, ◌*◌, ◌/◌, ◌%◌, ◌^◌, Bool, true, false, ◌&&◌, not, ltb, leb, ◌==◌, if◌then◌else◌,
}
use binapi.Prelude.Int.{ℤ, pos, negsuc, ltb_ℤ, ◌==ℤ◌}
use binapi.Decimal.{Decimal, scale_factor, negate}
use binapi.Decimal.Wide.{Uint256, u128_mod, to_unsigned, mul256, divmod256}

-- `decimal_result_t`, with the wrapped integers of `decimal_error_t` and `decimal_overflow_t`.
pub record DecimalResult : Type 0 where
  pub value : Decimal
  pub error : ℤ
  pub overflow : ℤ

pub data DecimalError : Type 0 where
  overflow_error domain_error : DecimalError

pub data Outcome {ℓ} (A : Type ℓ) : Type ℓ where
  ok : A → Outcome A
  throws : DecimalError → Outcome A

-- `static_cast<int128_t>` of a `uint128_t`.
abbrev pub to_i128 : ℕ → ℤ
to_i128 n = if ltb n (2 ^ 127) then pos n else negsuc (u128_mod - 1 - n)

abbrev pub int128_max : ℕ
int128_max = 2 ^ 127 - 1

unfoldable pub has_overflow : DecimalResult → Bool
has_overflow r = not (r.overflow ==ℤ pos 0)

unfoldable pub is_exact : DecimalResult → Bool
is_exact r = r.error ==ℤ pos 0 && r.overflow ==ℤ pos 0

-- The last step of `pack_result`: the sign goes on all three fields.
apply_sign : ℤ → ℤ → ℤ → Bool → DecimalResult
apply_sign result_raw overflow rem_signed negative =
    if negative
    then record {
      value = record { value = negate result_raw };
      error = negate rem_signed;
      overflow = negate overflow;
    }
    else record { value = record { value = result_raw }; error = rem_signed; overflow = overflow }

unfoldable pub pack_result : Uint256 → ℕ → Bool → DecimalResult
unfolding apply_sign
pack_result quot rem negative =
    if quot.hi == 0 && leb quot.lo int128_max
    then apply_sign (to_i128 quot.lo) (pos 0) (to_i128 rem) negative
    else apply_sign (to_i128 (bit_and quot.lo int128_max))
        (if quot.hi == 0 then pos 1 else to_i128 quot.hi) (to_i128 rem) negative

-- `(a.value < 0) != (b.value < 0)`.
abbrev pub signs_differ : ℤ → ℤ → Bool
signs_differ a b = xor (ltb_ℤ a (pos 0)) (ltb_ℤ b (pos 0))

unfoldable pub mul : Decimal → Decimal → DecimalResult
mul a b =
    let r = divmod256 (mul256 (to_unsigned a.value) (to_unsigned b.value)) scale_factor in
    pack_result r.quotient r.remainder (signs_differ a.value b.value)

unfoldable pub div : Decimal → Decimal → Outcome DecimalResult
div a b =
    let r = divmod256 (mul256 (to_unsigned a.value) scale_factor) (to_unsigned b.value) in
    if b.value ==ℤ pos 0
    then throws domain_error
    else ok (pack_result r.quotient r.remainder (signs_differ a.value b.value))

-- `operator*`.
unfoldable pub times : Decimal → Decimal → Outcome Decimal
times a b = let r = mul a b in if has_overflow r then throws overflow_error else ok r.value
