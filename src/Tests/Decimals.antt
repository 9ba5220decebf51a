-- ===== src/Tests/Decimals.antt =====
-- The theorems on src/binapi2/fapi/decimal.cpp at concrete numbers and texts.
use binapi.Prelude.{◌*◌, ◌≡◌, refl, arith, ◌++◌, some, replicate, true, false}
use binapi.Prelude.Int.{pos, negsuc, magnitude, ◌-ℤ◌}
use binapi.Prelude.Text.{codes}
use binapi.Decimal.{Decimal, scale_factor, IsInt128, is_valid}
use binapi.Decimal.Wide.{Uint256}
use binapi.Decimal.Arith.{mul, div, times, signs_differ}
use binapi.Decimal.Arith.Pack.{Quotient}
use binapi.Decimal.Arith.Product.{mul_lem, TimesResult, times_lem}
use binapi.Decimal.Arith.Ratio.{DivResult, div_lem}
use binapi.Decimal.Parse.{ok, undefined, parse_decimal, from_text}
use binapi.Decimal.Parse.Shape.{parse_number}
use binapi.Decimal.Parse.Wrap.{parse-zeros, parse_undefined}
use binapi.Decimal.Print.{to_text}
use binapi.Decimal.Print.RoundTrip.{from_text-to_text}

abbrev one_and_half : Decimal
one_and_half = record { value = pos 1_500_000_000_000_000_000 }

abbrev minus_four : Decimal
minus_four = record { value = negsuc 3_999_999_999_999_999_999 }

one_and_half_fits : IsInt128 (one_and_half.value)
one_and_half_fits = record { above = omega arith; below = omega arith }

minus_four_fits : IsInt128 (minus_four.value)
minus_four_fits = record { above = omega arith; below = omega arith }

mul_lem_example :
    Quotient
      (signs_differ one_and_half.value minus_four.value)
      (magnitude one_and_half.value * magnitude minus_four.value)
      scale_factor
      (mul one_and_half minus_four)
mul_lem_example = mul_lem one_and_half minus_four one_and_half_fits minus_four_fits

times_lem_example : TimesResult one_and_half minus_four (times one_and_half minus_four)
times_lem_example = times_lem one_and_half minus_four one_and_half_fits minus_four_fits

div_lem_example : DivResult one_and_half minus_four (div one_and_half minus_four)
div_lem_example = div_lem one_and_half minus_four one_and_half_fits minus_four_fits

from_text-to_text_example : from_text (to_text minus_four) ≡ ok minus_four
from_text-to_text_example = from_text-to_text minus_four (omega arith)

parse_number_example : parse_decimal (codes "-12.5") ≡ ok (negsuc 12_499_999_999_999_999_999)
unfolding ◌-ℤ◌
parse_number_example =
    parse_number true (codes "12") (some (codes "5")) (omega arith) (omega arith) (omega arith)
      (omega arith)

parse-zeros_example :
    parse_decimal (codes "1." ++ (replicate 256 b'0' ++ codes "5")) ≡ parse_decimal (codes "1.5")
parse-zeros_example =
    parse-zeros 256 false (codes "1") (codes "5") (omega arith) (omega arith) (omega arith)

parse_undefined_example :
    parse_decimal (codes "0.999999999999999999999999999999999999999") ≡ undefined
parse_undefined_example =
    parse_undefined false (codes "0") (codes "999999999999999999999999999999999999999")
      (omega arith) (omega arith) (omega arith) (omega arith)

abbrev wide : Uint256
wide = record { lo = 7; hi = 5 }

one_and_half_valid : is_valid one_and_half ≡ true
unfolding is_valid
one_and_half_valid = refl

minus_four_valid : is_valid minus_four ≡ true
unfolding is_valid
minus_four_valid = refl
