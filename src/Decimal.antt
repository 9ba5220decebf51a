-- ===== src/Decimal.antt =====
-- include/binapi2/fapi/types/detail/decimal.hpp: the scale, the range and the operations that stay
-- on the raw 128-bit value. The child modules are src/binapi2/fapi/decimal.cpp.
-- A `decimal_t` is its raw value, an integer. C++ leaves overflow of `int128_t` undefined, so each
-- use of an operation states the range in which its result is an `int128_t`.
pub mod Range
pub mod Scaled
pub mod Wide
pub mod Arith
pub mod Parse
pub mod Print
use binapi.Prelude.{ℕ, ◌+◌, ◌-◌, ◌*◌, ◌^◌, ◌≤◌, ◌<◌, Bool, ◌&&◌, leb, if◌then◌else◌}
use binapi.Prelude.Int.{ℤ, pos, negsuc, pos_part, neg_part, ◌+ℤ◌, ◌-ℤ◌, ltb_ℤ}

pub record Decimal : Type 0 where
  pub value : ℤ

abbrev pub scale : ℕ
scale = 18

abbrev pub scale_factor : ℕ
scale_factor = 1_000_000_000 * 1_000_000_000

abbrev pub max_raw : ℕ
max_raw = scale_factor * (10_000_000_000 * 1_000_000_000)

-- The value is one that `int128_t` has.
pub record IsInt128 (v : ℤ) : Type 0 where
  pub above : neg_part v ≤ 2 ^ 127
  pub below : pos_part v < 2 ^ 127

-- `-v`; on `int128_t` it is undefined at the lowest value alone.
abbrev pub negate : ℤ → ℤ
negate v = pos 0 -ℤ v

unfoldable pub is_zero : Decimal → Bool
is_zero d = leb (pos_part d.value + neg_part d.value) 0

unfoldable pub is_negative : Decimal → Bool
is_negative d = ltb_ℤ d.value (pos 0)

unfoldable pub is_positive : Decimal → Bool
is_positive d = ltb_ℤ (pos 0) d.value

unfoldable pub is_valid : Decimal → Bool
is_valid d = leb (neg_part d.value) max_raw && leb (pos_part d.value) max_raw

unfoldable pub add : Decimal → Decimal → Decimal
add a b = record { value = a.value +ℤ b.value }

unfoldable pub sub : Decimal → Decimal → Decimal
sub a b = record { value = a.value -ℤ b.value }

unfoldable pub neg : Decimal → Decimal
neg a = record { value = negate a.value }
