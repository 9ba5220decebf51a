-- ===== src/Decimal/Range.antt =====
-- include/binapi2/fapi/types/detail/decimal.hpp: sums and differences of valid decimals.
use binapi.Prelude.{◌*◌, ◌≤◌, ◌≡◌, true, arith}
use binapi.Prelude.Int.{ℤ, pos_part, neg_part, ◌+ℤ◌, ◌-ℤ◌}
use binapi.Decimal.{Decimal, max_raw, IsInt128, is_valid, add, sub}

in_range : (v : ℤ) → neg_part v ≤ 2 * max_raw → pos_part v ≤ 2 * max_raw → IsInt128 v
in_range v h k = record { above = omega arith; below = omega arith }

sum_lem :
    (x y : ℤ)
    → neg_part x ≤ max_raw
    → pos_part x ≤ max_raw
    → neg_part y ≤ max_raw
    → pos_part y ≤ max_raw
    → IsInt128 (x +ℤ y) × IsInt128 (x -ℤ y) × (x +ℤ y -ℤ y ≡ x) × (x -ℤ y +ℤ y ≡ x)
unfolding ◌+ℤ◌ ◌-ℤ◌
sum_lem x y a b c d = (
  in_range (x +ℤ y) (ground arith) (ground arith),
  in_range (x -ℤ y) (ground arith) (ground arith),
  ground arith,
  ground arith,
)

-- For two valid decimals the sum and the difference are in the range of int128_t, and adding and
-- subtracting the second one take each other back.
pub add-sub :
    (a b : Decimal)
    → is_valid a ≡ true
    → is_valid b ≡ true
    → IsInt128 (add a b).value
      × IsInt128 (sub a b).value
      × ((sub (add a b) b).value ≡ a.value)
      × ((add (sub a b) b).value ≡ a.value)
unfolding add sub is_valid
add-sub a b h k =
    sum_lem a.value b.value (ground arith) (ground arith) (ground arith) (ground arith)
