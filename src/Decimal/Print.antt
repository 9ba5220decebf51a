-- ===== src/Decimal/Print.antt =====
-- src/binapi2/fapi/decimal.cpp: `decimal_t::to_string`.
pub mod Digits
pub mod Trim
pub mod RoundTrip
use mathlib.Core.List.{reverse}
use binapi.Prelude.{
  ℕ, zero, suc, ◌+◌, ◌-◌, ◌*◌, ◌/◌, ◌%◌, ◌^◌, Bool, true, false, List, [], ◌∷◌, ◌++◌, Option, none,
  some, ltb, ◌==◌, if◌then◌else◌, replicate, set, take,
}
use binapi.Prelude.Int.{ℤ, pos, pos_part, magnitude, ltb_ℤ, ◌==ℤ◌}
use binapi.Prelude.Text.{Bytes, codes}
use binapi.Decimal.{Decimal, scale, scale_factor, is_negative}

-- `while (int_part > 0) { push_back('0' + int_part % 10); int_part /= 10; }`. An `int128_t` has at
-- most 39 digits, so that many rounds are enough.
unfoldable pub push_digits : ℕ → ℕ → Bytes → Bytes
push_digits zero int_part int_str = int_str
push_digits (suc fuel) int_part int_str =
    let rest = push_digits fuel (int_part / 10) (int_str ++ (b'0' + int_part % 10) ∷ []) in
    if ltb 0 int_part then rest else int_str

abbrev pub max_rounds : ℕ
max_rounds = 39

unfoldable pub integer_text : ℕ → Bytes
integer_text int_part =
    if int_part == 0 then b'0' ∷ [] else reverse (push_digits max_rounds int_part [])

-- `for (int i = scale - 1; i >= 0 && frac_part > 0; --i)`; the argument is i + 1.
unfoldable pub fill_fraction : ℕ → ℕ → Bytes → Bytes
fill_fraction zero frac_part frac_str = frac_str
fill_fraction (suc i) frac_part frac_str =
    let rest = fill_fraction i (frac_part / 10) (set frac_str i (b'0' + frac_part % 10)) in
    if ltb 0 frac_part then rest else frac_str

-- `find_last_not_of('0')`; `none` is `npos`.
unfoldable pub find_last_not_zero : Bytes → Option ℕ
find_last_not_zero [] = none
find_last_not_zero (c ∷ s) = elim (find_last_not_zero s) [
  | some i ↦ some (i + 1)
  | none ↦ if c == b'0' then none else some 0
]

unfoldable pub trim : Bytes → Bytes
unfolding find_last_not_zero
trim s = elim (find_last_not_zero s) [ none ↦ s | some last ↦ take (last + 1) s ]

unfoldable pub fraction_text : ℕ → Bytes
fraction_text frac_part =
    if frac_part == 0
    then b'0' ∷ []
    else trim (fill_fraction scale frac_part (replicate scale b'0'))

abbrev pub minus : Bool → Bytes
minus true = b'-' ∷ []
minus false = []

unfoldable pub to_text : Decimal → Bytes
to_text d =
    let abs_val = magnitude d.value in
    if d.value ==ℤ pos 0
    then codes "0.0"
    else minus (is_negative d)
      ++ integer_text (abs_val / scale_factor)
      ++ b'.' ∷ fraction_text (abs_val % scale_factor)
