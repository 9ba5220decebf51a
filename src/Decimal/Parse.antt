-- ===== src/Decimal/Parse.antt =====
-- src/binapi2/fapi/decimal.cpp: `parse_decimal_t`, and the constructors of `decimal_t` that call it.
-- `undefined` stands for a signed overflow of `int128_t`, which C++ leaves undefined.
pub mod Digits
pub mod Shape
pub mod Wrap
use binapi.Prelude.{
  ℕ, zero, suc, ◌+◌, ◌-◌, ◌*◌, ◌/◌, ◌%◌, ◌^◌, ◌<◌, Bool, true, false, ◌&&◌, ◌||◌, not, List, [],
  ◌∷◌, ltb, leb, ◌==◌, if◌then◌else◌,
}
use binapi.Prelude.Int.{ℤ, pos}
use binapi.Prelude.Text.{Bytes}
use binapi.Decimal.{Decimal, scale, scale_factor, negate}

pub data ParseError : Type 0 where
  invalid_argument overflow_error : ParseError

pub data Parsed {ℓ} (A : Type ℓ) : Type ℓ where
  ok : A → Parsed A
  throws : ParseError → Parsed A
  undefined : Parsed A

infixl 5 ◌>>=◌
abbrev pub ◌>>=◌ {ℓ κ} : {A : Type ℓ} {B : Type κ} → Parsed A → (A → Parsed B) → Parsed B
ok a >>= f = f a
throws e >>= f = throws e
undefined >>= f = undefined

abbrev pub int128_max : ℕ
int128_max = 2 ^ 127 - 1

-- The result of an operation on `int128_t` values that are not negative.
abbrev pub checked : ℕ → Parsed ℕ
checked n = if leb n int128_max then ok n else undefined

abbrev pub max_integer_digits : ℕ
max_integer_digits = 20

-- `s[pos] < '0' || s[pos] > '9'`.
abbrev pub not_digit : ℕ → Bool
not_digit c = ltb c b'0' || ltb b'9' c

-- The loop over the integer part. It gives the number and the text from the dot on.
unfoldable pub integer_loop : Bytes → ℕ → ℕ → Parsed (ℕ × Bytes)
integer_loop [] integer_part integer_digits = ok (integer_part, [])
integer_loop (c ∷ s) integer_part integer_digits =
    let rest = (do
      n ← checked (integer_part * 10 + (c - b'0'))
      if ltb max_integer_digits (integer_digits + 1)
          then throws overflow_error
          else integer_loop s n (integer_digits + 1)) in
    if c == b'.'
    then ok (integer_part, c ∷ s)
    else if not_digit c
    then throws invalid_argument
    else rest

-- The loop over the fractional part; `frac_digits` is a `uint8_t`.
unfoldable pub frac_loop : Bytes → ℕ → ℕ → Parsed (ℕ × ℕ)
frac_loop [] frac_part frac_digits = ok (frac_part, frac_digits)
frac_loop (c ∷ s) frac_part frac_digits =
    let rest = (do
      n ← checked (frac_part * 10 + (c - b'0'))
      frac_loop s n ((frac_digits + 1) % 2 ^ 8)) in
    if not_digit c then throws invalid_argument else rest

-- `if (pos < s.size() && s[pos] == '.')`: after the integer loop nothing but a dot can be next.
unfoldable pub fraction : Bytes → Parsed (ℕ × ℕ)
unfolding frac_loop
fraction [] = ok (0, 0)
fraction (c ∷ s) = if c == b'.' then frac_loop s 0 0 else ok (0, 0)

-- The loop `frac_scale *= 10`.
unfoldable pub scale_loop : ℕ → ℕ → ℕ
scale_loop zero frac_scale = frac_scale
scale_loop (suc n) frac_scale = scale_loop n (frac_scale * 10)

-- From the loops' results to the raw value.
unfoldable pub assemble : Bool → ℕ → ℕ × ℕ → Parsed ℤ
unfolding scale_loop
assemble negative integer_part (frac_part, frac_digits) =
    if ltb scale frac_digits then throws invalid_argument else (do
      scaled ← checked (integer_part * scale_factor)
      added ← checked (frac_part * scale_loop (scale - frac_digits) 1)
      result ← checked (scaled + added)
      if not (integer_part == 0) && not (result / scale_factor == integer_part)
          then throws overflow_error
          else ok (if negative then negate (pos result) else pos result))

unfoldable pub parse_unsigned : Bool → Bytes → Parsed ℤ
unfolding integer_loop fraction assemble
parse_unsigned negative s = do
  (integer_part, rest) ← integer_loop s 0 0
  frac ← fraction rest
  assemble negative integer_part frac

unfoldable pub parse_decimal : Bytes → Parsed ℤ
unfolding parse_unsigned
parse_decimal [] = ok (pos 0)
parse_decimal (c ∷ s) =
    if c == b'-'
    then parse_unsigned true s
    else if c == b'+'
    then parse_unsigned false s
    else parse_unsigned false (c ∷ s)

-- The constructors from text.
unfoldable pub from_text : Bytes → Parsed Decimal
from_text s = do v ← parse_decimal s; ok (record { value = v })
