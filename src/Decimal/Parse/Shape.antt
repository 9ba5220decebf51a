-- ===== src/Decimal/Parse/Shape.antt =====
-- What `parse_decimal_t` makes of a text that spells a decimal number.
use native.Mathlib.Nat.{pow-suc}
use binapi.Prelude.{
  ℕ, zero, suc, ◌+◌, ◌-◌, ◌*◌, ◌^◌, ◌≤◌, ◌<◌, ◌≡◌, ◌∙◌, refl, ap, [], ◌∷◌, ◌++◌, arith, length,
  Bool, true, false, Option, none, some, ◌≢◌,
}
use binapi.Prelude.Powers.{pow-add, pow_pos}
use binapi.Prelude.Int.{ℤ, pos}
use binapi.Prelude.Text.{Bytes}
use binapi.Decimal.{scale, scale_factor, negate}
use binapi.Decimal.Parse.{
  ok, throws, overflow_error, invalid_argument, scale_loop, assemble, frac_loop, fraction, ◌>>=◌,
  parse_unsigned, parse_decimal,
}
use binapi.Decimal.Parse.Digits.{
  AllDigits, Stops, number, number_bound, pow10_le, integer_loop_over, integer_loop_lem,
  frac_loop_lem,
}

scale_loop_lem : (n acc : ℕ) → scale_loop n acc ≡ acc * 10 ^ n
unfolding scale_loop
scale_loop_lem zero acc = omega arith
scale_loop_lem (suc n) acc =
    omega (arith, scale_loop_lem n (acc * 10), ap (λ (t : ℕ). acc * t) (pow-suc 10 n))

-- The raw value of a number of `k` fractional digits.
abbrev pub raw : ℕ → ℕ → ℕ → ℕ
raw int_part frac_part k = int_part * scale_factor + frac_part * 10 ^ (scale - k)

abbrev pub with_sign : Bool → ℕ → ℤ
with_sign true n = negate (pos n)
with_sign false n = pos n

lt_le : {a b c : ℕ} → a < b → b ≤ c → a < c
lt_le h k = omega arith

scale_up : (f p c m : ℕ) → 0 < c → f < p → m ≡ p * c → f * c < m
scale_up f p c m h b e = rw e (grind arith)

-- A fraction below 1 stays below 1 when it is scaled up.
frac_bound : (f k : ℕ) → k ≤ 18 → f < 10 ^ k → f * 10 ^ (18 - k) < 10 ^ 18
frac_bound f k h b =
    let split : 10 ^ 18 ≡ 10 ^ k * 10 ^ (18 - k) =
      ap (λ (t : ℕ). 10 ^ t) {x = 18} {y = k + (18 - k)} (omega arith) ∙ pow-add 10 k (18 - k) in
    scale_up f (10 ^ k) (10 ^ (18 - k)) (10 ^ 18) (pow_pos 10 (18 - k) (omega arith)) b split

assemble_refuses :
    (negative : Bool) (i f k : ℕ) → 18 < k → assemble negative i (f, k) ≡ throws invalid_argument
unfolding assemble
assemble_refuses negative i f k h = ground arith

number_below : (k : ℕ) (s : Bytes) → AllDigits s → length s ≤ k → number s < 10 ^ k
number_below k s h le = lt_le (number_bound s 0 0 h (omega arith)) (pow10_le (omega arith))

assemble_lem :
    (negative : Bool) (i f k : ℕ)
    → i < 10 ^ 20
    → k ≤ 18
    → f < 10 ^ k
    → assemble negative i (f, k) ≡ ok (with_sign negative (raw i f k))
unfolding assemble
assemble_lem negative i f k hi hk hf =
    let b = frac_bound f k hk hf in
    let e = scale_loop_lem (18 - k) 1 in
    let e' : f * scale_loop (18 - k) 1 ≡ f * 10 ^ (18 - k) =
      ap (λ (t : ℕ). f * t) (e ∙ omega arith) in
    elim negative [ true ↦ ground (arith, b, e') | false ↦ ground (arith, b, e') ]

abbrev pub sign_text : Bool → Bytes
sign_text true = b'-' ∷ []
sign_text false = []

-- A text may have a dot with digits behind it.
abbrev pub fraction_text : Option Bytes → Bytes
fraction_text none = []
fraction_text (some fs) = b'.' ∷ fs

abbrev pub fraction_digits : Option Bytes → Bytes
fraction_digits none = []
fraction_digits (some fs) = fs

fraction_lem :
    (fs : Option Bytes)
    → AllDigits (fraction_digits fs)
    → length (fraction_digits fs) ≤ 38
    → fraction (fraction_text fs) ≡ ok (number (fraction_digits fs), length (fraction_digits fs))
unfolding fraction
fraction_lem none h b = refl
fraction_lem (some fs) h b =
    let e : 0 + length fs ≡ length fs = omega arith in
    rw (frac_loop_lem fs 0 0 h (omega arith) (omega arith), e)

Stops-fraction : (fs : Option Bytes) → Stops (fraction_text fs)
Stops-fraction none = tt
Stops-fraction (some fs) = refl

-- After the sign: the integer loop stops at the dot, and the fraction is read from there.
unsigned_lem :
    (negative : Bool) (ds : Bytes) (fs : Option Bytes)
    → AllDigits ds
    → AllDigits (fraction_digits fs)
    → length ds ≤ 20
    → length (fraction_digits fs) ≤ 38
    → parse_unsigned negative (ds ++ fraction_text fs)
      ≡ assemble negative (number ds) (number (fraction_digits fs), length (fraction_digits fs))
unfolding parse_unsigned
unsigned_lem negative ds fs hd hf ld lf = rw (
  integer_loop_lem ds (fraction_text fs) 0 0 hd (Stops-fraction fs) (omega arith) (omega arith),
  fraction_lem fs hf lf,
)

-- A text whose first character is a digit or a dot has no sign.
no_sign :
    (c : ℕ) (s : Bytes) → b'-' ≢ c → b'+' ≢ c → parse_decimal (c ∷ s) ≡ parse_unsigned false (c ∷ s)
unfolding parse_decimal
no_sign c s h k = ground arith

signed_lem :
    (negative : Bool) (ds rest : Bytes)
    → AllDigits ds
    → Stops rest
    → parse_decimal (sign_text negative ++ ds ++ rest) ≡ parse_unsigned negative (ds ++ rest)
signed_lem true ds rest hd r = unfold parse_decimal in refl
signed_lem false [] [] hd r = unfold parse_decimal in refl
signed_lem false [] (c ∷ rest) hd r = no_sign c rest (omega (arith, r)) (omega (arith, r))
signed_lem false (c ∷ ds) rest hd r =
    no_sign c (ds ++ rest) (omega (arith, hd.0)) (omega (arith, hd.0))

-- Behind sign, integer part and dot the fractional loop runs on what is left.
pub behind_dot :
    (negative : Bool) (ds s : Bytes)
    → AllDigits ds
    → length ds ≤ 20
    → parse_decimal (sign_text negative ++ ds ++ b'.' ∷ s)
      ≡ (frac_loop s 0 0 >>= assemble negative (number ds))
behind_dot negative ds s hd ld =
    signed_lem negative ds (b'.' ∷ s) hd refl
    ∙ unfold parse_unsigned in
      rw (integer_loop_lem ds (b'.' ∷ s) 0 0 hd refl (omega arith) (omega arith), fraction)

module _ (negative : Bool) (ds : Bytes) (fs : Option Bytes) (hd : AllDigits ds)
    (hf : AllDigits (fraction_digits fs)) (ld : length ds ≤ 20) where
  -- A text of an optional minus sign, at most 20 digits, and a dot with digits behind it or
  -- nothing, at most 18 of these, is read as its exact value scaled by 10^18; no step overflows.
  pub parse_number :
      length (fraction_digits fs) ≤ 18
      → parse_decimal (sign_text negative ++ ds ++ fraction_text fs)
        ≡ ok (
            with_sign negative
              (raw (number ds) (number (fraction_digits fs)) (length (fraction_digits fs))))
  parse_number lf =
      signed_lem negative ds (fraction_text fs) hd (Stops-fraction fs)
      ∙ unsigned_lem negative ds fs hd hf ld (omega arith)
      ∙ assemble_lem negative _ _ _ (number_below 20 ds hd ld) lf
          (number_below (length (fraction_digits fs)) (fraction_digits fs) hf (omega arith))

  -- A text of an optional minus sign, at most 20 digits, and a dot with digits behind it or
  -- nothing, from 19 to 38 of these, is refused with invalid_argument.
  pub parse_too_precise :
      18 < length (fraction_digits fs)
      → length (fraction_digits fs) ≤ 38
      → parse_decimal (sign_text negative ++ ds ++ fraction_text fs) ≡ throws invalid_argument
  parse_too_precise more lf =
      signed_lem negative ds (fraction_text fs) hd (Stops-fraction fs)
      ∙ unsigned_lem negative ds fs hd hf ld lf
      ∙ assemble_refuses negative _ _ _ more

-- A text of an optional minus sign and more than 20 digits, and then nothing or a dot and any
-- text, is refused with overflow_error.
pub parse_too_large :
    (negative : Bool) (ds rest : Bytes)
    → AllDigits ds
    → Stops rest
    → 20 < length ds
    → parse_decimal (sign_text negative ++ ds ++ rest) ≡ throws overflow_error
parse_too_large negative ds rest hd r more =
    signed_lem negative ds rest hd r
    ∙ unfold parse_unsigned in
      rw (integer_loop_over ds rest 0 0 hd (omega arith) (omega arith) (omega arith))
