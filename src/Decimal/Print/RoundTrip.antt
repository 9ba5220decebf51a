-- ===== src/Decimal/Print/RoundTrip.antt =====
-- `to_string` followed by the constructor from text.
use mathlib.Core.List.{reverse}
use binapi.Prelude.{
  ℕ, ◌-◌, ◌*◌, ◌/◌, ◌%◌, ◌^◌, ◌≤◌, ◌<◌, ◌≡◌, ◌∙◌, refl, sym, ap, Bool-cases, inl, inr, [], ◌∷◌,
  ◌++◌, arith, length, append-nil, replicate, Bool, true, false, some, ◌==◌,
}
use binapi.Prelude.Int.{pos, magnitude, ◌==ℤ◌, ◌-ℤ◌, ==ℤ-zero, zero_of_magnitude}
use binapi.Prelude.Text.{Bytes, codes}
use binapi.Decimal.{Decimal, scale_factor, is_negative}
use binapi.Decimal.Parse.{ok, parse_decimal, from_text}
use binapi.Decimal.Parse.Digits.{AllDigits, number, pow10_le}
use binapi.Decimal.Parse.Shape.{sign_text, with_sign, raw, parse_number}
use binapi.Decimal.Print.{
  push_digits, max_rounds, integer_text, fill_fraction, trim, fraction_text, to_text, minus,
}
use binapi.Decimal.Print.Digits.{
  last_digits, digit_count, digit_count-le, digit_count_fits, push_digits_lem, fill_fraction_lem,
  last_digits-AllDigits, length-last_digits, number-last_digits,
}
use binapi.Decimal.Print.Trim.{trim_lem}

-- Digits that spell `n`, at most `k` of them.
pub record Spells (s : Bytes) (n k : ℕ) : Type 0 where
  pub digits : AllDigits s
  pub short : length s ≤ k
  pub spelled : number s ≡ n

pub integer_text-Spells : (n j : ℕ) → n < 10 ^ j → 0 < j → j ≤ 38 → Spells (integer_text n) n j
unfolding integer_text
integer_text-Spells n j h p q = elim (Bool-cases (n == 0)) [
  | inl z ↦ rw z (record { digits = omega arith; short = omega arith; spelled = ground arith })
  | inr m ↦
      rw (m, written)
        (record {
          digits = last_digits-AllDigits k n;
          short = omega (arith, length-last_digits k n, digit_count-le max_rounds n j h);
          spelled = number-last_digits k n (
              digit_count_fits max_rounds n
                (omega (arith, h, pow10_le {j = j} {k = 39} (omega arith))));
        })
]
  where
    k : ℕ
    k = digit_count max_rounds n

    written : reverse (push_digits max_rounds n []) ≡ last_digits k n
    written = push_digits_lem max_rounds n [] ∙ append-nil (last_digits k n)

-- The fraction's digits, scaled up to 18 places.
record SpellsFraction (s : Bytes) (f : ℕ) : Type 0 where
  digits : AllDigits s
  short : length s ≤ 18
  scaled : number s * 10 ^ (18 - length s) ≡ f

fraction_text-Spells : (f : ℕ) → f < 10 ^ 18 → SpellsFraction (fraction_text f) f
unfolding fraction_text
fraction_text-Spells f h =
    let t = trim_lem s (last_digits-AllDigits 18 f) in
    elim (Bool-cases (f == 0)) [
      | inl z ↦ rw z (record { digits = omega arith; short = omega arith; scaled = ground arith })
      | inr m ↦
          rw (m, written)
            (record {
              digits = t.0;
              short = omega (arith, t.1, length-last_digits 18 f);
              scaled =
                  ap (λ (n : ℕ). number (trim s) * 10 ^ (n - length (trim s)))
                    (sym (length-last_digits 18 f))
                  ∙ sym t.2
                  ∙ number-last_digits 18 f h;
            })
    ]
  where
    s : Bytes
    s = last_digits 18 f

    written : fill_fraction 18 f (replicate 18 b'0') ≡ s
    written =
        ap (fill_fraction 18 f) (sym (append-nil (replicate 18 b'0')))
        ∙ fill_fraction_lem 18 f []
        ∙ append-nil s

minus-sign : (negative : Bool) → minus negative ≡ sign_text negative
minus-sign true = refl
minus-sign false = refl

signed-magnitude : (d : Decimal) → with_sign (is_negative d) (magnitude d.value) ≡ d.value
unfolding is_negative ◌-ℤ◌
signed-magnitude d = ground arith

-- The text of a value other than zero.
written :
    (d : Decimal)
    → (d.value ==ℤ pos 0) ≡ false
    → to_text d
      ≡ sign_text (is_negative d)
        ++ integer_text (magnitude d.value / scale_factor)
        ++ b'.' ∷ fraction_text (magnitude d.value % scale_factor)
unfolding to_text
written d e = rw (e, minus-sign (is_negative d))

value_lem :
    (m i f k : ℕ) → i ≡ m / scale_factor → f * 10 ^ (18 - k) ≡ m % scale_factor → raw i f k ≡ m
value_lem m i f k hi hf = omega (arith, hi, hf)

parse-to_text :
    (d : Decimal)
    → magnitude d.value < 10 ^ 38
    → (d.value ==ℤ pos 0) ≡ false
    → parse_decimal (to_text d) ≡ ok d.value
parse-to_text d h e =
    let m = magnitude d.value in
    let i = integer_text-Spells (m / scale_factor) 20 (omega arith) (omega arith) (omega arith) in
    let f = fraction_text-Spells (m % scale_factor) (omega arith) in
    let ds = integer_text (m / scale_factor) in
    let fs = fraction_text (m % scale_factor) in
    rw (written d e) (
      parse_number (is_negative d) ds (some fs) i.digits f.digits i.short f.short
      ∙ ap (λ v. ok (with_sign (is_negative d) v))
          (value_lem m (number ds) (number fs) (length fs) i.spelled f.scaled)
      ∙ ap ok (signed-magnitude d))

zero_text : (d : Decimal) → (d.value ==ℤ pos 0) ≡ true → from_text (to_text d) ≡ ok d
unfolding from_text to_text parse_decimal
zero_text d e =
    let z : to_text d ≡ codes "0.0" = rw e in
    ap from_text z
    ∙ ap (λ v. ok (record { value = v })) (sym (zero_of_magnitude d.value ((==ℤ-zero d.value).0 e)))

-- A decimal whose raw value is below 10^38 in magnitude is read back from the text that to_string
-- gives.
pub from_text-to_text : (d : Decimal) → magnitude d.value < 10 ^ 38 → from_text (to_text d) ≡ ok d
unfolding from_text
from_text-to_text d h = elim (Bool-cases (d.value ==ℤ pos 0)) [
  | inl none_left ↦ zero_text d none_left
  | inr other ↦ rw (parse-to_text d h other)
]
