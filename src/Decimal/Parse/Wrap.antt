-- ===== src/Decimal/Parse/Wrap.antt =====
-- The 8-bit count of fractional digits in `parse_decimal_t`.
use binapi.Prelude.{
  ℕ, zero, suc, ◌+◌, ◌-◌, ◌*◌, ◌%◌, ◌^◌, ◌≤◌, ◌<◌, ◌≡◌, ◌∙◌, sym, ap, [], ◌∷◌, ◌++◌, arith, length,
  replicate, Bool,
}
use binapi.Prelude.Text.{Bytes}
use binapi.Decimal.Parse.{undefined, int128_max, assemble, ◌>>=◌, frac_loop, parse_decimal}
use binapi.Decimal.Parse.Digits.{AllDigits, number_from, number}
use binapi.Decimal.Parse.Shape.{sign_text, behind_dot}

-- Zeros leave the number at zero and count modulo 256.
frac_loop_zeros :
    (n k : ℕ) (s : Bytes)
    → k < 256
    → frac_loop (replicate n b'0' ++ s) 0 k ≡ frac_loop s 0 ((k + n) % 2 ^ 8)
unfolding frac_loop
frac_loop_zeros zero k s h = ap (frac_loop s 0) (omega arith)
frac_loop_zeros (suc n) k s h =
    frac_loop_zeros n ((k + 1) % 2 ^ 8) s (omega arith) ∙ ap (frac_loop s 0) (omega arith)

-- Behind at most 20 digits and a dot, a number of zeros that is a multiple of 256 changes nothing:
-- the text is read as it is without them.
pub parse-zeros :
    (n : ℕ) (negative : Bool) (ds s : Bytes)
    → n % 256 ≡ 0
    → AllDigits ds
    → length ds ≤ 20
    → parse_decimal (sign_text negative ++ ds ++ b'.' ∷ (replicate n b'0' ++ s))
      ≡ parse_decimal (sign_text negative ++ ds ++ b'.' ∷ s)
parse-zeros n negative ds s hn hd ld =
    behind_dot negative ds (replicate n b'0' ++ s) hd ld
    ∙ ap (λ r. r >>= assemble negative (number ds))
        (frac_loop_zeros n 0 s (omega arith) ∙ ap (frac_loop s 0) (omega arith))
    ∙ sym (behind_dot negative ds s hd ld)

le-number_from : (s : Bytes) (n : ℕ) → n ≤ number_from n s
le-number_from [] n = omega arith
le-number_from (c ∷ s) n = omega (arith, le-number_from s (n * 10 + (c - b'0')))

frac_loop_over :
    (s : Bytes) (n k : ℕ)
    → AllDigits s
    → n ≤ int128_max
    → int128_max < number_from n s
    → frac_loop s n k ≡ undefined
unfolding frac_loop
frac_loop_over [] n k h le over = absurd (omega arith)
frac_loop_over (c ∷ s) n k h le over =
    let m = n * 10 + (c - b'0') in
    ground (arith, λ (fits : m ≤ int128_max). frac_loop_over s m ((k + 1) % 2 ^ 8) h.1 fits over)

-- A text of an optional minus sign, at most 20 digits, a dot and digits whose number is above
-- 2^127 - 1 overflows int128_t while it is read.
pub parse_undefined :
    (negative : Bool) (ds s : Bytes)
    → AllDigits ds
    → AllDigits s
    → length ds ≤ 20
    → int128_max < number s
    → parse_decimal (sign_text negative ++ ds ++ b'.' ∷ s) ≡ undefined
parse_undefined negative ds s hd hs ld over =
    behind_dot negative ds s hd ld
    ∙ ap (λ r. r >>= assemble negative (number ds)) (frac_loop_over s 0 0 hs (omega arith) over)
