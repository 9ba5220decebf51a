-- ===== src/Decimal/Parse/Digits.antt =====
-- What the two loops of `parse_decimal_t` read from digits.
use native.Mathlib.Nat.{pow-suc, pow-le-pow_right, add-zero}
use native.Mathlib.Numerals.{add-one}
use binapi.Prelude.{ℕ, suc, ◌+◌, ◌-◌, ◌*◌, ◌^◌, ◌≤◌, ◌<◌, ◌≡◌, refl, [], ◌∷◌, ◌++◌, arith, length}
use binapi.Prelude.Text.{Bytes}
use binapi.Decimal.Parse.{ok, throws, overflow_error, int128_max, checked, integer_loop, frac_loop}

abbrev pub IsDigit : ℕ → Type 0
IsDigit c = (b'0' ≤ c) × (c ≤ b'9')

abbrev pub AllDigits : Bytes → Type 0
AllDigits [] = Unit {0}
AllDigits (c ∷ s) = IsDigit c × AllDigits s

-- The number that digits spell behind `n`.
abbrev pub number_from : ℕ → Bytes → ℕ
number_from n [] = n
number_from n (c ∷ s) = number_from (n * 10 + (c - b'0')) s

abbrev pub number : Bytes → ℕ
number = number_from 0

-- Nothing, or a dot and what follows: where the integer loop stops.
abbrev pub Stops : Bytes → Type 0
Stops [] = Unit {0}
Stops (c ∷ s) = c ≡ b'.'

ten_pow : (k : ℕ) → 10 ^ suc k ≡ 10 ^ k * 10
ten_pow k = pow-suc 10 k

-- One more digit.
grow : (n k : ℕ) {c : ℕ} → IsDigit c → n < 10 ^ k → n * 10 + (c - b'0') < 10 ^ suc k
grow n k h b = omega (arith, ten_pow k)

pub pow10_le : {j k : ℕ} → j ≤ k → 10 ^ j ≤ 10 ^ k
pow10_le h = pow-le-pow_right {n = 10} (omega arith) h

checked_fits : {n j : ℕ} → n < 10 ^ j → j ≤ 38 → checked n ≡ ok n
checked_fits {n} {j} b h =
    let m : 10 ^ j ≤ 10 ^ 38 = pow10_le h in let le : n ≤ int128_max = omega arith in ground arith

pub number_bound :
    (s : Bytes) (n k : ℕ) → AllDigits s → n < 10 ^ k → number_from n s < 10 ^ (k + length s)
number_bound [] n k h b = rw add-zero b
number_bound (c ∷ s) n k h b =
    let e : suc k + length s ≡ k + suc (length s) = omega arith in
    rw (← e) (number_bound s (n * 10 + (c - b'0')) (suc k) h.1 (grow n k h.0 b))

-- Up to 20 digits the integer loop gives their number.
pub integer_loop_lem :
    (s rest : Bytes) (n k : ℕ)
    → AllDigits s
    → Stops rest
    → n < 10 ^ k
    → k + length s ≤ 20
    → integer_loop (s ++ rest) n k ≡ ok (number_from n s, rest)
unfolding integer_loop
integer_loop_lem [] [] n k h r b fits = refl
integer_loop_lem [] (c ∷ rest) n k h r b fits = ground (arith, r)
integer_loop_lem (c ∷ s) rest n k h r b fits =
    let b' = grow n k h.0 b in
    ground (
      arith,
      checked_fits {j = suc k} b' (omega arith),
      integer_loop_lem s rest (n * 10 + (c - b'0')) (k + 1) h.1 r (rw add-one b') (omega arith),
    )

-- The 21st digit ends it.
pub integer_loop_over :
    (s rest : Bytes) (n k : ℕ)
    → AllDigits s
    → n < 10 ^ k
    → k ≤ 20
    → 20 < k + length s
    → integer_loop (s ++ rest) n k ≡ throws overflow_error
unfolding integer_loop
integer_loop_over [] rest n k h b fits more = absurd (omega arith)
integer_loop_over (c ∷ s) rest n k h b fits more =
    let b' = grow n k h.0 b in
    ground (
      arith,
      checked_fits {j = suc k} b' (omega arith),
      λ (le : k + 1 ≤ 20).
          integer_loop_over s rest (n * 10 + (c - b'0')) (k + 1) h.1 (rw add-one b') le
            (omega arith),
    )

-- Up to 38 digits `frac_part` cannot overflow; their number and their count are exact.
pub frac_loop_lem :
    (s : Bytes) (n k : ℕ)
    → AllDigits s
    → n < 10 ^ k
    → k + length s ≤ 38
    → frac_loop s n k ≡ ok (number_from n s, k + length s)
unfolding frac_loop
frac_loop_lem [] n k h b fits = rw add-zero
frac_loop_lem (c ∷ s) n k h b fits =
    let b' = grow n k h.0 b in
    ground (
      arith,
      checked_fits {j = suc k} b' (omega arith),
      frac_loop_lem s (n * 10 + (c - b'0')) (suc k) h.1 b' (omega arith),
    )
