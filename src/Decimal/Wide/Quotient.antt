-- ===== src/Decimal/Wide/Quotient.antt =====
-- `divmod256` is Euclidean division.
use Prim.Native.Nat.{bit_and, bit_or}
use native.Mathlib.Nat.{pow-suc, div-add-mod', mod-lt, div-le_self}
use binapi.Prelude.{
  ℕ, zero, suc, ◌+◌, ◌*◌, ◌/◌, ◌%◌, ◌^◌, ◌≤◌, ◌<◌, ◌≡◌, ap, arith, ltb, leb, ◌==◌, ◌||◌, ◌&&◌,
  Bool-cases, inl, inr,
}
use binapi.Prelude.Bits.{bit_and-one, bit_or_disjoint}
use binapi.Decimal.Wide.Digits.{bit_at_lem, set_bit_lem, mod_pow_suc}
use binapi.Decimal.Wide.{
  Uint256, wide_value, u128_mod, DivmodResult, bit_at, divide_step, divide_loop, divmod256,
}

le_lt : {a b c : ℕ} → a ≤ b → b < c → a < c
le_lt h k = omega arith

-- The shifted remainder is even, so `|=` adds the bit.
shift_in : (r b : ℕ) → b < 2 → bit_or (r * 2 % u128_mod) b ≡ r * 2 % u128_mod + b
shift_in r b h =
    let e : r * 2 % u128_mod ≡ r % 2 ^ 127 * 2 ^ 1 = omega arith in
    rw e (bit_or_disjoint 1 (r % 2 ^ 127) b h)

-- One round: the remainder takes in bit `i`, and bit `i` of the quotient says if `d` went in.
divide_step_lem :
    (n : Uint256) (d i m : ℕ) (s : DivmodResult)
    → i < 256
    → n.lo < u128_mod
    → d < u128_mod
    → s.remainder < d
    → s.quotient.lo < u128_mod
    → wide_value s.quotient ≡ m * 2 ^ suc i
    → (c : ℕ) × (wide_value (divide_step n d i s).quotient ≡ wide_value s.quotient + c * 2 ^ i)
      × (s.remainder * 2 + wide_value n / 2 ^ i % 2 ≡ c * d + (divide_step n d i s).remainder)
      × ((divide_step n d i s).remainder < d)
      × ((divide_step n d i s).quotient.lo < u128_mod)
unfolding divide_step
divide_step_lem n d i m s h hn hd hr hq e =
    elim (Bool-cases
      (bit_and (r / 2 ^ 127) 1 == 1 || leb d (bit_or (r * 2 % u128_mod) (bit_at n i)))) [
        | inl t ↦ rw t (
          1,
          omega (arith, set_bit_lem s.quotient m i h hq e),
          ground (arith, t, top, taken),
          ground (arith, t, top, taken),
          (set_bit_lem s.quotient m i h hq e).1,
        )
        | inr t ↦
            rw t (0, omega arith, ground (arith, t, top, taken), ground (arith, t, top, taken), hq)
      ]
  where
    r : ℕ
    r = s.remainder

    b : ℕ
    b = wide_value n / 2 ^ i % 2

    taken : bit_or (r * 2 % u128_mod) (bit_at n i) ≡ r * 2 % u128_mod + b
    taken = rw (bit_at_lem n i hn) (shift_in r b (omega arith))

    top : bit_and (r / 2 ^ 127) 1 ≡ r / 2 ^ 127 % 2
    top = bit_and-one (r / 2 ^ 127)

-- The loop divides what is left of the numerator, the remainder in front.
divide_loop_lem :
    (k : ℕ) (n : Uint256) (d m : ℕ) (s : DivmodResult)
    → k ≤ 256
    → n.lo < u128_mod
    → d < u128_mod
    → s.remainder < d
    → s.quotient.lo < u128_mod
    → wide_value s.quotient ≡ m * 2 ^ k
    → (c : ℕ) × (wide_value (divide_loop k n d s).quotient ≡ wide_value s.quotient + c)
      × (s.remainder * 2 ^ k + wide_value n % 2 ^ k ≡ c * d + (divide_loop k n d s).remainder)
      × ((divide_loop k n d s).remainder < d)
      × ((divide_loop k n d s).quotient.lo < u128_mod)
unfolding divide_loop
divide_loop_lem zero n d m s h hn hd hr hq e = (0, omega arith, omega arith, hr, hq)
divide_loop_lem (suc k) n d m s h hn hd hr hq e =
    let first = divide_step_lem n d k m s (omega arith) hn hd hr hq e in
    let rest =
      divide_loop_lem k n d (m * 2 + first.0) (divide_step n d k s) (omega arith) hn hd first.3
        first.4 (omega (arith, first.1, pow-suc 2 k, ap (λ (t : ℕ). m * t) (pow-suc 2 k))) in
    (
      first.0 * 2 ^ k + rest.0,
      omega (arith, first.1, rest.1),
      omega (
        arith,
        rest.2,
        mod_pow_suc (wide_value n) k,
        ap (λ (t : ℕ). t * 2 ^ k) first.2,
        ap (λ (t : ℕ). s.remainder * t) (pow-suc 2 k),
      ),
      rest.3,
      rest.4,
    )

-- The quotient and the remainder of a division by `d`.
abbrev pub Divides : Uint256 → ℕ → DivmodResult → Type 0
Divides n d r =
    (wide_value r.quotient * d + r.remainder ≡ wide_value n)
    × (r.remainder < d)
    × (r.quotient.lo < u128_mod)

long_division :
    (n : Uint256) (d : ℕ)
    → n.lo < u128_mod
    → n.hi < u128_mod
    → d < u128_mod
    → 0 < d
    → Divides n d
        (divide_loop 256 n d (record { quotient = record { lo = 0; hi = 0 }; remainder = 0 }))
long_division n d hl hh hd pos =
    let (c, eq, num, rem, lo) =
      divide_loop_lem 256 n d 0 (record { quotient = record { lo = 0; hi = 0 }; remainder = 0 })
        (omega arith) hl hd pos (omega arith) (omega arith) in
    (omega (arith, num, ap (λ (t : ℕ). t * d) eq), rem, lo)

-- For a numerator of two 128-bit halves and a 128-bit divisor above zero, divmod256 gives the
-- quotient and the remainder: quotient times divisor plus remainder is the numerator, the
-- remainder is below the divisor, and the low half of the quotient is below 2^128.
pub divmod256_lem :
    (n : Uint256) (d : ℕ)
    → n.lo < u128_mod
    → n.hi < u128_mod
    → d < u128_mod
    → 0 < d
    → Divides n d (divmod256 n d)
unfolding divmod256
divmod256_lem n d hl hh hd pos = elim (Bool-cases (n.hi == 0 && ltb n.lo d)) [
  | inl small ↦ rw small (ground arith, ground arith, omega arith)
  | inr large ↦ elim (Bool-cases (n.hi == 0)) [
    | inl short ↦
        rw (large, short)
          (ground (arith, div-add-mod' n.lo d), mod-lt n.lo pos, le_lt (div-le_self n.lo d) hl)
    | inr long ↦ rw (large, long) (long_division n d hl hh hd pos)
  ]
]
