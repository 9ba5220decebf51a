-- ===== src/Decimal/Wide.antt =====
-- src/binapi2/fapi/decimal.cpp: the unsigned 128-bit and 256-bit helpers.
-- A `uint128_t` is a number below 2 ^ 128; every operation wraps by `% 2 ^ 128`. An `int128_t` is
-- an integer.
pub mod Product
pub mod Digits
pub mod Quotient
use Prim.Native.Nat.{bit_or, bit_and}
use binapi.Prelude.{
  ℕ, zero, suc, ◌+◌, ◌-◌, ◌*◌, ◌/◌, ◌%◌, ◌^◌, Bool, ◌&&◌, ◌||◌, ltb, leb, ◌==◌, if◌then◌else◌,
}
use binapi.Prelude.Int.{ℤ, pos, negsuc}

abbrev pub u64_mod : ℕ
u64_mod = 2 ^ 64

abbrev pub u128_mod : ℕ
u128_mod = 2 ^ 128

pub record Uint256 : Type 0 where
  pub lo : ℕ
  pub hi : ℕ

-- The number that a `Uint256` stands for.
abbrev pub wide_value : Uint256 → ℕ
wide_value n = n.hi * u128_mod + n.lo

-- `static_cast<uint128_t>` of an `int128_t`, and `~` on `uint128_t`.
abbrev pub to_u128 : ℤ → ℕ
to_u128 (pos n) = n % u128_mod
to_u128 (negsuc n) = u128_mod - 1 - n % u128_mod

abbrev pub complement : ℕ → ℕ
complement x = u128_mod - 1 - x

unfoldable pub to_unsigned : ℤ → ℕ
to_unsigned (pos n) = to_u128 (pos n)
to_unsigned (negsuc n) = (complement (to_u128 (negsuc n)) + 1) % u128_mod

unfoldable pub mul256 : ℕ → ℕ → Uint256
mul256 a b =
    let a0 = a % u64_mod in
    let a1 = a / 2 ^ 64 % u64_mod in
    let b0 = b % u64_mod in
    let b1 = b / 2 ^ 64 % u64_mod in
    let p00 = a0 * b0 % u128_mod in
    let p01 = a0 * b1 % u128_mod in
    let p10 = a1 * b0 % u128_mod in
    let p11 = a1 * b1 % u128_mod in
    let mid = (p01 + p10) % u128_mod in
    let mid_carry : ℕ = if ltb mid p01 then 1 else 0 in
    let lo = (p00 + mid * 2 ^ 64 % u128_mod) % u128_mod in
    let lo_carry : ℕ = if ltb lo p00 then 1 else 0 in
    record {
      lo = lo;
      hi = (p11 + mid / 2 ^ 64 + mid_carry * 2 ^ 64 % u128_mod + lo_carry) % u128_mod;
    }

pub record DivmodResult : Type 0 where
  pub quotient : Uint256
  pub remainder : ℕ

-- Bit `i` of the numerator, for 0 ≤ i < 256.
pub bit_at : Uint256 → ℕ → ℕ
bit_at n i = if leb 128 i then bit_and (n.hi / 2 ^ (i - 128)) 1 else bit_and (n.lo / 2 ^ i) 1

-- `q |= 1 << i`.
pub set_bit : Uint256 → ℕ → Uint256
set_bit q i =
    if leb 128 i
    then record q { hi = bit_or q.hi (1 * 2 ^ (i - 128) % u128_mod) }
    else record q { lo = bit_or q.lo (1 * 2 ^ i % u128_mod) }

-- The loop body at index `i`.
pub divide_step : Uint256 → ℕ → ℕ → DivmodResult → DivmodResult
unfolding bit_at set_bit
divide_step n d i s =
    let rem_high = bit_and (s.remainder / 2 ^ 127) 1 == 1 in
    let rem = bit_or (s.remainder * 2 % u128_mod) (bit_at n i) in
    if rem_high || leb d rem
    then record { quotient = set_bit s.quotient i; remainder = (rem + u128_mod - d) % u128_mod }
    else record { quotient = s.quotient; remainder = rem }

-- The rounds i = k - 1, …, 0.
unfoldable pub divide_loop : ℕ → Uint256 → ℕ → DivmodResult → DivmodResult
unfolding divide_step
divide_loop zero n d s = s
divide_loop (suc i) n d s = divide_loop i n d (divide_step n d i s)

abbrev zero256 : Uint256
zero256 = record { lo = 0; hi = 0 }

unfoldable pub divmod256 : Uint256 → ℕ → DivmodResult
divmod256 n d =
    if n.hi == 0 && ltb n.lo d
    then record { quotient = zero256; remainder = n.lo }
    else if n.hi == 0
    then record { quotient = record { lo = n.lo / d; hi = 0 }; remainder = n.lo % d }
    else divide_loop 256 n d (record { quotient = zero256; remainder = 0 })
