-- ===== src/Decimal/Scaled.antt =====
-- include/binapi2/fapi/types/detail/decimal.hpp: the constructor from an integer of another scale.
-- `none` stands for a signed overflow of `int128_t`, which C++ leaves undefined.
use native.Mathlib.Nat.{pow-suc, div-div-eq-div-mul}
use binapi.Prelude.{
  ℕ, zero, suc, ◌+◌, ◌-◌, ◌*◌, ◌/◌, ◌^◌, ◌≤◌, ◌<◌, ◌≡◌, ◌∙◌, refl, sym, ap, Bool, true, false, ◌&&◌,
  Option, none, some, ltb, leb, if◌then◌else◌, arith, Bool-cases, inl, inr,
}
use binapi.Prelude.Int.{ℤ, pos, negsuc, pos_part, neg_part, ◌-ℤ◌}
use binapi.Prelude.Powers.{pow_pos}
use binapi.Decimal.{scale, negate}
use binapi.Decimal.Arith.Pack.{signed}

-- The value is one that `int128_t` has.
abbrev pub fits : ℤ → Bool
fits v = leb (neg_part v) (2 ^ 127) && ltb (pos_part v) (2 ^ 127)

-- `v * 10`, and `v / 10` truncated towards zero.
abbrev pub times_ten : ℤ → ℤ
times_ten (pos n) = pos (n * 10)
times_ten (negsuc n) = negsuc (n * 10 + 9)

abbrev pub over_ten : ℤ → ℤ
over_ten (pos n) = pos (n / 10)
over_ten (negsuc n) = negate (pos (suc n / 10))

-- The loops `value *= 10` and `value /= 10`.
unfoldable pub scale_up_loop : ℕ → ℤ → Option ℤ
scale_up_loop zero value = some value
scale_up_loop (suc n) value =
    let rest = scale_up_loop n (times_ten value) in if fits (times_ten value) then rest else none

unfoldable pub scale_down_loop : ℕ → ℤ → ℤ
scale_down_loop zero value = value
scale_down_loop (suc n) value = scale_down_loop n (over_ten value)

-- The constructor; an `input_scale` may be negative.
unfoldable pub from_scaled : ℤ → ℤ → Option ℤ
from_scaled raw input_scale =
    if ltb (pos_part input_scale) (scale + neg_part input_scale)
    then scale_up_loop (scale + neg_part input_scale - pos_part input_scale) raw
    else some (scale_down_loop (pos_part input_scale - scale - neg_part input_scale) raw)

times_ten-signed : (b : Bool) (m : ℕ) → times_ten (signed b m) ≡ signed b (m * 10)
unfolding ◌-ℤ◌
times_ten-signed true m = ground arith
times_ten-signed false m = refl

over_ten-signed : (b : Bool) (m : ℕ) → over_ten (signed b m) ≡ signed b (m / 10)
unfolding ◌-ℤ◌
over_ten-signed true zero = refl
over_ten-signed true (suc m) = ground arith
over_ten-signed false m = refl

-- A smaller magnitude of the same sign fits too.
fits-le : (b : Bool) (m n : ℕ) → m ≤ n → fits (signed b m) ≡ false → fits (signed b n) ≡ false
unfolding ◌-ℤ◌
fits-le true m n h k = ground arith
fits-le false m n h k = ground arith

le_mul : (m p : ℕ) → 0 < p → m ≤ m * p
le_mul m p h = grind arith

up_lem :
    (n : ℕ) (b : Bool) (m : ℕ)
    → fits (signed b m) ≡ true
    → scale_up_loop n (signed b m)
      ≡ (if fits (signed b (m * 10 ^ n)) then some (signed b (m * 10 ^ n)) else none)
unfolding scale_up_loop
up_lem zero b m f = let e : m * 10 ^ 0 ≡ m = omega arith in rw (e, f) refl
up_lem (suc n) b m f =
    let e : m * 10 ^ suc n ≡ m * 10 * 10 ^ n = ap (λ (t : ℕ). m * t) (pow-suc 10 n) ∙ grind arith in
    elim (Bool-cases (fits (signed b (m * 10)))) [
      | inl small ↦ rw (times_ten-signed b m, small, e) (up_lem n b (m * 10) small)
      | inr large ↦
          rw
            (
              times_ten-signed b m,
              large,
              e,
              fits-le b (m * 10) (m * 10 * 10 ^ n)
                  (le_mul (m * 10) (10 ^ n) (pow_pos 10 n (omega arith))) large,
            )
            refl
    ]

down_lem : (n : ℕ) (b : Bool) (m : ℕ) → scale_down_loop n (signed b m) ≡ signed b (m / 10 ^ n)
unfolding scale_down_loop
down_lem zero b m = ap (signed b) (omega arith)
down_lem (suc n) b m =
    ap (scale_down_loop n) (over_ten-signed b m)
    ∙ down_lem n b (m / 10)
    ∙ ap (signed b) (div-div-eq-div-mul m 10 (10 ^ n) ∙ ap (λ (t : ℕ). m / t) (sym (ten n)))
  where
    ten : (n : ℕ) → 10 ^ suc n ≡ 10 * 10 ^ n
    ten n = omega (arith, pow-suc 10 n)

-- For a raw value in the range of int128_t and an input scale k of at most 18, the constructor
-- gives the value times 10^(18-k) if that is in the range; if it is not, a step of the scaling
-- overflows.
pub scaled_up :
    (b : Bool) (m k : ℕ)
    → k ≤ 18
    → fits (signed b m) ≡ true
    → from_scaled (signed b m) (pos k)
      ≡ (if fits (signed b (m * 10 ^ (18 - k))) then some (signed b (m * 10 ^ (18 - k))) else none)
unfolding from_scaled
scaled_up b m k h f = ground (arith, up_lem (18 - k) b m f, down_lem 0 b m, f)

-- For an input scale of 18 + k, the constructor gives the raw value over 10^k, truncated towards
-- zero, with no overflow.
pub scaled_down :
    (b : Bool) (m k : ℕ) → from_scaled (signed b m) (pos (18 + k)) ≡ some (signed b (m / 10 ^ k))
unfolding from_scaled
scaled_down b m k = ground (arith, down_lem k b m)
