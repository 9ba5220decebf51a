-- ===== src/Decimal/Wide/Digits.antt =====
-- The bits of the numerator and of the quotient in `divmod256`.
use Prim.Native.Nat.{bit_or}
use native.Mathlib.Nat.{
  pow-suc, mod-lt, div-add-mod', div-div-eq-div-mul, mul-add-div_right, mod-eq_of_lt,
  mul-add-mod_self_right, pow-le-pow_right, mul-mod_left, div-lt_iff_lt-mul,
}
use binapi.Prelude.{
  ℕ, suc, ◌+◌, ◌-◌, ◌*◌, ◌/◌, ◌%◌, ◌^◌, ◌<◌, ◌≡◌, ◌∙◌, sym, ap, arith, leb, Bool-cases, inl, inr,
}
use binapi.Prelude.Powers.{pow-add, pow_pos}
use binapi.Prelude.Bits.{bit_and-one, bit_or_disjoint}
use binapi.Decimal.Wide.{Uint256, wide_value, u128_mod, bit_at, set_bit}

mod_unique : (x q m r : ℕ) → r < m → x ≡ q * m + r → x % m ≡ r
mod_unique x q m r h e = rw e (mul-add-mod_self_right q m r ∙ mod-eq_of_lt h)

-- Dividing by 2 ^ 128 first.
div_high : (n : Uint256) (j : ℕ) → n.lo < u128_mod → wide_value n / 2 ^ (128 + j) ≡ n.hi / 2 ^ j
div_high n j h =
    ap (λ (t : ℕ). wide_value n / t) (pow-add 2 128 j)
    ∙ sym (div-div-eq-div-mul (wide_value n) (2 ^ 128) (2 ^ j))
    ∙ ap (λ (t : ℕ). t / 2 ^ j) (omega arith)

div_low :
    (n : Uint256) (i : ℕ) → i < 128 → wide_value n / 2 ^ i ≡ n.hi * 2 ^ (127 - i) * 2 + n.lo / 2 ^ i
div_low n i h =
    ap (λ (t : ℕ). (t + n.lo) / 2 ^ i) high ∙ mul-add-div_right (pow_pos 2 i (omega arith)) _ n.lo
  where
    split : 2 ^ 127 ≡ 2 ^ (127 - i) * 2 ^ i
    split = ap (λ (t : ℕ). 2 ^ t) {x = 127} {y = 127 - i + i} (omega arith) ∙ pow-add 2 (127 - i) i

    high : n.hi * u128_mod ≡ n.hi * 2 ^ (127 - i) * 2 * 2 ^ i
    high = omega (arith, ap (λ (t : ℕ). n.hi * t) split)

pub bit_at_lem : (n : Uint256) (i : ℕ) → n.lo < u128_mod → bit_at n i ≡ wide_value n / 2 ^ i % 2
unfolding bit_at
bit_at_lem n i h = elim (Bool-cases (leb 128 i)) [
  | inl e ↦
      rw (e, bit_and-one)
        (let e' : 128 + (i - 128) ≡ i = ground arith in
          ap (λ (t : ℕ). t % 2)
            (sym (div_high n (i - 128) h) ∙ ap (λ (t : ℕ). wide_value n / 2 ^ t) e'))
  | inr e ↦ rw (e, bit_and-one) (omega (arith, div_low n i (ground arith)))
]

low_digits : (x p : ℕ) → x ≡ x / p / 2 * (p * 2) + (x / p % 2 * p + x % p)
low_digits x p =
    let e : x / p ≡ x / p / 2 * 2 + x / p % 2 = omega arith in
    omega (arith, ap (λ (t : ℕ). t * p) e, div-add-mod' x p)

-- The low `i + 1` bits are bit `i` and the low `i` bits.
pub mod_pow_suc : (x i : ℕ) → x % 2 ^ suc i ≡ x / 2 ^ i % 2 * 2 ^ i + x % 2 ^ i
mod_pow_suc x i =
    mod_unique x (x / 2 ^ i / 2) (2 ^ suc i) _
      (grind (arith, pow-suc 2 i, mod-lt x (pow_pos 2 i (omega arith))))
      (rw (pow-suc 2 i) (low_digits x (2 ^ i)))

pub pow_lt : {j k : ℕ} → j < k → 2 ^ j < 2 ^ k
pow_lt {j} {k} h =
    omega (arith, pow-suc 2 j, pow_pos 2 j (omega arith), pow-le-pow_right {n = 2} (omega arith) h)

mul_fit : {j : ℕ} → j < 128 → 1 * 2 ^ j % u128_mod ≡ 2 ^ j
mul_fit {j} h = let b : 2 ^ j < 2 ^ 128 = pow_lt h in omega arith

-- Setting bit `i` of a quotient whose bits up to `i` are clear adds 2 ^ i.
set_bit_high :
    (q : Uint256) (m j : ℕ)
    → j < 128
    → q.lo < u128_mod
    → wide_value q ≡ m * 2 ^ suc (128 + j)
    → bit_or q.hi (1 * 2 ^ j % u128_mod) * u128_mod + q.lo ≡ wide_value q + 2 ^ (128 + j)
set_bit_high q m j h l e = omega (arith, pow-add 2 128 j, added)
  where
    shift : 2 ^ suc (128 + j) ≡ 2 ^ 128 * 2 ^ suc j
    shift =
        ap (λ (t : ℕ). 2 ^ t) {x = suc (128 + j)} {y = 128 + suc j} (omega arith)
        ∙ pow-add 2 128 (suc j)

    clear : q.hi ≡ m * 2 ^ suc j
    clear = omega (arith, ap (λ (t : ℕ). m * t) shift)

    added : bit_or q.hi (1 * 2 ^ j % u128_mod) ≡ q.hi + 2 ^ j
    added = rw (mul_fit h, clear) (bit_or_disjoint (suc j) m (2 ^ j) (pow_lt {j = j} (omega arith)))

set_bit_low :
    (q : Uint256) (m i : ℕ)
    → i < 128
    → q.lo < u128_mod
    → wide_value q ≡ m * 2 ^ suc i
    → (bit_or q.lo (1 * 2 ^ i % u128_mod) ≡ q.lo + 2 ^ i) × (q.lo + 2 ^ i < u128_mod)
set_bit_low q m i h l e = (added, room)
  where
    p : ℕ
    p = 2 ^ suc i

    c : ℕ
    c = 2 ^ (127 - i)

    split : u128_mod ≡ c * p
    split =
        ap (λ (t : ℕ). 2 ^ t) {x = 128} {y = 127 - i + suc i} (omega arith)
        ∙ pow-add 2 (127 - i) (suc i)

    -- The low half is a multiple of 2 ^ (i + 1), as the whole quotient is.
    k : ℕ
    k = q.lo / p

    whole : q.lo % p ≡ 0
    whole =
        sym (mul-add-mod_self_right (q.hi * c) p q.lo)
        ∙ ap (λ (t : ℕ). t % p) {x = q.hi * c * p + q.lo} {y = m * p}
            (omega (arith, ap (λ (t : ℕ). q.hi * t) split))
        ∙ mul-mod_left m p

    clear : q.lo ≡ k * p
    clear = omega (arith, div-add-mod' q.lo p, whole)

    added : bit_or q.lo (1 * 2 ^ i % u128_mod) ≡ q.lo + 2 ^ i
    added = rw (mul_fit h, clear) (bit_or_disjoint (suc i) k (2 ^ i) (pow_lt {j = i} (omega arith)))

    below : k < c
    below =
        (div-lt_iff_lt-mul {k = p} {x = q.lo} {y = c} (pow_pos 2 (suc i) (omega arith))).1
          (omega (arith, split))

    room : q.lo + 2 ^ i < u128_mod
    room = grind (arith, clear, split, below, pow_lt {j = i} {k = suc i})

pub set_bit_lem :
    (q : Uint256) (m i : ℕ)
    → i < 256
    → q.lo < u128_mod
    → wide_value q ≡ m * 2 ^ suc i
    → (wide_value (set_bit q i) ≡ wide_value q + 2 ^ i) × ((set_bit q i).lo < u128_mod)
unfolding set_bit
set_bit_lem q m i h l e = elim (Bool-cases (leb 128 i)) [
  | inl b ↦
      let i' : i ≡ 128 + (i - 128) = ground arith in
      rw b (
        set_bit_high q m (i - 128) (omega arith) l (rw (← i') e)
            ∙ ap (λ (t : ℕ). wide_value q + 2 ^ t) (sym i'),
        l,
      )
  | inr b ↦
      let low = set_bit_low q m i (ground arith) l e in rw b (omega (arith, low.0), rw low.0 low.1)
]
