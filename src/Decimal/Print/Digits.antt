-- ===== src/Decimal/Print/Digits.antt =====
-- The digit loops of `to_string` write the digits of their number.
use mathlib.Core.List.{reverse, reverse-append}
use native.Mathlib.Nat.{pow-suc}
use binapi.Prelude.{
  ℕ, zero, suc, ◌+◌, ◌-◌, ◌*◌, ◌/◌, ◌%◌, ◌^◌, ◌≤◌, ◌<◌, ◌≡◌, ◌∙◌, refl, sym, ap, Bool-cases, inl,
  inr, length-replicate, [], ◌∷◌, ◌++◌, arith, length, length-append, append-nil, append_assoc,
  replicate, set, ltb, if◌then◌else◌,
}
use binapi.Prelude.Text.{Bytes}
use binapi.Decimal.Parse.Digits.{AllDigits, number_from, number}
use binapi.Decimal.Print.{push_digits, fill_fraction}

-- The last `k` digits of `n`, in reading order.
abbrev pub last_digits : ℕ → ℕ → Bytes
last_digits zero n = []
last_digits (suc k) n = last_digits k (n / 10) ++ (b'0' + n % 10) ∷ []

AllDigits-append : (s t : Bytes) → AllDigits s → AllDigits t → AllDigits (s ++ t)
AllDigits-append [] t hs ht = ht
AllDigits-append (c ∷ s) t hs ht = (hs.0, AllDigits-append s t hs.1 ht)

pub number_from-append :
    (s t : Bytes) (n : ℕ) → number_from n (s ++ t) ≡ number_from (number_from n s) t
number_from-append [] t n = refl
number_from-append (c ∷ s) t n = number_from-append s t (n * 10 + (c - b'0'))

pub last_digits-AllDigits : (k n : ℕ) → AllDigits (last_digits k n)
last_digits-AllDigits zero n = tt
last_digits-AllDigits (suc k) n =
    AllDigits-append (last_digits k (n / 10)) _ (last_digits-AllDigits k (n / 10)) (omega arith)

pub length-last_digits : (k n : ℕ) → length (last_digits k n) ≡ k
length-last_digits zero n = refl
length-last_digits (suc k) n = omega (
  arith,
  length-append (last_digits k (n / 10)) ((b'0' + n % 10) ∷ []),
  length-last_digits k (n / 10),
)

-- They spell `n`, if it has no more digits.
pub number-last_digits : (k n : ℕ) → n < 10 ^ k → number (last_digits k n) ≡ n
number-last_digits zero n h = omega arith
number-last_digits (suc k) n h =
    number_from-append (last_digits k (n / 10)) _ 0
    ∙ omega (arith, number-last_digits k (n / 10) (omega (arith, pow-suc 10 k)))

-- How many digits `n` has, up to `fuel`.
pub digit_count : ℕ → ℕ → ℕ
digit_count zero n = 0
digit_count (suc fuel) n = let rest = digit_count fuel (n / 10) in if ltb 0 n then suc rest else 0

pub digit_count-le : (fuel n j : ℕ) → n < 10 ^ j → digit_count fuel n ≤ j
unfolding digit_count
digit_count-le zero n j h = omega arith
digit_count-le (suc fuel) n zero h = ground arith
digit_count-le (suc fuel) n (suc j) h =
    ground (arith, digit_count-le fuel (n / 10) j (omega (arith, pow-suc 10 j)))

pub digit_count_fits : (fuel n : ℕ) → n < 10 ^ fuel → n < 10 ^ digit_count fuel n
unfolding digit_count
digit_count_fits zero n h = h
digit_count_fits (suc fuel) n h = elim (Bool-cases (ltb 0 n)) [
  | inl more ↦
      let ih = digit_count_fits fuel (n / 10) (omega (arith, pow-suc 10 fuel)) in
      rw more (omega (arith, ih, pow-suc 10 (digit_count fuel (n / 10))))
  | inr end ↦ rw end (ground arith)
]

pub push_digits_lem :
    (fuel n : ℕ) (out : Bytes)
    → reverse (push_digits fuel n out) ≡ last_digits (digit_count fuel n) n ++ reverse out
unfolding push_digits digit_count
push_digits_lem zero n out = refl
push_digits_lem (suc fuel) n out = elim (Bool-cases (ltb 0 n)) [
  | inl more ↦ rw more (
      push_digits_lem fuel (n / 10) (out ++ (b'0' + n % 10) ∷ [])
      ∙ rw (reverse-append out ((b'0' + n % 10) ∷ [])) (
          sym (
            append_assoc (last_digits (digit_count fuel (n / 10)) (n / 10)) ((b'0' + n % 10) ∷ [])
              (reverse out))))
  | inr end ↦ rw end refl
]

-- The loop over the fractional digits, on a text whose first `i` places are still zeros.
set-append : (s t : Bytes) (i v w : ℕ) → length s ≡ i → set (s ++ v ∷ t) i w ≡ s ++ w ∷ t
set-append [] t zero v w h = refl
set-append [] t (suc i) v w h = absurd (omega arith)
set-append (c ∷ s) t zero v w h = absurd (omega arith)
set-append (c ∷ s) t (suc i) v w h = ap (λ r. c ∷ r) (set-append s t i v w (omega arith))

zeros_suc : (i : ℕ) (t : Bytes) → replicate (suc i) b'0' ++ t ≡ replicate i b'0' ++ b'0' ∷ t
zeros_suc zero t = refl
zeros_suc (suc i) t = ap (λ r. b'0' ∷ r) (zeros_suc i t)

last_digits_zero : (i : ℕ) → last_digits i 0 ≡ replicate i b'0'
last_digits_zero zero = refl
last_digits_zero (suc i) =
    rw (last_digits_zero i) (sym (zeros_suc i []) ∙ append-nil (replicate (suc i) b'0'))

pub fill_fraction_lem :
    (i f : ℕ) (t : Bytes) → fill_fraction i f (replicate i b'0' ++ t) ≡ last_digits i f ++ t
unfolding fill_fraction
fill_fraction_lem zero f t = refl
fill_fraction_lem (suc i) f t = elim (Bool-cases (ltb 0 f)) [
  | inl more ↦
      let d = b'0' + f % 10 in
      rw more (
        ap (λ s. fill_fraction i (f / 10) (set s i d)) (zeros_suc i t)
        ∙ ap (fill_fraction i (f / 10))
            (set-append (replicate i b'0') t i b'0' d (length-replicate i b'0'))
        ∙ fill_fraction_lem i (f / 10) (d ∷ t)
        ∙ sym (append_assoc (last_digits i (f / 10)) ((b'0' + f % 10) ∷ []) t))
  | inr end ↦
      let z : f ≡ 0 = ground arith in
      rw (end, z) (sym (ap (λ r. r ++ t) (last_digits_zero (suc i))))
]
