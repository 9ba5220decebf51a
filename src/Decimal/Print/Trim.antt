-- ===== src/Decimal/Print/Trim.antt =====
-- Trimming trailing zeros in `to_string`.
use native.Mathlib.Nat.{pow-suc}
use native.Mathlib.Numerals.{add-one}
use binapi.Prelude.{
  ℕ, zero, suc, ◌+◌, ◌-◌, ◌*◌, ◌^◌, ◌≤◌, ◌≡◌, ◌∙◌, refl, sym, ap, subst, Bool-cases, inl, inr, [],
  ◌∷◌, ◌++◌, arith, length, length-append, length-replicate, append-nil, replicate, take, Option,
  none, some, ◌==◌, Option-cases,
}
use binapi.Prelude.Text.{Bytes}
use binapi.Decimal.Parse.Digits.{AllDigits, number_from, number}
use binapi.Decimal.Print.{find_last_not_zero, trim}
use binapi.Decimal.Print.Digits.{number_from-append}

abbrev zeros : ℕ → Bytes
zeros k = replicate k b'0'

abbrev Found : Bytes → Option ℕ → Type 0
Found s none = s ≡ zeros (length s)
Found s (some i) = s ≡ take (suc i) s ++ zeros (length s - suc i)

Found-later : (c i : ℕ) (s : Bytes) → Found s (some i) → Found (c ∷ s) (some (i + 1))
Found-later c i s h =
    let e : length s - suc i ≡ suc (length s) - suc (suc i) = omega arith in
    rw add-one (ap (λ r. c ∷ r) (h ∙ ap (λ k. take (suc i) s ++ zeros k) e))

Found-here : (c : ℕ) (s : Bytes) → Found s none → Found (c ∷ s) (some 0)
Found-here c s h =
    let e : length s ≡ suc (length s) - 1 = omega arith in ap (λ r. c ∷ r) (h ∙ ap zeros e)

Found-at :
    (s : Bytes) (o : Option ℕ)
    → find_last_not_zero s ≡ o
    → Found s o
    → Found s (find_last_not_zero s)
Found-at s o e h = subst (Found s) (sym e) h

Found-cons :
    (c : ℕ) (s : Bytes)
    → Found s (find_last_not_zero s)
    → Found (c ∷ s) (find_last_not_zero (c ∷ s))
unfolding find_last_not_zero
Found-cons c s h = elim (Option-cases (find_last_not_zero s)) [
  | inl e ↦ elim (Bool-cases (c == b'0')) [
    | inl z ↦
        let c' : c ≡ b'0' = ground arith in
        Found-at (c ∷ s) none (rw (e, z)) (rw c' (ap (λ r. b'0' ∷ r) (subst (Found s) e h)))
    | inr z ↦ Found-at (c ∷ s) (some 0) (rw (e, z)) (Found-here c s (subst (Found s) e h))
  ]
  | inr (i, e) ↦ Found-at (c ∷ s) (some (i + 1)) (rw e) (Found-later c i s (subst (Found s) e h))
]

find_last_not_zero_lem : (s : Bytes) → Found s (find_last_not_zero s)
find_last_not_zero_lem [] = unfold find_last_not_zero in refl
find_last_not_zero_lem (c ∷ s) = Found-cons c s (find_last_not_zero_lem s)

-- What is cut off is zeros.
trim_split : (s : Bytes) → (k : ℕ) × (s ≡ trim s ++ zeros k)
unfolding trim
trim_split s = elim (Option-cases (find_last_not_zero s)) [
  | inl e ↦ (0, sym (append-nil _ ∙ kept e))
  | inr (i, e) ↦ (length s - suc i, subst (Found s) e (find_last_not_zero_lem s) ∙ sym (cut i e))
]
  where
    kept : find_last_not_zero s ≡ none → trim s ≡ s
    kept e = rw (e, trim)

    cut :
        (i : ℕ)
        → find_last_not_zero s ≡ some i
        → trim s ++ zeros (length s - suc i) ≡ take (suc i) s ++ zeros (length s - suc i)
    cut i e = rw (e, trim, add-one)

number_from-zeros : (k n : ℕ) → number_from n (zeros k) ≡ n * 10 ^ k
number_from-zeros zero n = omega arith
number_from-zeros (suc k) n =
    omega
      (arith, number_from-zeros k (n * 10 + (b'0' - b'0')), ap (λ (t : ℕ). n * t) (pow-suc 10 k))

AllDigits-prefix : (s t : Bytes) → AllDigits (s ++ t) → AllDigits s
AllDigits-prefix [] t h = tt
AllDigits-prefix (c ∷ s) t h = (h.0, AllDigits-prefix s t h.1)

-- The trimmed digits are digits, and stand for the same fraction.
pub trim_lem :
    (s : Bytes)
    → AllDigits s
    → AllDigits (trim s)
      × (length (trim s) ≤ length s)
      × (number s ≡ number (trim s) * 10 ^ (length s - length (trim s)))
trim_lem s h =
    let (k, e) = trim_split s in
    let l : length s ≡ length (trim s) + k =
      ap length e
      ∙ length-append (trim s) (zeros k)
      ∙ omega (arith, length-replicate {A = ℕ} k b'0') in
    (
      AllDigits-prefix (trim s) (zeros k) (subst AllDigits e h),
      omega (arith, l),
      ap number e
          ∙ number_from-append (trim s) (zeros k) 0
          ∙ number_from-zeros k (number (trim s))
          ∙ ap (λ (t : ℕ). number (trim s) * 10 ^ t) (omega (arith, l)),
    )
