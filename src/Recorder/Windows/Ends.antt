-- ===== src/Recorder/Windows/Ends.antt =====
-- Lemmas on the ends of lists, for the rings of the windows.
use binapi.Prelude.{
  ℕ, zero, suc, ◌≤◌, ◌≡◌, refl, ap, List, [], ◌∷◌, ◌++◌, arith, length, get_or, take, replicate,
}

module _ {A : Type 0} where
  pub get_or-front : (xs ys : List A) (y d : A) → get_or (xs ++ y ∷ ys) (length xs) d ≡ y
  get_or-front [] ys y d = refl
  get_or-front (x ∷ xs) ys y d = get_or-front xs ys y d

  pub take-take : (n m : ℕ) (xs : List A) → n ≤ m → take n (take m xs) ≡ take n xs
  take-take zero m xs h = refl
  take-take (suc n) zero xs h = absurd (omega arith)
  take-take (suc n) (suc m) [] h = refl
  take-take (suc n) (suc m) (x ∷ xs) h = ap (λ ys. x ∷ ys) (take-take n m xs (omega arith))

  pub take-append :
      (n m : ℕ) (ys xs : List A) → n ≤ m → take n (ys ++ take m xs) ≡ take n (ys ++ xs)
  take-append n m [] xs h = take-take n m xs h
  take-append zero m (y ∷ ys) xs h = refl
  take-append (suc n) m (y ∷ ys) xs h = ap (λ zs. y ∷ zs) (take-append n m ys xs (omega arith))

  pub take_capped :
      (n j k : ℕ) (z : A) (xs : List A)
      → n ≤ j
      → n ≤ k
      → take n (replicate j z ++ xs) ≡ take n (replicate k z ++ xs)
  take_capped zero j k z xs h l = refl
  take_capped (suc n) zero k z xs h l = absurd (omega arith)
  take_capped (suc n) (suc j) zero z xs h l = absurd (omega arith)
  take_capped (suc n) (suc j) (suc k) z xs h l =
      ap (λ ys. z ∷ ys) (take_capped n j k z xs (omega arith) (omega arith))

  pub replicate-shift :
      (k : ℕ) (z : A) (xs : List A) → replicate k z ++ z ∷ xs ≡ z ∷ (replicate k z ++ xs)
  replicate-shift zero z xs = refl
  replicate-shift (suc k) z xs = ap (λ ys. z ∷ ys) (replicate-shift k z xs)
