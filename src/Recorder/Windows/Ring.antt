-- ===== src/Recorder/Windows/Ring.antt =====
-- A ring as the list of its cells, the one written last first.
use mathlib.Core.List.{reverse, reverse-append}
use native.Mathlib.Nat.{mod-eq_of_lt, mod_self}
use binapi.Prelude.{
  ℕ, zero, suc, ◌+◌, ◌%◌, ◌<◌, ◌≡◌, ◌∙◌, refl, sym, ap, subst, List, [], ◌∷◌, ◌++◌, append-nil,
  append_assoc, arith, length, length-append, set, take, drop, length-take, length-drop, take_front,
  drop_front,
}

wraps_to_zero : (k n : ℕ) → k ≡ n → k % n ≡ 0
wraps_to_zero k n h = ap (λ j. j % n) h ∙ mod_self n

module _ {A : Type 0} where
  -- `next` is the place of the next write, where the oldest value stands.
  abbrev pub newest_first : ℕ → List A → List A
  newest_first next cells = reverse (take next cells) ++ reverse (drop next cells)

  pub set_front : (xs ys : List A) (y v : A) → set (xs ++ y ∷ ys) (length xs) v ≡ xs ++ v ∷ ys
  set_front [] ys y v = refl
  set_front (x ∷ xs) ys y v = ap (λ zs. x ∷ zs) (set_front xs ys y v)

  -- The cells around a place.
  pub record Around (next : ℕ) (cells : List A) : Type 0 where
    pub before : List A
    pub value : A
    pub behind : List A
    pub place : length before ≡ next
    pub spelled : cells ≡ before ++ value ∷ behind

  pub around : (next : ℕ) (cells : List A) → next < length cells → Around next cells
  around next [] h = absurd (omega arith)
  around zero (x ∷ xs) h = record {
    before = [];
    value = x;
    behind = xs;
    place = refl;
    spelled = refl;
  }
  around (suc n) (x ∷ xs) h =
      let a = around n xs (omega arith) in
      record {
        before = x ∷ a.before;
        value = a.value;
        behind = a.behind;
        place = ap suc a.place;
        spelled = ap (λ ys. x ∷ ys) a.spelled;
      }

  pub length-reverse : (xs : List A) → length (reverse xs) ≡ length xs
  length-reverse [] = refl
  length-reverse (x ∷ xs) =
      ap length (reverse-append (x ∷ []) xs)
      ∙ omega (arith, length-append (reverse xs) (x ∷ []), length-reverse xs)

  pub length-newest_first :
      (next : ℕ) (cells : List A) → length (newest_first next cells) ≡ length cells
  length-newest_first next cells =
      length-append (reverse (take next cells)) (reverse (drop next cells))
      ∙ omega (
        arith,
        length-reverse (take next cells),
        length-reverse (drop next cells),
        length-take next cells,
        length-drop next cells,
      )

  reverse-last : (xs : List A) (y : A) → reverse (xs ++ y ∷ []) ≡ y ∷ reverse xs
  reverse-last xs y = reverse-append xs (y ∷ [])

  -- The place of the next write, right behind a place.
  pub newest_at :
      (xs ys : List A) (y : A)
      → newest_first ((length xs + 1) % length (xs ++ y ∷ ys)) (xs ++ y ∷ ys)
        ≡ y ∷ (reverse xs ++ reverse ys)
  newest_at xs [] y =
      let wraps : (length xs + 1) % length (xs ++ y ∷ []) ≡ 0 =
        wraps_to_zero (length xs + 1) (length (xs ++ y ∷ []))
          (omega (arith, length-append xs (y ∷ []))) in
      rw wraps (reverse-last xs y ∙ ap (λ zs. y ∷ zs) (sym (append-nil (reverse xs))))
  newest_at xs (z ∷ zs) y =
      let ys = z ∷ zs in
      let next : (length xs + 1) % length (xs ++ y ∷ ys) ≡ length (xs ++ y ∷ []) =
        mod-eq_of_lt {n = length xs + 1} {m = length (xs ++ y ∷ ys)}
          (omega (arith, length-append xs (y ∷ ys)))
        ∙ omega (arith, length-append xs (y ∷ [])) in
      ap (λ n. newest_first n (xs ++ y ∷ ys)) next
      ∙ ap (λ cs. newest_first (length (xs ++ y ∷ [])) cs) (sym (append_assoc xs (y ∷ []) ys))
      ∙ ap (λ cs. reverse cs ++ reverse (drop (length (xs ++ y ∷ [])) (xs ++ y ∷ [] ++ ys)))
          (take_front (xs ++ y ∷ []) ys)
      ∙ ap (λ cs. reverse (xs ++ y ∷ []) ++ reverse cs) (drop_front (xs ++ y ∷ []) ys)
      ∙ ap (λ cs. cs ++ reverse ys) (reverse-last xs y)

  pub oldest_at :
      (xs ys : List A) (y : A)
      → newest_first (length xs) (xs ++ y ∷ ys) ≡ reverse xs ++ reverse ys ++ y ∷ []
  oldest_at xs ys y =
      ap (λ cs. reverse cs ++ reverse (drop (length xs) (xs ++ y ∷ ys))) (take_front xs (y ∷ ys))
      ∙ ap (λ cs. reverse xs ++ reverse cs) (drop_front xs (y ∷ ys))
      ∙ ap (λ cs. reverse xs ++ cs) (reverse-append (y ∷ []) ys)
      ∙ sym (append_assoc (reverse xs) (reverse ys) (y ∷ []))

  take_suc_front : (xs : List A) (v y : A) → take (length xs + 1) (v ∷ (xs ++ y ∷ [])) ≡ v ∷ xs
  take_suc_front xs v y =
      ap (λ n. take n (v ∷ (xs ++ y ∷ []))) {x = length xs + 1} {y = suc (length xs)} (omega arith)
      ∙ ap (λ cs. v ∷ cs) (take_front xs (y ∷ []))

  -- What holds at the place behind any cells holds at every place.
  pub at_each_place :
      (P : ℕ → List A → Type 0)
      → ((xs ys : List A) (y : A) → P (length xs) (xs ++ y ∷ ys))
      → (next : ℕ) (cells : List A) → next < length cells
      → P next cells
  at_each_place P f next cells h =
      let a = around next cells h in
      subst (λ n. P n cells) a.place
        (subst (P (length a.before)) (sym a.spelled) (f a.before a.behind a.value))

  -- A write at the next place drops the oldest value.
  at_place :
      (xs ys : List A) (y v : A)
      → newest_first ((length xs + 1) % length (xs ++ y ∷ ys)) (set (xs ++ y ∷ ys) (length xs) v)
        ≡ take (length (xs ++ y ∷ ys)) (v ∷ newest_first (length xs) (xs ++ y ∷ ys))
  at_place xs ys y v =
      let cells = xs ++ y ∷ ys in
      let kept = reverse xs ++ reverse ys in
      let same : length cells ≡ length (xs ++ v ∷ ys) =
        omega (arith, length-append xs (y ∷ ys), length-append xs (v ∷ ys)) in
      let size : length cells ≡ length kept + 1 = omega (
        arith,
        length-append xs (y ∷ ys),
        length-append (reverse xs) (reverse ys),
        length-reverse xs,
        length-reverse ys,
      ) in
      ap (λ cs. newest_first ((length xs + 1) % length cells) cs) (set_front xs ys y v)
      ∙ ap (λ n. newest_first ((length xs + 1) % n) (xs ++ v ∷ ys)) same
      ∙ newest_at xs ys v
      ∙ sym (
          ap (λ cs. take (length cells) (v ∷ cs)) (oldest_at xs ys y)
          ∙ ap (λ n. take n (v ∷ (kept ++ y ∷ []))) size
          ∙ take_suc_front kept v y)

  pub newest_first-set :
      (next : ℕ) (cells : List A) (v : A)
      → next < length cells
      → newest_first ((next + 1) % length cells) (set cells next v)
        ≡ take (length cells) (v ∷ newest_first next cells)
  newest_first-set next cells v h =
      at_each_place
        (λ n cs.
          newest_first ((n + 1) % length cs) (set cs n v)
          ≡ take (length cs) (v ∷ newest_first n cs))
        (λ xs ys y. at_place xs ys y v) next cells h
