-- ===== src/WrapText/Rows.antt =====
-- The rows of a wrapped line.
use binapi.Prelude.{
  ℕ, zero, suc, ◌-◌, ◌%◌, ◌^◌, ◌≤◌, ◌<◌, ◌≡◌, refl, sym, ap, subst, inl, inr, true, false, List, [],
  ◌∷◌, ◌++◌, ltb, leb, arith, Bool-cases, length, take, drop, take-append-drop, length-take,
  length-drop,
}
use binapi.Prelude.Text.{Bytes}
use binapi.WrapText.{is_int_le, is_space, find_back, wrap_loop, wrap_single_line}

-- Rows of at most `width` characters that give the text, where a break may have taken one space.
pub data Wrapped (width : ℕ) : List Bytes → Bytes → Type 0 where
  last_row : (row : Bytes) → length row ≤ width → Wrapped width (row ∷ []) row
  at_space :
      (row rest : Bytes) (rows : List Bytes) (c : ℕ)
      → length row ≤ width
      → is_space c ≡ true
      → Wrapped width rows rest
      → Wrapped width (row ∷ rows) (row ++ c ∷ rest)
  forced :
      (row rest : Bytes) (rows : List Bytes)
      → length row ≤ width
      → Wrapped width rows rest
      → Wrapped width (row ∷ rows) (row ++ rest)

-- A space ends the characters that are found.
record SpaceAt (back : ℕ) (s : Bytes) : Type 0 where
  before : ℕ
  space : ℕ
  is_behind : back ≡ suc before
  is_one : is_space space ≡ true
  spelled : s ≡ take before s ++ space ∷ drop (suc before) s

find_back-le : (s : Bytes) (n : ℕ) → find_back (take n s) ≤ n
unfolding find_back
find_back-le s zero = omega arith
find_back-le [] (suc n) = omega arith
find_back-le (c ∷ s) (suc n) = ground (arith, find_back-le s n)

find_back-SpaceAt :
    (s : Bytes) (n : ℕ) → 0 < find_back (take n s) → SpaceAt (find_back (take n s)) s
unfolding find_back
find_back-SpaceAt s zero h = absurd (omega arith)
find_back-SpaceAt [] (suc n) h = absurd (omega arith)
find_back-SpaceAt (c ∷ s) (suc n) h = elim (Bool-cases (ltb 0 (find_back (take n s)))) [
  | inl more ↦
      let ih = find_back-SpaceAt s n (ground (arith, more)) in
      rw more (record {
        before = suc ih.before;
        space = ih.space;
        is_behind = ap suc ih.is_behind;
        is_one = ih.is_one;
        spelled = ap (λ t. c ∷ t) ih.spelled;
      })
  | inr none_ ↦ elim (Bool-cases (is_space c)) [
    | inl e ↦
        rw (none_, e)
          (record { before = 0; space = c; is_behind = refl; is_one = e; spelled = refl })
    | inr e ↦ absurd (ground (arith, h, none_, e))
  ]
]

-- What a round is given: that the rows of every shorter text are as they should be.
abbrev Shorter : ℕ → ℕ → Type 0
Shorter fuel width =
    (rest : Bytes)
    → 0 < length rest
    → length rest ≤ fuel
    → Wrapped width (wrap_loop fuel width rest) rest

broken_row :
    (fuel width : ℕ) (rest : Bytes)
    → length rest ≤ suc fuel
    → width < length rest
    → 0 < find_back (take width rest)
    → Shorter fuel width
    → Wrapped width
        (take (find_back (take width rest) - 1) rest
          ∷ wrap_loop fuel width (drop (find_back (take width rest)) rest))
        rest
broken_row fuel width rest f long broken ih =
    let a = find_back-SpaceAt rest width broken in
    let most = find_back-le rest width in
    let behind = drop (suc a.before) rest in
    let row : length (take a.before rest) ≤ width =
      omega (arith, length-take a.before rest, a.is_behind, most) in
    let left = length-drop (suc a.before) rest in
    let tail = ih behind (omega (arith, left, a.is_behind, most)) (omega (arith, left)) in
    let all =
      at_space (take a.before rest) behind (wrap_loop fuel width behind) a.space row a.is_one
        tail in
    subst (λ b. Wrapped width (take (b - 1) rest ∷ wrap_loop fuel width (drop b rest)) rest)
      (sym a.is_behind)
      (subst (λ k. Wrapped width (take k rest ∷ wrap_loop fuel width behind) rest) {x = a.before}
        {y = suc a.before - 1} (omega arith)
        (subst (Wrapped width (take a.before rest ∷ wrap_loop fuel width behind)) (sym a.spelled)
          all))

forced_row :
    (fuel width : ℕ) (rest : Bytes)
    → 0 < width
    → length rest ≤ suc fuel
    → width < length rest
    → Shorter fuel width
    → Wrapped width (take width rest ∷ wrap_loop fuel width (drop width rest)) rest
forced_row fuel width rest w f long ih =
    let left = length-drop width rest in
    subst (Wrapped width (take width rest ∷ wrap_loop fuel width (drop width rest)))
      (take-append-drop width rest)
      (forced (take width rest) (drop width rest) (wrap_loop fuel width (drop width rest))
        (omega (arith, length-take width rest))
        (ih (drop width rest) (omega (arith, left)) (omega (arith, left))))

wrap_loop-Wrapped :
    (fuel width : ℕ) (rest : Bytes)
    → 0 < width
    → 0 < length rest
    → length rest ≤ fuel
    → Wrapped width (wrap_loop fuel width rest) rest
unfolding wrap_loop
wrap_loop-Wrapped zero width rest w h f = absurd (omega arith)
wrap_loop-Wrapped (suc fuel) width rest w h f =
    let some_left : leb (length rest) 0 ≡ false = ground arith in
    elim (Bool-cases (leb (length rest) width)) [
      | inl fits ↦ rw (some_left, fits) (last_row rest (ground (arith, fits)))
      | inr long ↦ elim (Bool-cases (ltb 0 (find_back (take width rest)))) [
        | inl broken ↦
            rw (some_left, long, broken)
              (broken_row fuel width rest f (ground (arith, long)) (ground (arith, broken))
                (λ r a b. wrap_loop-Wrapped fuel width r w a b))
        | inr whole ↦
            rw (some_left, long, whole)
              (forced_row fuel width rest w f (ground (arith, long))
                (λ r a b. wrap_loop-Wrapped fuel width r w a b))
      ]
    ]

-- For a width above 0 and a line shorter than 2^31, wrap_single_line comes to its end within as
-- many rounds as the line has characters: its rows have at most width characters, and put
-- together, each with one space of its break or with nothing, they are the whole line.
pub wrap_single_line-Wrapped :
    (line : Bytes) (width : ℕ)
    → 0 < width
    → length line < 2 ^ 31
    → Wrapped width (wrap_single_line line width) line
unfolding wrap_single_line
wrap_single_line-Wrapped line width w short = elim (Bool-cases (is_int_le (length line) width)) [
  | inl fits ↦ rw (wide, fits) (last_row line (ground (arith, fits, small)))
  | inr long ↦
      rw (wide, long)
        (wrap_loop-Wrapped (length line) width line w (ground (arith, long, small)) (omega arith))
]
  where
    small : length line % 2 ^ 32 ≡ length line
    small = omega arith

    wide : leb width 0 ≡ false
    wide = ground arith
