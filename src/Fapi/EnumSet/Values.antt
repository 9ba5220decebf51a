-- ===== src/Fapi/EnumSet/Values.antt =====
-- What the iterator of an enum set visits.
use binapi.Prelude.{
  ℕ, zero, suc, ◌+◌, ◌<◌, ◌≤◌, ◌≡◌, ◌∙◌, refl, sym, ap, Bool, true, false, List, [], ◌∷◌, ltb, ◌==◌,
  if◌then◌else◌, length, get_or, drop, arith, Bool-cases, inl, inr,
}
use binapi.Fapi.EnumSet.{Bits, size, advance, iterate, values}

-- The positions of the set bits, counted from `i`.
abbrev pub positions : ℕ → Bits → List ℕ
positions i [] = []
positions i (true ∷ bits) = i ∷ positions (suc i) bits
positions i (false ∷ bits) = positions (suc i) bits

drop_step :
    (bits : Bits) (i : ℕ) → i < length bits → drop i bits ≡ get_or bits i false ∷ drop (suc i) bits
drop_step [] i h = absurd (omega arith)
drop_step (b ∷ bits) zero h = refl
drop_step (b ∷ bits) (suc i) h = drop_step bits i (omega arith)

drop-length : (bits : Bits) → drop (length bits) bits ≡ []
drop-length [] = refl
drop-length (b ∷ bits) = drop-length bits

-- What is left to visit from a position where the iterator stands.
abbrev left_at : Bits → ℕ → List ℕ
left_at bits here =
    if here == length bits then [] else here ∷ positions (suc here) (drop (suc here) bits)

at_end : (bits : Bits) (pos : ℕ) → pos ≡ length bits → positions pos (drop pos bits) ≡ []
at_end bits pos h = rw (h, drop-length bits) refl

positions_step :
    (i : ℕ) (b : Bool) (bits : Bits)
    → positions i (b ∷ bits) ≡ (if b then i ∷ positions (suc i) bits else positions (suc i) bits)
positions_step i true bits = refl
positions_step i false bits = refl

at_value :
    (bits : Bits) (pos : ℕ)
    → pos < length bits
    → positions pos (drop pos bits) ≡ (
        if get_or bits pos false
        then pos ∷ positions (suc pos) (drop (suc pos) bits)
        else positions (suc pos) (drop (suc pos) bits))
at_value bits pos h =
    ap (positions pos) (drop_step bits pos h)
    ∙ positions_step pos (get_or bits pos false) (drop (suc pos) bits)

advance_lem :
    (fuel : ℕ) (bits : Bits) (pos : ℕ)
    → length bits ≤ fuel + pos
    → pos ≤ length bits
    → (positions pos (drop pos bits) ≡ left_at bits (advance fuel bits pos))
      × (pos ≤ advance fuel bits pos)
      × (advance fuel bits pos ≤ length bits)
unfolding advance
advance_lem zero bits pos h k = ground (arith, at_end bits pos (omega arith))
advance_lem (suc fuel) bits pos h k = elim (Bool-cases (ltb pos (length bits))) [
  | inl inside ↦ ground (
    arith,
    at_value bits pos (ground arith),
    advance_lem fuel bits (suc pos) (omega arith) (ground arith),
  )
  | inr outside ↦ ground (arith, at_end bits pos (ground arith))
]

iterate_lem :
    (fuel : ℕ) (bits : Bits) (pos : ℕ)
    → length bits ≤ fuel + pos
    → pos ≤ length bits
    → iterate fuel bits pos ≡ positions pos (drop pos bits)
unfolding iterate
iterate_lem zero bits pos h k = sym (at_end bits pos (omega arith))
iterate_lem (suc fuel) bits pos h k =
    let a = advance_lem (length bits) bits pos (omega arith) k in
    elim (Bool-cases (advance (length bits) bits pos == length bits)) [
      | inl end ↦ ground (arith, a)
      | inr more ↦ ground (
        arith,
        a,
        iterate_lem fuel bits (suc (advance (length bits) bits pos)) (omega (arith, a))
            (ground (arith, a)),
      )
    ]

length-positions : (i : ℕ) (bits : Bits) → length (positions i bits) ≡ size bits
unfolding size
length-positions i [] = refl
length-positions i (true ∷ bits) = ap suc (length-positions (suc i) bits)
length-positions i (false ∷ bits) = length-positions (suc i) bits

-- The iterator of a set visits the positions of the set bits, each once and in rising order, and
-- there are size() of them.
pub values_lem :
    (bits : Bits) → (values bits ≡ positions 0 bits) × (length (values bits) ≡ size bits)
unfolding values
values_lem bits =
    let e = iterate_lem (length bits) bits 0 (omega arith) (omega arith) in
    (e, ap length e ∙ length-positions 0 bits)
