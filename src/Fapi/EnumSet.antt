-- ===== src/Fapi/EnumSet.antt =====
-- include/binapi2/fapi/types/detail/enum_set.hpp: a set of enum values as a bitset.
-- The bitset is the list of its bits. `none` is `assert(i < Capacity)`.
pub mod Laws
pub mod Values
use binapi.Prelude.{
  ℕ, zero, suc, ◌+◌, ◌-◌, ◌<◌, Bool, true, false, ◌&&◌, not, List, [], ◌∷◌, Option, none, some, ltb,
  ◌==◌, if◌then◌else◌, length, replicate, set, get_or,
}
use binapi.Prelude.Text.{Bytes}
use binapi.Fapi.Enums.{EnumMeta}

-- `enum_capacity`: the number of entries, aliases included.
unfoldable pub enum_capacity : {T : Type 0} → EnumMeta T → ℕ
enum_capacity m = length m.entries

unfoldable pub fit_below : {T : Type 0} → EnumMeta T → ℕ → List (Bytes × T) → Bool
fit_below m capacity [] = true
fit_below m capacity (entry ∷ entries) =
    ltb (m.number entry.1) capacity && fit_below m capacity entries

-- `enum_values_fit`, the static assertion.
unfoldable pub enum_values_fit : {T : Type 0} → EnumMeta T → ℕ → Bool
unfolding fit_below
enum_values_fit m capacity = fit_below m capacity m.entries

-- `std::bitset<Capacity>`, with Capacity its length.
abbrev pub Bits : Type 0
Bits = List Bool

unfoldable pub empty_set : ℕ → Bits
empty_set capacity = replicate capacity false

unfoldable pub clear : Bits → Bits
clear bits = replicate (length bits) false

module _ {T : Type 0} (m : EnumMeta T) where
  unfoldable pub contains : T → Bits → Bool
  contains e bits = ltb (m.number e) (length bits) && get_or bits (m.number e) false

  unfoldable pub add : T → Bits → Option Bits
  add e bits = if ltb (m.number e) (length bits) then some (set bits (m.number e) true) else none

  unfoldable pub remove : T → Bits → Option Bits
  remove e bits =
      if ltb (m.number e) (length bits) then some (set bits (m.number e) false) else none

  -- The constructor from a list.
  unfoldable pub add_all : List T → Bits → Option Bits
  unfolding add
  add_all [] bits = some bits
  add_all (e ∷ init) bits = elim (add e bits) [ none ↦ none | some more ↦ add_all init more ]

-- `count()` and `none()`.
unfoldable pub size : Bits → ℕ
size [] = 0
size (true ∷ bits) = suc (size bits)
size (false ∷ bits) = size bits

unfoldable pub is_empty : Bits → Bool
is_empty [] = true
is_empty (b ∷ bits) = not b && is_empty bits

-- `advance`: the first set position from `pos` on, or Capacity. As many rounds as there are bits
-- are enough.
unfoldable pub advance : ℕ → Bits → ℕ → ℕ
advance zero bits pos = pos
advance (suc fuel) bits pos =
    let rest = advance fuel bits (pos + 1) in
    if ltb pos (length bits) && not (get_or bits pos false) then rest else pos

-- `for (auto e : set)`: from `begin()`, with `++`, up to `end()`; the positions it stops at, which
-- are the numbers of the values.
unfoldable pub iterate : ℕ → Bits → ℕ → List ℕ
unfolding advance
iterate zero bits pos = []
iterate (suc fuel) bits pos =
    let here = advance (length bits) bits pos in
    let rest = iterate fuel bits (here + 1) in if here == length bits then [] else here ∷ rest

unfoldable pub values : Bits → List ℕ
unfolding iterate
values bits = iterate (length bits) bits 0
