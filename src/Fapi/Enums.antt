-- ===== src/Fapi/Enums.antt =====
-- include/binapi2/fapi/types/enums.hpp: `to_string` of an enum by its `glz::meta` table.
pub mod Contracts
pub mod Events
pub mod Incomes
pub mod Matching
pub mod Orders
pub mod Periods
pub mod Laws
use binapi.Prelude.{ℕ, List, [], ◌∷◌, ◌==◌, if◌then◌else◌}
use binapi.Prelude.Text.{Bytes}

-- An enum with the numbers of its values, and the names of `glz::enumerate`, in order.
pub record EnumMeta (T : Type 0) : Type 0 where
  pub number : T → ℕ
  pub entries : List (Bytes × T)

-- A name, or the exception `invalid_argument` with the number of the value.
pub data Name : Type 0 where
  ok : Bytes → Name
  throws : ℕ → Name

-- The fold over `||`: it stops at the first entry with the value.
unfoldable pub enum_to_sv_impl : {T : Type 0} ⦃m : EnumMeta T⦄ → T → List (Bytes × T) → Bytes
enum_to_sv_impl ⦃m⦄ value [] = []
enum_to_sv_impl ⦃m⦄ value (entry ∷ entries) =
    let rest = enum_to_sv_impl value entries in
    if m.number entry.1 == m.number value then entry.0 else rest

unfoldable pub name_or_throw : ℕ → Bytes → Name
name_or_throw value [] = throws value
name_or_throw value (c ∷ sv) = ok (c ∷ sv)

unfoldable pub to_string : {T : Type 0} ⦃m : EnumMeta T⦄ → T → Name
unfolding enum_to_sv_impl name_or_throw
to_string ⦃m⦄ value = name_or_throw (m.number value) (enum_to_sv_impl value m.entries)
