-- ===== src/Fapi/Enums/Laws.antt =====
-- What it takes for the names of an enum to be read back.
pub mod Orders
pub mod Matching
pub mod Contracts
pub mod Periods
pub mod Incomes
pub mod Events
pub mod Names
use binapi.Prelude.{
  ℕ, ◌≡◌, ◌∙◌, sym, subst, List, [], ◌∷◌, Bool, true, false, Option, none, some, ◌==◌, ◌&&◌,
  if◌then◌else◌,
}
use binapi.Prelude.Text.{Bytes, same_text}
use binapi.Fapi.Enums.{EnumMeta, Name, ok, throws, to_string}

-- The value of the first entry with a name.
abbrev pub named : {T : Type 0} → Bytes → List (Bytes × T) → Option T
named text [] = none
named text (entry ∷ entries) = if same_text text entry.0 then some entry.1 else named text entries

-- The name is in the table, with the value.
abbrev pub IsRead : {T : Type 0} → List (Bytes × T) → Name → T → Type 0
IsRead entries (ok text) v = named text entries ≡ some v
IsRead entries (throws n) v = ⊥

-- Every value has a name that is read as the value.
abbrev pub IsLawful : {T : Type 0} → EnumMeta T → Type 0
IsLawful {T} m = (v : T) → IsRead m.entries (to_string ⦃m = m⦄ v) v
