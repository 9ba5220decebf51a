-- ===== src/Prelude/Text.antt =====
-- Texts as lists of character codes.
use Prim.Native.Char.{code}
use Prim.Native.String.{String}
use binapi.Prelude.{ℕ, ◌≡◌, refl, Bool, true, false, ◌&&◌, ◌==◌, List, [], ◌∷◌, arith}

abbrev pub Bytes : Type 0
Bytes = List ℕ

-- The codes of a literal, which are its bytes where it is ASCII.
abbrev pub codes : String → Bytes
codes String.[] = []
codes (String.◌∷◌ c s) = code c ∷ codes s

abbrev pub same_text : Bytes → Bytes → Bool
same_text [] [] = true
same_text [] (d ∷ t) = false
same_text (c ∷ s) [] = false
same_text (c ∷ s) (d ∷ t) = c == d && same_text s t

pub same_text_eq : (s t : Bytes) → same_text s t ≡ true → s ≡ t
same_text_eq [] [] h = refl
same_text_eq [] (d ∷ t) h = absurd (ground arith)
same_text_eq (c ∷ s) [] h = absurd (ground arith)
same_text_eq (c ∷ s) (d ∷ t) h = ground (arith, λ (k : same_text s t ≡ true). same_text_eq s t k)

pub same_text_refl : (s : Bytes) → same_text s s ≡ true
same_text_refl [] = refl
same_text_refl (c ∷ s) = ground (arith, same_text_refl s)
