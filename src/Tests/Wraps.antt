-- ===== src/Tests/Wraps.antt =====
-- Wrapped text.
use binapi.Prelude.{◌≡◌, refl, [], ◌∷◌, arith}
use binapi.Prelude.Text.{Bytes, codes}
use binapi.WrapText.{find_back, wrap_loop, wrap_single_line, wrap_lines, split_lines, wrap_each}
use binapi.WrapText.Rows.{Wrapped, wrap_single_line-Wrapped}

abbrev line : Bytes
line = codes "to be or nottobe"

rows : wrap_single_line line 6 ≡ codes "to be" ∷ codes "or" ∷ codes "nottob" ∷ codes "e" ∷ []
unfolding wrap_single_line wrap_loop find_back
rows = refl

paragraphs : wrap_lines (codes "ab cd\n\nx") 3 ≡ codes "ab" ∷ codes "cd" ∷ [] ∷ codes "x" ∷ []
unfolding wrap_lines split_lines wrap_each wrap_single_line wrap_loop find_back
paragraphs = refl

wrap_single_line-Wrapped_example : Wrapped 6 (wrap_single_line line 6) line
wrap_single_line-Wrapped_example = wrap_single_line-Wrapped line 6 (omega arith) (omega arith)
