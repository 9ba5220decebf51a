-- ===== src/WrapText.antt =====
-- examples/binapi2/fapi/async-demo-ui/util/wrap_text.hpp: the wrapping of text to a width. A width of 0 stands for
-- all that are not positive. The index `i` into a line is the text that stands behind it; each round takes
-- a character at least, so that a round for each is enough.
pub mod Rows
use binapi.Prelude.{
  ℕ, zero, suc, ◌+◌, ◌-◌, ◌%◌, ◌^◌, Bool, true, false, ◌&&◌, ◌||◌, List, [], ◌∷◌, ◌++◌, ltb, leb,
  ◌==◌, if◌then◌else◌, length, take, drop,
}
use binapi.Prelude.Text.{Bytes}

-- `isspace` in the "C" locale.
abbrev pub is_space : ℕ → Bool
is_space c = c == b' ' || (leb 9 c && leb c 13)

-- The loop that moves `back` down: how many characters of the window end with its last space, or 0.
unfoldable pub find_back : Bytes → ℕ
find_back [] = 0
find_back (c ∷ window) =
    let back = find_back window in if ltb 0 back then suc back else if is_space c then 1 else 0

unfoldable pub wrap_loop : ℕ → ℕ → Bytes → List Bytes
unfolding find_back
wrap_loop zero width rest = []
wrap_loop (suc fuel) width rest =
    let back = find_back (take width rest) in
    let rows = wrap_loop fuel width (drop (if ltb 0 back then back else width) rest) in
    if leb (length rest) 0
    then []
    else if leb (length rest) width
    then rest ∷ []
    else if ltb 0 back
    then take (back - 1) rest ∷ rows
    else take width rest ∷ rows

-- `static_cast<int>(size) <= width`: the `int` is what is left of the size modulo 2^32, and negative from
-- 2^31 on.
abbrev pub is_int_le : ℕ → ℕ → Bool
is_int_le size width = leb (2 ^ 31) (size % 2 ^ 32) || leb (size % 2 ^ 32) width

unfoldable pub wrap_single_line : Bytes → ℕ → List Bytes
unfolding wrap_loop
wrap_single_line line width =
    if leb width 0 || is_int_le (length line) width
    then line ∷ []
    else wrap_loop (length line) width line

abbrev pub extend_first : ℕ → List Bytes → List Bytes
extend_first c [] = (c ∷ []) ∷ []
extend_first c (line ∷ lines) = (c ∷ line) ∷ lines

-- The parts of a text between its newlines, that `find` gives one by one.
unfoldable pub split_lines : Bytes → List Bytes
split_lines [] = [] ∷ []
split_lines (c ∷ content) =
    let lines = split_lines content in if c == b'\n' then [] ∷ lines else extend_first c lines

unfoldable pub wrap_each : List Bytes → ℕ → List Bytes
unfolding wrap_single_line
wrap_each [] width = []
wrap_each (line ∷ lines) width = wrap_single_line line width ++ wrap_each lines width

unfoldable pub wrap_lines : Bytes → ℕ → List Bytes
unfolding split_lines wrap_each
wrap_lines content width = wrap_each (split_lines content) width
