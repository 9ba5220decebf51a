-- ===== src/Spot/PairsList.antt =====
-- src/binapi/pairslist.cpp: the choice of pairs by a white list and a black list.
-- The items are those of `split_string`, a wrapper of a library. `none` is a run without a defined
-- result: an assertion fails, or the first character of an empty item is read. A set of names is a
-- list that `insert` keeps free of repetitions; its order is not that of `std::set`, and nothing here
-- depends on it.
pub mod Choice
pub mod Lists
pub mod Process
use binapi.Prelude.{
  ℕ, suc, ◌-◌, Bool, true, false, ◌&&◌, ◌||◌, not, List, [], ◌∷◌, Option, none, some, ltb, leb,
  ◌==◌, if◌then◌else◌, length, take, drop,
}
use binapi.Prelude.Text.{Bytes, same_text}

-- A symbol of `exchange_info_t`, with its name.
pub record Symbol : Type 0 where
  pub name : Bytes
  pub base_asset : Bytes
  pub quote_asset : Bytes

abbrev pub starts_with : Bytes → Bytes → Bool
starts_with s prefix = same_text (take (length prefix) s) prefix

abbrev pub ends_with : Bytes → Bytes → Bool
ends_with s suffix =
    leb (length suffix) (length s) && same_text (drop (length s - length suffix) s) suffix

-- `pair_in_pairs`.
abbrev pub pair_in_pairs : List Bytes → Bytes → Bool
pair_in_pairs [] pair = false
pair_in_pairs (p ∷ pairs) pair = same_text pair p || pair_in_pairs pairs pair

abbrev pub insert : Bytes → List Bytes → List Bytes
insert pair res = if pair_in_pairs res pair then res else pair ∷ res

-- The kinds of item: `*USDT`, `BTC*`, a name, and an empty item, which has no first character.
pub data Item : Type 0 where
  quoted : Bytes → Item
  based : Bytes → Item
  named : Bytes → Item
  blank : Item

abbrev pub drop_last : Bytes → Bytes
drop_last [] = []
drop_last (c ∷ []) = []
drop_last (c ∷ d ∷ s) = c ∷ drop_last (d ∷ s)

abbrev pub back_is_star : Bytes → Bool
back_is_star [] = false
back_is_star (c ∷ []) = c == b'*'
back_is_star (c ∷ d ∷ s) = back_is_star (d ∷ s)

abbrev pub item_of : Bytes → Item
item_of [] = blank
item_of (c ∷ s) =
    if c == b'*'
    then quoted s
    else if back_is_star (c ∷ s)
    then based (drop_last (c ∷ s))
    else named (c ∷ s)

-- The test of a symbol by an item of the white list, and of a name by one of the black list.
abbrev pub is_white : Item → Symbol → Bool
is_white (quoted q) s = same_text s.quote_asset q
is_white (based b) s = same_text s.base_asset b
is_white (named n) s = same_text s.name n
is_white blank s = false

abbrev pub is_black : Item → Bytes → Bool
is_black (quoted q) pair = ends_with pair q
is_black (based b) pair = starts_with pair b
is_black (named n) pair = same_text n pair
is_black blank pair = false

abbrev pub count : List Symbol → Bytes → Bool
count [] name = false
count (s ∷ symbols) name = same_text name s.name || count symbols name

-- The loops over the symbols and over the chosen names.
unfoldable pub insert_white : Item → List Symbol → List Bytes → List Bytes
insert_white item [] res = res
insert_white item (s ∷ symbols) res =
    insert_white item symbols (if is_white item s then insert s.name res else res)

unfoldable pub erase_black : Item → List Bytes → List Bytes
erase_black item [] = []
erase_black item (pair ∷ res) =
    let rest = erase_black item res in if is_black item pair then rest else pair ∷ rest

unfoldable pub insert_not_black : Item → List Symbol → List Bytes → List Bytes
insert_not_black item [] res = res
insert_not_black item (s ∷ symbols) res =
    insert_not_black item symbols (if is_black item s.name then res else insert s.name res)

-- One item of each list; a name is asserted to be one of the exchange, but in the late list.
abbrev pub white_item : List Symbol → Item → List Bytes → Option (List Bytes)
white_item symbols (quoted q) res = some (insert_white (quoted q) symbols res)
white_item symbols (based b) res = some (insert_white (based b) symbols res)
white_item symbols (named n) res = if count symbols n then some (insert n res) else none
white_item symbols blank res = none

abbrev pub black_item : List Symbol → Item → List Bytes → Option (List Bytes)
black_item symbols (quoted q) res = some (erase_black (quoted q) res)
black_item symbols (based b) res = some (erase_black (based b) res)
black_item symbols (named n) res =
    if count symbols n then some (erase_black (named n) res) else none
black_item symbols blank res = none

abbrev pub late_item : List Symbol → Item → List Bytes → Option (List Bytes)
late_item symbols (quoted q) res = some (insert_not_black (quoted q) symbols res)
late_item symbols (based b) res = some (insert_not_black (based b) symbols res)
late_item symbols (named n) res = some (insert_not_black (named n) symbols res)
late_item symbols blank res = none

unfoldable pub white_list : List Symbol → List Item → List Bytes → Option (List Bytes)
white_list symbols [] res = some res
white_list symbols (i ∷ items) res = elim (white_item symbols i res) [
  | none ↦ none
  | some r ↦ white_list symbols items r
]

unfoldable pub black_list : List Symbol → List Item → List Bytes → Option (List Bytes)
black_list symbols [] res = some res
black_list symbols (i ∷ items) res = elim (black_item symbols i res) [
  | none ↦ none
  | some r ↦ black_list symbols items r
]

unfoldable pub late_list : List Symbol → List Item → List Bytes → Option (List Bytes)
late_list symbols [] res = some res
late_list symbols (i ∷ items) res = elim (late_item symbols i res) [
  | none ↦ none
  | some r ↦ late_list symbols items r
]

abbrev pub items_of : List Bytes → List Item
items_of [] = []
items_of (pit ∷ p) = item_of pit ∷ items_of p

-- `p.size() == 1 && p.front() == "*"`.
abbrev pub is_star : List Bytes → Bool
is_star [] = false
is_star (pit ∷ []) = same_text pit (b'*' ∷ [])
is_star (pit ∷ next ∷ p) = false

abbrev pub is_empty : {A : Type 0} → List A → Bool
is_empty [] = true
is_empty (x ∷ xs) = false

abbrev pub every_name : List Symbol → List Bytes → List Bytes
every_name [] res = res
every_name (s ∷ symbols) res = every_name symbols (insert s.name res)

-- What the black list does to the pairs that the white list chose.
unfoldable pub apply_black :
    (Bytes → List Bytes) → Bytes → List Symbol → List Bytes → Option (List Bytes)
unfolding black_list late_list
apply_black split_string blacklist symbols res =
    let p = split_string blacklist in
    if is_empty blacklist
    then some res
    else if is_empty res
    then late_list symbols (items_of p) res
    else if is_star p
    then some []
    else black_list symbols (items_of p) res

-- `process_pairs`; an empty white list fails its assertion.
unfoldable pub process_pairs :
    (Bytes → List Bytes) → Bytes → Bytes → List Symbol → Option (List Bytes)
unfolding white_list apply_black
process_pairs split_string whitelist blacklist symbols =
    let p = split_string whitelist in
    let chosen =
      if is_star p then some (every_name symbols []) else white_list symbols (items_of p) [] in
    if is_empty whitelist
    then none
    else elim chosen [ none ↦ none | some res ↦ apply_black split_string blacklist symbols res ]
