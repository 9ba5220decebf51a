-- ===== src/Spot/PairsList/Choice.antt =====
-- Which pairs the white list chooses, and which of them the black list leaves.
use binapi.Prelude.{
  ◌≡◌, refl, Bool, true, false, ◌&&◌, ◌||◌, not, List, [], ◌∷◌, arith, Bool-cases, inl, inr, subst,
}
use binapi.Prelude.Text.{Bytes, same_text, same_text_eq, same_text_refl}
use binapi.Spot.PairsList.{
  Symbol, pair_in_pairs, insert, Item, quoted, based, named, is_white, is_black, count, blank,
  insert_white, erase_black, insert_not_black,
}

pub pair_in_pairs-insert :
    (pair k : Bytes) (res : List Bytes)
    → pair_in_pairs (insert pair res) k ≡ (same_text k pair || pair_in_pairs res k)
pair_in_pairs-insert pair k res = elim (Bool-cases (same_text k pair)) [
  | inl same ↦
      let e = same_text_eq k pair same in
      ground (arith, subst (λ x. pair_in_pairs res x ≡ pair_in_pairs res k) e refl)
  | inr other ↦ ground arith
]

-- Some item is a black one for the name.
abbrev pub black : List Item → Bytes → Bool
black [] k = false
black (i ∷ items) k = is_black i k || black items k

pub pair_in_pairs-erase_black :
    (item : Item) (res : List Bytes) (k : Bytes)
    → pair_in_pairs (erase_black item res) k ≡ (pair_in_pairs res k && not (is_black item k))
unfolding erase_black
pair_in_pairs-erase_black item [] k = refl
pair_in_pairs-erase_black item (pair ∷ res) k = elim (Bool-cases (same_text k pair)) [
  | inl same ↦
      let e = same_text_eq k pair same in
      ground (
        arith,
        pair_in_pairs-erase_black item res k,
        subst (λ x. is_black item x ≡ is_black item k) e refl,
      )
  | inr other ↦ ground (arith, pair_in_pairs-erase_black item res k)
]

-- A symbol of the name passes the test of an item against the black list.
abbrev pub spared_by : Item → List Symbol → Bytes → Bool
spared_by i [] k = false
spared_by i (s ∷ symbols) k = same_text k s.name && not (is_black i s.name) || spared_by i symbols k

abbrev pub spared : List Item → List Symbol → Bytes → Bool
spared [] symbols k = false
spared (i ∷ items) symbols k = spared_by i symbols k || spared items symbols k

pub pair_in_pairs-insert_not_black :
    (i : Item) (symbols : List Symbol) (res : List Bytes) (k : Bytes)
    → pair_in_pairs (insert_not_black i symbols res) k
      ≡ (spared_by i symbols k || pair_in_pairs res k)
unfolding insert_not_black
pair_in_pairs-insert_not_black i [] res k = refl
pair_in_pairs-insert_not_black i (s ∷ symbols) res k = ground (
  arith,
  pair_in_pairs-insert_not_black i symbols res k,
  pair_in_pairs-insert_not_black i symbols (insert s.name res) k,
  pair_in_pairs-insert s.name k res,
)

-- A symbol of the name passes the test of an item of the white list.
abbrev pub chosen_by : Item → List Symbol → Bytes → Bool
chosen_by i [] k = false
chosen_by i (s ∷ symbols) k = is_white i s && same_text k s.name || chosen_by i symbols k

abbrev pub chosen : List Item → List Symbol → Bytes → Bool
chosen [] symbols k = false
chosen (i ∷ items) symbols k = chosen_by i symbols k || chosen items symbols k

-- An item is not empty, and a plain name is one of the exchange.
abbrev pub IsKnown : List Symbol → Item → Type 0
IsKnown symbols (quoted q) = Unit {0}
IsKnown symbols (based b) = Unit {0}
IsKnown symbols (named n) = count symbols n ≡ true
IsKnown symbols blank = ⊥

abbrev pub AllKnown : List Symbol → List Item → Type 0
AllKnown symbols [] = Unit {0}
AllKnown symbols (i ∷ items) = IsKnown symbols i × AllKnown symbols items

-- No item is empty.
abbrev pub are_full : List Item → Bool
are_full [] = true
are_full (quoted q ∷ items) = are_full items
are_full (based b ∷ items) = are_full items
are_full (named n ∷ items) = are_full items
are_full (blank ∷ items) = false

pub pair_in_pairs-insert_white :
    (i : Item) (symbols : List Symbol) (res : List Bytes) (k : Bytes)
    → pair_in_pairs (insert_white i symbols res) k ≡ (chosen_by i symbols k || pair_in_pairs res k)
unfolding insert_white
pair_in_pairs-insert_white i [] res k = refl
pair_in_pairs-insert_white i (s ∷ symbols) res k = ground (
  arith,
  pair_in_pairs-insert_white i symbols res k,
  pair_in_pairs-insert_white i symbols (insert s.name res) k,
  pair_in_pairs-insert s.name k res,
)

pub chosen_by_name :
    (n : Bytes) (symbols : List Symbol) (k : Bytes)
    → chosen_by (named n) symbols k ≡ (same_text k n && count symbols n)
chosen_by_name n [] k = ground arith
chosen_by_name n (s ∷ symbols) k = elim (Bool-cases (same_text s.name n)) [
  | inl same ↦
      let e = same_text_eq s.name n same in
      ground (
        arith,
        chosen_by_name n symbols k,
        subst (λ x. same_text x s.name ≡ true) e (same_text_refl s.name),
        subst (λ x. same_text k s.name ≡ same_text k x) e refl,
      )
  | inr other ↦ elim (Bool-cases (same_text n s.name)) [
    | inl same ↦
        let e = same_text_eq n s.name same in
        ground (arith, subst (λ x. same_text x n ≡ true) e (same_text_refl n))
    | inr apart ↦ ground (arith, chosen_by_name n symbols k)
  ]
]
