-- ===== src/Spot/PairsList/Lists.antt =====
-- What a whole white list chooses and a whole black list leaves.
use binapi.Prelude.{◌≡◌, refl, Bool, true, ◌&&◌, ◌||◌, not, List, [], ◌∷◌, Option, some, arith}
use binapi.Prelude.Text.{Bytes}
use binapi.Spot.PairsList.{
  Symbol, pair_in_pairs, insert, Item, quoted, based, named, blank, insert_white, erase_black,
  insert_not_black, white_item, late_item, late_list, black_item, white_list, black_list,
}
use binapi.Spot.PairsList.Choice.{
  chosen_by, chosen, black, spared, are_full, pair_in_pairs-insert_not_black, IsKnown, AllKnown,
  chosen_by_name, pair_in_pairs-insert, pair_in_pairs-erase_black, pair_in_pairs-insert_white,
}

-- A defined result, and the names it has.
pub record Gives (result : Option (List Bytes)) (has : Bytes → Bool) : Type 0 where
  pub pairs : List Bytes
  pub returned : result ≡ some pairs
  pub members : (k : Bytes) → pair_in_pairs pairs k ≡ has k

white_item-Gives :
    (symbols : List Symbol) (i : Item) (res : List Bytes)
    → IsKnown symbols i
    → Gives (white_item symbols i res) (λ k. chosen_by i symbols k || pair_in_pairs res k)
white_item-Gives symbols (quoted q) res h = record {
  pairs = insert_white (quoted q) symbols res;
  returned = refl;
  members = pair_in_pairs-insert_white (quoted q) symbols res;
}
white_item-Gives symbols (based b) res h = record {
  pairs = insert_white (based b) symbols res;
  returned = refl;
  members = pair_in_pairs-insert_white (based b) symbols res;
}
white_item-Gives symbols (named n) res h = record {
  pairs = insert n res;
  returned = rw h refl;
  members = λ k. ground (arith, chosen_by_name n symbols k, pair_in_pairs-insert n k res);
}
white_item-Gives symbols blank res h = absurd h

pub white_list-Gives :
    (symbols : List Symbol) (items : List Item) (res : List Bytes)
    → AllKnown symbols items
    → Gives (white_list symbols items res) (λ k. chosen items symbols k || pair_in_pairs res k)
unfolding white_list
white_list-Gives symbols [] res h = record { pairs = res; returned = refl; members = λ k. refl }
white_list-Gives symbols (i ∷ items) res h =
    let one = white_item-Gives symbols i res h.0 in
    let rest = white_list-Gives symbols items one.pairs h.1 in
    record {
      pairs = rest.pairs;
      returned = rw (one.returned, white_list) rest.returned;
      members = λ k. ground (arith, rest.members k, one.members k);
    }

black_item_known :
    (symbols : List Symbol) (i : Item) (res : List Bytes)
    → IsKnown symbols i
    → black_item symbols i res ≡ some (erase_black i res)
black_item_known symbols (quoted q) res h = refl
black_item_known symbols (based b) res h = refl
black_item_known symbols (named n) res h = rw h refl
black_item_known symbols blank res h = absurd h

pub black_list-Gives :
    (symbols : List Symbol) (items : List Item) (res : List Bytes)
    → AllKnown symbols items
    → Gives (black_list symbols items res) (λ k. pair_in_pairs res k && not (black items k))
unfolding black_list
black_list-Gives symbols [] res h = record {
  pairs = res;
  returned = refl;
  members = λ k. ground arith;
}
black_list-Gives symbols (i ∷ items) res h =
    let rest = black_list-Gives symbols items (erase_black i res) h.1 in
    record {
      pairs = rest.pairs;
      returned = rw (black_item_known symbols i res h.0, black_list) rest.returned;
      members = λ k. ground (arith, rest.members k, pair_in_pairs-erase_black i res k);
    }

late_item_full :
    (symbols : List Symbol) (i : Item) (items : List Item) (res : List Bytes)
    → are_full (i ∷ items) ≡ true
    → (late_item symbols i res ≡ some (insert_not_black i symbols res)) × (are_full items ≡ true)
late_item_full symbols (quoted q) items res h = (refl, h)
late_item_full symbols (based b) items res h = (refl, h)
late_item_full symbols (named n) items res h = (refl, h)
late_item_full symbols blank items res h = absurd (ground arith)

pub late_list-Gives :
    (symbols : List Symbol) (items : List Item) (res : List Bytes)
    → are_full items ≡ true
    → Gives (late_list symbols items res) (λ k. spared items symbols k || pair_in_pairs res k)
unfolding late_list
late_list-Gives symbols [] res h = record { pairs = res; returned = refl; members = λ k. refl }
late_list-Gives symbols (i ∷ items) res h =
    let one = late_item_full symbols i items res h in
    let rest = late_list-Gives symbols items (insert_not_black i symbols res) one.1 in
    record {
      pairs = rest.pairs;
      returned = rw (one.0, late_list) rest.returned;
      members = λ k. ground (arith, rest.members k, pair_in_pairs-insert_not_black i symbols res k);
    }
