-- ===== src/Spot/PairsList/Process.antt =====
-- The pairs that `process_pairs` gives.
use binapi.Prelude.{◌≡◌, ◌∙◌, refl, true, false, ◌&&◌, not, List, [], ◌∷◌, some, arith}
use binapi.Prelude.Text.{Bytes}
use binapi.Spot.PairsList.{
  Symbol, pair_in_pairs, white_list, black_list, late_list, items_of, is_star, is_empty,
  apply_black, process_pairs,
}
use binapi.Spot.PairsList.Choice.{black, spared, chosen, are_full, AllKnown}
use binapi.Spot.PairsList.Lists.{Gives, white_list-Gives, black_list-Gives, late_list-Gives}

not_empty : (res : List Bytes) (k : Bytes) → pair_in_pairs res k ≡ true → is_empty res ≡ false
not_empty [] k h = absurd (ground arith)
not_empty (p ∷ res) k h = refl

module _ (split_string : Bytes → List Bytes) (symbols : List Symbol) where
  apply_black_list :
      (blacklist : Bytes) (res : List Bytes)
      → is_empty blacklist ≡ false
      → is_empty res ≡ false
      → is_star (split_string blacklist) ≡ false
      → apply_black split_string blacklist symbols res
        ≡ black_list symbols (items_of (split_string blacklist)) res
  unfolding apply_black
  apply_black_list blacklist res b e s = rw (b, e, s) refl

  apply_late_list :
      (blacklist : Bytes)
      → is_empty blacklist ≡ false
      → apply_black split_string blacklist symbols []
        ≡ late_list symbols (items_of (split_string blacklist)) []
  unfolding apply_black
  apply_late_list blacklist b = rw b refl

  process_chosen :
      (whitelist blacklist : Bytes) (res : List Bytes)
      → is_empty whitelist ≡ false
      → is_star (split_string whitelist) ≡ false
      → white_list symbols (items_of (split_string whitelist)) [] ≡ some res
      → process_pairs split_string whitelist blacklist symbols
        ≡ apply_black split_string blacklist symbols res
  unfolding process_pairs
  process_chosen whitelist blacklist res w s h = rw (w, s, h) refl

  -- If neither text is empty, neither list is the one item "*", no item in them is empty and each
  -- plain name is one of the exchange, and an item of the white list chooses some pair, then
  -- process_pairs gives, with no failed assertion and no undefined step, the pairs that an item of
  -- the white list chooses and no item of the black list names.
  pub process_both :
      (whitelist blacklist k : Bytes)
      → is_empty whitelist ≡ false
      → is_empty blacklist ≡ false
      → is_star (split_string whitelist) ≡ false
      → is_star (split_string blacklist) ≡ false
      → AllKnown symbols (items_of (split_string whitelist))
      → AllKnown symbols (items_of (split_string blacklist))
      → chosen (items_of (split_string whitelist)) symbols k ≡ true
      → Gives (process_pairs split_string whitelist blacklist symbols) (λ pair.
        chosen (items_of (split_string whitelist)) symbols pair
        && not (black (items_of (split_string blacklist)) pair))
  process_both whitelist blacklist k w b sw sb kw kb c =
      let white = white_list-Gives symbols (items_of (split_string whitelist)) [] kw in
      let left = black_list-Gives symbols (items_of (split_string blacklist)) white.pairs kb in
      let any = not_empty white.pairs k (ground (arith, white.members k, c)) in
      record {
        pairs = left.pairs;
        returned =
            process_chosen whitelist blacklist white.pairs w sw white.returned
            ∙ apply_black_list blacklist white.pairs b any sb
            ∙ left.returned;
        members = λ pair. ground (arith, left.members pair, white.members pair);
      }

  -- If neither text is empty, the white list is not the one item "*", it chooses no pair, and no
  -- item of the black list is empty, then process_pairs gives, with no failed assertion and no
  -- undefined step, each pair of the exchange that at least one item of the black list does not
  -- name.
  pub process_missed :
      (whitelist blacklist : Bytes)
      → is_empty whitelist ≡ false
      → is_empty blacklist ≡ false
      → is_star (split_string whitelist) ≡ false
      → white_list symbols (items_of (split_string whitelist)) [] ≡ some []
      → are_full (items_of (split_string blacklist)) ≡ true
      → Gives
          (process_pairs split_string whitelist blacklist symbols)
          (spared (items_of (split_string blacklist)) symbols)
  process_missed whitelist blacklist w b sw none_chosen full =
      let late = late_list-Gives symbols (items_of (split_string blacklist)) [] full in
      record {
        pairs = late.pairs;
        returned =
            process_chosen whitelist blacklist [] w sw none_chosen
            ∙ apply_late_list blacklist b
            ∙ late.returned;
        members = λ pair. ground (arith, late.members pair);
      }
