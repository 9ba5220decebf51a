-- ===== src/Tests/Pairs.antt =====
-- The theorems on the choice of pairs for two symbols of an exchange.
use binapi.Prelude.{◌≡◌, refl, List, [], ◌∷◌, some, ◌&&◌, not}
use binapi.Prelude.Text.{Bytes, codes}
use binapi.Spot.PairsList.{Symbol, items_of, white_list, insert_white, process_pairs}
use binapi.Spot.PairsList.Choice.{chosen, black, spared}
use binapi.Spot.PairsList.Lists.{Gives}
use binapi.Spot.PairsList.Process.{process_both, process_missed}

abbrev exchange : List Symbol
exchange =
    record { name = codes "ADABTC"; base_asset = codes "ADA"; quote_asset = codes "BTC" }
    ∷ record { name = codes "BNBADA"; base_asset = codes "BNB"; quote_asset = codes "ADA" }
    ∷ []

-- A text of one item.
abbrev one_item : Bytes → List Bytes
one_item s = s ∷ []

process_both_example :
    Gives (process_pairs one_item (codes "*ADA") (codes "BNB*") exchange) (λ pair.
      chosen (items_of (one_item (codes "*ADA"))) exchange pair
      && not (black (items_of (one_item (codes "BNB*"))) pair))
process_both_example =
    process_both one_item exchange (codes "*ADA") (codes "BNB*") (codes "BNBADA") refl refl refl
      refl (tt, tt) (tt, tt) refl

missed : white_list exchange (items_of (one_item (codes "*USD"))) [] ≡ some []
unfolding white_list insert_white
missed = refl

process_missed_example :
    Gives
      (process_pairs one_item (codes "*USD") (codes "BNB*") exchange)
      (spared (items_of (one_item (codes "BNB*"))) exchange)
process_missed_example =
    process_missed one_item exchange (codes "*USD") (codes "BNB*") refl refl refl missed refl
