-- ===== src/OrderBook/Levels/Laws.antt =====
-- What levels do to a side, price by price, and when a book is well-formed.
use binapi.Prelude.{
  false, ◌≡◌, ◌∙◌, refl, ap, List, [], ◌∷◌, Option, none, some, if◌then◌else◌, arith,
}
use binapi.Decimal.{Decimal, is_zero}
use binapi.OrderBook.{PriceLevel, DepthEvent, OrderBookResponse}
use binapi.OrderBook.Side.{Compare, Side, same, find, IsSorted, AllValues, less, greater}
use binapi.OrderBook.Side.Laws.{
  assign-IsSorted, erase-IsSorted, find-assign, find-erase, assign-AllValues, erase-AllValues,
}
use binapi.OrderBook.Levels.{
  Book, apply_level, apply_levels, apply_event, load_levels, load_snapshot,
}

-- A quantity of zero stands for no level.
abbrev pub quoted : Decimal → Option Decimal
quoted quantity = if is_zero quantity then none else some quantity

abbrev pub IsQuoted : Decimal → Type 0
IsQuoted quantity = is_zero quantity ≡ false

-- No level is stored with no quantity.
abbrev pub AllQuoted : Side → Type 0
AllQuoted = AllValues IsQuoted

module _ (c : Compare) where
  -- The last level at a price decides; a price that no level names keeps what it had.
  abbrev pub decided : Decimal → List PriceLevel → Option Decimal → Option Decimal
  decided price [] old = old
  decided price (level ∷ levels) old =
      decided price levels (if same c price level.price then quoted level.quantity else old)

  apply_level-IsSorted :
      (level : PriceLevel) (side : Side) → IsSorted c side → IsSorted c (apply_level c level side)
  unfolding apply_level
  apply_level-IsSorted level side s = ground (
    arith,
    assign-IsSorted c level.price level.quantity side s,
    erase-IsSorted c level.price side s,
  )

  pub apply_levels-IsSorted :
      (levels : List PriceLevel) (side : Side)
      → IsSorted c side
      → IsSorted c (apply_levels c levels side)
  unfolding apply_levels
  apply_levels-IsSorted [] side s = s
  apply_levels-IsSorted (level ∷ levels) side s =
      apply_levels-IsSorted levels (apply_level c level side) (apply_level-IsSorted level side s)

  find-apply_level :
      (price : Decimal) (level : PriceLevel) (side : Side)
      → IsSorted c side
      → find c price (apply_level c level side)
        ≡ (if same c price level.price then quoted level.quantity else find c price side)
  unfolding apply_level
  find-apply_level price level side s = ground (
    arith,
    find-assign c price level.price level.quantity side,
    find-erase c price level.price side s,
  )

  -- After a list of levels is applied to a sorted side, each price holds what the last level at
  -- that price says: nothing for quantity zero, else the quantity; a price that no level names
  -- holds what it did.
  pub find-apply_levels :
      (price : Decimal) (levels : List PriceLevel) (side : Side)
      → IsSorted c side
      → find c price (apply_levels c levels side) ≡ decided price levels (find c price side)
  unfolding apply_levels
  find-apply_levels price [] side s = refl
  find-apply_levels price (level ∷ levels) side s =
      find-apply_levels price levels (apply_level c level side) (apply_level-IsSorted level side s)
      ∙ ap (decided price levels) (find-apply_level price level side s)

  pub apply_levels-AllQuoted :
      (levels : List PriceLevel) (side : Side)
      → AllQuoted side
      → AllQuoted (apply_levels c levels side)
  unfolding apply_levels apply_level
  apply_levels-AllQuoted [] side a = a
  apply_levels-AllQuoted (level ∷ levels) side a =
      apply_levels-AllQuoted levels (apply_level c level side) (
        ground (
          arith,
          assign-AllValues c IsQuoted level.price level.quantity side,
          erase-AllValues c IsQuoted level.price side a,
        ))

  pub load_levels-IsSorted :
      (levels : List PriceLevel) (side : Side)
      → IsSorted c side
      → IsSorted c (load_levels c levels side)
  unfolding load_levels
  load_levels-IsSorted [] side s = s
  load_levels-IsSorted (level ∷ levels) side s =
      load_levels-IsSorted levels _
        (ground (arith, assign-IsSorted c level.price level.quantity side s))

  pub load_levels-AllQuoted :
      (levels : List PriceLevel) (side : Side)
      → AllQuoted side
      → AllQuoted (load_levels c levels side)
  unfolding load_levels
  load_levels-AllQuoted [] side s = s
  load_levels-AllQuoted (level ∷ levels) side s =
      load_levels-AllQuoted levels _
        (ground (arith, assign-AllValues c IsQuoted level.price level.quantity side))

-- Both sides of a book are in order, with no empty level.
pub record BookIsValid (b : Book) : Type 0 where
  pub bids_sorted : IsSorted greater b.bids
  pub asks_sorted : IsSorted less b.asks
  pub bids_quoted : AllQuoted b.bids
  pub asks_quoted : AllQuoted b.asks

pub apply_event-BookIsValid :
    (e : DepthEvent) (b : Book) → BookIsValid b → BookIsValid (apply_event e b)
unfolding apply_event
apply_event-BookIsValid e b v = record {
  bids_sorted = apply_levels-IsSorted greater e.bids b.bids v.bids_sorted;
  asks_sorted = apply_levels-IsSorted less e.asks b.asks v.asks_sorted;
  bids_quoted = apply_levels-AllQuoted greater e.bids b.bids v.bids_quoted;
  asks_quoted = apply_levels-AllQuoted less e.asks b.asks v.asks_quoted;
}

pub load_snapshot-BookIsValid : (r : OrderBookResponse) → BookIsValid (load_snapshot r)
unfolding load_snapshot
load_snapshot-BookIsValid r = record {
  bids_sorted = load_levels-IsSorted greater r.bids [] tt;
  asks_sorted = load_levels-IsSorted less r.asks [] tt;
  bids_quoted = load_levels-AllQuoted greater r.bids [] tt;
  asks_quoted = load_levels-AllQuoted less r.asks [] tt;
}
