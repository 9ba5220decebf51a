-- ===== src/OrderBook/Levels.antt =====
-- `apply_levels` and `apply_event`, which local_order_book.cpp and pipeline_order_book.cpp both
-- define, alike; and the book that both build from a REST snapshot.
pub mod Laws
use binapi.Prelude.{ℕ, Bool, not, List, [], ◌∷◌, if◌then◌else◌}
use binapi.Decimal.{Decimal, is_zero}
use binapi.OrderBook.{PriceLevel, DepthEvent, OrderBookResponse}
use binapi.OrderBook.Side.{Compare, Side, less, greater, assign, erase}

-- `order_book_snapshot`.
pub record Book : Type 0 where
  pub last_update_id : ℕ
  pub bids : Side
  pub asks : Side

pub apply_level : Compare → PriceLevel → Side → Side
apply_level c level side =
    if is_zero level.quantity
    then erase c level.price side
    else assign c level.price level.quantity side

pub apply_levels : Compare → List PriceLevel → Side → Side
apply_levels c [] side = side
apply_levels c (level ∷ levels) side = apply_levels c levels (apply_level c level side)

unfoldable pub apply_event : DepthEvent → Book → Book
apply_event event book = record {
  last_update_id = event.final_update_id;
  bids = apply_levels greater event.bids book.bids;
  asks = apply_levels less event.asks book.asks;
}

-- The loops over the levels of the snapshot: a level with no quantity is left out.
pub load_levels : Compare → List PriceLevel → Side → Side
load_levels c [] side = side
load_levels c (level ∷ levels) side =
    load_levels c levels
      (if not (is_zero level.quantity) then assign c level.price level.quantity side else side)

unfoldable pub load_snapshot : OrderBookResponse → Book
load_snapshot snap = record {
  last_update_id = snap.last_update_id;
  bids = load_levels greater snap.bids [];
  asks = load_levels less snap.asks [];
}
