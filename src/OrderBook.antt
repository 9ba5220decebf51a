-- ===== src/OrderBook.antt =====
-- include/binapi2/fapi/order_book and src/binapi2/fapi/order_book: the data of the order books.
-- Update ids are `uint64_t` values that the code only compares and copies.
pub mod Side
pub mod Levels
pub mod Sync
pub mod Local
pub mod Pipeline
use binapi.Prelude.{ℕ, List}
use binapi.Decimal.{Decimal}

-- `price_level_t`.
pub record PriceLevel : Type 0 where
  pub price : Decimal
  pub quantity : Decimal

-- The fields of `depth_stream_event_t` that the books read.
pub record DepthEvent : Type 0 where
  pub first_update_id : ℕ
  pub final_update_id : ℕ
  pub prev_final_update_id : ℕ
  pub bids : List PriceLevel
  pub asks : List PriceLevel

-- `order_book_response_t`, the answer of the REST endpoint.
pub record OrderBookResponse : Type 0 where
  pub last_update_id : ℕ
  pub bids : List PriceLevel
  pub asks : List PriceLevel
