-- ===== src/Fapi/Streams.antt =====
-- include/binapi2/fapi/stream_category.hpp, include/binapi2/fapi/types/subscriptions.hpp,
-- include/binapi2/fapi/types/detail/symbol.hpp and include/binapi2/fapi/streams/stream_traits.hpp: the category, the topic and the target of a
-- subscription. The event types are left out. `tolower` and `toupper` are those of the "C" locale. A
-- topic is a `Name`, since `to_string` of an enum can throw.
pub mod Topics
use binapi.Prelude.{
  ℕ, suc, ◌+◌, ◌-◌, Bool, true, false, ◌&&◌, List, [], ◌∷◌, ◌++◌, leb, if◌then◌else◌,
}
use binapi.Prelude.Int.{ℤ, pos, negsuc}
use binapi.Prelude.Text.{Bytes, codes}
use binapi.Decimal.Print.{integer_text}
use binapi.Fapi.Enums.{Name, ok, throws, to_string}
use binapi.Fapi.Enums.Contracts.{ContractType, contract_type_meta}
use binapi.Fapi.Enums.Periods.{KlineInterval, kline_interval_meta}

pub data StreamCategory : Type 0 where
  public_ market private_ : StreamCategory

abbrev pub category_single_target : StreamCategory → Bytes
category_single_target public_ = codes "/public/ws"
category_single_target market = codes "/market/ws"
category_single_target private_ = codes "/private/ws"

abbrev pub category_combined_target : StreamCategory → Bytes
category_combined_target public_ = codes "/public/stream"
category_combined_target market = codes "/market/stream"
category_combined_target private_ = codes "/private/stream"

abbrev pub lower_char : ℕ → ℕ
lower_char c = if leb b'A' c && leb c b'Z' then c + 32 else c

abbrev pub upper_char : ℕ → ℕ
upper_char c = if leb b'a' c && leb c b'z' then c - 32 else c

unfoldable pub to_lower : Bytes → Bytes
to_lower [] = []
to_lower (c ∷ s) = lower_char c ∷ to_lower s

unfoldable pub to_upper : Bytes → Bytes
to_upper [] = []
to_upper (c ∷ s) = upper_char c ∷ to_upper s

abbrev pub symbol_t : Bytes → Bytes
unfolding to_upper
symbol_t s = to_upper s

-- The subscriptions, each with its fields; a symbol is the text of a `symbol_t`.
pub data Subscription : Type 0 where
  aggregate_trade book_ticker : Bytes → Subscription
  mark_price : Bytes → Bool → Subscription
  mini_ticker ticker : Bytes → Subscription
  diff_book_depth : Bytes → Bytes → Subscription
  partial_book_depth : Bytes → ℤ → Bytes → Subscription
  kline : Bytes → KlineInterval → Subscription
  liquidation_order composite_index asset_index rpi_diff_book_depth : Bytes → Subscription
  all_market_mini_ticker all_market_ticker all_book_ticker : Subscription
  all_market_liquidation_order : Subscription
  all_market_mark_price : Bool → Subscription
  contract_info all_asset_index trading_session : Subscription
  continuous_contract_kline : Bytes → ContractType → KlineInterval → Subscription

abbrev pub category : Subscription → StreamCategory
category (book_ticker symbol) = public_
category (diff_book_depth symbol speed) = public_
category (partial_book_depth symbol levels speed) = public_
category (rpi_diff_book_depth symbol) = public_
category all_book_ticker = public_
category (aggregate_trade symbol) = market
category (mark_price symbol every_1s) = market
category (mini_ticker symbol) = market
category (ticker symbol) = market
category (kline symbol interval) = market
category (liquidation_order symbol) = market
category (composite_index symbol) = market
category (asset_index symbol) = market
category all_market_mini_ticker = market
category all_market_ticker = market
category all_market_liquidation_order = market
category (all_market_mark_price every_1s) = market
category contract_info = market
category all_asset_index = market
category trading_session = market
category (continuous_contract_kline pair contract_type interval) = market

-- `std::to_string` of an `int`.
abbrev pub int_text : ℤ → Bytes
int_text (pos n) = integer_text n
int_text (negsuc n) = b'-' ∷ integer_text (suc n)

-- A text in front of one that may have thrown.
abbrev pub in_front : Bytes → Name → Name
in_front s (ok text) = ok (s ++ text)
in_front s (throws value) = throws value

abbrev pub join : Name → Name → Name
join (ok s) n = in_front s n
join (throws value) n = throws value

unfoldable pub topic : Subscription → Name
unfolding to_lower
topic (aggregate_trade symbol) = ok (to_lower symbol ++ codes "@aggTrade")
topic (book_ticker symbol) = ok (to_lower symbol ++ codes "@bookTicker")
topic (mark_price symbol every_1s) =
    ok (to_lower symbol ++ (if every_1s then codes "@markPrice@1s" else codes "@markPrice"))
topic (mini_ticker symbol) = ok (to_lower symbol ++ codes "@miniTicker")
topic (ticker symbol) = ok (to_lower symbol ++ codes "@ticker")
topic (diff_book_depth symbol speed) =
    in_front (to_lower symbol) (in_front (codes "@depth@") (ok speed))
topic (partial_book_depth symbol levels speed) =
    in_front (to_lower symbol)
      (in_front (codes "@depth") (in_front (int_text levels) (in_front (codes "@") (ok speed))))
topic (kline symbol interval) =
    in_front (to_lower symbol) (in_front (codes "@kline_") (to_string interval))
topic (liquidation_order symbol) = ok (to_lower symbol ++ codes "@forceOrder")
topic (composite_index symbol) = ok (to_lower symbol ++ codes "@compositeIndex")
topic (asset_index symbol) = ok (to_lower symbol ++ codes "@assetIndex")
topic (rpi_diff_book_depth symbol) = ok (to_lower symbol ++ codes "@rpiDepth")
topic all_market_mini_ticker = ok (codes "!miniTicker@arr")
topic all_market_ticker = ok (codes "!ticker@arr")
topic all_book_ticker = ok (codes "!bookTicker")
topic all_market_liquidation_order = ok (codes "!forceOrder@arr")
topic (all_market_mark_price every_1s) =
    ok (if every_1s then codes "!markPrice@arr@1s" else codes "!markPrice@arr")
topic contract_info = ok (codes "!contractInfo")
topic all_asset_index = ok (codes "!assetIndex@arr")
topic trading_session = ok (codes "!tradingSession")
topic (continuous_contract_kline pair contract_type interval) =
    join (in_front (to_lower pair ++ codes "_") (to_string contract_type))
      (in_front (codes "@continuousKline_") (to_string interval))

abbrev pub target_from_category : StreamCategory → Name → Name
target_from_category c topic_ = in_front (category_single_target c ++ codes "/") topic_

unfoldable pub target : Subscription → Name
unfolding topic
target sub = target_from_category (category sub) (topic sub)
