-- ===== src/Fapi/Enums/Events.antt =====
-- include/binapi2/fapi/types/enums.hpp: the enums of stream events, sessions and strategies, with the number of each value and
-- the `glz::meta` table of names.
use binapi.Prelude.{ℕ, [], ◌∷◌}
use binapi.Prelude.Text.{codes}
use binapi.Fapi.Enums.{EnumMeta}

pub data MarketEventType : Type 0 where
  agg_trade : MarketEventType
  mark_price_update : MarketEventType
  depth_update : MarketEventType
  mini_ticker_24hr : MarketEventType
  ticker_24hr : MarketEventType
  force_order : MarketEventType
  kline : MarketEventType
  continuous_kline : MarketEventType
  composite_index : MarketEventType
  contract_info : MarketEventType
  asset_index_update : MarketEventType
  book_ticker : MarketEventType
  equity_update : MarketEventType
  commodity_update : MarketEventType
  trading_session : MarketEventType

unfoldable pub market_event_type_number : MarketEventType → ℕ
market_event_type_number MarketEventType.agg_trade = 0
market_event_type_number MarketEventType.mark_price_update = 1
market_event_type_number MarketEventType.depth_update = 2
market_event_type_number MarketEventType.mini_ticker_24hr = 3
market_event_type_number MarketEventType.ticker_24hr = 4
market_event_type_number MarketEventType.force_order = 5
market_event_type_number MarketEventType.kline = 6
market_event_type_number MarketEventType.continuous_kline = 7
market_event_type_number MarketEventType.composite_index = 8
market_event_type_number MarketEventType.contract_info = 9
market_event_type_number MarketEventType.asset_index_update = 10
market_event_type_number MarketEventType.book_ticker = 11
market_event_type_number MarketEventType.equity_update = 12
market_event_type_number MarketEventType.commodity_update = 13
market_event_type_number MarketEventType.trading_session = 14

instance unfoldable pub market_event_type_meta : EnumMeta MarketEventType
unfolding market_event_type_number
market_event_type_meta = record {
  number = market_event_type_number;
  entries =
      (codes "aggTrade", MarketEventType.agg_trade)
      ∷ (codes "markPriceUpdate", MarketEventType.mark_price_update)
      ∷ (codes "depthUpdate", MarketEventType.depth_update)
      ∷ (codes "24hrMiniTicker", MarketEventType.mini_ticker_24hr)
      ∷ (codes "24hrTicker", MarketEventType.ticker_24hr)
      ∷ (codes "forceOrder", MarketEventType.force_order)
      ∷ (codes "kline", MarketEventType.kline)
      ∷ (codes "continuous_kline", MarketEventType.continuous_kline)
      ∷ (codes "compositeIndex", MarketEventType.composite_index)
      ∷ (codes "contractInfo", MarketEventType.contract_info)
      ∷ (codes "assetIndexUpdate", MarketEventType.asset_index_update)
      ∷ (codes "bookTicker", MarketEventType.book_ticker)
      ∷ (codes "EquityUpdate", MarketEventType.equity_update)
      ∷ (codes "CommodityUpdate", MarketEventType.commodity_update)
      ∷ (codes "tradingSession", MarketEventType.trading_session)
      ∷ [];
}

pub data UserEventType : Type 0 where
  account_update : UserEventType
  order_trade_update : UserEventType
  margin_call : UserEventType
  listen_key_expired : UserEventType
  account_config_update : UserEventType
  trade_lite : UserEventType
  algo_update : UserEventType
  conditional_order_trigger_reject : UserEventType
  grid_update : UserEventType
  strategy_update : UserEventType

unfoldable pub user_event_type_number : UserEventType → ℕ
user_event_type_number UserEventType.account_update = 0
user_event_type_number UserEventType.order_trade_update = 1
user_event_type_number UserEventType.margin_call = 2
user_event_type_number UserEventType.listen_key_expired = 3
user_event_type_number UserEventType.account_config_update = 4
user_event_type_number UserEventType.trade_lite = 5
user_event_type_number UserEventType.algo_update = 6
user_event_type_number UserEventType.conditional_order_trigger_reject = 7
user_event_type_number UserEventType.grid_update = 8
user_event_type_number UserEventType.strategy_update = 9

instance unfoldable pub user_event_type_meta : EnumMeta UserEventType
unfolding user_event_type_number
user_event_type_meta = record {
  number = user_event_type_number;
  entries =
      (codes "ACCOUNT_UPDATE", UserEventType.account_update)
      ∷ (codes "ORDER_TRADE_UPDATE", UserEventType.order_trade_update)
      ∷ (codes "MARGIN_CALL", UserEventType.margin_call)
      ∷ (codes "listenKeyExpired", UserEventType.listen_key_expired)
      ∷ (codes "ACCOUNT_CONFIG_UPDATE", UserEventType.account_config_update)
      ∷ (codes "TRADE_LITE", UserEventType.trade_lite)
      ∷ (codes "ALGO_UPDATE", UserEventType.algo_update)
      ∷ (codes "CONDITIONAL_ORDER_TRIGGER_REJECT", UserEventType.conditional_order_trigger_reject)
      ∷ (codes "GRID_UPDATE", UserEventType.grid_update)
      ∷ (codes "STRATEGY_UPDATE", UserEventType.strategy_update)
      ∷ [];
}

pub data SessionType : Type 0 where
  pre_market : SessionType
  regular : SessionType
  after_market : SessionType
  overnight : SessionType
  no_trading : SessionType

unfoldable pub session_type_number : SessionType → ℕ
session_type_number SessionType.pre_market = 0
session_type_number SessionType.regular = 1
session_type_number SessionType.after_market = 2
session_type_number SessionType.overnight = 3
session_type_number SessionType.no_trading = 4

instance unfoldable pub session_type_meta : EnumMeta SessionType
unfolding session_type_number
session_type_meta = record {
  number = session_type_number;
  entries =
      (codes "PRE_MARKET", SessionType.pre_market)
      ∷ (codes "REGULAR", SessionType.regular)
      ∷ (codes "AFTER_MARKET", SessionType.after_market)
      ∷ (codes "OVERNIGHT", SessionType.overnight)
      ∷ (codes "NO_TRADING", SessionType.no_trading)
      ∷ [];
}

pub data StrategyType : Type 0 where
  grid : StrategyType

unfoldable pub strategy_type_number : StrategyType → ℕ
strategy_type_number StrategyType.grid = 0

instance unfoldable pub strategy_type_meta : EnumMeta StrategyType
unfolding strategy_type_number
strategy_type_meta = record {
  number = strategy_type_number;
  entries = (codes "GRID", StrategyType.grid) ∷ [];
}

pub data StrategyStatus : Type 0 where
  new_strategy : StrategyStatus
  working : StrategyStatus
  cancelled : StrategyStatus
  expired : StrategyStatus

unfoldable pub strategy_status_number : StrategyStatus → ℕ
strategy_status_number StrategyStatus.new_strategy = 0
strategy_status_number StrategyStatus.working = 1
strategy_status_number StrategyStatus.cancelled = 2
strategy_status_number StrategyStatus.expired = 3

instance unfoldable pub strategy_status_meta : EnumMeta StrategyStatus
unfolding strategy_status_number
strategy_status_meta = record {
  number = strategy_status_number;
  entries =
      (codes "NEW", StrategyStatus.new_strategy)
      ∷ (codes "WORKING", StrategyStatus.working)
      ∷ (codes "CANCELLED", StrategyStatus.cancelled)
      ∷ (codes "EXPIRED", StrategyStatus.expired)
      ∷ [];
}
