-- ===== src/Fapi/Enums/Laws/Events.antt =====
-- The names of the enums of stream events, sessions and strategies read as the values they are of.
use binapi.Prelude.{refl}
use binapi.Fapi.Enums.{to_string}
use binapi.Fapi.Enums.Laws.{IsLawful}
use binapi.Fapi.Enums.Events.{
  MarketEventType, market_event_type_meta, UserEventType, user_event_type_meta, SessionType,
  session_type_meta, StrategyType, strategy_type_meta, StrategyStatus, strategy_status_meta,
}

pub market_event_type_meta-IsLawful : IsLawful market_event_type_meta
unfolding market_event_type_meta to_string
market_event_type_meta-IsLawful MarketEventType.agg_trade = refl
market_event_type_meta-IsLawful MarketEventType.mark_price_update = refl
market_event_type_meta-IsLawful MarketEventType.depth_update = refl
market_event_type_meta-IsLawful MarketEventType.mini_ticker_24hr = refl
market_event_type_meta-IsLawful MarketEventType.ticker_24hr = refl
market_event_type_meta-IsLawful MarketEventType.force_order = refl
market_event_type_meta-IsLawful MarketEventType.kline = refl
market_event_type_meta-IsLawful MarketEventType.continuous_kline = refl
market_event_type_meta-IsLawful MarketEventType.composite_index = refl
market_event_type_meta-IsLawful MarketEventType.contract_info = refl
market_event_type_meta-IsLawful MarketEventType.asset_index_update = refl
market_event_type_meta-IsLawful MarketEventType.book_ticker = refl
market_event_type_meta-IsLawful MarketEventType.equity_update = refl
market_event_type_meta-IsLawful MarketEventType.commodity_update = refl
market_event_type_meta-IsLawful MarketEventType.trading_session = refl

pub user_event_type_meta-IsLawful : IsLawful user_event_type_meta
unfolding user_event_type_meta to_string
user_event_type_meta-IsLawful UserEventType.account_update = refl
user_event_type_meta-IsLawful UserEventType.order_trade_update = refl
user_event_type_meta-IsLawful UserEventType.margin_call = refl
user_event_type_meta-IsLawful UserEventType.listen_key_expired = refl
user_event_type_meta-IsLawful UserEventType.account_config_update = refl
user_event_type_meta-IsLawful UserEventType.trade_lite = refl
user_event_type_meta-IsLawful UserEventType.algo_update = refl
user_event_type_meta-IsLawful UserEventType.conditional_order_trigger_reject = refl
user_event_type_meta-IsLawful UserEventType.grid_update = refl
user_event_type_meta-IsLawful UserEventType.strategy_update = refl

pub session_type_meta-IsLawful : IsLawful session_type_meta
unfolding session_type_meta to_string
session_type_meta-IsLawful SessionType.pre_market = refl
session_type_meta-IsLawful SessionType.regular = refl
session_type_meta-IsLawful SessionType.after_market = refl
session_type_meta-IsLawful SessionType.overnight = refl
session_type_meta-IsLawful SessionType.no_trading = refl

pub strategy_type_meta-IsLawful : IsLawful strategy_type_meta
unfolding strategy_type_meta to_string
strategy_type_meta-IsLawful StrategyType.grid = refl

pub strategy_status_meta-IsLawful : IsLawful strategy_status_meta
unfolding strategy_status_meta to_string
strategy_status_meta-IsLawful StrategyStatus.new_strategy = refl
strategy_status_meta-IsLawful StrategyStatus.working = refl
strategy_status_meta-IsLawful StrategyStatus.cancelled = refl
strategy_status_meta-IsLawful StrategyStatus.expired = refl
