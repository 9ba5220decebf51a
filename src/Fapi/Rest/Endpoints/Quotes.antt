-- ===== src/Fapi/Rest/Endpoints/Quotes.antt =====
-- include/binapi2/fapi/rest/generated_endpoints.hpp, from `ping_endpoint` to `modify_order_endpoint`.
use binapi.Prelude.{true, false}
use binapi.Fapi.Enums.Contracts.{SecurityType}
use binapi.Fapi.Rest.Endpoints.{EndpointMetadata, Verb, metadata}

abbrev pub ping_endpoint : EndpointMetadata
ping_endpoint = metadata "ping" Verb.get "/fapi/v1/ping" SecurityType.none false false false

abbrev pub server_time_endpoint : EndpointMetadata
server_time_endpoint =
    metadata "server_time" Verb.get "/fapi/v1/time" SecurityType.none false false false

abbrev pub exchange_info_endpoint : EndpointMetadata
exchange_info_endpoint =
    metadata "exchange_info" Verb.get "/fapi/v1/exchangeInfo" SecurityType.none false false false

abbrev pub order_book_endpoint : EndpointMetadata
order_book_endpoint =
    metadata "order_book" Verb.get "/fapi/v1/depth" SecurityType.none false false false

abbrev pub recent_trades_endpoint : EndpointMetadata
recent_trades_endpoint =
    metadata "recent_trades" Verb.get "/fapi/v1/trades" SecurityType.none false false false

abbrev pub aggregate_trades_endpoint : EndpointMetadata
aggregate_trades_endpoint =
    metadata "aggregate_trades" Verb.get "/fapi/v1/aggTrades" SecurityType.none false false false

abbrev pub klines_endpoint : EndpointMetadata
klines_endpoint = metadata "klines" Verb.get "/fapi/v1/klines" SecurityType.none false false false

abbrev pub continuous_klines_endpoint : EndpointMetadata
continuous_klines_endpoint =
    metadata "continuous_klines" Verb.get "/fapi/v1/continuousKlines" SecurityType.none false false
      false

abbrev pub index_price_klines_endpoint : EndpointMetadata
index_price_klines_endpoint =
    metadata "index_price_klines" Verb.get "/fapi/v1/indexPriceKlines" SecurityType.none false false
      false

abbrev pub mark_price_klines_endpoint : EndpointMetadata
mark_price_klines_endpoint =
    metadata "mark_price_klines" Verb.get "/fapi/v1/markPriceKlines" SecurityType.none false false
      false

abbrev pub premium_index_klines_endpoint : EndpointMetadata
premium_index_klines_endpoint =
    metadata "premium_index_klines" Verb.get "/fapi/v1/premiumIndexKlines" SecurityType.none false
      false false

abbrev pub book_ticker_endpoint : EndpointMetadata
book_ticker_endpoint =
    metadata "book_ticker" Verb.get "/fapi/v1/ticker/bookTicker" SecurityType.none false false false

abbrev pub price_ticker_endpoint : EndpointMetadata
price_ticker_endpoint =
    metadata "price_ticker" Verb.get "/fapi/v1/ticker/price" SecurityType.none false false false

abbrev pub ticker_24hr_endpoint : EndpointMetadata
ticker_24hr_endpoint =
    metadata "ticker_24hr" Verb.get "/fapi/v1/ticker/24hr" SecurityType.none false false false

abbrev pub mark_price_endpoint : EndpointMetadata
mark_price_endpoint =
    metadata "mark_price" Verb.get "/fapi/v1/premiumIndex" SecurityType.none false false false

abbrev pub funding_rate_history_endpoint : EndpointMetadata
funding_rate_history_endpoint =
    metadata "funding_rate_history" Verb.get "/fapi/v1/fundingRate" SecurityType.none false false
      false

abbrev pub funding_rate_info_endpoint : EndpointMetadata
funding_rate_info_endpoint =
    metadata "funding_rate_info" Verb.get "/fapi/v1/fundingInfo" SecurityType.none false false false

abbrev pub open_interest_endpoint : EndpointMetadata
open_interest_endpoint =
    metadata "open_interest" Verb.get "/fapi/v1/openInterest" SecurityType.none false false false

abbrev pub open_interest_statistics_endpoint : EndpointMetadata
open_interest_statistics_endpoint =
    metadata "open_interest_statistics" Verb.get "/futures/data/openInterestHist" SecurityType.none
      false false false

abbrev pub top_long_short_account_ratio_endpoint : EndpointMetadata
top_long_short_account_ratio_endpoint =
    metadata "top_long_short_account_ratio" Verb.get "/futures/data/topLongShortAccountRatio"
      SecurityType.none false false false

abbrev pub top_trader_long_short_ratio_endpoint : EndpointMetadata
top_trader_long_short_ratio_endpoint =
    metadata "top_trader_long_short_ratio" Verb.get "/futures/data/topLongShortPositionRatio"
      SecurityType.none false false false

abbrev pub long_short_ratio_endpoint : EndpointMetadata
long_short_ratio_endpoint =
    metadata "long_short_ratio" Verb.get "/futures/data/globalLongShortAccountRatio"
      SecurityType.none false false false

abbrev pub taker_buy_sell_volume_endpoint : EndpointMetadata
taker_buy_sell_volume_endpoint =
    metadata "taker_buy_sell_volume" Verb.get "/futures/data/takerlongshortRatio" SecurityType.none
      false false false

abbrev pub historical_trades_endpoint : EndpointMetadata
historical_trades_endpoint =
    metadata "historical_trades" Verb.get "/fapi/v1/historicalTrades" SecurityType.market_data false
      false false

abbrev pub account_information_endpoint : EndpointMetadata
account_information_endpoint =
    metadata "account_information" Verb.get "/fapi/v3/account" SecurityType.user_data true true true

abbrev pub account_balances_endpoint : EndpointMetadata
account_balances_endpoint =
    metadata "account_balances" Verb.get "/fapi/v3/balance" SecurityType.user_data true true true

abbrev pub position_risk_endpoint : EndpointMetadata
position_risk_endpoint =
    metadata "position_risk" Verb.get "/fapi/v2/positionRisk" SecurityType.user_data true true true

abbrev pub start_listen_key_endpoint : EndpointMetadata
start_listen_key_endpoint =
    metadata "start_listen_key" Verb.post "/fapi/v1/listenKey" SecurityType.user_stream false false
      false

abbrev pub keepalive_listen_key_endpoint : EndpointMetadata
keepalive_listen_key_endpoint =
    metadata "keepalive_listen_key" Verb.put "/fapi/v1/listenKey" SecurityType.user_stream false
      false false

abbrev pub close_listen_key_endpoint : EndpointMetadata
close_listen_key_endpoint =
    metadata "close_listen_key" Verb.delete "/fapi/v1/listenKey" SecurityType.user_stream false
      false false

abbrev pub new_order_endpoint : EndpointMetadata
new_order_endpoint =
    metadata "new_order" Verb.post "/fapi/v1/order" SecurityType.trade true true true

abbrev pub modify_order_endpoint : EndpointMetadata
modify_order_endpoint =
    metadata "modify_order" Verb.put "/fapi/v1/order" SecurityType.trade true true true
