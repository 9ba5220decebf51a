-- ===== src/Fapi/Rest/Endpoints/Orders.antt =====
-- include/binapi2/fapi/rest/generated_endpoints.hpp, from `cancel_order_endpoint` to `modify_isolated_margin_endpoint`.
use binapi.Prelude.{true, false}
use binapi.Fapi.Enums.Contracts.{SecurityType}
use binapi.Fapi.Rest.Endpoints.{EndpointMetadata, Verb, metadata}

abbrev pub cancel_order_endpoint : EndpointMetadata
cancel_order_endpoint =
    metadata "cancel_order" Verb.delete "/fapi/v1/order" SecurityType.trade true true true

abbrev pub query_order_endpoint : EndpointMetadata
query_order_endpoint =
    metadata "query_order" Verb.get "/fapi/v1/order" SecurityType.trade true true true

abbrev pub basis_endpoint : EndpointMetadata
basis_endpoint = metadata "basis" Verb.get "/futures/data/basis" SecurityType.none false false false

abbrev pub price_ticker_v2_endpoint : EndpointMetadata
price_ticker_v2_endpoint =
    metadata "price_ticker_v2" Verb.get "/fapi/v2/ticker/price" SecurityType.none false false false

abbrev pub delivery_price_endpoint : EndpointMetadata
delivery_price_endpoint =
    metadata "delivery_price" Verb.get "/futures/data/delivery-price" SecurityType.none false false
      false

abbrev pub composite_index_info_endpoint : EndpointMetadata
composite_index_info_endpoint =
    metadata "composite_index_info" Verb.get "/fapi/v1/indexInfo" SecurityType.none false false
      false

abbrev pub index_constituents_endpoint : EndpointMetadata
index_constituents_endpoint =
    metadata "index_constituents" Verb.get "/fapi/v1/constituents" SecurityType.none false false
      false

abbrev pub asset_index_endpoint : EndpointMetadata
asset_index_endpoint =
    metadata "asset_index" Verb.get "/fapi/v1/assetIndex" SecurityType.none false false false

abbrev pub insurance_fund_endpoint : EndpointMetadata
insurance_fund_endpoint =
    metadata "insurance_fund" Verb.get "/fapi/v1/insuranceBalance" SecurityType.none false false
      false

abbrev pub adl_risk_endpoint : EndpointMetadata
adl_risk_endpoint =
    metadata "adl_risk" Verb.get "/fapi/v1/symbolAdlRisk" SecurityType.none false false false

abbrev pub rpi_depth_endpoint : EndpointMetadata
rpi_depth_endpoint =
    metadata "rpi_depth" Verb.get "/fapi/v1/rpiDepth" SecurityType.none false false false

abbrev pub trading_schedule_endpoint : EndpointMetadata
trading_schedule_endpoint =
    metadata "trading_schedule" Verb.get "/fapi/v1/tradingSchedule" SecurityType.none false false
      false

abbrev pub test_order_endpoint : EndpointMetadata
test_order_endpoint =
    metadata "test_order" Verb.post "/fapi/v1/order/test" SecurityType.trade true true true

abbrev pub batch_orders_endpoint : EndpointMetadata
batch_orders_endpoint =
    metadata "batch_orders" Verb.post "/fapi/v1/batchOrders" SecurityType.trade true true true

abbrev pub modify_batch_orders_endpoint : EndpointMetadata
modify_batch_orders_endpoint =
    metadata "modify_batch_orders" Verb.put "/fapi/v1/batchOrders" SecurityType.trade true true true

abbrev pub cancel_batch_orders_endpoint : EndpointMetadata
cancel_batch_orders_endpoint =
    metadata "cancel_batch_orders" Verb.delete "/fapi/v1/batchOrders" SecurityType.trade true true
      true

abbrev pub cancel_all_open_orders_endpoint : EndpointMetadata
cancel_all_open_orders_endpoint =
    metadata "cancel_all_open_orders" Verb.delete "/fapi/v1/allOpenOrders" SecurityType.trade true
      true true

abbrev pub auto_cancel_endpoint : EndpointMetadata
auto_cancel_endpoint =
    metadata "auto_cancel" Verb.post "/fapi/v1/countdownCancelAll" SecurityType.trade true true true

abbrev pub query_open_order_endpoint : EndpointMetadata
query_open_order_endpoint =
    metadata "query_open_order" Verb.get "/fapi/v1/openOrder" SecurityType.user_data true true true

abbrev pub all_open_orders_endpoint : EndpointMetadata
all_open_orders_endpoint =
    metadata "all_open_orders" Verb.get "/fapi/v1/openOrders" SecurityType.user_data true true true

abbrev pub all_orders_endpoint : EndpointMetadata
all_orders_endpoint =
    metadata "all_orders" Verb.get "/fapi/v1/allOrders" SecurityType.user_data true true true

abbrev pub position_risk_v3_endpoint : EndpointMetadata
position_risk_v3_endpoint =
    metadata "position_risk_v3" Verb.get "/fapi/v3/positionRisk" SecurityType.user_data true true
      true

abbrev pub adl_quantile_endpoint : EndpointMetadata
adl_quantile_endpoint =
    metadata "adl_quantile" Verb.get "/fapi/v1/adlQuantile" SecurityType.user_data true true true

abbrev pub force_orders_endpoint : EndpointMetadata
force_orders_endpoint =
    metadata "force_orders" Verb.get "/fapi/v1/forceOrders" SecurityType.user_data true true true

abbrev pub account_trades_endpoint : EndpointMetadata
account_trades_endpoint =
    metadata "account_trades" Verb.get "/fapi/v1/userTrades" SecurityType.user_data true true true

abbrev pub change_position_mode_endpoint : EndpointMetadata
change_position_mode_endpoint =
    metadata "change_position_mode" Verb.post "/fapi/v1/positionSide/dual" SecurityType.trade true
      true true

abbrev pub change_multi_assets_endpoint : EndpointMetadata
change_multi_assets_endpoint =
    metadata "change_multi_assets" Verb.post "/fapi/v1/multiAssetsMargin" SecurityType.trade true
      true true

abbrev pub change_leverage_endpoint : EndpointMetadata
change_leverage_endpoint =
    metadata "change_leverage" Verb.post "/fapi/v1/leverage" SecurityType.trade true true true

abbrev pub change_margin_type_endpoint : EndpointMetadata
change_margin_type_endpoint =
    metadata "change_margin_type" Verb.post "/fapi/v1/marginType" SecurityType.trade true true true

abbrev pub modify_isolated_margin_endpoint : EndpointMetadata
modify_isolated_margin_endpoint =
    metadata "modify_isolated_margin" Verb.post "/fapi/v1/positionMargin" SecurityType.trade true
      true true
