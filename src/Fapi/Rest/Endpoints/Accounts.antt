-- ===== src/Fapi/Rest/Endpoints/Accounts.antt =====
-- include/binapi2/fapi/rest/generated_endpoints.hpp, from `position_margin_history_endpoint` to `tradfi_perps_endpoint`.
use binapi.Prelude.{true}
use binapi.Fapi.Enums.Contracts.{SecurityType}
use binapi.Fapi.Rest.Endpoints.{EndpointMetadata, Verb, metadata}

abbrev pub position_margin_history_endpoint : EndpointMetadata
position_margin_history_endpoint =
    metadata "position_margin_history" Verb.get "/fapi/v1/positionMargin/history"
      SecurityType.user_data true true true

abbrev pub order_modify_history_endpoint : EndpointMetadata
order_modify_history_endpoint =
    metadata "order_modify_history" Verb.get "/fapi/v1/orderAmendment" SecurityType.user_data true
      true true

abbrev pub new_algo_order_endpoint : EndpointMetadata
new_algo_order_endpoint =
    metadata "new_algo_order" Verb.post "/fapi/v1/algoOrder" SecurityType.trade true true true

abbrev pub cancel_algo_order_endpoint : EndpointMetadata
cancel_algo_order_endpoint =
    metadata "cancel_algo_order" Verb.delete "/fapi/v1/algoOrder" SecurityType.trade true true true

abbrev pub query_algo_order_endpoint : EndpointMetadata
query_algo_order_endpoint =
    metadata "query_algo_order" Verb.get "/fapi/v1/algoOrder" SecurityType.user_data true true true

abbrev pub all_algo_orders_endpoint : EndpointMetadata
all_algo_orders_endpoint =
    metadata "all_algo_orders" Verb.get "/fapi/v1/allAlgoOrders" SecurityType.user_data true true
      true

abbrev pub open_algo_orders_endpoint : EndpointMetadata
open_algo_orders_endpoint =
    metadata "open_algo_orders" Verb.get "/fapi/v1/openAlgoOrders" SecurityType.user_data true true
      true

abbrev pub cancel_all_algo_orders_endpoint : EndpointMetadata
cancel_all_algo_orders_endpoint =
    metadata "cancel_all_algo_orders" Verb.delete "/fapi/v1/algoOpenOrders" SecurityType.trade true
      true true

abbrev pub account_config_endpoint : EndpointMetadata
account_config_endpoint =
    metadata "account_config" Verb.get "/fapi/v1/accountConfig" SecurityType.user_data true true
      true

abbrev pub symbol_config_endpoint : EndpointMetadata
symbol_config_endpoint =
    metadata "symbol_config" Verb.get "/fapi/v1/symbolConfig" SecurityType.user_data true true true

abbrev pub get_multi_assets_mode_endpoint : EndpointMetadata
get_multi_assets_mode_endpoint =
    metadata "get_multi_assets_mode" Verb.get "/fapi/v1/multiAssetsMargin" SecurityType.user_data
      true true true

abbrev pub get_position_mode_endpoint : EndpointMetadata
get_position_mode_endpoint =
    metadata "get_position_mode" Verb.get "/fapi/v1/positionSide/dual" SecurityType.user_data true
      true true

abbrev pub income_history_endpoint : EndpointMetadata
income_history_endpoint =
    metadata "income_history" Verb.get "/fapi/v1/income" SecurityType.user_data true true true

abbrev pub leverage_brackets_endpoint : EndpointMetadata
leverage_brackets_endpoint =
    metadata "leverage_brackets" Verb.get "/fapi/v1/leverageBracket" SecurityType.user_data true
      true true

abbrev pub commission_rate_endpoint : EndpointMetadata
commission_rate_endpoint =
    metadata "commission_rate" Verb.get "/fapi/v1/commissionRate" SecurityType.user_data true true
      true

abbrev pub rate_limit_order_endpoint : EndpointMetadata
rate_limit_order_endpoint =
    metadata "rate_limit_order" Verb.get "/fapi/v1/rateLimit/order" SecurityType.user_data true true
      true

abbrev pub download_id_transaction_endpoint : EndpointMetadata
download_id_transaction_endpoint =
    metadata "download_id_transaction" Verb.get "/fapi/v1/income/asyn" SecurityType.user_data true
      true true

abbrev pub download_link_transaction_endpoint : EndpointMetadata
download_link_transaction_endpoint =
    metadata "download_link_transaction" Verb.get "/fapi/v1/income/asyn/id" SecurityType.user_data
      true true true

abbrev pub download_id_order_endpoint : EndpointMetadata
download_id_order_endpoint =
    metadata "download_id_order" Verb.get "/fapi/v1/order/asyn" SecurityType.user_data true true
      true

abbrev pub download_link_order_endpoint : EndpointMetadata
download_link_order_endpoint =
    metadata "download_link_order" Verb.get "/fapi/v1/order/asyn/id" SecurityType.user_data true
      true true

abbrev pub download_id_trade_endpoint : EndpointMetadata
download_id_trade_endpoint =
    metadata "download_id_trade" Verb.get "/fapi/v1/trade/asyn" SecurityType.user_data true true
      true

abbrev pub download_link_trade_endpoint : EndpointMetadata
download_link_trade_endpoint =
    metadata "download_link_trade" Verb.get "/fapi/v1/trade/asyn/id" SecurityType.user_data true
      true true

abbrev pub get_bnb_burn_endpoint : EndpointMetadata
get_bnb_burn_endpoint =
    metadata "get_bnb_burn" Verb.get "/fapi/v1/feeBurn" SecurityType.user_data true true true

abbrev pub toggle_bnb_burn_endpoint : EndpointMetadata
toggle_bnb_burn_endpoint =
    metadata "toggle_bnb_burn" Verb.post "/fapi/v1/feeBurn" SecurityType.trade true true true

abbrev pub quantitative_rules_endpoint : EndpointMetadata
quantitative_rules_endpoint =
    metadata "quantitative_rules" Verb.get "/fapi/v1/apiTradingStatus" SecurityType.user_data true
      true true

abbrev pub convert_get_quote_endpoint : EndpointMetadata
convert_get_quote_endpoint =
    metadata "convert_get_quote" Verb.post "/fapi/v1/convert/getQuote" SecurityType.trade true true
      true

abbrev pub convert_accept_quote_endpoint : EndpointMetadata
convert_accept_quote_endpoint =
    metadata "convert_accept_quote" Verb.post "/fapi/v1/convert/acceptQuote" SecurityType.trade true
      true true

abbrev pub convert_order_status_endpoint : EndpointMetadata
convert_order_status_endpoint =
    metadata "convert_order_status" Verb.get "/fapi/v1/convert/orderStatus" SecurityType.user_data
      true true true

abbrev pub pm_account_info_endpoint : EndpointMetadata
pm_account_info_endpoint =
    metadata "pm_account_info" Verb.get "/fapi/v1/pmAccountInfo" SecurityType.user_data true true
      true

abbrev pub tradfi_perps_endpoint : EndpointMetadata
tradfi_perps_endpoint =
    metadata "tradfi_perps" Verb.post "/fapi/v1/stock/contract" SecurityType.trade true true true
