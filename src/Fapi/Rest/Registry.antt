-- ===== src/Fapi/Rest/Registry.antt =====
-- include/binapi2/fapi/rest/generated_endpoints.hpp: the endpoints together, and that requests tell them apart.
use binapi.Prelude.{
  ℕ, zero, suc, ◌≡◌, refl, ap, Bool, true, false, ◌&&◌, ◌||◌, not, List, [], ◌∷◌, some, get_elem?,
  arith,
}
use binapi.Prelude.Text.{same_text}
use binapi.Fapi.Rest.Endpoints.{EndpointMetadata, Verb}
use binapi.Fapi.Rest.Endpoints.Quotes.{
  ping_endpoint, server_time_endpoint, exchange_info_endpoint, order_book_endpoint,
  recent_trades_endpoint, aggregate_trades_endpoint, klines_endpoint, continuous_klines_endpoint,
  index_price_klines_endpoint, mark_price_klines_endpoint, premium_index_klines_endpoint,
  book_ticker_endpoint, price_ticker_endpoint, ticker_24hr_endpoint, mark_price_endpoint,
  funding_rate_history_endpoint, funding_rate_info_endpoint, open_interest_endpoint,
  open_interest_statistics_endpoint, top_long_short_account_ratio_endpoint,
  top_trader_long_short_ratio_endpoint, long_short_ratio_endpoint, taker_buy_sell_volume_endpoint,
  historical_trades_endpoint, account_information_endpoint, account_balances_endpoint,
  position_risk_endpoint, start_listen_key_endpoint, keepalive_listen_key_endpoint,
  close_listen_key_endpoint, new_order_endpoint, modify_order_endpoint,
}
use binapi.Fapi.Rest.Endpoints.Orders.{
  cancel_order_endpoint, query_order_endpoint, basis_endpoint, price_ticker_v2_endpoint,
  delivery_price_endpoint, composite_index_info_endpoint, index_constituents_endpoint,
  asset_index_endpoint, insurance_fund_endpoint, adl_risk_endpoint, rpi_depth_endpoint,
  trading_schedule_endpoint, test_order_endpoint, batch_orders_endpoint,
  modify_batch_orders_endpoint, cancel_batch_orders_endpoint, cancel_all_open_orders_endpoint,
  auto_cancel_endpoint, query_open_order_endpoint, all_open_orders_endpoint, all_orders_endpoint,
  position_risk_v3_endpoint, adl_quantile_endpoint, force_orders_endpoint, account_trades_endpoint,
  change_position_mode_endpoint, change_multi_assets_endpoint, change_leverage_endpoint,
  change_margin_type_endpoint, modify_isolated_margin_endpoint,
}
use binapi.Fapi.Rest.Endpoints.Accounts.{
  position_margin_history_endpoint, order_modify_history_endpoint, new_algo_order_endpoint,
  cancel_algo_order_endpoint, query_algo_order_endpoint, all_algo_orders_endpoint,
  open_algo_orders_endpoint, cancel_all_algo_orders_endpoint, account_config_endpoint,
  symbol_config_endpoint, get_multi_assets_mode_endpoint, get_position_mode_endpoint,
  income_history_endpoint, leverage_brackets_endpoint, commission_rate_endpoint,
  rate_limit_order_endpoint, download_id_transaction_endpoint, download_link_transaction_endpoint,
  download_id_order_endpoint, download_link_order_endpoint, download_id_trade_endpoint,
  download_link_trade_endpoint, get_bnb_burn_endpoint, toggle_bnb_burn_endpoint,
  quantitative_rules_endpoint, convert_get_quote_endpoint, convert_accept_quote_endpoint,
  convert_order_status_endpoint, pm_account_info_endpoint, tradfi_perps_endpoint,
}

-- The endpoints, in the order of the file.
abbrev pub all_endpoints : List EndpointMetadata
all_endpoints =
    ping_endpoint ∷ server_time_endpoint ∷ exchange_info_endpoint ∷ order_book_endpoint
    ∷ recent_trades_endpoint ∷ aggregate_trades_endpoint ∷ klines_endpoint
    ∷ continuous_klines_endpoint ∷ index_price_klines_endpoint ∷ mark_price_klines_endpoint
    ∷ premium_index_klines_endpoint ∷ book_ticker_endpoint ∷ price_ticker_endpoint
    ∷ ticker_24hr_endpoint ∷ mark_price_endpoint ∷ funding_rate_history_endpoint
    ∷ funding_rate_info_endpoint ∷ open_interest_endpoint ∷ open_interest_statistics_endpoint
    ∷ top_long_short_account_ratio_endpoint ∷ top_trader_long_short_ratio_endpoint
    ∷ long_short_ratio_endpoint ∷ taker_buy_sell_volume_endpoint ∷ historical_trades_endpoint
    ∷ account_information_endpoint ∷ account_balances_endpoint ∷ position_risk_endpoint
    ∷ start_listen_key_endpoint ∷ keepalive_listen_key_endpoint ∷ close_listen_key_endpoint
    ∷ new_order_endpoint ∷ modify_order_endpoint ∷ cancel_order_endpoint ∷ query_order_endpoint
    ∷ basis_endpoint ∷ price_ticker_v2_endpoint ∷ delivery_price_endpoint
    ∷ composite_index_info_endpoint ∷ index_constituents_endpoint ∷ asset_index_endpoint
    ∷ insurance_fund_endpoint ∷ adl_risk_endpoint ∷ rpi_depth_endpoint ∷ trading_schedule_endpoint
    ∷ test_order_endpoint ∷ batch_orders_endpoint ∷ modify_batch_orders_endpoint
    ∷ cancel_batch_orders_endpoint ∷ cancel_all_open_orders_endpoint ∷ auto_cancel_endpoint
    ∷ query_open_order_endpoint ∷ all_open_orders_endpoint ∷ all_orders_endpoint
    ∷ position_risk_v3_endpoint ∷ adl_quantile_endpoint ∷ force_orders_endpoint
    ∷ account_trades_endpoint ∷ change_position_mode_endpoint ∷ change_multi_assets_endpoint
    ∷ change_leverage_endpoint ∷ change_margin_type_endpoint ∷ modify_isolated_margin_endpoint
    ∷ position_margin_history_endpoint ∷ order_modify_history_endpoint ∷ new_algo_order_endpoint
    ∷ cancel_algo_order_endpoint ∷ query_algo_order_endpoint ∷ all_algo_orders_endpoint
    ∷ open_algo_orders_endpoint ∷ cancel_all_algo_orders_endpoint ∷ account_config_endpoint
    ∷ symbol_config_endpoint ∷ get_multi_assets_mode_endpoint ∷ get_position_mode_endpoint
    ∷ income_history_endpoint ∷ leverage_brackets_endpoint ∷ commission_rate_endpoint
    ∷ rate_limit_order_endpoint ∷ download_id_transaction_endpoint
    ∷ download_link_transaction_endpoint ∷ download_id_order_endpoint ∷ download_link_order_endpoint
    ∷ download_id_trade_endpoint ∷ download_link_trade_endpoint ∷ get_bnb_burn_endpoint
    ∷ toggle_bnb_burn_endpoint ∷ quantitative_rules_endpoint ∷ convert_get_quote_endpoint
    ∷ convert_accept_quote_endpoint ∷ convert_order_status_endpoint ∷ pm_account_info_endpoint
    ∷ tradfi_perps_endpoint ∷ []

abbrev pub same_verb : Verb → Verb → Bool
same_verb Verb.get Verb.get = true
same_verb Verb.post Verb.post = true
same_verb Verb.put Verb.put = true
same_verb Verb.delete Verb.delete = true
same_verb v w = false

-- A request to the one is a request to the other.
unfoldable pub is_same_resource : EndpointMetadata → EndpointMetadata → Bool
is_same_resource e f = same_verb e.method f.method && same_text e.path f.path

abbrev is_absent : EndpointMetadata → List EndpointMetadata → Bool
is_absent e [] = true
is_absent e (f ∷ es) = not (is_same_resource e f) && not (is_same_resource f e) && is_absent e es

abbrev are_distinct : List EndpointMetadata → Bool
are_distinct [] = true
are_distinct (e ∷ es) = is_absent e es && are_distinct es

absent_lem :
    (e f : EndpointMetadata) (es : List EndpointMetadata) (j : ℕ)
    → is_absent e es ≡ true
    → get_elem? es j ≡ some f
    → (is_same_resource e f || is_same_resource f e) ≡ false
absent_lem e f [] j h k = absurd (ground (arith, k))
absent_lem e f (g ∷ es) zero h k = ground (arith, h, k)
absent_lem e f (g ∷ es) (suc j) h k = absent_lem e f es j (ground (arith, h)) k

distinct_lem :
    (es : List EndpointMetadata) (i j : ℕ) (e f : EndpointMetadata)
    → are_distinct es ≡ true
    → get_elem? es i ≡ some e
    → get_elem? es j ≡ some f
    → is_same_resource e f ≡ true
    → i ≡ j
distinct_lem [] i j e f d h k s = absurd (ground (arith, h))
distinct_lem (g ∷ es) zero zero e f d h k s = refl
distinct_lem (g ∷ es) zero (suc j) e f d h k s =
    absurd (ground (arith, h, s, absent_lem g f es j (ground (arith, d)) k))
distinct_lem (g ∷ es) (suc i) zero e f d h k s =
    absurd (ground (arith, k, s, absent_lem g e es i (ground (arith, d)) h))
distinct_lem (g ∷ es) (suc i) (suc j) e f d h k s =
    ap suc (distinct_lem es i j e f (ground (arith, d)) h k s)

-- Of the 92 endpoints no two have the same verb and the same path.
pub resource_unique :
    (i j : ℕ) (e f : EndpointMetadata)
    → get_elem? all_endpoints i ≡ some e
    → get_elem? all_endpoints j ≡ some f
    → is_same_resource e f ≡ true
    → i ≡ j
unfolding is_same_resource
resource_unique i j e f h k s = distinct_lem all_endpoints i j e f refl h k s
