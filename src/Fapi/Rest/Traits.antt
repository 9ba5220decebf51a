-- ===== src/Fapi/Rest/Traits.antt =====
-- include/binapi2/fapi/rest/endpoint_traits.hpp: the endpoint and the type of the response of each type
-- of request. The template has one specialization for each constructor of the children's types.
pub mod Price
pub mod Market
pub mod Account
pub mod Trade
pub mod Position
pub mod Convert
pub mod Listed
pub mod Parameterless
use binapi.Fapi.Rest.Endpoints.{EndpointMetadata}

-- The names of the types that responses are decoded to.
pub data ResponseType : Type 0 where
  empty_response server_time_response exchange_info_response order_book_response recent_trade
        aggregate_trade kline book_ticker price_ticker ticker_24hr mark_price
        funding_rate_history_entry open_interest basis_entry delivery_price_entry
        composite_index_info index_constituents_response asset_index insurance_fund_response
        adl_risk_entry trading_schedule_response position_risk symbol_config_entry
        income_history_entry symbol_leverage_brackets commission_rate_response
        bnb_burn_status_response quantitative_rules_response pm_account_info_response order_response
        code_msg_response auto_cancel_response position_risk_v3 adl_quantile_entry
        account_trade_entry change_leverage_response modify_isolated_margin_response
        position_margin_history_entry algo_order_response convert_quote_response
        convert_accept_response convert_order_status_response funding_rate_info
        open_interest_statistics_entry long_short_ratio_entry taker_buy_sell_volume_entry
        account_information futures_account_balance account_config_response
        multi_assets_mode_response position_mode_response rate_limit download_id_response
        download_link_response listen_key_response :
      ResponseType
  vector : ResponseType → ResponseType

pub data ServiceTag : Type 0 where
  market_data account trade convert user_data_stream : ServiceTag

pub record EndpointTraits : Type 0 where
  pub response_type : ResponseType
  pub service_tag : ServiceTag
  pub endpoint : EndpointMetadata
