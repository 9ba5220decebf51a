-- ===== src/Fapi/Rest/Traits/Parameterless.antt =====
-- include/binapi2/fapi/rest/endpoint_traits.hpp, from `account_information_request_t` to `close_listen_key_request_t`.
use binapi.Fapi.Rest.Endpoints.Quotes.{
  account_information_endpoint, account_balances_endpoint, start_listen_key_endpoint,
  keepalive_listen_key_endpoint, close_listen_key_endpoint,
}
use binapi.Fapi.Rest.Endpoints.Orders.{test_order_endpoint}
use binapi.Fapi.Rest.Endpoints.Accounts.{
  account_config_endpoint, get_multi_assets_mode_endpoint, get_position_mode_endpoint,
  rate_limit_order_endpoint, get_bnb_burn_endpoint, download_id_transaction_endpoint,
  download_link_transaction_endpoint, download_id_order_endpoint, download_link_order_endpoint,
  download_id_trade_endpoint, download_link_trade_endpoint, open_algo_orders_endpoint,
  cancel_all_algo_orders_endpoint, tradfi_perps_endpoint,
}
use binapi.Fapi.Rest.Traits.{EndpointTraits, ResponseType, vector, ServiceTag}

pub data ParameterlessRequest : Type 0 where
  account_information balances account_config get_multi_assets_mode get_position_mode
        rate_limit_order get_bnb_burn download_id_transaction download_link_transaction
        download_id_order download_link_order download_id_trade download_link_trade test_order
        open_algo_orders cancel_all_algo_orders tradfi_perps start_listen_key keepalive_listen_key
        close_listen_key :
      ParameterlessRequest

unfoldable pub parameterless_traits : ParameterlessRequest → EndpointTraits
parameterless_traits ParameterlessRequest.account_information = record {
  response_type = ResponseType.account_information;
  service_tag = ServiceTag.account;
  endpoint = account_information_endpoint;
}
parameterless_traits ParameterlessRequest.balances = record {
  response_type = vector ResponseType.futures_account_balance;
  service_tag = ServiceTag.account;
  endpoint = account_balances_endpoint;
}
parameterless_traits ParameterlessRequest.account_config = record {
  response_type = ResponseType.account_config_response;
  service_tag = ServiceTag.account;
  endpoint = account_config_endpoint;
}
parameterless_traits ParameterlessRequest.get_multi_assets_mode = record {
  response_type = ResponseType.multi_assets_mode_response;
  service_tag = ServiceTag.account;
  endpoint = get_multi_assets_mode_endpoint;
}
parameterless_traits ParameterlessRequest.get_position_mode = record {
  response_type = ResponseType.position_mode_response;
  service_tag = ServiceTag.account;
  endpoint = get_position_mode_endpoint;
}
parameterless_traits ParameterlessRequest.rate_limit_order = record {
  response_type = vector ResponseType.rate_limit;
  service_tag = ServiceTag.account;
  endpoint = rate_limit_order_endpoint;
}
parameterless_traits ParameterlessRequest.get_bnb_burn = record {
  response_type = ResponseType.bnb_burn_status_response;
  service_tag = ServiceTag.account;
  endpoint = get_bnb_burn_endpoint;
}
parameterless_traits ParameterlessRequest.download_id_transaction = record {
  response_type = ResponseType.download_id_response;
  service_tag = ServiceTag.account;
  endpoint = download_id_transaction_endpoint;
}
parameterless_traits ParameterlessRequest.download_link_transaction = record {
  response_type = ResponseType.download_link_response;
  service_tag = ServiceTag.account;
  endpoint = download_link_transaction_endpoint;
}
parameterless_traits ParameterlessRequest.download_id_order = record {
  response_type = ResponseType.download_id_response;
  service_tag = ServiceTag.account;
  endpoint = download_id_order_endpoint;
}
parameterless_traits ParameterlessRequest.download_link_order = record {
  response_type = ResponseType.download_link_response;
  service_tag = ServiceTag.account;
  endpoint = download_link_order_endpoint;
}
parameterless_traits ParameterlessRequest.download_id_trade = record {
  response_type = ResponseType.download_id_response;
  service_tag = ServiceTag.account;
  endpoint = download_id_trade_endpoint;
}
parameterless_traits ParameterlessRequest.download_link_trade = record {
  response_type = ResponseType.download_link_response;
  service_tag = ServiceTag.account;
  endpoint = download_link_trade_endpoint;
}
parameterless_traits ParameterlessRequest.test_order = record {
  response_type = ResponseType.order_response;
  service_tag = ServiceTag.trade;
  endpoint = test_order_endpoint;
}
parameterless_traits ParameterlessRequest.open_algo_orders = record {
  response_type = vector ResponseType.algo_order_response;
  service_tag = ServiceTag.trade;
  endpoint = open_algo_orders_endpoint;
}
parameterless_traits ParameterlessRequest.cancel_all_algo_orders = record {
  response_type = ResponseType.code_msg_response;
  service_tag = ServiceTag.trade;
  endpoint = cancel_all_algo_orders_endpoint;
}
parameterless_traits ParameterlessRequest.tradfi_perps = record {
  response_type = ResponseType.code_msg_response;
  service_tag = ServiceTag.trade;
  endpoint = tradfi_perps_endpoint;
}
parameterless_traits ParameterlessRequest.start_listen_key = record {
  response_type = ResponseType.listen_key_response;
  service_tag = ServiceTag.user_data_stream;
  endpoint = start_listen_key_endpoint;
}
parameterless_traits ParameterlessRequest.keepalive_listen_key = record {
  response_type = ResponseType.listen_key_response;
  service_tag = ServiceTag.user_data_stream;
  endpoint = keepalive_listen_key_endpoint;
}
parameterless_traits ParameterlessRequest.close_listen_key = record {
  response_type = ResponseType.empty_response;
  service_tag = ServiceTag.user_data_stream;
  endpoint = close_listen_key_endpoint;
}
