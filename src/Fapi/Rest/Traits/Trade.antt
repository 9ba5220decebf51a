-- ===== src/Fapi/Rest/Traits/Trade.antt =====
-- include/binapi2/fapi/rest/endpoint_traits.hpp, from `new_order_request_t` to `change_position_mode_request_t`.
use binapi.Fapi.Rest.Endpoints.Quotes.{new_order_endpoint, modify_order_endpoint}
use binapi.Fapi.Rest.Endpoints.Orders.{
  cancel_order_endpoint, query_order_endpoint, cancel_all_open_orders_endpoint,
  auto_cancel_endpoint, query_open_order_endpoint, all_open_orders_endpoint, all_orders_endpoint,
  position_risk_v3_endpoint, adl_quantile_endpoint, force_orders_endpoint, account_trades_endpoint,
  change_position_mode_endpoint,
}
use binapi.Fapi.Rest.Traits.{EndpointTraits, ResponseType, vector, ServiceTag}

pub data TradeRequest : Type 0 where
  new_order modify_order cancel_order query_order cancel_all_open_orders auto_cancel
        query_open_order all_open_orders all_orders position_info_v3 adl_quantile force_orders
        account_trade change_position_mode :
      TradeRequest

unfoldable pub trade_traits : TradeRequest → EndpointTraits
trade_traits TradeRequest.new_order = record {
  response_type = ResponseType.order_response;
  service_tag = ServiceTag.trade;
  endpoint = new_order_endpoint;
}
trade_traits TradeRequest.modify_order = record {
  response_type = ResponseType.order_response;
  service_tag = ServiceTag.trade;
  endpoint = modify_order_endpoint;
}
trade_traits TradeRequest.cancel_order = record {
  response_type = ResponseType.order_response;
  service_tag = ServiceTag.trade;
  endpoint = cancel_order_endpoint;
}
trade_traits TradeRequest.query_order = record {
  response_type = ResponseType.order_response;
  service_tag = ServiceTag.trade;
  endpoint = query_order_endpoint;
}
trade_traits TradeRequest.cancel_all_open_orders = record {
  response_type = ResponseType.code_msg_response;
  service_tag = ServiceTag.trade;
  endpoint = cancel_all_open_orders_endpoint;
}
trade_traits TradeRequest.auto_cancel = record {
  response_type = ResponseType.auto_cancel_response;
  service_tag = ServiceTag.trade;
  endpoint = auto_cancel_endpoint;
}
trade_traits TradeRequest.query_open_order = record {
  response_type = ResponseType.order_response;
  service_tag = ServiceTag.trade;
  endpoint = query_open_order_endpoint;
}
trade_traits TradeRequest.all_open_orders = record {
  response_type = vector ResponseType.order_response;
  service_tag = ServiceTag.trade;
  endpoint = all_open_orders_endpoint;
}
trade_traits TradeRequest.all_orders = record {
  response_type = vector ResponseType.order_response;
  service_tag = ServiceTag.trade;
  endpoint = all_orders_endpoint;
}
trade_traits TradeRequest.position_info_v3 = record {
  response_type = vector ResponseType.position_risk_v3;
  service_tag = ServiceTag.trade;
  endpoint = position_risk_v3_endpoint;
}
trade_traits TradeRequest.adl_quantile = record {
  response_type = vector ResponseType.adl_quantile_entry;
  service_tag = ServiceTag.trade;
  endpoint = adl_quantile_endpoint;
}
trade_traits TradeRequest.force_orders = record {
  response_type = vector ResponseType.order_response;
  service_tag = ServiceTag.trade;
  endpoint = force_orders_endpoint;
}
trade_traits TradeRequest.account_trade = record {
  response_type = vector ResponseType.account_trade_entry;
  service_tag = ServiceTag.trade;
  endpoint = account_trades_endpoint;
}
trade_traits TradeRequest.change_position_mode = record {
  response_type = ResponseType.code_msg_response;
  service_tag = ServiceTag.trade;
  endpoint = change_position_mode_endpoint;
}
