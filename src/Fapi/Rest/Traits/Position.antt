-- ===== src/Fapi/Rest/Traits/Position.antt =====
-- include/binapi2/fapi/rest/endpoint_traits.hpp, from `change_multi_assets_mode_request_t` to `all_algo_orders_request_t`.
use binapi.Fapi.Rest.Endpoints.Orders.{
  change_multi_assets_endpoint, change_leverage_endpoint, change_margin_type_endpoint,
  modify_isolated_margin_endpoint,
}
use binapi.Fapi.Rest.Endpoints.Accounts.{
  position_margin_history_endpoint, order_modify_history_endpoint, new_algo_order_endpoint,
  cancel_algo_order_endpoint, query_algo_order_endpoint, all_algo_orders_endpoint,
}
use binapi.Fapi.Rest.Traits.{EndpointTraits, ResponseType, vector, ServiceTag}

pub data PositionRequest : Type 0 where
  change_multi_assets_mode change_leverage change_margin_type modify_isolated_margin
        position_margin_history order_modify_history new_algo_order cancel_algo_order
        query_algo_order all_algo_orders :
      PositionRequest

unfoldable pub position_traits : PositionRequest → EndpointTraits
position_traits PositionRequest.change_multi_assets_mode = record {
  response_type = ResponseType.code_msg_response;
  service_tag = ServiceTag.trade;
  endpoint = change_multi_assets_endpoint;
}
position_traits PositionRequest.change_leverage = record {
  response_type = ResponseType.change_leverage_response;
  service_tag = ServiceTag.trade;
  endpoint = change_leverage_endpoint;
}
position_traits PositionRequest.change_margin_type = record {
  response_type = ResponseType.code_msg_response;
  service_tag = ServiceTag.trade;
  endpoint = change_margin_type_endpoint;
}
position_traits PositionRequest.modify_isolated_margin = record {
  response_type = ResponseType.modify_isolated_margin_response;
  service_tag = ServiceTag.trade;
  endpoint = modify_isolated_margin_endpoint;
}
position_traits PositionRequest.position_margin_history = record {
  response_type = vector ResponseType.position_margin_history_entry;
  service_tag = ServiceTag.trade;
  endpoint = position_margin_history_endpoint;
}
position_traits PositionRequest.order_modify_history = record {
  response_type = vector ResponseType.order_response;
  service_tag = ServiceTag.trade;
  endpoint = order_modify_history_endpoint;
}
position_traits PositionRequest.new_algo_order = record {
  response_type = ResponseType.algo_order_response;
  service_tag = ServiceTag.trade;
  endpoint = new_algo_order_endpoint;
}
position_traits PositionRequest.cancel_algo_order = record {
  response_type = ResponseType.code_msg_response;
  service_tag = ServiceTag.trade;
  endpoint = cancel_algo_order_endpoint;
}
position_traits PositionRequest.query_algo_order = record {
  response_type = ResponseType.algo_order_response;
  service_tag = ServiceTag.trade;
  endpoint = query_algo_order_endpoint;
}
position_traits PositionRequest.all_algo_orders = record {
  response_type = vector ResponseType.algo_order_response;
  service_tag = ServiceTag.trade;
  endpoint = all_algo_orders_endpoint;
}
