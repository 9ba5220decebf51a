-- ===== src/Fapi/Rest/Traits/Convert.antt =====
-- include/binapi2/fapi/rest/endpoint_traits.hpp, from `convert_quote_request_t` to `convert_order_status_request_t`.
use binapi.Fapi.Rest.Endpoints.Accounts.{
  convert_get_quote_endpoint, convert_accept_quote_endpoint, convert_order_status_endpoint,
}
use binapi.Fapi.Rest.Traits.{EndpointTraits, ResponseType, ServiceTag}

pub data ConvertRequest : Type 0 where
  convert_quote convert_accept convert_order_status : ConvertRequest

unfoldable pub convert_traits : ConvertRequest → EndpointTraits
convert_traits ConvertRequest.convert_quote = record {
  response_type = ResponseType.convert_quote_response;
  service_tag = ServiceTag.convert;
  endpoint = convert_get_quote_endpoint;
}
convert_traits ConvertRequest.convert_accept = record {
  response_type = ResponseType.convert_accept_response;
  service_tag = ServiceTag.convert;
  endpoint = convert_accept_quote_endpoint;
}
convert_traits ConvertRequest.convert_order_status = record {
  response_type = ResponseType.convert_order_status_response;
  service_tag = ServiceTag.convert;
  endpoint = convert_order_status_endpoint;
}
