-- ===== src/Fapi/Rest/Traits/Market.antt =====
-- include/binapi2/fapi/rest/endpoint_traits.hpp, from `historical_trades_request_t` to `trading_schedule_request_t`.
use binapi.Fapi.Rest.Endpoints.Quotes.{historical_trades_endpoint}
use binapi.Fapi.Rest.Endpoints.Orders.{
  basis_endpoint, price_ticker_v2_endpoint, delivery_price_endpoint, composite_index_info_endpoint,
  index_constituents_endpoint, asset_index_endpoint, insurance_fund_endpoint, adl_risk_endpoint,
  rpi_depth_endpoint, trading_schedule_endpoint,
}
use binapi.Fapi.Rest.Traits.{EndpointTraits, ResponseType, vector, ServiceTag}

pub data MarketRequest : Type 0 where
  historical_trades basis price_ticker_v2 delivery_price composite_index_info index_constituents
        asset_index insurance_fund insurance_funds adl_risk rpi_depth trading_schedule :
      MarketRequest

unfoldable pub market_traits : MarketRequest → EndpointTraits
market_traits MarketRequest.historical_trades = record {
  response_type = vector ResponseType.recent_trade;
  service_tag = ServiceTag.market_data;
  endpoint = historical_trades_endpoint;
}
market_traits MarketRequest.basis = record {
  response_type = vector ResponseType.basis_entry;
  service_tag = ServiceTag.market_data;
  endpoint = basis_endpoint;
}
market_traits MarketRequest.price_ticker_v2 = record {
  response_type = ResponseType.price_ticker;
  service_tag = ServiceTag.market_data;
  endpoint = price_ticker_v2_endpoint;
}
market_traits MarketRequest.delivery_price = record {
  response_type = vector ResponseType.delivery_price_entry;
  service_tag = ServiceTag.market_data;
  endpoint = delivery_price_endpoint;
}
market_traits MarketRequest.composite_index_info = record {
  response_type = vector ResponseType.composite_index_info;
  service_tag = ServiceTag.market_data;
  endpoint = composite_index_info_endpoint;
}
market_traits MarketRequest.index_constituents = record {
  response_type = ResponseType.index_constituents_response;
  service_tag = ServiceTag.market_data;
  endpoint = index_constituents_endpoint;
}
market_traits MarketRequest.asset_index = record {
  response_type = vector ResponseType.asset_index;
  service_tag = ServiceTag.market_data;
  endpoint = asset_index_endpoint;
}
market_traits MarketRequest.insurance_fund = record {
  response_type = ResponseType.insurance_fund_response;
  service_tag = ServiceTag.market_data;
  endpoint = insurance_fund_endpoint;
}
market_traits MarketRequest.insurance_funds = record {
  response_type = vector ResponseType.insurance_fund_response;
  service_tag = ServiceTag.market_data;
  endpoint = insurance_fund_endpoint;
}
market_traits MarketRequest.adl_risk = record {
  response_type = vector ResponseType.adl_risk_entry;
  service_tag = ServiceTag.market_data;
  endpoint = adl_risk_endpoint;
}
market_traits MarketRequest.rpi_depth = record {
  response_type = ResponseType.order_book_response;
  service_tag = ServiceTag.market_data;
  endpoint = rpi_depth_endpoint;
}
market_traits MarketRequest.trading_schedule = record {
  response_type = ResponseType.trading_schedule_response;
  service_tag = ServiceTag.market_data;
  endpoint = trading_schedule_endpoint;
}
