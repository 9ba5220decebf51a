-- ===== src/Fapi/Rest/Traits/Price.antt =====
-- include/binapi2/fapi/rest/endpoint_traits.hpp, from `ping_request_t` to `open_interest_request_t`.
use binapi.Fapi.Rest.Endpoints.Quotes.{
  ping_endpoint, server_time_endpoint, exchange_info_endpoint, order_book_endpoint,
  recent_trades_endpoint, aggregate_trades_endpoint, continuous_klines_endpoint,
  index_price_klines_endpoint, book_ticker_endpoint, price_ticker_endpoint, ticker_24hr_endpoint,
  mark_price_endpoint, funding_rate_history_endpoint, open_interest_endpoint,
}
use binapi.Fapi.Rest.Traits.{EndpointTraits, ResponseType, vector, ServiceTag}

pub data PriceRequest : Type 0 where
  ping server_time exchange_info order_book recent_trades aggregate_trades continuous_kline
        index_price_kline book_ticker price_ticker ticker_24hr mark_price funding_rate_history
        open_interest :
      PriceRequest

unfoldable pub price_traits : PriceRequest → EndpointTraits
price_traits PriceRequest.ping = record {
  response_type = ResponseType.empty_response;
  service_tag = ServiceTag.market_data;
  endpoint = ping_endpoint;
}
price_traits PriceRequest.server_time = record {
  response_type = ResponseType.server_time_response;
  service_tag = ServiceTag.market_data;
  endpoint = server_time_endpoint;
}
price_traits PriceRequest.exchange_info = record {
  response_type = ResponseType.exchange_info_response;
  service_tag = ServiceTag.market_data;
  endpoint = exchange_info_endpoint;
}
price_traits PriceRequest.order_book = record {
  response_type = ResponseType.order_book_response;
  service_tag = ServiceTag.market_data;
  endpoint = order_book_endpoint;
}
price_traits PriceRequest.recent_trades = record {
  response_type = vector ResponseType.recent_trade;
  service_tag = ServiceTag.market_data;
  endpoint = recent_trades_endpoint;
}
price_traits PriceRequest.aggregate_trades = record {
  response_type = vector ResponseType.aggregate_trade;
  service_tag = ServiceTag.market_data;
  endpoint = aggregate_trades_endpoint;
}
price_traits PriceRequest.continuous_kline = record {
  response_type = vector ResponseType.kline;
  service_tag = ServiceTag.market_data;
  endpoint = continuous_klines_endpoint;
}
price_traits PriceRequest.index_price_kline = record {
  response_type = vector ResponseType.kline;
  service_tag = ServiceTag.market_data;
  endpoint = index_price_klines_endpoint;
}
price_traits PriceRequest.book_ticker = record {
  response_type = ResponseType.book_ticker;
  service_tag = ServiceTag.market_data;
  endpoint = book_ticker_endpoint;
}
price_traits PriceRequest.price_ticker = record {
  response_type = ResponseType.price_ticker;
  service_tag = ServiceTag.market_data;
  endpoint = price_ticker_endpoint;
}
price_traits PriceRequest.ticker_24hr = record {
  response_type = ResponseType.ticker_24hr;
  service_tag = ServiceTag.market_data;
  endpoint = ticker_24hr_endpoint;
}
price_traits PriceRequest.mark_price = record {
  response_type = ResponseType.mark_price;
  service_tag = ServiceTag.market_data;
  endpoint = mark_price_endpoint;
}
price_traits PriceRequest.funding_rate_history = record {
  response_type = vector ResponseType.funding_rate_history_entry;
  service_tag = ServiceTag.market_data;
  endpoint = funding_rate_history_endpoint;
}
price_traits PriceRequest.open_interest = record {
  response_type = ResponseType.open_interest;
  service_tag = ServiceTag.market_data;
  endpoint = open_interest_endpoint;
}
