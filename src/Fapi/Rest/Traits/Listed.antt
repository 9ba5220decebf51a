-- ===== src/Fapi/Rest/Traits/Listed.antt =====
-- include/binapi2/fapi/rest/endpoint_traits.hpp, from `book_tickers_request_t` to `taker_buy_sell_volume_request_t`.
use binapi.Fapi.Rest.Endpoints.Quotes.{
  book_ticker_endpoint, price_ticker_endpoint, ticker_24hr_endpoint, mark_price_endpoint,
  funding_rate_info_endpoint, klines_endpoint, mark_price_klines_endpoint,
  premium_index_klines_endpoint, open_interest_statistics_endpoint,
  top_long_short_account_ratio_endpoint, top_trader_long_short_ratio_endpoint,
  long_short_ratio_endpoint, taker_buy_sell_volume_endpoint,
}
use binapi.Fapi.Rest.Endpoints.Orders.{price_ticker_v2_endpoint}
use binapi.Fapi.Rest.Traits.{EndpointTraits, ResponseType, vector, ServiceTag}

pub data ListedRequest : Type 0 where
  book_tickers price_tickers price_tickers_v2 ticker_24hrs mark_prices funding_rate_info klines
        mark_price_klines premium_index_klines open_interest_statistics top_long_short_account_ratio
        top_trader_long_short_ratio long_short_ratio taker_buy_sell_volume :
      ListedRequest

unfoldable pub listed_traits : ListedRequest → EndpointTraits
listed_traits ListedRequest.book_tickers = record {
  response_type = vector ResponseType.book_ticker;
  service_tag = ServiceTag.market_data;
  endpoint = book_ticker_endpoint;
}
listed_traits ListedRequest.price_tickers = record {
  response_type = vector ResponseType.price_ticker;
  service_tag = ServiceTag.market_data;
  endpoint = price_ticker_endpoint;
}
listed_traits ListedRequest.price_tickers_v2 = record {
  response_type = vector ResponseType.price_ticker;
  service_tag = ServiceTag.market_data;
  endpoint = price_ticker_v2_endpoint;
}
listed_traits ListedRequest.ticker_24hrs = record {
  response_type = vector ResponseType.ticker_24hr;
  service_tag = ServiceTag.market_data;
  endpoint = ticker_24hr_endpoint;
}
listed_traits ListedRequest.mark_prices = record {
  response_type = vector ResponseType.mark_price;
  service_tag = ServiceTag.market_data;
  endpoint = mark_price_endpoint;
}
listed_traits ListedRequest.funding_rate_info = record {
  response_type = vector ResponseType.funding_rate_info;
  service_tag = ServiceTag.market_data;
  endpoint = funding_rate_info_endpoint;
}
listed_traits ListedRequest.klines = record {
  response_type = vector ResponseType.kline;
  service_tag = ServiceTag.market_data;
  endpoint = klines_endpoint;
}
listed_traits ListedRequest.mark_price_klines = record {
  response_type = vector ResponseType.kline;
  service_tag = ServiceTag.market_data;
  endpoint = mark_price_klines_endpoint;
}
listed_traits ListedRequest.premium_index_klines = record {
  response_type = vector ResponseType.kline;
  service_tag = ServiceTag.market_data;
  endpoint = premium_index_klines_endpoint;
}
listed_traits ListedRequest.open_interest_statistics = record {
  response_type = vector ResponseType.open_interest_statistics_entry;
  service_tag = ServiceTag.market_data;
  endpoint = open_interest_statistics_endpoint;
}
listed_traits ListedRequest.top_long_short_account_ratio = record {
  response_type = vector ResponseType.long_short_ratio_entry;
  service_tag = ServiceTag.market_data;
  endpoint = top_long_short_account_ratio_endpoint;
}
listed_traits ListedRequest.top_trader_long_short_ratio = record {
  response_type = vector ResponseType.long_short_ratio_entry;
  service_tag = ServiceTag.market_data;
  endpoint = top_trader_long_short_ratio_endpoint;
}
listed_traits ListedRequest.long_short_ratio = record {
  response_type = vector ResponseType.long_short_ratio_entry;
  service_tag = ServiceTag.market_data;
  endpoint = long_short_ratio_endpoint;
}
listed_traits ListedRequest.taker_buy_sell_volume = record {
  response_type = vector ResponseType.taker_buy_sell_volume_entry;
  service_tag = ServiceTag.market_data;
  endpoint = taker_buy_sell_volume_endpoint;
}
