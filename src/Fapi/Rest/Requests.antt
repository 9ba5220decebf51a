-- ===== src/Fapi/Rest/Requests.antt =====
-- include/binapi2/fapi/rest/endpoint_traits.hpp: all types of request that have traits, and the concepts
-- by which a service takes the requests of its own tag.
use binapi.Fapi.Rest.Traits.{EndpointTraits}
use binapi.Fapi.Rest.Traits.Price.{PriceRequest, price_traits}
use binapi.Fapi.Rest.Traits.Market.{MarketRequest, market_traits}
use binapi.Fapi.Rest.Traits.Account.{AccountRequest, account_traits}
use binapi.Fapi.Rest.Traits.Trade.{TradeRequest, trade_traits}
use binapi.Fapi.Rest.Traits.Position.{PositionRequest, position_traits}
use binapi.Fapi.Rest.Traits.Convert.{ConvertRequest, convert_traits}
use binapi.Fapi.Rest.Traits.Listed.{ListedRequest, listed_traits}
use binapi.Fapi.Rest.Traits.Parameterless.{ParameterlessRequest, parameterless_traits}

pub data Request : Type 0 where
  price : PriceRequest → Request
  market : MarketRequest → Request
  account : AccountRequest → Request
  trade : TradeRequest → Request
  position : PositionRequest → Request
  convert : ConvertRequest → Request
  listed : ListedRequest → Request
  parameterless : ParameterlessRequest → Request

-- The specialization of a type of request.
unfoldable pub endpoint_traits : Request → EndpointTraits
unfolding price_traits market_traits account_traits trade_traits position_traits convert_traits
    listed_traits parameterless_traits
endpoint_traits (price r) = price_traits r
endpoint_traits (market r) = market_traits r
endpoint_traits (account r) = account_traits r
endpoint_traits (trade r) = trade_traits r
endpoint_traits (position r) = position_traits r
endpoint_traits (convert r) = convert_traits r
endpoint_traits (listed r) = listed_traits r
endpoint_traits (parameterless r) = parameterless_traits r
