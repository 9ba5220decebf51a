-- ===== src/Fapi/Rest/Laws.antt =====
-- What the tables of the REST client have in common over all requests and all endpoints.
use binapi.Prelude.{◌≡◌, Bool, true, false, arith}
use binapi.Fapi.Enums.Contracts.{SecurityType}
use binapi.Fapi.Rest.Traits.{EndpointTraits, ServiceTag}
use binapi.Fapi.Rest.Traits.Price.{PriceRequest, price_traits}
use binapi.Fapi.Rest.Traits.Market.{MarketRequest, market_traits}
use binapi.Fapi.Rest.Traits.Account.{AccountRequest, account_traits}
use binapi.Fapi.Rest.Traits.Trade.{TradeRequest, trade_traits}
use binapi.Fapi.Rest.Traits.Position.{PositionRequest, position_traits}
use binapi.Fapi.Rest.Traits.Convert.{ConvertRequest, convert_traits}
use binapi.Fapi.Rest.Traits.Listed.{ListedRequest, listed_traits}
use binapi.Fapi.Rest.Traits.Parameterless.{ParameterlessRequest, parameterless_traits}
use binapi.Fapi.Rest.Requests.{
  Request, price, market, account, trade, position, convert, listed, parameterless, endpoint_traits,
}

-- The exchange asks for a signature where the request is about an account or an order.
abbrev pub is_private : SecurityType → Bool
is_private SecurityType.user_data = true
is_private SecurityType.trade = true
is_private SecurityType.none = false
is_private SecurityType.market_data = false
is_private SecurityType.user_stream = false

abbrev pub is_private_service : ServiceTag → Bool
is_private_service ServiceTag.account = true
is_private_service ServiceTag.trade = true
is_private_service ServiceTag.convert = true
is_private_service ServiceTag.market_data = false
is_private_service ServiceTag.user_data_stream = false

abbrev pub IsConsistent : EndpointTraits → Type 0
IsConsistent t =
    (t.endpoint.signed_request ≡ is_private t.endpoint.security)
    × (t.endpoint.signed_request ≡ is_private_service t.service_tag)
    × (t.endpoint.requires_timestamp ≡ t.endpoint.signed_request)
    × (t.endpoint.allows_recv_window ≡ t.endpoint.signed_request)

price_traits-IsConsistent : (r : PriceRequest) → IsConsistent (price_traits r)
unfolding price_traits
price_traits-IsConsistent r = ground arith

market_traits-IsConsistent : (r : MarketRequest) → IsConsistent (market_traits r)
unfolding market_traits
market_traits-IsConsistent r = ground arith

account_traits-IsConsistent : (r : AccountRequest) → IsConsistent (account_traits r)
unfolding account_traits
account_traits-IsConsistent r = ground arith

trade_traits-IsConsistent : (r : TradeRequest) → IsConsistent (trade_traits r)
unfolding trade_traits
trade_traits-IsConsistent r = ground arith

position_traits-IsConsistent : (r : PositionRequest) → IsConsistent (position_traits r)
unfolding position_traits
position_traits-IsConsistent r = ground arith

convert_traits-IsConsistent : (r : ConvertRequest) → IsConsistent (convert_traits r)
unfolding convert_traits
convert_traits-IsConsistent r = ground arith

listed_traits-IsConsistent : (r : ListedRequest) → IsConsistent (listed_traits r)
unfolding listed_traits
listed_traits-IsConsistent r = ground arith

parameterless_traits-IsConsistent :
    (r : ParameterlessRequest) → IsConsistent (parameterless_traits r)
unfolding parameterless_traits
parameterless_traits-IsConsistent r = ground arith

-- For every type of request with endpoint traits: it is signed exactly if the security of its
-- endpoint is user_data or trade, and exactly if it belongs to the account, trade or convert
-- service; and its endpoint asks for a timestamp and allows recvWindow exactly if it is signed.
pub endpoint_traits-IsConsistent : (r : Request) → IsConsistent (endpoint_traits r)
unfolding endpoint_traits
endpoint_traits-IsConsistent (price r) = price_traits-IsConsistent r
endpoint_traits-IsConsistent (market r) = market_traits-IsConsistent r
endpoint_traits-IsConsistent (account r) = account_traits-IsConsistent r
endpoint_traits-IsConsistent (trade r) = trade_traits-IsConsistent r
endpoint_traits-IsConsistent (position r) = position_traits-IsConsistent r
endpoint_traits-IsConsistent (convert r) = convert_traits-IsConsistent r
endpoint_traits-IsConsistent (listed r) = listed_traits-IsConsistent r
endpoint_traits-IsConsistent (parameterless r) = parameterless_traits-IsConsistent r
