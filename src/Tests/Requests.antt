-- ===== src/Tests/Requests.antt =====
-- The theorems on the REST client at concrete requests.
use binapi.Prelude.{ℕ, ◌+◌, ◌≤◌, ◌≡◌, ◌↔◌, ◌⊎◌, refl, true, false, [], ◌∷◌, Option, none, some}
use binapi.Prelude.Int.{ℤ, pos}
use binapi.Prelude.Text.{Bytes, codes}
use binapi.Fapi.Query.{QueryMap, hmac, Config, signature_key}
use binapi.Fapi.Query.Params.{find}
use binapi.Fapi.Rest.Endpoints.{Verb}
use binapi.Fapi.Rest.Endpoints.Quotes.{new_order_endpoint}
use binapi.Fapi.Rest.Traits.Trade.{TradeRequest}
use binapi.Fapi.Rest.Requests.{trade, endpoint_traits}
use binapi.Fapi.Rest.Laws.{IsConsistent, endpoint_traits-IsConsistent}
use binapi.Fapi.Rest.Registry.{is_same_resource}
use binapi.Fapi.Rest.Http.{
  success, HttpResponse, HttpRequest, make_request, answered, read_failed, connected, writes,
  HttpClient, async_request,
}
use binapi.Fapi.Rest.Http.Retry.{NoAnswer, Answer, writes_in, async_request_lem, written_twice}
use binapi.Fapi.Rest.Pipeline.{
  Decoder, skips, final_query, decode_response, async_execute, request_for,
}
use binapi.Fapi.Rest.Pipeline.Wire.{Received, signed_request-Received}
use binapi.Fapi.Rest.Pipeline.Decoded.{Decoded, success-Decoded}

endpoint_traits-IsConsistent_example : IsConsistent (endpoint_traits (trade TradeRequest.new_order))
endpoint_traits-IsConsistent_example = endpoint_traits-IsConsistent (trade TradeRequest.new_order)

same_as_itself : is_same_resource new_order_endpoint new_order_endpoint ≡ true
unfolding is_same_resource
same_as_itself = refl

abbrev place : ℕ
place = 30

abbrev order_request : HttpRequest
order_request =
    make_request Verb.post (codes "/fapi/v1/order") (codes "symbol=BTCUSDT") [] (codes "key")

abbrev client : HttpClient
client = record { is_connected = true; actions = [] }

abbrev ok : HttpResponse
ok = record { status = pos 200; body = codes "{}" }

async_request_lem_example :
    (NoAnswer (async_request order_request (read_failed []) connected (answered ok) client)
      ⊎ Answer order_request
          (read_failed [])
          (answered ok)
          (async_request order_request (read_failed []) connected (answered ok) client))
    × (writes_in
          (async_request order_request (read_failed []) connected (answered ok) client).0.actions
        ≤ 2 + writes_in [])
async_request_lem_example =
    async_request_lem order_request (read_failed []) (answered ok) connected client

written_twice_example :
    (writes_in
        (async_request order_request (read_failed []) connected (answered ok) client).0.actions
      ≡ 2 + writes_in [])
    ↔ (true ≡ true)
written_twice_example = written_twice order_request (read_failed []) (answered ok) connected client

abbrev weak_hmac : Bytes → Bytes → Bytes
weak_hmac key data_ = key

abbrev no_ed25519 : Bytes → Bytes → Option Bytes
no_ed25519 key data_ = none

abbrev cfg : Config
cfg = record {
  rest_base_path = [];
  api_key = codes "key";
  recv_window = 5000;
  secret_key = codes "secret";
  ed25519_private_key_pem = [];
  sign_method = hmac;
}

abbrev query : QueryMap
query = (codes "symbol", codes "BTCUSDT") ∷ []

query_unsigned : find signature_key query ≡ none
unfolding find
query_unsigned = refl

signed_request-Received_example :
    Received weak_hmac no_ed25519 cfg 1700 Verb.post (codes "/fapi/v1/order") query
signed_request-Received_example =
    signed_request-Received weak_hmac no_ed25519 cfg 1700 Verb.post (codes "/fapi/v1/order") query
      refl refl query_unsigned

abbrev no_document : Bytes → Option (ℤ × Bytes)
no_document body = none

abbrev after : HttpClient
after = record {
  is_connected = true;
  actions = writes (request_for cfg Verb.get (codes "/fapi/v1/ping") query) ∷ [];
}

abbrev nothing : Decoder ℕ
nothing = skips 7

pinged :
    async_execute no_document nothing weak_hmac no_ed25519 cfg 1700 Verb.get
      (codes "/fapi/v1/ping")
      query
      false
      (answered ok)
      connected
      (answered ok)
      client
    ≡ some (after, success 7)
unfolding async_execute final_query async_request decode_response
pinged = refl

success-Decoded_example : Decoded no_document nothing (answered ok) (answered ok) 7
success-Decoded_example =
    success-Decoded no_document nothing weak_hmac no_ed25519 cfg 1700 Verb.get
      (codes "/fapi/v1/ping") query false (answered ok) (answered ok) connected client after 7
      pinged
