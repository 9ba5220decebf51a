-- ===== src/Fapi/Rest/Pipeline.antt =====
-- include/binapi2/fapi/rest/pipeline.hpp and include/binapi2/fapi/detail/decode.hpp: a request from its query to
-- its typed response. The readers of JSON are glaze's, an argument: `read_error` reads an error
-- document, and a `Decoder` the response, with the text of its error where it fails.
pub mod Wire
pub mod Decoded
use binapi.Prelude.{
  ℕ, ◌≡◌, Bool, true, false, ◌&&◌, ◌||◌, not, List, [], ◌∷◌, ◌++◌, Option, some, ◌⊎◌, inl, inr,
  if◌then◌else◌,
}
use binapi.Prelude.Int.{ℤ, pos, ltb_ℤ}
use binapi.Prelude.Text.{Bytes, codes}
use binapi.Fapi.Query.{
  QueryMap, Config, is_empty, build_query_string, inject_auth_query, sign_query_with_config,
}
use binapi.Fapi.Rest.Endpoints.{Verb, EndpointMetadata}
use binapi.Fapi.Rest.Http.{
  ErrorCode, Error, Result, success, failure, HttpResponse, HttpRequest, make_request, takes_body,
  Exchange, Connect, HttpClient, async_request,
}

-- Where the text of a query goes.
abbrev pub target_of : Config → Verb → Bytes → Bytes → Bytes
target_of cfg method path query_string =
    if not (is_empty query_string) && not (takes_body method)
    then cfg.rest_base_path ++ path ++ b'?' ∷ query_string
    else cfg.rest_base_path ++ path

abbrev pub body_of : Verb → Bytes → Bytes
body_of method query_string =
    if not (is_empty query_string) && takes_body method then query_string else []

abbrev pub content_type : Bytes
content_type = codes "application/x-www-form-urlencoded"

abbrev pub request_for : Config → Verb → Bytes → QueryMap → HttpRequest
request_for cfg method path query =
    let query_string = build_query_string query in
    make_request method (target_of cfg method path query_string) (body_of method query_string)
      content_type cfg.api_key

module _ (hmac_sha256 : Bytes → Bytes → Bytes)
    (ed25519_sign_base64 : Bytes → Bytes → Option Bytes) where
  -- The query that is sent; `none` is an exception of the signature.
  unfoldable pub final_query : Config → ℕ → QueryMap → Bool → Option QueryMap
  final_query cfg now query signed_request =
      if signed_request
      then sign_query_with_config hmac_sha256 ed25519_sign_base64
          (inject_auth_query query cfg.recv_window now) cfg
      else some query

-- A type of response: `empty_response_t`, which is not read, or one that is read from JSON.
pub data Decoder (A : Type 0) : Type 0 where
  skips : A → Decoder A
  reads : (Bytes → Bytes ⊎ A) → Decoder A

abbrev pub error_document : HttpResponse → Option (ℤ × Bytes) → Error
error_document response (some d) = record {
  code = ErrorCode.binance;
  http_status = response.status;
  binance_code = d.0;
  message = d.1;
  payload = response.body;
}
error_document response Option.none = record {
  code = ErrorCode.http_status;
  http_status = response.status;
  binance_code = pos 0;
  message = codes "HTTP request failed";
  payload = response.body;
}

abbrev pub parsed : {A : Type 0} → HttpResponse → Bytes ⊎ A → Result A
parsed response (inr value) = success value
parsed response (inl message) = failure (record {
  code = ErrorCode.json;
  http_status = response.status;
  binance_code = pos 0;
  message = message;
  payload = response.body;
})

abbrev pub decode_body : {A : Type 0} → Decoder A → HttpResponse → Result A
decode_body (skips value) response = success value
decode_body (reads read) response = parsed response (read response.body)

module _ {A : Type 0} (read_error : Bytes → Option (ℤ × Bytes)) (decoder : Decoder A) where
  unfoldable pub decode_response : HttpResponse → Result A
  decode_response response =
      if ltb_ℤ response.status (pos 200) || not (ltb_ℤ response.status (pos 300))
      then failure (error_document response (read_error response.body))
      else decode_body decoder response

  abbrev pub decode_result : Result HttpResponse → Result A
  decode_result (success response) = decode_response response
  decode_result (failure err) = failure err

  abbrev pub execute_with :
      Config
      → Verb
      → Bytes
      → Exchange
      → Connect
      → Exchange
      → HttpClient
      → Option QueryMap
      → Option (HttpClient × Result A)
  execute_with cfg method path first link second client Option.none = Option.none
  execute_with cfg method path first link second client (some query) =
      let t = async_request (request_for cfg method path query) first link second client in
      some (t.0, decode_result t.1)

  module _ (hmac_sha256 : Bytes → Bytes → Bytes)
      (ed25519_sign_base64 : Bytes → Bytes → Option Bytes) where
    -- The call for a verb and a path, and the one for an endpoint.
    unfoldable pub async_execute :
        Config
        → ℕ
        → Verb
        → Bytes
        → QueryMap
        → Bool
        → Exchange
        → Connect
        → Exchange
        → HttpClient
        → Option (HttpClient × Result A)
    async_execute cfg now method path query signed_request first link second client =
        execute_with cfg method path first link second client
          (final_query hmac_sha256 ed25519_sign_base64 cfg now query signed_request)

    unfoldable pub execute_endpoint :
        Config
        → ℕ
        → EndpointMetadata
        → QueryMap
        → Exchange
        → Connect
        → Exchange
        → HttpClient
        → Option (HttpClient × Result A)
    unfolding async_execute
    execute_endpoint cfg now endpoint query first link second client =
        async_execute cfg now endpoint.method endpoint.path query endpoint.signed_request first link
          second client
