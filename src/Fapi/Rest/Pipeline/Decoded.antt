-- ===== src/Fapi/Rest/Pipeline/Decoded.antt =====
-- What a result of the REST pipeline says about the network.
use binapi.Prelude.{
  ℕ, ◌≡◌, ◌⊎◌, inl, inr, sym, ap, subst, Bool, true, false, ◌||◌, not, Option, none, some, arith,
  Bool-cases, if◌then◌else◌,
}
use binapi.Prelude.Int.{ℤ, pos, ltb_ℤ}
use binapi.Prelude.Text.{Bytes}
use binapi.Fapi.Query.{QueryMap, Config}
use binapi.Fapi.Rest.Endpoints.{Verb}
use binapi.Fapi.Rest.Http.{
  Result, success, failure, HttpResponse, HttpRequest, Exchange, answered, Connect, HttpClient,
  async_request,
}
use binapi.Fapi.Rest.Http.Retry.{Answer, NoAnswer, async_request_lem}
use binapi.Fapi.Rest.Pipeline.{
  Decoder, decode_body, decode_response, decode_result, error_document, final_query, request_for,
  async_execute, execute_with,
}

module _ {A : Type 0} (read_error : Bytes → Option (ℤ × Bytes)) (decoder : Decoder A) where
  -- A response of the exchange with a status of success, whose body was decoded to the value.
  pub record Decoded (first second : Exchange) (value : A) : Type 0 where
    pub response : HttpResponse
    pub was_answered : (first ≡ answered response) ⊎ (second ≡ answered response)
    pub from_200 : ltb_ℤ response.status (pos 200) ≡ false
    pub below_300 : ltb_ℤ response.status (pos 300) ≡ true
    pub was_decoded : decode_body decoder response ≡ success value

  abbrev IsValue : Result A → Type 0
  IsValue (success v) = Unit {0}
  IsValue (failure e) = ⊥

  success_not_failure : (v : A) (r : Result A) → r ≡ success v → IsValue r
  success_not_failure v r h = subst IsValue (sym h) tt

  response_lem :
      (first second : Exchange) (response : HttpResponse) (value : A)
      → (first ≡ answered response) ⊎ (second ≡ answered response)
      → decode_response read_error decoder response ≡ success value
      → Decoded first second value
  unfolding decode_response
  response_lem first second response value a h =
      let failed = failure (error_document response (read_error response.body)) in
      let tested =
        (λ (b : Bool). (if b then failed else decode_body decoder response) ≡ success value) in
      elim (Bool-cases (ltb_ℤ response.status (pos 200) || not (ltb_ℤ response.status (pos 300)))) [
        | inl bad ↦ absurd (success_not_failure value failed (subst tested bad h))
        | inr good ↦ record {
          response = response;
          was_answered = a;
          from_200 = ground (arith, good);
          below_300 = ground (arith, good);
          was_decoded = subst tested good h;
        }
      ]

  result_lem :
      (req : HttpRequest) (first second : Exchange) (t : HttpClient × Result HttpResponse)
      (value : A)
      → NoAnswer t ⊎ Answer req first second t
      → decode_result read_error decoder t.1 ≡ success value
      → Decoded first second value
  result_lem req first second t value (inl n) h = absurd (
      success_not_failure value (failure n.error)
        (subst (λ r. decode_result read_error decoder r ≡ success value) n.is_result h))
  result_lem req first second t value (inr a) h =
      response_lem first second a.response value a.was_answered
        (subst (λ r. decode_result read_error decoder r ≡ success value) a.is_result h)

  abbrev result_or : Result A → Option (HttpClient × Result A) → Result A
  result_or r (some t) = t.1
  result_or r none = r

  module _ (hmac_sha256 : Bytes → Bytes → Bytes)
      (ed25519_sign_base64 : Bytes → Bytes → Option Bytes) where
    query_lem :
        (cfg : Config) (method : Verb) (path : Bytes) (first second : Exchange) (link : Connect)
        (s t : HttpClient) (value : A) (o : Option QueryMap)
        → execute_with read_error decoder cfg method path first link second s o
          ≡ some (t, success value)
        → Decoded first second value
    query_lem cfg method path first second link s t value none h = absurd (ground (arith, h))
    query_lem cfg method path first second link s t value (some q) h =
        let t = async_request (request_for cfg method path q) first link second s in
        result_lem (request_for cfg method path q) first second t value
          (async_request_lem (request_for cfg method path q) first second link s).0
          (ap (result_or (success value)) h)

    -- If async_execute ends with a value, then one of the exchanges was answered by a response
    -- whose status is at least 200 and below 300, and the value is what the decoder makes of that
    -- response.
    pub success-Decoded :
        (cfg : Config) (now : ℕ) (method : Verb) (path : Bytes) (query : QueryMap)
        (signed_request : Bool) (first second : Exchange) (link : Connect) (s t : HttpClient)
        (value : A)
        → async_execute read_error decoder hmac_sha256 ed25519_sign_base64 cfg now method path query
            signed_request first link second s
          ≡ some (t, success value)
        → Decoded first second value
    unfolding async_execute
    success-Decoded cfg now method path query signed_request first second link s t value h =
        query_lem cfg method path first second link s t value
          (final_query hmac_sha256 ed25519_sign_base64 cfg now query signed_request) h
