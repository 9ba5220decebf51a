-- ===== src/Fapi/Rest/Pipeline/Wire.antt =====
-- What a signed request carries over the wire.
use binapi.Prelude.{
  ℕ, ◌≡◌, ◌∙◌, refl, sym, ap, true, false, [], ◌∷◌, ◌++◌, append-nil, Option, none, some,
  if◌then◌else◌, arith, Bool-cases, inl, inr, ◌==◌,
}
use binapi.Prelude.Text.{Bytes, same_text}
use binapi.Decimal.Parse.Digits.{AllDigits}
use binapi.Decimal.Print.{max_rounds, integer_text}
use binapi.Decimal.Print.Digits.{last_digits, last_digits-AllDigits, digit_count, push_digits_lem}
use binapi.Fapi.Query.{
  to_hex, percent_encode, QueryMap, put, is_empty, build_loop, build_query_string, recv_window_key,
  timestamp_key, signature_key, inject_auth_query, hmac_sha256_hex, hmac, Config, sign_with,
  sign_query_with_config, sign_query,
}
use binapi.Fapi.Query.Encoding.{all_bytes}
use binapi.Fapi.Query.RoundTrip.{are_bytes, parse_query, entry_is_not_empty}
use binapi.Fapi.Query.Params.{find, find-put_ne, find-put_self}
use binapi.Fapi.Query.Signed.{erase, put-are_bytes, signed_accepted}
use binapi.Fapi.Rest.Endpoints.{Verb}
use binapi.Fapi.Rest.Http.{takes_body}
use binapi.Fapi.Rest.Pipeline.{final_query, request_for, target_of, body_of}

digits-all_bytes : (s : Bytes) → AllDigits s → all_bytes s ≡ true
digits-all_bytes [] h = refl
digits-all_bytes (c ∷ s) h = ground (arith, h.0, digits-all_bytes s h.1)

integer_text-all_bytes : (n : ℕ) → all_bytes (integer_text n) ≡ true
unfolding integer_text
integer_text-all_bytes n = elim (Bool-cases (n == 0)) [
  | inl z ↦ rw z refl
  | inr z ↦
      rw (z, push_digits_lem max_rounds n [], append-nil (last_digits (digit_count max_rounds n) n))
        (digits-all_bytes (last_digits (digit_count max_rounds n) n)
          (last_digits-AllDigits (digit_count max_rounds n) n))
]

inject-are_bytes :
    (query : QueryMap) (w t : ℕ)
    → are_bytes query ≡ true
    → are_bytes (inject_auth_query query w t) ≡ true
unfolding inject_auth_query
inject-are_bytes query w t h =
    put-are_bytes timestamp_key (integer_text t) (put recv_window_key (integer_text w) query) refl
      (integer_text-all_bytes t)
      (put-are_bytes recv_window_key (integer_text w) query refl (integer_text-all_bytes w) h)

inject_found :
    (query : QueryMap) (w t : ℕ)
    → (find recv_window_key (inject_auth_query query w t) ≡ some (integer_text w))
      × (find timestamp_key (inject_auth_query query w t) ≡ some (integer_text t))
unfolding inject_auth_query
inject_found query w t =
    let q = put recv_window_key (integer_text w) query in
    (
      find-put_ne timestamp_key recv_window_key (integer_text t) q refl
          ∙ find-put_self recv_window_key (integer_text w) query,
      find-put_self timestamp_key (integer_text t) q,
    )

inject_unsigned :
    (query : QueryMap) (w t : ℕ)
    → find signature_key query ≡ none
    → find signature_key (inject_auth_query query w t) ≡ none
unfolding inject_auth_query
inject_unsigned query w t h =
    find-put_ne timestamp_key signature_key (integer_text t)
      (put recv_window_key (integer_text w) query) refl
    ∙ find-put_ne recv_window_key signature_key (integer_text w) query refl
    ∙ h

build_loop_is_not_empty :
    (out : Bytes) (query : QueryMap)
    → is_empty out ≡ false
    → is_empty (build_loop out query) ≡ false
unfolding build_loop
build_loop_is_not_empty out [] h = h
build_loop_is_not_empty out (e ∷ query) h =
    build_loop_is_not_empty
      ((if is_empty out then out else out ++ b'&' ∷ [])
        ++ percent_encode e.0
        ++ b'=' ∷ []
        ++ percent_encode e.1)
      query
      (entry_is_not_empty (if is_empty out then out else out ++ b'&' ∷ []) (percent_encode e.0)
        (percent_encode e.1))

-- A map with an entry has a text.
text_is_not_empty :
    (key value : Bytes) (query : QueryMap)
    → find key query ≡ some value
    → is_empty (build_query_string query) ≡ false
unfolding build_query_string find build_loop
text_is_not_empty key value [] h = absurd (ground (arith, h))
text_is_not_empty key value (e ∷ query) h =
    build_loop_is_not_empty (percent_encode e.0 ++ b'=' ∷ [] ++ percent_encode e.1) query
      (entry_is_not_empty [] (percent_encode e.0) (percent_encode e.1))

target_lem :
    (cfg : Config) (method : Verb) (path text : Bytes)
    → is_empty text ≡ false
    → target_of cfg method path text ≡ (
        if takes_body method
        then cfg.rest_base_path ++ path
        else cfg.rest_base_path ++ path ++ b'?' ∷ text)
target_lem cfg Verb.get path text e = rw e refl
target_lem cfg Verb.delete path text e = rw e refl
target_lem cfg Verb.post path text e = rw e refl
target_lem cfg Verb.put path text e = rw e refl

body_lem :
    (method : Verb) (text : Bytes)
    → is_empty text ≡ false
    → (if takes_body method then body_of method text else [])
      ≡ (if takes_body method then text else [])
body_lem Verb.get text e = refl
body_lem Verb.delete text e = refl
body_lem Verb.post text e = rw e refl
body_lem Verb.put text e = rw e refl

module _ (hmac_sha256 : Bytes → Bytes → Bytes)
    (ed25519_sign_base64 : Bytes → Bytes → Option Bytes) where
  signed_find :
      (key : Bytes) (query : QueryMap) (secret_key : Bytes)
      → same_text key signature_key ≡ false
      → find key (sign_query hmac_sha256 query secret_key) ≡ find key query
  unfolding sign_query
  signed_find key query secret_key h =
      find-put_ne signature_key key
        (hmac_sha256_hex hmac_sha256 secret_key (build_query_string query)) query h

  config-hmac :
      (query : QueryMap) (cfg : Config)
      → cfg.sign_method ≡ hmac
      → sign_query_with_config hmac_sha256 ed25519_sign_base64 query cfg
        ≡ some (sign_query hmac_sha256 query cfg.secret_key)
  unfolding sign_query_with_config sign_query
  config-hmac query cfg h =
      ap
        (λ m. elim (sign_with hmac_sha256 ed25519_sign_base64 m cfg (build_query_string query)) [
          | none ↦ none
          | some signature ↦ some (put signature_key signature query)
        ])
        h

  -- What the exchange gets of a signed request: the query as it was sent, its text in the request, and
  -- the text that was signed, which is that of the query without its signature.
  pub record Received (cfg : Config) (now : ℕ) (method : Verb) (path : Bytes) (query : QueryMap)
      : Type 0 where
    pub signed : QueryMap
    pub text : Bytes
    pub is_sent : final_query hmac_sha256 ed25519_sign_base64 cfg now query true ≡ some signed
    pub in_target : (request_for cfg method path signed).target ≡ (
        if takes_body method
        then cfg.rest_base_path ++ path
        else cfg.rest_base_path ++ path ++ b'?' ∷ text)
    pub in_body :
        (request_for cfg method path signed).body ≡ (if takes_body method then text else [])
    pub is_read : parse_query text ≡ some signed
    pub is_unsigned : erase signature_key signed ≡ inject_auth_query query cfg.recv_window now
    pub has_window : find recv_window_key signed ≡ some (integer_text cfg.recv_window)
    pub has_timestamp : find timestamp_key signed ≡ some (integer_text now)
    pub has_signature :
        find signature_key signed
        ≡ some
            (to_hex (hmac_sha256 cfg.secret_key (build_query_string (erase signature_key signed))))

  -- For a configuration that signs by HMAC, and a query of bytes that has no "signature" yet: a
  -- signed request is sent, with no exception, and carries one text, behind "?" in the target for
  -- GET and DELETE and in the body for the other verbs. That text decodes to a map which has
  -- recvWindow and timestamp as configured, is the query with these two added once the signature
  -- is taken away, and whose signature is the digest of the canonical text of that rest.
  pub signed_request-Received :
      (cfg : Config) (now : ℕ) (method : Verb) (path : Bytes) (query : QueryMap)
      → cfg.sign_method ≡ hmac
      → are_bytes query ≡ true
      → find signature_key query ≡ none
      → Received cfg now method path query
  unfolding final_query
  signed_request-Received cfg now method path query m h k =
      let q = inject_auth_query query cfg.recv_window now in
      let signed = sign_query hmac_sha256 q cfg.secret_key in
      let accepted =
        signed_accepted hmac_sha256 q cfg.secret_key (inject-are_bytes query cfg.recv_window now h)
          (inject_unsigned query cfg.recv_window now k) in
      let injected = inject_found query cfg.recv_window now in
      let text = build_query_string signed in
      let full =
        text_is_not_empty signature_key (to_hex (hmac_sha256 cfg.secret_key (build_query_string q)))
          signed accepted.2 in
      record {
        signed = signed;
        text = text;
        is_sent = config-hmac q cfg m;
        in_target = target_lem cfg method path text full;
        in_body = body_lem method text full;
        is_read = accepted.0;
        is_unsigned = accepted.1;
        has_window = signed_find recv_window_key q cfg.secret_key refl ∙ injected.0;
        has_timestamp = signed_find timestamp_key q cfg.secret_key refl ∙ injected.1;
        has_signature =
            accepted.2
            ∙ ap (λ r. some (to_hex (hmac_sha256 cfg.secret_key (build_query_string r))))
                (sym accepted.1);
      }
