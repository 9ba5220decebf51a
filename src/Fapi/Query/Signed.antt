-- ===== src/Fapi/Query/Signed.antt =====
-- A signed request, checked the way the exchange is documented to check it.
use binapi.Prelude.{
  ◌≡◌, inl, inr, refl, ap, true, [], ◌∷◌, none, some, if◌then◌else◌, arith, Bool-cases, subst,
}
use binapi.Prelude.Text.{Bytes, same_text, same_text_refl}
use binapi.Fapi.Query.{
  to_hex, QueryMap, text_less, put, build_query_string, signature_key, hmac_sha256_hex, sign_query,
}
use binapi.Fapi.Query.Encoding.{all_bytes}
use binapi.Fapi.Query.RoundTrip.{are_bytes, parse_query, parse-build}
use binapi.Fapi.Query.Params.{find, find-put_self, incomparable-same}

-- The parameters but one.
unfoldable pub erase : Bytes → QueryMap → QueryMap
erase key [] = []
erase key (e ∷ query) = let rest = erase key query in if same_text key e.0 then rest else e ∷ rest

erase-absent : (key : Bytes) (query : QueryMap) → find key query ≡ none → erase key query ≡ query
unfolding find erase
erase-absent key [] h = refl
erase-absent key (e ∷ query) h = elim (Bool-cases (same_text key e.0)) [
  | inl s ↦ absurd (ground (arith, h, s))
  | inr s ↦ rw s (ap (λ q. e ∷ q) (erase-absent key query (ground (arith, h, s))))
]

erase-put :
    (key value : Bytes) (query : QueryMap)
    → find key query ≡ none
    → erase key (put key value query) ≡ query
unfolding find erase put
erase-put key value [] h = ground (arith, same_text_refl key)
erase-put key value (e ∷ query) h = elim (Bool-cases (same_text key e.0)) [
  | inl s ↦ absurd (ground (arith, h, s))
  | inr s ↦ elim (Bool-cases (text_less key e.0)) [
    | inl l ↦
        rw (l, same_text_refl key, s)
          (ap (λ q. e ∷ q) (erase-absent key query (ground (arith, h, s))))
    | inr l ↦ elim (Bool-cases (text_less e.0 key)) [
      | inl g ↦ rw (l, g, s) (ap (λ q. e ∷ q) (erase-put key value query (ground (arith, h, s))))
      | inr g ↦ absurd (
          ground (
            arith,
            s,
            subst (λ k. same_text key k ≡ true) (incomparable-same key e.0 l g)
                (same_text_refl key),
          ))
    ]
  ]
]

pub put-are_bytes :
    (key value : Bytes) (query : QueryMap)
    → all_bytes key ≡ true
    → all_bytes value ≡ true
    → are_bytes query ≡ true
    → are_bytes (put key value query) ≡ true
unfolding put
put-are_bytes key value [] h k b = ground (arith, h, k)
put-are_bytes key value (e ∷ query) h k b =
    ground (arith, h, k, b, put-are_bytes key value query h k (ground (arith, b)))

to_hex-all_bytes : (s : Bytes) → all_bytes (to_hex s) ≡ true
unfolding to_hex
to_hex-all_bytes [] = refl
to_hex-all_bytes (c ∷ s) = ground (arith, to_hex-all_bytes s)

module _ (hmac_sha256 : Bytes → Bytes → Bytes) where
  -- sign
  pub signed_accepted :
      (query : QueryMap) (secret_key : Bytes)
      → are_bytes query ≡ true
      → find signature_key query ≡ none
      → (parse_query (build_query_string (sign_query hmac_sha256 query secret_key))
          ≡ some (sign_query hmac_sha256 query secret_key))
        × (erase signature_key (sign_query hmac_sha256 query secret_key) ≡ query)
        × (find signature_key (sign_query hmac_sha256 query secret_key)
            ≡ some (to_hex (hmac_sha256 secret_key (build_query_string query))))
  unfolding sign_query hmac_sha256_hex
  signed_accepted query secret_key h k =
      let signature = to_hex (hmac_sha256 secret_key (build_query_string query)) in
      (
        parse-build (put signature_key signature query) (
            put-are_bytes signature_key signature query refl
              (to_hex-all_bytes (hmac_sha256 secret_key (build_query_string query))) h),
        erase-put signature_key signature query k,
        find-put_self signature_key signature query,
      )
