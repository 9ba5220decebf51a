-- ===== src/Fapi/Query.antt =====
-- src/binapi2/fapi/signing.cpp and include/binapi2/fapi/query.hpp: requests as maps of parameters,
-- their canonical text, and its signature. A `query_map` is the list of its entries in the order of
-- `std::map`. The digest and the Ed25519 signature are OpenSSL's: the functions that use them take
-- them as parameters, the second with `none` where the code throws. The text of a `double` is the
-- standard library's, also a parameter.
pub mod Encoding
pub mod RoundTrip
pub mod Params
pub mod Fields
pub mod Signed
use binapi.Prelude.{
  ℕ, ◌/◌, ◌%◌, Bool, true, false, ◌&&◌, ◌||◌, not, List, [], ◌∷◌, ◌++◌, Option, none, some, ltb,
  leb, ◌==◌, if◌then◌else◌, get_or,
}
use binapi.Prelude.Int.{ℤ, pos, negsuc}
use binapi.Prelude.Text.{Bytes, codes, same_text}
use binapi.Decimal.{Decimal}
use binapi.Decimal.Print.{integer_text, to_text}

abbrev pub hex : Bytes
hex = codes "0123456789abcdef"

unfoldable pub to_hex : Bytes → Bytes
to_hex [] = []
to_hex (c ∷ data_) = get_or hex (c / 16 % 16) 0 ∷ get_or hex (c % 16) 0 ∷ to_hex data_

-- `isalnum` in the "C" locale.
abbrev pub is_alnum : ℕ → Bool
is_alnum ch =
    leb b'0' ch && leb ch b'9' || (leb b'A' ch && leb ch b'Z') || (leb b'a' ch && leb ch b'z')

abbrev pub is_unreserved : ℕ → Bool
is_unreserved ch = is_alnum ch || ch == b'-' || ch == b'_' || ch == b'.' || ch == b'~'

-- `%02X` of a byte.
abbrev pub upper_hex : Bytes
upper_hex = codes "0123456789ABCDEF"

abbrev pub encode_char : ℕ → Bytes
encode_char ch =
    if is_unreserved ch
    then ch ∷ []
    else b'%' ∷ get_or upper_hex (ch / 16) 0 ∷ get_or upper_hex (ch % 16) 0 ∷ []

unfoldable pub percent_encode : Bytes → Bytes
percent_encode [] = []
percent_encode (ch ∷ value) = encode_char ch ++ percent_encode value

abbrev pub QueryMap : Type 0
QueryMap = List (Bytes × Bytes)

abbrev pub is_empty : Bytes → Bool
is_empty [] = true
is_empty (c ∷ s) = false

unfoldable pub build_loop : Bytes → QueryMap → Bytes
unfolding percent_encode
build_loop out [] = out
build_loop out (e ∷ query) =
    build_loop
      ((if is_empty out then out else out ++ b'&' ∷ [])
        ++ percent_encode e.0
        ++ b'=' ∷ []
        ++ percent_encode e.1)
      query

unfoldable pub build_query_string : QueryMap → Bytes
unfolding build_loop
build_query_string query = build_loop [] query

-- The order of the keys of `std::map<std::string, …>`.
abbrev pub text_less : Bytes → Bytes → Bool
text_less [] [] = false
text_less [] (d ∷ t) = true
text_less (c ∷ s) [] = false
text_less (c ∷ s) (d ∷ t) = ltb c d || (c == d && text_less s t)

-- `query[key] = value`, and `query.emplace(key, value)`, which keeps a value that is there.
unfoldable pub put : Bytes → Bytes → QueryMap → QueryMap
put key value [] = (key, value) ∷ []
put key value (e ∷ query) =
    let rest = put key value query in
    if text_less key e.0
    then (key, value) ∷ e ∷ query
    else if text_less e.0 key
    then e ∷ rest
    else (key, value) ∷ query

unfoldable pub emplace : Bytes → Bytes → QueryMap → QueryMap
emplace key value [] = (key, value) ∷ []
emplace key value (e ∷ query) =
    let rest = emplace key value query in
    if text_less key e.0
    then (key, value) ∷ e ∷ query
    else if text_less e.0 key
    then e ∷ rest
    else e ∷ query

abbrev pub recv_window_key : Bytes
recv_window_key = codes "recvWindow"

abbrev pub timestamp_key : Bytes
timestamp_key = codes "timestamp"

abbrev pub signature_key : Bytes
signature_key = codes "signature"

unfoldable pub inject_auth_query : QueryMap → ℕ → ℕ → QueryMap
inject_auth_query query recv_window timestamp =
    put timestamp_key (integer_text timestamp)
      (put recv_window_key (integer_text recv_window) query)

pub data SignMethod : Type 0 where
  hmac ed25519 : SignMethod

-- The fields that a REST request uses.
pub record Config : Type 0 where
  pub rest_base_path : Bytes
  pub api_key : Bytes
  pub recv_window : ℕ
  pub secret_key : Bytes
  pub ed25519_private_key_pem : Bytes
  pub sign_method : SignMethod

module _ (hmac_sha256 : Bytes → Bytes → Bytes) where
  unfoldable pub hmac_sha256_hex : Bytes → Bytes → Bytes
  hmac_sha256_hex key data_ = to_hex (hmac_sha256 key data_)

  unfoldable pub sign_query : QueryMap → Bytes → QueryMap
  sign_query query secret_key =
      let canonical = build_query_string query in
      put signature_key (hmac_sha256_hex secret_key canonical) query

  module _ (ed25519_sign_base64 : Bytes → Bytes → Option Bytes) where
    abbrev pub sign_with : SignMethod → Config → Bytes → Option Bytes
    sign_with ed25519 cfg canonical = ed25519_sign_base64 cfg.ed25519_private_key_pem canonical
    sign_with hmac cfg canonical = some (hmac_sha256_hex cfg.secret_key canonical)

    unfoldable pub sign_query_with_config : QueryMap → Config → Option QueryMap
    sign_query_with_config query cfg =
        let canonical = build_query_string query in
        elim (sign_with cfg.sign_method cfg canonical) [
          | none ↦ none
          | some signature ↦ some (put signature_key signature query)
        ]

-- The types of a field that `to_query_value` has an overload for; an enum comes with its name.
pub data Value (D : Type 0) : Type 0 where
  text symbol enumerator : Bytes → Value D
  decimal : Decimal → Value D
  boolean : Bool → Value D
  unsigned timestamp : ℕ → Value D
  integer : ℤ → Value D
  double : D → Value D

-- A member of a request, which may be an `std::optional`.
pub data Member (D : Type 0) : Type 0 where
  plain : Value D → Member D
  optional : Option (Value D) → Member D

module _ {D : Type 0} (double_to_string : D → Bytes) where
  abbrev pub to_query_value : Value D → Bytes
  to_query_value (text value) = value
  to_query_value (symbol value) = value
  to_query_value (enumerator value) = value
  to_query_value (decimal value) = to_text value
  to_query_value (boolean value) = if value then codes "true" else codes "false"
  to_query_value (unsigned value) = integer_text value
  to_query_value (timestamp value) = integer_text value
  to_query_value (integer (pos n)) = integer_text n
  to_query_value (integer (negsuc n)) = b'-' ∷ integer_text (Prim.Native.Nat.suc n)
  to_query_value (double value) = double_to_string value

  abbrev pub emit_field : QueryMap → Bytes → Member D → QueryMap
  emit_field result key (plain value) = emplace key (to_query_value value) result
  emit_field result key (optional (some value)) = emplace key (to_query_value value) result
  emit_field result key (optional none) = result

  unfoldable pub emit_fields : QueryMap → List (Bytes × Member D) → QueryMap
  emit_fields result [] = result
  emit_fields result (f ∷ fields) = emit_fields (emit_field result f.0 f.1) fields

  unfoldable pub to_query_map : List (Bytes × Member D) → QueryMap
  to_query_map fields = emit_fields [] fields
