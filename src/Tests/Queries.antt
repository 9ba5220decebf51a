-- ===== src/Tests/Queries.antt =====
-- The theorems on queries at concrete requests.
use binapi.Prelude.{ℕ, ◌≡◌, refl, true, List, [], ◌∷◌, none, some}
use binapi.Prelude.Text.{Bytes, codes}
use binapi.Fapi.Query.{
  to_hex, percent_encode, QueryMap, build_query_string, build_loop, Member, plain, optional, text,
  boolean, to_query_map,
}
use binapi.Fapi.Query.RoundTrip.{parse_query, parse-build}
use binapi.Fapi.Query.Params.{find, is_sorted}
use binapi.Fapi.Query.Fields.{first_value, to_query_map_lem}

abbrev digest : Bytes
digest = 0 ∷ 255 ∷ 171 ∷ []

digest_hex : to_hex digest ≡ codes "00ffab"
unfolding to_hex
digest_hex = refl

abbrev order : QueryMap
order = (codes "side", codes "BUY & SELL") ∷ (codes "symbol", codes "BTC=USDT%") ∷ []

order_text : build_query_string order ≡ codes "side=BUY%20%26%20SELL&symbol=BTC%3DUSDT%25"
unfolding build_query_string build_loop percent_encode
order_text = refl

parse-build_example : parse_query (build_query_string order) ≡ some order
parse-build_example = parse-build order refl

-- A request of three members, of which the second is absent.
abbrev request : List (Bytes × Member ℕ)
request =
    (codes "symbol", plain (text (codes "BTCUSDT")))
    ∷ (codes "limit", optional none)
    ∷ (codes "closePosition", optional (some (boolean true)))
    ∷ []

abbrev no_text : ℕ → Bytes
no_text d = []

to_query_map_lem_example :
    (is_sorted (to_query_map no_text request) ≡ true)
    × (find (codes "closePosition") (to_query_map no_text request)
        ≡ first_value no_text (codes "closePosition") request)
to_query_map_lem_example = to_query_map_lem no_text request (codes "closePosition")
