-- ===== src/Fapi/Query/RoundTrip.antt =====
-- The canonical text of a map, split again at the separators and decoded.
use binapi.Prelude.{
  ℕ, ◌<◌, ◌≡◌, ◌∙◌, ◌⊎◌, inl, inr, refl, sym, ap, Bool, true, false, ◌&&◌, not, List, [], ◌∷◌, ◌++◌,
  append_assoc, append-nil, Option, none, some, ◌==◌, if◌then◌else◌, arith, ltb→lt,
}
use binapi.Prelude.Text.{Bytes}
use binapi.Fapi.Query.{
  encode_char, percent_encode, QueryMap, is_empty, build_loop, build_query_string,
}
use binapi.Fapi.Query.Encoding.{outside, decode_from, all_bytes, decode-encode}

abbrev pub extend_first : ℕ → List Bytes → List Bytes
extend_first c [] = (c ∷ []) ∷ []
extend_first c (piece ∷ pieces) = (c ∷ piece) ∷ pieces

-- The pieces of a text between the separators.
unfoldable pub split : ℕ → Bytes → List Bytes
split d [] = [] ∷ []
split d (c ∷ s) = let rest = split d s in if c == d then [] ∷ rest else extend_first c rest

abbrev pub both : Option Bytes → Option Bytes → Option (Bytes × Bytes)
both (some key) (some value) = some (key, value)
both (some key) none = none
both none v = none

abbrev pub read_pair : List Bytes → Option (Bytes × Bytes)
read_pair (k ∷ v ∷ []) = both (decode_from outside k) (decode_from outside v)
read_pair [] = none
read_pair (k ∷ []) = none
read_pair (k ∷ v ∷ w ∷ ws) = none

abbrev pub cons_entry : Option (Bytes × Bytes) → Option QueryMap → Option QueryMap
cons_entry (some e) (some query) = some (e ∷ query)
cons_entry (some e) none = none
cons_entry none q = none

unfoldable pub read_entries : List Bytes → Option QueryMap
unfolding split
read_entries [] = some []
read_entries (piece ∷ pieces) = cons_entry (read_pair (split b'=' piece)) (read_entries pieces)

-- The parameters that a text carries.
unfoldable pub parse_query : Bytes → Option QueryMap
unfolding split read_entries
parse_query [] = some []
parse_query (c ∷ s) = read_entries (split b'&' (c ∷ s))

abbrev has_no : ℕ → Bytes → Bool
has_no d [] = true
has_no d (c ∷ s) = not (c == d) && has_no d s

has_no-append :
    (d : ℕ) (s t : Bytes) → has_no d s ≡ true → has_no d t ≡ true → has_no d (s ++ t) ≡ true
has_no-append d [] t h k = k
has_no-append d (c ∷ s) t h k = ground (arith, has_no-append d s t (ground (arith, h)) k)

split-piece : (d : ℕ) (s : Bytes) → has_no d s ≡ true → split d s ≡ s ∷ []
unfolding split
split-piece d [] h = refl
split-piece d (c ∷ s) h = rw (split-piece d s (ground (arith, h))) (ground (arith, h))

split-append : (d : ℕ) (s t : Bytes) → has_no d s ≡ true → split d (s ++ d ∷ t) ≡ s ∷ split d t
unfolding split
split-append d [] t h = ground arith
split-append d (c ∷ s) t h = rw (split-append d s t (ground (arith, h))) (ground (arith, h))

encode_char-has_no :
    (d ch : ℕ) → (d ≡ b'&') ⊎ (d ≡ b'=') → ch < 256 → has_no d (encode_char ch) ≡ true
encode_char-has_no d ch (inl e) h = ground (arith, e)
encode_char-has_no d ch (inr e) h = ground (arith, e)

encode-has_no :
    (d : ℕ) (s : Bytes)
    → (d ≡ b'&') ⊎ (d ≡ b'=')
    → all_bytes s ≡ true
    → has_no d (percent_encode s) ≡ true
unfolding percent_encode
encode-has_no d [] e h = refl
encode-has_no d (c ∷ s) e h =
    has_no-append d (encode_char c) (percent_encode s)
      (encode_char-has_no d c e (ltb→lt c 256 (ground (arith, h))))
      (encode-has_no d s e (ground (arith, h)))

abbrev pub are_bytes : QueryMap → Bool
are_bytes [] = true
are_bytes (e ∷ query) = all_bytes e.0 && all_bytes e.1 && are_bytes query

abbrev entry_text : Bytes × Bytes → Bytes
entry_text e = percent_encode e.0 ++ b'=' ∷ percent_encode e.1

entry-has_no :
    (e : Bytes × Bytes)
    → all_bytes e.0 ≡ true
    → all_bytes e.1 ≡ true
    → has_no b'&' (entry_text e) ≡ true
entry-has_no e h k =
    has_no-append b'&' (percent_encode e.0) (b'=' ∷ percent_encode e.1)
      (encode-has_no b'&' e.0 (inl refl) h) (encode-has_no b'&' e.1 (inl refl) k)

read-entry :
    (e : Bytes × Bytes)
    → all_bytes e.0 ≡ true
    → all_bytes e.1 ≡ true
    → read_pair (split b'=' (entry_text e)) ≡ some e
read-entry e h k =
    ap read_pair (
      split-append b'=' (percent_encode e.0) (percent_encode e.1)
        (encode-has_no b'=' e.0 (inr refl) h)
      ∙ ap (λ ps. percent_encode e.0 ∷ ps)
          (split-piece b'=' (percent_encode e.1) (encode-has_no b'=' e.1 (inr refl) k)))
    ∙ ap (λ o. both o (decode_from outside (percent_encode e.1))) (decode-encode e.0 h)
    ∙ ap (both (some e.0)) (decode-encode e.1 k)

-- What the loop appends for the entries behind the first.
abbrev rest_text : QueryMap → Bytes
rest_text [] = []
rest_text (e ∷ query) = b'&' ∷ entry_text e ++ rest_text query

pub entry_is_not_empty : (xs k v : Bytes) → is_empty (xs ++ k ++ b'=' ∷ [] ++ v) ≡ false
entry_is_not_empty (c ∷ xs) k v = refl
entry_is_not_empty [] (c ∷ k) v = refl
entry_is_not_empty [] [] v = refl

append_entry :
    (out k v : Bytes) → out ++ b'&' ∷ [] ++ k ++ b'=' ∷ [] ++ v ≡ out ++ b'&' ∷ (k ++ b'=' ∷ v)
append_entry out k v = simp (append_assoc)

build_loop_lem :
    (out : Bytes) (query : QueryMap)
    → is_empty out ≡ false
    → build_loop out query ≡ out ++ rest_text query
unfolding build_loop
build_loop_lem out [] h = sym (append-nil out)
build_loop_lem [] (e ∷ query) h = absurd (ground (arith, h))
build_loop_lem (c ∷ out) (e ∷ query) h =
    build_loop_lem (c ∷ out ++ b'&' ∷ [] ++ percent_encode e.0 ++ b'=' ∷ [] ++ percent_encode e.1)
      query (entry_is_not_empty (c ∷ out ++ b'&' ∷ []) (percent_encode e.0) (percent_encode e.1))
    ∙ ap (λ s. s ++ rest_text query)
        (append_entry (c ∷ out) (percent_encode e.0) (percent_encode e.1))
    ∙ append_assoc (c ∷ out) (b'&' ∷ entry_text e) (rest_text query)

read-entries :
    (e : Bytes × Bytes) (query : QueryMap)
    → are_bytes (e ∷ query) ≡ true
    → read_entries (split b'&' (entry_text e ++ rest_text query)) ≡ some (e ∷ query)
unfolding read_entries
read-entries e [] h =
    ap (λ s. read_entries (split b'&' s)) (append-nil (entry_text e))
    ∙ ap read_entries
        (split-piece b'&' (entry_text e) (entry-has_no e (ground (arith, h)) (ground (arith, h))))
    ∙ ap (λ o. cons_entry o (some [])) (read-entry e (ground (arith, h)) (ground (arith, h)))
read-entries e (f ∷ query) h =
    ap read_entries (
      split-append b'&' (entry_text e) (entry_text f ++ rest_text query)
        (entry-has_no e (ground (arith, h)) (ground (arith, h))))
    ∙ ap (λ o. cons_entry o (read_entries (split b'&' (entry_text f ++ rest_text query))))
        (read-entry e (ground (arith, h)) (ground (arith, h)))
    ∙ ap (cons_entry (some e)) (read-entries f query (ground (arith, h)))

parse-text : (s : Bytes) → is_empty s ≡ false → parse_query s ≡ read_entries (split b'&' s)
unfolding parse_query
parse-text [] h = absurd (ground (arith, h))
parse-text (c ∷ s) h = refl

entry_text_is_not_empty : (k v r : Bytes) → is_empty (k ++ b'=' ∷ v ++ r) ≡ false
entry_text_is_not_empty (c ∷ k) v r = refl
entry_text_is_not_empty [] v r = refl

-- The canonical text of a map whose keys and values are bytes, split at "&" and at "=" and
-- percent-decoded, gives the map back.
pub parse-build :
    (query : QueryMap)
    → are_bytes query ≡ true
    → parse_query (build_query_string query) ≡ some query
unfolding parse_query build_query_string build_loop
parse-build [] h = refl
parse-build (e ∷ query) h =
    let k = percent_encode e.0 in
    let v = percent_encode e.1 in
    ap parse_query (
      build_loop_lem (k ++ b'=' ∷ [] ++ v) query (entry_is_not_empty [] k v)
      ∙ ap (λ s. s ++ rest_text query) (append_assoc k (b'=' ∷ []) v))
    ∙ parse-text (entry_text e ++ rest_text query) (entry_text_is_not_empty k v (rest_text query))
    ∙ read-entries e query h
