-- ===== src/Fapi/Query/Fields.antt =====
-- `to_query_map`: a request's members as a map.
use binapi.Prelude.{
  ◌≡◌, ◌∙◌, inl, inr, refl, sym, ap, true, List, [], ◌∷◌, Option, none, some, if◌then◌else◌,
  Bool-cases, subst,
}
use binapi.Prelude.Text.{Bytes, same_text, same_text_eq}
use binapi.Fapi.Query.{
  QueryMap, emplace, Member, plain, optional, to_query_value, emit_field, emit_fields, to_query_map,
}
use binapi.Fapi.Query.Params.{
  find, is_sorted, first_of, find-emplace_self, find-emplace_ne, emplace-is_sorted,
}

first_of_assoc : (a b c : Option Bytes) → first_of (first_of a b) c ≡ first_of a (first_of b c)
first_of_assoc (some v) b c = refl
first_of_assoc none b c = refl

first_of-none : (a : Option Bytes) → a ≡ first_of a none
first_of-none (some v) = refl
first_of-none none = refl

module _ {D : Type 0} (double_to_string : D → Bytes) where
  -- The text of a member that is present.
  abbrev pub value_of : Member D → Option Bytes
  value_of (plain value) = some (to_query_value double_to_string value)
  value_of (optional (some value)) = some (to_query_value double_to_string value)
  value_of (optional none) = none

  -- The text of the first member of that key that is present.
  unfoldable pub first_value : Bytes → List (Bytes × Member D) → Option Bytes
  first_value key [] = none
  first_value key (f ∷ fields) =
      first_of (if same_text key f.0 then value_of f.1 else none) (first_value key fields)

  find-present :
      (key k value : Bytes) (query : QueryMap)
      → is_sorted query ≡ true
      → find key (emplace k value query)
        ≡ first_of (find key query) (if same_text key k then some value else none)
  find-present key k value query h = elim (Bool-cases (same_text key k)) [
    | inl e ↦ rw e (
        subst (λ j. find j (emplace k value query) ≡ first_of (find j query) (some value))
          (sym (same_text_eq key k e)) (find-emplace_self k value query h))
    | inr e ↦ rw e (find-emplace_ne k key value query e ∙ first_of-none (find key query))
  ]

  emit_field-is_sorted :
      (query : QueryMap) (key : Bytes) (member : Member D)
      → is_sorted query ≡ true
      → is_sorted (emit_field double_to_string query key member) ≡ true
  emit_field-is_sorted query key (plain value) h =
      emplace-is_sorted key (to_query_value double_to_string value) query h
  emit_field-is_sorted query key (optional (some value)) h =
      emplace-is_sorted key (to_query_value double_to_string value) query h
  emit_field-is_sorted query key (optional none) h = h

  find-emit_field :
      (key k : Bytes) (member : Member D) (query : QueryMap)
      → is_sorted query ≡ true
      → find key (emit_field double_to_string query k member)
        ≡ first_of (find key query) (if same_text key k then value_of member else none)
  find-emit_field key k (plain value) query h =
      find-present key k (to_query_value double_to_string value) query h
  find-emit_field key k (optional (some value)) query h =
      find-present key k (to_query_value double_to_string value) query h
  find-emit_field key k (optional none) query h = elim (Bool-cases (same_text key k)) [
    | inl e ↦ rw e (first_of-none (find key query))
    | inr e ↦ rw e (first_of-none (find key query))
  ]

  emit_fields_lem :
      (fields : List (Bytes × Member D)) (query : QueryMap) (key : Bytes)
      → is_sorted query ≡ true
      → (is_sorted (emit_fields double_to_string query fields) ≡ true)
        × (find key (emit_fields double_to_string query fields)
            ≡ first_of (find key query) (first_value key fields))
  unfolding emit_fields first_value
  emit_fields_lem [] query key h = (h, first_of-none (find key query))
  emit_fields_lem (f ∷ fields) query key h =
      let next = emit_field double_to_string query f.0 f.1 in
      let ih = emit_fields_lem fields next key (emit_field-is_sorted query f.0 f.1 h) in
      (
        ih.0,
        ih.1
            ∙ ap (λ o. first_of o (first_value key fields)) (find-emit_field key f.0 f.1 query h)
            ∙ first_of_assoc (find key query) (if same_text key f.0 then value_of f.1 else none)
                (first_value key fields),
      )

  -- The map of a request has its keys in strictly rising order, and each key has the text of the
  -- first of its members that is present, and no value if there is none.
  pub to_query_map_lem :
      (fields : List (Bytes × Member D)) (key : Bytes)
      → (is_sorted (to_query_map double_to_string fields) ≡ true)
        × (find key (to_query_map double_to_string fields) ≡ first_value key fields)
  unfolding to_query_map find is_sorted
  to_query_map_lem fields key = emit_fields_lem fields [] key refl
