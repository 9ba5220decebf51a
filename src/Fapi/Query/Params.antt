-- ===== src/Fapi/Query/Params.antt =====
-- The map of parameters: its order, and what its writes do to the values of its keys.
use binapi.Prelude.{
  ◌≡◌, ◌∙◌, inl, inr, refl, sym, ap, Bool, true, false, ◌&&◌, [], ◌∷◌, Option, none, some,
  if◌then◌else◌, arith, Bool-cases, subst,
}
use binapi.Prelude.Text.{Bytes, same_text, same_text_refl}
use binapi.Fapi.Query.{QueryMap, text_less, put, emplace}

pub less-not_same : (s t : Bytes) → text_less s t ≡ true → same_text s t ≡ false
less-not_same [] [] h = absurd (ground arith)
less-not_same [] (d ∷ t) h = refl
less-not_same (c ∷ s) [] h = refl
less-not_same (c ∷ s) (d ∷ t) h = elim (Bool-cases (text_less s t)) [
  | inl e ↦ ground (arith, h, less-not_same s t e)
  | inr e ↦ ground (arith, h, e)
]

pub less-not_same_flipped : (s t : Bytes) → text_less s t ≡ true → same_text t s ≡ false
less-not_same_flipped [] [] h = absurd (ground arith)
less-not_same_flipped [] (d ∷ t) h = refl
less-not_same_flipped (c ∷ s) [] h = absurd (ground arith)
less-not_same_flipped (c ∷ s) (d ∷ t) h = elim (Bool-cases (text_less s t)) [
  | inl e ↦ ground (arith, h, less-not_same_flipped s t e)
  | inr e ↦ ground (arith, h, e)
]

-- Keys of which neither comes first are the same.
pub incomparable-same : (s t : Bytes) → text_less s t ≡ false → text_less t s ≡ false → s ≡ t
incomparable-same [] [] h k = refl
incomparable-same [] (d ∷ t) h k = absurd (ground arith)
incomparable-same (c ∷ s) [] h k = absurd (ground arith)
incomparable-same (c ∷ s) (d ∷ t) h k =
    let e = incomparable-same s t (ground (arith, h, k)) (ground (arith, h, k)) in
    ap (λ c. c ∷ s) {x = c} {y = d} (ground (arith, h, k)) ∙ ap (λ s. d ∷ s) e

-- The value of a key.
unfoldable pub find : Bytes → QueryMap → Option Bytes
find key [] = none
find key (e ∷ query) = let rest = find key query in if same_text key e.0 then some e.1 else rest

abbrev pub comes_before : Bytes → QueryMap → Bool
comes_before key [] = true
comes_before key (e ∷ query) = text_less key e.0

-- Strictly rising keys, as `std::map` keeps them.
unfoldable pub is_sorted : QueryMap → Bool
is_sorted [] = true
is_sorted (e ∷ query) = comes_before e.0 query && is_sorted query

pub find-put_self :
    (key value : Bytes) (query : QueryMap) → find key (put key value query) ≡ some value
unfolding find put
find-put_self key value [] = ground (arith, same_text_refl key)
find-put_self key value (e ∷ query) =
    ground (arith, same_text_refl key, find-put_self key value query, less-not_same_flipped e.0 key)

pub find-put_ne :
    (key other value : Bytes) (query : QueryMap)
    → same_text other key ≡ false
    → find other (put key value query) ≡ find other query
unfolding find put
find-put_ne key other value [] h = ground (arith, h)
find-put_ne key other value (e ∷ query) h = elim (Bool-cases (text_less key e.0)) [
  | inl l ↦ rw (l, h) refl
  | inr l ↦ elim (Bool-cases (text_less e.0 key)) [
    | inl g ↦ rw (l, g, find-put_ne key other value query h) refl
    | inr g ↦
        rw (l, g, h)
          (ground (arith, subst (λ k. same_text other k ≡ false) (incomparable-same key e.0 l g) h))
  ]
]

-- The first value that is there.
abbrev pub first_of : Option Bytes → Option Bytes → Option Bytes
first_of (some v) o = some v
first_of none o = o

not_less_empty : (s : Bytes) → text_less s [] ≡ false
not_less_empty [] = refl
not_less_empty (c ∷ s) = refl

less_trans : (r s t : Bytes) → text_less r s ≡ true → text_less s t ≡ true → text_less r t ≡ true
less_trans r s [] h k = absurd (ground (arith, k, not_less_empty s))
less_trans [] s (d ∷ t) h k = refl
less_trans (b ∷ r) [] (d ∷ t) h k = absurd (ground (arith, h))
less_trans (b ∷ r) (c ∷ s) (d ∷ t) h k = elim (Bool-cases (text_less r s && text_less s t)) [
  | inl e ↦ ground (arith, h, k, less_trans r s t (ground (arith, e)) (ground (arith, e)))
  | inr e ↦ ground (arith, h, k, e)
]

comes_before_trans :
    (key : Bytes) (e : Bytes × Bytes) (query : QueryMap)
    → text_less key e.0 ≡ true
    → comes_before e.0 query ≡ true
    → comes_before key query ≡ true
comes_before_trans key e [] h k = refl
comes_before_trans key e (f ∷ query) h k = less_trans key e.0 f.0 h k

find-before :
    (key : Bytes) (query : QueryMap)
    → comes_before key query ≡ true
    → is_sorted query ≡ true
    → find key query ≡ none
unfolding find is_sorted
find-before key [] h k = refl
find-before key (e ∷ query) h k = rw (less-not_same key e.0 h) (
    find-before key query (comes_before_trans key e query h (ground (arith, k)))
      (ground (arith, k)))

pub find-emplace_self :
    (key value : Bytes) (query : QueryMap)
    → is_sorted query ≡ true
    → find key (emplace key value query) ≡ first_of (find key query) (some value)
unfolding find emplace is_sorted
find-emplace_self key value [] h = ground (arith, same_text_refl key)
find-emplace_self key value (e ∷ query) h = elim (Bool-cases (text_less key e.0)) [
  | inl l ↦
      rw
        (
          l,
          same_text_refl key,
          less-not_same key e.0 l,
          find-before key query (comes_before_trans key e query l (ground (arith, h)))
              (ground (arith, h)),
        )
        refl
  | inr l ↦ elim (Bool-cases (text_less e.0 key)) [
    | inl g ↦
        rw (l, g, less-not_same_flipped e.0 key g)
          (find-emplace_self key value query (ground (arith, h)))
    | inr g ↦
        rw
          (
            l,
            g,
            subst (λ k. same_text key k ≡ true) (incomparable-same key e.0 l g)
                (same_text_refl key),
          )
          refl
  ]
]

pub find-emplace_ne :
    (key other value : Bytes) (query : QueryMap)
    → same_text other key ≡ false
    → find other (emplace key value query) ≡ find other query
unfolding find emplace
find-emplace_ne key other value [] h = ground (arith, h)
find-emplace_ne key other value (e ∷ query) h = elim (Bool-cases (text_less key e.0)) [
  | inl l ↦ rw (l, h) refl
  | inr l ↦ elim (Bool-cases (text_less e.0 key)) [
    | inl g ↦ rw (l, g, find-emplace_ne key other value query h) refl
    | inr g ↦ rw (l, g) refl
  ]
]

put-comes_before :
    (k key value : Bytes) (query : QueryMap)
    → text_less k key ≡ true
    → comes_before k query ≡ true
    → comes_before k (put key value query) ≡ true
unfolding put
put-comes_before k key value [] l h = l
put-comes_before k key value (e ∷ query) l h = ground (arith, l, h)

emplace-comes_before :
    (k key value : Bytes) (query : QueryMap)
    → text_less k key ≡ true
    → comes_before k query ≡ true
    → comes_before k (emplace key value query) ≡ true
unfolding emplace
emplace-comes_before k key value [] l h = l
emplace-comes_before k key value (e ∷ query) l h = ground (arith, l, h)

pub put-is_sorted :
    (key value : Bytes) (query : QueryMap)
    → is_sorted query ≡ true
    → is_sorted (put key value query) ≡ true
unfolding put is_sorted
put-is_sorted key value [] h = refl
put-is_sorted key value (e ∷ query) h = elim (Bool-cases (text_less key e.0)) [
  | inl l ↦ rw l (ground (arith, l, h))
  | inr l ↦ elim (Bool-cases (text_less e.0 key)) [
    | inl g ↦
        rw (l, g)
          (ground (
            arith,
            put-comes_before e.0 key value query g (ground (arith, h)),
            put-is_sorted key value query (ground (arith, h)),
          ))
    | inr g ↦
        rw (l, g)
          (subst (λ k. (comes_before k query && is_sorted query) ≡ true)
            (sym (incomparable-same key e.0 l g)) h)
  ]
]

pub emplace-is_sorted :
    (key value : Bytes) (query : QueryMap)
    → is_sorted query ≡ true
    → is_sorted (emplace key value query) ≡ true
unfolding emplace is_sorted
emplace-is_sorted key value [] h = refl
emplace-is_sorted key value (e ∷ query) h = elim (Bool-cases (text_less key e.0)) [
  | inl l ↦ rw l (ground (arith, l, h))
  | inr l ↦ elim (Bool-cases (text_less e.0 key)) [
    | inl g ↦
        rw (l, g)
          (ground (
            arith,
            emplace-comes_before e.0 key value query g (ground (arith, h)),
            emplace-is_sorted key value query (ground (arith, h)),
          ))
    | inr g ↦ rw (l, g) h
  ]
]
