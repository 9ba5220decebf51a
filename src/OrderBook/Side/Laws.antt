-- ===== src/OrderBook/Side/Laws.antt =====
-- The laws of a side as a finite map.
use binapi.Prelude.{true, ◌≡◌, refl, [], ◌∷◌, none, some, if◌then◌else◌, arith}
use binapi.Decimal.{Decimal}
use binapi.OrderBook.Side.{Compare, Side, same, find, assign, erase, AllAfter, IsSorted, AllValues}

module _ (c : Compare) where
  AllAfter-trans :
      (i j : Decimal) (m : Side) → c.before i j ≡ true → AllAfter c j m → AllAfter c i m
  AllAfter-trans i j [] h a = tt
  AllAfter-trans i j ((k, w) ∷ m) h a = (c.trans i j k h a.0, AllAfter-trans i j m h a.1)

  assign-AllAfter :
      (i k v : Decimal) (m : Side)
      → c.before i k ≡ true
      → AllAfter c i m
      → AllAfter c i (assign c k v m)
  unfolding assign
  assign-AllAfter i k v [] h a = (h, tt)
  assign-AllAfter i k v ((j, w) ∷ m) h a = ground (arith, assign-AllAfter i k v m h a.1)

  erase-AllAfter : (i k : Decimal) (m : Side) → AllAfter c i m → AllAfter c i (erase c k m)
  unfolding erase
  erase-AllAfter i k [] a = tt
  erase-AllAfter i k ((j, w) ∷ m) a = ground (arith, erase-AllAfter i k m a.1)

  pub assign-IsSorted : (k v : Decimal) (m : Side) → IsSorted c m → IsSorted c (assign c k v m)
  unfolding assign
  assign-IsSorted k v [] s = (tt, tt)
  assign-IsSorted k v ((j, w) ∷ m) s = ground (
    arith,
    c.connected k j,
    AllAfter-trans k j m,
    assign-AllAfter j k v m,
    assign-IsSorted k v m s.1,
  )

  pub erase-IsSorted : (k : Decimal) (m : Side) → IsSorted c m → IsSorted c (erase c k m)
  unfolding erase
  erase-IsSorted k [] s = tt
  erase-IsSorted k ((j, w) ∷ m) s = ground (arith, erase-AllAfter j k m s.0, erase-IsSorted k m s.1)

  -- Nothing is found before the first key.
  find_before : (k : Decimal) (m : Side) → AllAfter c k m → find c k m ≡ none
  unfolding find
  find_before k [] a = refl
  find_before k ((j, w) ∷ m) a = ground (arith, a)

  pub find-assign :
      (j k v : Decimal) (m : Side)
      → find c j (assign c k v m) ≡ (if same c j k then some v else find c j m)
  unfolding find assign
  find-assign j k v [] = ground arith
  find-assign j k v ((i, w) ∷ m) = ground (
    arith,
    find-assign j k v m,
    c.trans j k i,
    c.trans i k j,
    c.connected k i,
    c.connected j i,
    c.connected j k,
  )

  pub find-erase :
      (j k : Decimal) (m : Side)
      → IsSorted c m
      → find c j (erase c k m) ≡ (if same c j k then none else find c j m)
  unfolding find erase
  find-erase j k [] s = ground arith
  find-erase j k ((i, w) ∷ m) s = ground (
    arith,
    find-erase j k m s.1,
    find_before j m,
    AllAfter-trans j i m,
    c.trans j k i,
    c.trans i k j,
    c.connected k i,
    c.connected j i,
    c.connected j k,
    s.0,
  )

  pub assign-AllValues :
      (P : Decimal → Type 0) (k v : Decimal) (m : Side)
      → P v
      → AllValues P m
      → AllValues P (assign c k v m)
  unfolding assign
  assign-AllValues P k v [] z a = (z, tt)
  assign-AllValues P k v ((j, w) ∷ m) z a = ground (arith, assign-AllValues P k v m z a.1)

  pub erase-AllValues :
      (P : Decimal → Type 0) (k : Decimal) (m : Side) → AllValues P m → AllValues P (erase c k m)
  unfolding erase
  erase-AllValues P k [] a = tt
  erase-AllValues P k ((j, w) ∷ m) a = ground (arith, erase-AllValues P k m a.1)
