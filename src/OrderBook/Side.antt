-- ===== src/OrderBook/Side.antt =====
-- `std::map<decimal_t, decimal_t, Compare>`: one side of a book, an association list in the order
-- of the comparison. Two keys are the same where neither comes before the other.
pub mod Laws
use binapi.Prelude.{
  ℕ, Bool, true, false, ◌&&◌, not, ◌≡◌, List, [], ◌∷◌, Option, none, some, if◌then◌else◌, arith,
}
use binapi.Prelude.Int.{ℤ, pos, negsuc, ltb_ℤ}
use binapi.Decimal.{Decimal}

-- A strict total order on prices.
pub record Compare : Type 0 where
  pub before : Decimal → Decimal → Bool
  pub irrefl : (a : Decimal) → before a a ≡ false
  pub trans : (a b c : Decimal) → before a b ≡ true → before b c ≡ true → before a c ≡ true
  pub connected : (a b : Decimal) → before a b ≡ false → before b a ≡ false → a ≡ b

pub ltb_ℤ-connected : (a b : ℤ) → ltb_ℤ a b ≡ false → ltb_ℤ b a ≡ false → a ≡ b
ltb_ℤ-connected a b h k = ground arith

pub ltb_ℤ_irrefl : (a : ℤ) → ltb_ℤ a a ≡ false
ltb_ℤ_irrefl a = ground arith

pub less_trans :
    (a b c : Decimal)
    → ltb_ℤ a.value b.value ≡ true
    → ltb_ℤ b.value c.value ≡ true
    → ltb_ℤ a.value c.value ≡ true
less_trans a b c h k = ground arith

-- `std::less<>`, for the asks.
abbrev pub less : Compare
less = record {
  before = λ a b. ltb_ℤ a.value b.value;
  irrefl = λ a. ltb_ℤ_irrefl a.value;
  trans = less_trans;
  connected = λ a b h k. λ i. record { value = ltb_ℤ-connected a.value b.value h k i };
}

-- `std::greater<>`, for the bids.
abbrev pub greater : Compare
greater = record {
  before = λ a b. ltb_ℤ b.value a.value;
  irrefl = λ a. ltb_ℤ_irrefl a.value;
  trans = λ a b c h k. less_trans c b a k h;
  connected = λ a b h k. λ i. record { value = ltb_ℤ-connected a.value b.value k h i };
}

abbrev pub Side : Type 0
Side = List (Decimal × Decimal)

abbrev pub AllValues : (Decimal → Type 0) → Side → Type 0
AllValues P [] = Unit {0}
AllValues P ((k, w) ∷ m) = P w × AllValues P m

module _ (c : Compare) where
  abbrev pub same : Decimal → Decimal → Bool
  same a b = not (c.before a b) && not (c.before b a)

  unfoldable pub find : Decimal → Side → Option Decimal
  find k [] = none
  find k ((j, w) ∷ m) = if c.before k j then none else if c.before j k then find k m else some w

  -- `side[k] = v`.
  unfoldable pub assign : Decimal → Decimal → Side → Side
  assign k v [] = (k, v) ∷ []
  assign k v ((j, w) ∷ m) =
      if c.before k j
      then (k, v) ∷ (j, w) ∷ m
      else if c.before j k
      then (j, w) ∷ assign k v m
      else (j, v) ∷ m

  unfoldable pub erase : Decimal → Side → Side
  erase k [] = []
  erase k ((j, w) ∷ m) =
      if c.before k j then (j, w) ∷ m else if c.before j k then (j, w) ∷ erase k m else m

  abbrev pub AllAfter : Decimal → Side → Type 0
  AllAfter j [] = Unit {0}
  AllAfter j ((k, w) ∷ m) = (c.before j k ≡ true) × AllAfter j m

  -- The keys stand in order, each once.
  abbrev pub IsSorted : Side → Type 0
  IsSorted [] = Unit {0}
  IsSorted ((j, w) ∷ m) = AllAfter j m × IsSorted m
