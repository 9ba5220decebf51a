-- ===== src/Fapi/EnumSet/Laws.antt =====
-- The operations of an enum set against sets of numbers.
use mathlib.Core.Path.{subst}
use binapi.Prelude.{
  refl, ◌∙◌, sym, ℕ, zero, suc, ◌<◌, ◌≡◌, Bool, true, false, ◌&&◌, ◌||◌, not, List, [], ◌∷◌, Option,
  some, ◌==◌, if◌then◌else◌, length, set, get_or, arith, length-set,
}
use binapi.Prelude.Text.{Bytes}
use binapi.Fapi.Enums.{EnumMeta, Name, ok, throws, to_string}
use binapi.Fapi.Enums.Laws.{IsRead, IsLawful, named}
use binapi.Fapi.EnumSet.{Bits, add_all, enum_values_fit, fit_below, contains, add, remove}

get_or-set :
    (bits : Bits) (i j : ℕ) (b : Bool)
    → i < length bits
    → get_or (set bits i b) j false ≡ (if j == i then b else get_or bits j false)
get_or-set [] i j b h = absurd (omega arith)
get_or-set (x ∷ bits) zero zero b h = ground arith
get_or-set (x ∷ bits) zero (suc j) b h = ground arith
get_or-set (x ∷ bits) (suc i) zero b h = ground arith
get_or-set (x ∷ bits) (suc i) (suc j) b h = ground (arith, get_or-set bits i j b (omega arith))

module _ {T : Type 0} (m : EnumMeta T) where
  -- An operation gives `after`, of the same capacity, and decides on each value by `holds`.
  pub record Becomes (before : Bits) (result : Option Bits) (holds : T → Bool) : Type 0 where
    pub after : Bits
    pub returned : result ≡ some after
    pub same_capacity : length after ≡ length before
    pub contained : (f : T) → contains m f after ≡ holds f

  contains-set :
      (f : T) (i : ℕ) (b : Bool) (bits : Bits)
      → i < length bits
      → contains m f (set bits i b) ≡ (if m.number f == i then b else contains m f bits)
  unfolding contains
  contains-set f i b bits h =
      ground (arith, get_or-set bits i (m.number f) b h, length-set bits i b)

  -- Below the capacity `add` does not assert; then the set contains the value and what it did.
  pub add_lem :
      (e : T) (bits : Bits)
      → m.number e < length bits
      → Becomes bits (add m e bits) (λ f. m.number f == m.number e || contains m f bits)
  unfolding add
  add_lem e bits h = record {
    after = set bits (m.number e) true;
    returned = ground arith;
    same_capacity = length-set bits (m.number e) true;
    contained = λ f. ground (arith, contains-set f (m.number e) true bits h);
  }

  -- Removing a value whose number is below the capacity does not assert; the set keeps its
  -- capacity, and contains what it contained but the value.
  pub remove_lem :
      (e : T) (bits : Bits)
      → m.number e < length bits
      → Becomes bits (remove m e bits) (λ f. not (m.number f == m.number e) && contains m f bits)
  unfolding remove
  remove_lem e bits h = record {
    after = set bits (m.number e) false;
    returned = ground arith;
    same_capacity = length-set bits (m.number e) false;
    contained = λ f. ground (arith, contains-set f (m.number e) false bits h);
  }

  named_fits :
      (capacity : ℕ) (entries : List (Bytes × T)) (text : Bytes) (v : T)
      → fit_below m capacity entries ≡ true
      → named text entries ≡ some v
      → m.number v < capacity
  unfolding fit_below
  named_fits capacity [] text v h n = ground arith
  named_fits capacity (entry ∷ entries) text v h n =
      ground
        (arith, λ (k : fit_below m capacity entries ≡ true). named_fits capacity entries text v k)

  read_fits :
      (capacity : ℕ) (name : Name) (v : T)
      → enum_values_fit m capacity ≡ true
      → IsRead m.entries name v
      → m.number v < capacity
  unfolding enum_values_fit
  read_fits capacity (ok text) v h n = named_fits capacity m.entries text v h n
  read_fits capacity (throws k) v h n = absurd n

  -- If every value of an enum has a name that is read as it, and the static assertion holds for a
  -- capacity, the number of every value is below the capacity.
  pub value_fits :
      (capacity : ℕ)
      → IsLawful m
      → enum_values_fit m capacity ≡ true
      → (v : T) → m.number v < capacity
  value_fits capacity law h v = read_fits capacity (to_string ⦃m = m⦄ v) v h (law v)

  abbrev pub AllFit : List T → ℕ → Type 0
  AllFit [] capacity = Unit {0}
  AllFit (e ∷ es) capacity = (m.number e < capacity) × AllFit es capacity

  -- One of the values has the number of `f`.
  abbrev pub listed : T → List T → Bool
  listed f [] = false
  listed f (e ∷ es) = m.number f == m.number e || listed f es

  -- Adding a list of values whose numbers are below the capacity does not assert; the set keeps
  -- its capacity, and contains the values of the list and what it contained.
  pub add_all_lem :
      (es : List T) (bits : Bits)
      → AllFit es (length bits)
      → Becomes bits (add_all m es bits) (λ f. listed f es || contains m f bits)
  unfolding add_all
  add_all_lem [] bits h = record {
    after = bits;
    returned = refl;
    same_capacity = refl;
    contained = λ f. refl;
  }
  add_all_lem (e ∷ es) bits h =
      let one = add_lem e bits h.0 in
      let rest = add_all_lem es one.after (subst (AllFit es) (sym one.same_capacity) h.1) in
      record {
        after = rest.after;
        returned = rw (one.returned, add_all) rest.returned;
        same_capacity = rest.same_capacity ∙ one.same_capacity;
        contained = λ f. ground (arith, rest.contained f, one.contained f);
      }
