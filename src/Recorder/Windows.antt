-- ===== src/Recorder/Windows.antt =====
-- examples/binapi2/fapi/async-recorder/aggregates.hpp: the rolling windows of a symbol. A `double` is a type with
-- the operations that the code uses, all parameters; times are in nanoseconds since the epoch of the
-- steady clock, and the time 0 is that of a window that was not used.
pub mod Ends
pub mod Ring
pub mod Slides
pub mod Rolling
pub mod TrueRange
use binapi.Prelude.{
  ℕ, zero, suc, ◌+◌, ◌-◌, ◌*◌, ◌/◌, ◌%◌, Bool, true, false, List, [], ◌∷◌, Option, none, some, ltb,
  leb, ◌==◌, if◌then◌else◌, length, get_or, set, take, replicate,
}

-- `struct bucket`.
pub record Bucket (D : Type 0) : Type 0 where
  pub vol : D
  pub trades : D

pub record TfWindow (D : Type 0) : Type 0 where
  pub bucket_seconds : ℕ
  pub buckets : List (Bucket D)
  pub head : ℕ
  pub head_time : ℕ

pub record TrWindow (D : Type 0) : Type 0 where
  pub slots : List D
  pub head : ℕ
  pub count : ℕ

abbrev pub nanoseconds : ℕ
nanoseconds = 1000000000

module _ {D : Type 0} (zero_ : D) (add : D → D → D) where
  abbrev pub no_trades : Bucket D
  no_trades = record { vol = zero_; trades = zero_ }

  unfoldable pub tf_window : ℕ → ℕ → TfWindow D
  tf_window n_buckets bucket_size = record {
    bucket_seconds = bucket_size;
    buckets = replicate n_buckets no_trades;
    head = 0;
    head_time = 0;
  }

  -- The loop over `effective` steps.
  unfoldable pub slide : ℕ → TfWindow D → TfWindow D
  slide zero w = w
  slide (suc steps) w =
      let next = (w.head + 1) % length w.buckets in
      slide steps (record w { head = next; buckets = set w.buckets next no_trades })

  abbrev pub min_of : ℕ → ℕ → ℕ
  min_of a b = if ltb b a then b else a

  -- `none` is the division by a length of 0, which C++ leaves undefined.
  unfoldable pub advance_to : ℕ → TfWindow D → Option (TfWindow D)
  unfolding slide
  advance_to now w =
      let steps = (now - w.head_time) / nanoseconds / w.bucket_seconds in
      let slid = slide (min_of steps (length w.buckets)) w in
      if w.head_time == 0
      then some (record w { head_time = now })
      else if leb now w.head_time
      then some w
      else if w.bucket_seconds == 0
      then none
      else if leb steps 0
      then some w
      else some (record slid { head_time = w.head_time + steps * w.bucket_seconds * nanoseconds })

  abbrev pub credit : D → D → TfWindow D → TfWindow D
  credit dv dt w =
      let b = get_or w.buckets w.head no_trades in
      record w {
        buckets = set w.buckets w.head (record { vol = add b.vol dv; trades = add b.trades dt });
      }

  abbrev pub credit_if : D → D → Option (TfWindow D) → Option (TfWindow D)
  credit_if dv dt none = none
  credit_if dv dt (some w) = some (credit dv dt w)

  unfoldable pub update : ℕ → D → D → TfWindow D → Option (TfWindow D)
  unfolding advance_to
  update now dv dt w = credit_if dv dt (advance_to now w)

  unfoldable pub sum_from : D → List D → D
  sum_from s [] = s
  sum_from s (x ∷ xs) = sum_from (add s x) xs

  unfoldable pub vols : List (Bucket D) → List D
  vols [] = []
  vols (b ∷ buckets) = b.vol ∷ vols buckets

  unfoldable pub trades_of : List (Bucket D) → List D
  trades_of [] = []
  trades_of (b ∷ buckets) = b.trades ∷ trades_of buckets

  unfoldable pub vol_sum : TfWindow D → D
  unfolding sum_from vols
  vol_sum w = sum_from zero_ (vols w.buckets)

  unfoldable pub trades_sum : TfWindow D → D
  unfolding sum_from trades_of
  trades_sum w = sum_from zero_ (trades_of w.buckets)

  unfoldable pub tr_window : ℕ → TrWindow D
  tr_window n = record { slots = replicate n zero_; head = 0; count = 0 }

  unfoldable pub push : D → TrWindow D → TrWindow D
  push tr w = record {
    slots = set w.slots w.head tr;
    head = (w.head + 1) % length w.slots;
    count = if ltb w.count (length w.slots) then w.count + 1 else w.count;
  }

  unfoldable pub primed : TrWindow D → Bool
  primed w = w.count == length w.slots

  module _ (divide : D → D → D) (of_count : ℕ → D) where
    unfoldable pub atr : TrWindow D → D
    unfolding sum_from
    atr w =
        if w.count == 0
        then zero_
        else divide (sum_from zero_ (take w.count w.slots)) (of_count w.count)
