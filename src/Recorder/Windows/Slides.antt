-- ===== src/Recorder/Windows/Slides.antt =====
-- The list of the last buckets of a window, the newest first, and what `slide` and `credit` do to it.
use native.Mathlib.Nat.{mod-lt}
use binapi.Prelude.{
  ℕ, zero, suc, ◌+◌, ◌-◌, ◌*◌, ◌/◌, ◌%◌, ◌<◌, ◌≡◌, ◌∙◌, inl, inr, refl, sym, ap, false, List, [],
  ◌∷◌, ◌++◌, ltb, ◌==◌, if◌then◌else◌, arith, Bool-cases, length, length-set, get_or, set, take,
  take_all, replicate,
}
use binapi.Recorder.Windows.{Bucket, TfWindow, nanoseconds, no_trades, slide, min_of, credit}
use binapi.Recorder.Windows.Ends.{get_or-front, take-append, take_capped, replicate-shift}
use binapi.Recorder.Windows.Ring.{
  newest_first, newest_first-set, newest_at, at_each_place, set_front, length-newest_first,
}

-- The specification of a window: its time, and its buckets, the newest first.
pub record Rolling (D : Type 0) : Type 0 where
  pub time : ℕ
  pub recent : List (Bucket D)

module _ {D : Type 0} (zero_ : D) (add : D → D → D) where
  abbrev pub credit_first : D → D → List (Bucket D) → List (Bucket D)
  credit_first dv dt [] = []
  credit_first dv dt (b ∷ recent) = record { vol = add b.vol dv; trades = add b.trades dt } ∷ recent

  -- Every bucket that began since is a new empty one in front, however many there are, and the last ones
  -- beyond the number of buckets fall out.
  abbrev pub rolling : ℕ → List (Bucket D) → Rolling D
  rolling time recent = record { time = time; recent = recent }

  abbrev pub rolled_by : ℕ → ℕ → ℕ → Rolling D → Rolling D
  rolled_by n bucket_seconds steps r = record {
    time = r.time + steps * bucket_seconds * nanoseconds;
    recent = take n (replicate steps (no_trades zero_ add) ++ r.recent);
  }

  abbrev pub roll_to : ℕ → ℕ → ℕ → Rolling D → Rolling D
  roll_to n bucket_seconds now r =
      if r.time == 0
      then record { time = now; recent = r.recent }
      else rolled_by n bucket_seconds ((now - r.time) / nanoseconds / bucket_seconds) r

  unfoldable pub roll : ℕ → ℕ → ℕ → D → D → Rolling D → Rolling D
  roll n bucket_seconds now dv dt r =
      let rolled = roll_to n bucket_seconds now r in
      record { time = rolled.time; recent = credit_first dv dt rolled.recent }

  abbrev pub recent_of : TfWindow D → List (Bucket D)
  recent_of w = newest_first ((w.head + 1) % length w.buckets) w.buckets

  abbrev pub view : TfWindow D → Rolling D
  view w = record { time = w.head_time; recent = recent_of w }

  pub slide_lem :
      (k : ℕ) (w : TfWindow D)
      → w.head < length w.buckets
      → ((slide zero_ add k w).head < length (slide zero_ add k w).buckets)
        × (length (slide zero_ add k w).buckets ≡ length w.buckets)
        × (recent_of (slide zero_ add k w)
            ≡ take (length w.buckets) (replicate k (no_trades zero_ add) ++ recent_of w))
  unfolding slide
  slide_lem zero w h = (
    h,
    refl,
    sym (
        take_all (recent_of w) (length w.buckets)
          (omega (arith, length-newest_first ((w.head + 1) % length w.buckets) w.buckets))),
  )
  slide_lem (suc k) w h =
      let z = no_trades zero_ add in
      let n = length w.buckets in
      let next = (w.head + 1) % n in
      let below : next < n = mod-lt (w.head + 1) (omega arith) in
      let w' = record w { head = next; buckets = set w.buckets next z } in
      let same = length-set w.buckets next z in
      let ih = slide_lem k w' (omega (arith, same, below)) in
      (
        ih.0,
        ih.1 ∙ same,
        ih.2
            ∙ ap
                (λ m.
                  take m (replicate k z ++ newest_first ((next + 1) % m) (set w.buckets next z)))
                same
            ∙ ap (λ xs. take n (replicate k z ++ xs)) (newest_first-set next w.buckets z below)
            ∙ take-append n n (replicate k z) (z ∷ recent_of w) (omega arith)
            ∙ ap (take n) (replicate-shift k z (recent_of w)),
      )

  pub slide_pace :
      (k : ℕ) (w : TfWindow D) → (slide zero_ add k w).bucket_seconds ≡ w.bucket_seconds
  unfolding slide
  slide_pace zero w = refl
  slide_pace (suc k) w = slide_pace k _

  pub credit_lem :
      (dv dt : D) (w : TfWindow D)
      → w.head < length w.buckets
      → recent_of (credit zero_ add dv dt w) ≡ credit_first dv dt (recent_of w)
  credit_lem dv dt w h =
      at_each_place
        (λ n cs.
          newest_first ((n + 1) % length (set cs n (credited (get_or cs n (no_trades zero_ add)))))
            (set cs n (credited (get_or cs n (no_trades zero_ add))))
          ≡ credit_first dv dt (newest_first ((n + 1) % length cs) cs))
        (λ xs ys y.
          ap
            (λ b.
              newest_first ((length xs + 1) % length (set (xs ++ y ∷ ys) (length xs) (credited b)))
                (set (xs ++ y ∷ ys) (length xs) (credited b)))
            (get_or-front xs ys y (no_trades zero_ add))
          ∙ ap (λ cs. newest_first ((length xs + 1) % length cs) cs)
              (set_front xs ys y (credited y))
          ∙ newest_at xs ys (credited y)
          ∙ sym (ap (credit_first dv dt) (newest_at xs ys y)))
        w.head w.buckets h
    where
      credited : Bucket D → Bucket D
      credited b = record { vol = add b.vol dv; trades = add b.trades dt }

  pub roll_to_lem :
      (n bucket_seconds now k : ℕ) (r : Rolling D)
      → (r.time == 0) ≡ false
      → (now - r.time) / nanoseconds / bucket_seconds ≡ k
      → roll_to n bucket_seconds now r ≡ rolled_by n bucket_seconds k r
  roll_to_lem n bucket_seconds now k r t e =
      ap
        (λ b.
          if b
          then record { time = now; recent = r.recent }
          else rolled_by n bucket_seconds ((now - r.time) / nanoseconds / bucket_seconds) r)
        t
      ∙ ap (λ j. rolled_by n bucket_seconds j r) e

  pub capped_lem :
      (k n : ℕ) (recent : List (Bucket D))
      → take n (replicate (min_of zero_ add k n) (no_trades zero_ add) ++ recent)
        ≡ take n (replicate k (no_trades zero_ add) ++ recent)
  capped_lem k n recent = elim (Bool-cases (ltb n k)) [
    | inl l ↦
        rw l (take_capped n n k (no_trades zero_ add) recent (omega arith) (ground (arith, l)))
    | inr l ↦ rw l refl
  ]
