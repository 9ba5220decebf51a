-- ===== src/Recorder/Windows/Rolling.antt =====
-- The rolling windows refine the list of their last values, the newest first.
use native.Mathlib.Nat.{zero-div}
use binapi.Prelude.{
  ℕ, ◌+◌, ◌-◌, ◌*◌, ◌/◌, ◌%◌, ◌<◌, ◌≡◌, ◌∙◌, inl, inr, refl, sym, ap, true, false, List, [], ◌∷◌,
  Option, none, some, leb, ◌==◌, if◌then◌else◌, arith, Bool-cases, length, length-set, get_or,
  take_all,
}
use binapi.Recorder.Windows.{
  Bucket, TfWindow, nanoseconds, no_trades, slide, min_of, advance_to, credit, credit_if, update,
}
use binapi.Recorder.Windows.Ring.{length-newest_first}
use binapi.Recorder.Windows.Slides.{
  Rolling, credit_first, rolling, rolled_by, roll_to, roll, recent_of, view, slide_lem, slide_pace,
  credit_lem, roll_to_lem, capped_lem,
}

module _ {D : Type 0} (zero_ : D) (add : D → D → D) where
  record Advanced (now : ℕ) (w w' : TfWindow D) : Type 0 where
    below : w'.head < length w'.buckets
    size : length w'.buckets ≡ length w.buckets
    pace : w'.bucket_seconds ≡ w.bucket_seconds
    rolled :
        view zero_ add w'
        ≡ roll_to zero_ add (length w.buckets) w.bucket_seconds now (view zero_ add w)

  unmoved :
      (now : ℕ) (w : TfWindow D)
      → w.head < length w.buckets
      → (w.head_time == 0) ≡ false
      → (now - w.head_time) / nanoseconds / w.bucket_seconds ≡ 0
      → Advanced now w w
  unmoved now w h t e = record {
    below = h;
    size = refl;
    pace = refl;
    rolled =
        ap (λ t. rolling zero_ add t (recent_of zero_ add w)) {x = w.head_time}
          {y = w.head_time + 0 * w.bucket_seconds * nanoseconds} (omega arith)
        ∙ ap (rolling zero_ add (w.head_time + 0 * w.bucket_seconds * nanoseconds)) (
            sym (
              take_all (recent_of zero_ add w) (length w.buckets)
                (omega (arith, length-newest_first ((w.head + 1) % length w.buckets) w.buckets))))
        ∙ sym (
            roll_to_lem zero_ add (length w.buckets) w.bucket_seconds now 0 (view zero_ add w) t e);
  }

  moved :
      (now k : ℕ) (w : TfWindow D)
      → w.head < length w.buckets
      → (w.head_time == 0) ≡ false
      → (now - w.head_time) / nanoseconds / w.bucket_seconds ≡ k
      → Advanced now w (record (slide zero_ add (min_of zero_ add k (length w.buckets)) w) {
        head_time = w.head_time + k * w.bucket_seconds * nanoseconds;
      })
  moved now k w h t e =
      let n = length w.buckets in
      let s = slide_lem zero_ add (min_of zero_ add k n) w h in
      record {
        below = s.0;
        size = s.1;
        pace = slide_pace zero_ add (min_of zero_ add k n) w;
        rolled =
            ap (rolling zero_ add (w.head_time + k * w.bucket_seconds * nanoseconds))
              (s.2 ∙ capped_lem zero_ add k n (recent_of zero_ add w))
            ∙ sym (roll_to_lem zero_ add n w.bucket_seconds now k (view zero_ add w) t e);
      }

  -- A window that is given, and advanced.
  record Advances (now : ℕ) (w : TfWindow D) (o : Option (TfWindow D)) : Type 0 where
    window : TfWindow D
    returned : o ≡ some window
    advanced : Advanced now w window

  advances : (now : ℕ) (w w' : TfWindow D) → Advanced now w w' → Advances now w (some w')
  advances now w w' a = record { window = w'; returned = refl; advanced = a }

  unused :
      (now : ℕ) (w : TfWindow D)
      → w.head < length w.buckets
      → (w.head_time == 0) ≡ true
      → Advanced now w (record w { head_time = now })
  unused now w h t = record {
    below = h;
    size = refl;
    pace = refl;
    rolled = sym (
        ap
          (λ b.
            if b
            then rolling zero_ add now (recent_of zero_ add w)
            else rolled_by zero_ add (length w.buckets) w.bucket_seconds
                ((now - w.head_time) / nanoseconds / w.bucket_seconds) (view zero_ add w))
          t);
  }

  not_later :
      (now : ℕ) (w : TfWindow D)
      → leb now w.head_time ≡ true
      → (now - w.head_time) / nanoseconds / w.bucket_seconds ≡ 0
  not_later now w l =
      ap (λ d. d / nanoseconds / w.bucket_seconds) {x = now - w.head_time} {y = 0}
        (ground (arith, l))
      ∙ ap (λ d. d / w.bucket_seconds) (zero-div nanoseconds)
      ∙ zero-div w.bucket_seconds

  advance_to-Advances :
      (now : ℕ) (w : TfWindow D)
      → w.head < length w.buckets
      → 0 < w.bucket_seconds
      → Advances now w (advance_to zero_ add now w)
  unfolding advance_to
  advance_to-Advances now w h p =
      let steps = (now - w.head_time) / nanoseconds / w.bucket_seconds in
      let p' : (w.bucket_seconds == 0) ≡ false = ground arith in
      elim (Bool-cases (w.head_time == 0)) [
        | inl t ↦ rw t (advances now w _ (unused now w h t))
        | inr t ↦ elim (Bool-cases (leb now w.head_time)) [
          | inl l ↦ rw (t, l) (advances now w w (unmoved now w h t (not_later now w l)))
          | inr l ↦ elim (Bool-cases (leb steps 0)) [
            | inl z ↦ rw (t, l, p', z) (advances now w w (unmoved now w h t (ground (arith, z))))
            | inr z ↦ rw (t, l, p', z) (advances now w _ (moved now steps w h t refl))
          ]
        ]
      ]

  -- One update for each sample: its time and the two amounts.
  abbrev update_if : ℕ × D × D → Option (TfWindow D) → Option (TfWindow D)
  update_if u none = none
  update_if u (some w) = update zero_ add u.0 u.1 u.2 w

  abbrev update_from : List (ℕ × D × D) → Option (TfWindow D) → Option (TfWindow D)
  update_from [] o = o
  update_from (u ∷ samples) o = update_from samples (update_if u o)

  abbrev pub update_all : List (ℕ × D × D) → TfWindow D → Option (TfWindow D)
  update_all samples w = update_from samples (some w)

  abbrev pub roll_all : ℕ → ℕ → List (ℕ × D × D) → Rolling D → Rolling D
  roll_all n bucket_seconds [] r = r
  roll_all n bucket_seconds (u ∷ samples) r =
      roll_all n bucket_seconds samples (roll zero_ add n bucket_seconds u.0 u.1 u.2 r)

  abbrev credited_head : D → D → TfWindow D → Bucket D
  credited_head dv dt w = record {
    vol = add (get_or w.buckets w.head (no_trades zero_ add)).vol dv;
    trades = add (get_or w.buckets w.head (no_trades zero_ add)).trades dt;
  }

  record Updates (now : ℕ) (dv dt : D) (w : TfWindow D) (o : Option (TfWindow D)) : Type 0 where
    window : TfWindow D
    returned : o ≡ some window
    below : window.head < length window.buckets
    size : length window.buckets ≡ length w.buckets
    pace : window.bucket_seconds ≡ w.bucket_seconds
    rolled :
        view zero_ add window
        ≡ roll zero_ add (length w.buckets) w.bucket_seconds now dv dt (view zero_ add w)

  update_lem :
      (now : ℕ) (dv dt : D) (w : TfWindow D)
      → w.head < length w.buckets
      → 0 < w.bucket_seconds
      → Updates now dv dt w (update zero_ add now dv dt w)
  unfolding update roll
  update_lem now dv dt w h p =
      let o = advance_to-Advances now w h p in
      let a = o.advanced in
      let w' = o.window in
      let same = length-set w'.buckets w'.head (credited_head dv dt w') in
      record {
        window = credit zero_ add dv dt w';
        returned = ap (credit_if zero_ add dv dt) o.returned;
        below = omega (arith, same, a.below);
        size = same ∙ a.size;
        pace = a.pace;
        rolled =
            ap (rolling zero_ add w'.head_time) (credit_lem zero_ add dv dt w' a.below)
            ∙ ap (λ r. rolling zero_ add r.time (credit_first zero_ add dv dt r.recent)) a.rolled;
      }

  abbrev pub view_of : Option (TfWindow D) → Option (Rolling D)
  view_of none = none
  view_of (some w) = some (view zero_ add w)

  -- A bucketed window whose head is one of its buckets, and whose buckets are longer than 0
  -- seconds, implements the list of its last buckets, the newest first: no update divides by zero,
  -- and after any samples its time and the cells read from its head backwards are those of the
  -- specification, in which each bucket that began since the last time is a new empty one in
  -- front, without a cap, and only the last ones are kept.
  pub update_all_refines :
      (samples : List (ℕ × D × D)) (w : TfWindow D)
      → w.head < length w.buckets
      → 0 < w.bucket_seconds
      → view_of (update_all samples w)
        ≡ some (roll_all (length w.buckets) w.bucket_seconds samples (view zero_ add w))
  update_all_refines [] w h p = refl
  update_all_refines (u ∷ samples) w h p =
      let l = update_lem u.0 u.1 u.2 w h p in
      let rest = update_all_refines samples l.window l.below (omega (arith, l.pace)) in
      ap (λ o. view_of (update_from samples o)) l.returned
      ∙ rest
      ∙ ap (λ n. some (roll_all n l.window.bucket_seconds samples (view zero_ add l.window))) l.size
      ∙ ap (λ b. some (roll_all (length w.buckets) b samples (view zero_ add l.window))) l.pace
      ∙ ap (λ r. some (roll_all (length w.buckets) w.bucket_seconds samples r)) l.rolled
