-- ===== src/Recorder/Selector/Ticks.antt =====
-- The selector from its construction through any ticks.
use binapi.Prelude.{
  ℕ, ◌≤◌, ◌≡◌, ◌∙◌, refl, ap, inl, inr, true, ◌||◌, List, [], ◌∷◌, length, arith, Bool-cases,
}
use binapi.Prelude.Text.{Bytes, same_text}
use binapi.Recorder.Selector.{
  Doubles, SelectorConfig, Aggregate, Selector, contains, insert, put, fresh, pre_admit, selector,
  scored_list, record_scores, review, admissions, apply_evictions, tick,
}
use binapi.Recorder.Selector.Active.{
  replay, Sound, larger, contains-insert, record_scores-Sound, review-active, review_spares,
  evict-Sound, admissions-Sound, floor-Sound,
}

module _ {D : Type 0} (dd : Doubles D) (cfg : SelectorConfig D) where
  -- Between ticks: the state knows the active set, and the mandatory symbols are in it.
  pub record Consistent (s : Selector D) : Type 0 where
    pub tracked : (key : Bytes) → (s.state key).active ≡ contains key s.active
    pub keeps_mandatory :
        (key : Bytes) → contains key cfg.mandatory ≡ true → contains key s.active ≡ true

  pre_admit_lem :
      (mandatory : List Bytes) (s : Selector D)
      → ((key : Bytes) → (s.state key).active ≡ contains key s.active)
      → ((key : Bytes)
          → ((pre_admit dd cfg mandatory s).state key).active
            ≡ contains key (pre_admit dd cfg mandatory s).active)
        × ((key : Bytes)
            → (contains key mandatory || contains key s.active) ≡ true
            → contains key (pre_admit dd cfg mandatory s).active ≡ true)
  unfolding pre_admit
  pre_admit_lem [] s h = (h, λ key m. m)
  pre_admit_lem (m ∷ mandatory) s h =
      let ih =
        pre_admit_lem mandatory
          (record s {
            state = put m (record (s.state m) { active = true }) s.state;
            active = insert m s.active;
          })
          (λ k. elim (Bool-cases (same_text k m)) [
            | inl e ↦ rw (e, contains-insert k m s.active, e) refl
            | inr e ↦ rw (e, contains-insert k m s.active, e) (h k)
          ]) in
      (ih.0, λ key c. ih.1 key (ground (arith, c, contains-insert key m s.active)))

  pub selector-Consistent : Consistent (selector dd cfg)
  unfolding selector
  selector-Consistent =
      let empty : Selector D = record { state = λ k. fresh dd cfg; active = []; diffs = [] } in
      let l = pre_admit_lem cfg.mandatory empty (λ key. refl) in
      record { tracked = l.0; keeps_mandatory = λ key m. l.1 key (ground (arith, m)) }

  record_scores_active :
      (scored : List (Bytes × D)) (s : Selector D)
      → (record_scores dd cfg scored s).active ≡ s.active
  unfolding record_scores
  record_scores_active [] s = refl
  record_scores_active (a ∷ scored) s = record_scores_active scored _

  apply_evictions-Sound :
      (start : List Bytes) (now : ℕ) (s : Selector D)
      → Sound dd cfg start s
      → Sound dd cfg start (apply_evictions dd cfg now s)
        × (length (apply_evictions dd cfg now s).active ≤ length s.active)
  apply_evictions-Sound start now s h =
      evict-Sound dd cfg start (review dd cfg now s.active s.state).0
        (record s { state = (review dd cfg now s.active s.state).1 })
        (λ k m. review_spares dd cfg now s.active s.state k m)
        (record {
          tracked = λ k. review-active dd cfg now s.active s.state k ∙ h.tracked k;
          keeps_mandatory = h.keeps_mandatory;
          accounted = h.accounted;
        })

  tick-Sound :
      (sort : List (Bytes × D) → List (Bytes × D)) (aggs : List (Bytes × Aggregate D)) (now : ℕ)
      (s : Selector D)
      → Consistent s
      → Sound dd cfg s.active (tick dd cfg sort aggs now s)
        × (length (tick dd cfg sort aggs now s).active
            ≤ larger dd cfg (larger dd cfg (length s.active) cfg.max_active) cfg.min_active)
  unfolding tick
  tick-Sound sort aggs now s h =
      let scored = scored_list dd cfg aggs in
      let sorted = sort scored in
      let cleared = record s { diffs = [] } in
      let start : Sound dd cfg s.active cleared = record {
        tracked = h.tracked;
        keeps_mandatory = h.keeps_mandatory;
        accounted = refl;
      } in
      let known = record_scores dd cfg scored cleared in
      let e =
        apply_evictions-Sound s.active now known
          (record_scores-Sound dd cfg s.active scored cleared start) in
      let left = apply_evictions dd cfg now known in
      let a = admissions-Sound dd cfg s.active now sorted left e.0 in
      let f = floor-Sound dd cfg s.active now sorted (admissions dd cfg now sorted left) a.0 in
      (f.0, ground (arith, f.1, a.1, e.1, ap length (record_scores_active scored cleared)))

  -- From a consistent selector, the events that a tick emits, carried out one after the other on
  -- the active set before it, give the active set after it.
  pub tick_accounted :
      (sort : List (Bytes × D) → List (Bytes × D)) (aggs : List (Bytes × Aggregate D)) (now : ℕ)
      (s : Selector D)
      → Consistent s
      → replay (tick dd cfg sort aggs now s).diffs s.active ≡ (tick dd cfg sort aggs now s).active
  tick_accounted sort aggs now s h = (tick-Sound sort aggs now s h).0.accounted

  -- Ticks one after the other.
  abbrev pub run :
      (List (Bytes × D) → List (Bytes × D))
      → List (List (Bytes × Aggregate D) × ℕ)
      → Selector D
      → Selector D
  run sort [] s = s
  run sort (t ∷ ticks) s = run sort ticks (tick dd cfg sort t.0 t.1 s)

  run_lem :
      (sort : List (Bytes × D) → List (Bytes × D)) (ticks : List (List (Bytes × Aggregate D) × ℕ))
      (s : Selector D) (n : ℕ)
      → Consistent s
      → length s.active ≤ n
      → cfg.max_active ≤ n
      → cfg.min_active ≤ n
      → Consistent (run sort ticks s) × (length (run sort ticks s).active ≤ n)
  run_lem sort [] s n h b x y = (h, b)
  run_lem sort (t ∷ ticks) s n h b x y =
      let l = tick-Sound sort t.0 t.1 s h in
      run_lem sort ticks (tick dd cfg sort t.0 t.1 s) n
        (record { tracked = l.0.tracked; keeps_mandatory = l.0.keeps_mandatory })
        (ground (arith, l.1)) x y

  -- From the construction of a selector through any ticks, whatever the scores and the order that
  -- sort gives: the state marks exactly the symbols of the active set as active, every mandatory
  -- symbol is in the set, and the set is never larger than n, for an n that is not below its size
  -- at the construction, max_active and min_active.
  pub run-selector-Consistent :
      (sort : List (Bytes × D) → List (Bytes × D)) (ticks : List (List (Bytes × Aggregate D) × ℕ))
      (n : ℕ)
      → length (selector dd cfg).active ≤ n
      → cfg.max_active ≤ n
      → cfg.min_active ≤ n
      → Consistent (run sort ticks (selector dd cfg))
        × (length (run sort ticks (selector dd cfg)).active ≤ n)
  run-selector-Consistent sort ticks n b x y =
      run_lem sort ticks (selector dd cfg) n selector-Consistent b x y
