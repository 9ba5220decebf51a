-- ===== src/Tests/Selectors.antt =====
-- The theorems on the selector at two symbols of which one is mandatory, with naturals in place of doubles.
use binapi.Prelude.{ℕ, ◌+◌, ◌*◌, ◌≤◌, ◌≡◌, refl, List, [], ◌∷◌, ltb, leb, length, arith}
use binapi.Prelude.Text.{Bytes, codes}
use binapi.Recorder.Selector.{
  Doubles, SelectorConfig, Aggregate, pre_admit, selector, tick, admissions, floor, evict, review,
  record_scores, scored_list, score_symbol,
}
use binapi.Recorder.Selector.Active.{replay}
use binapi.Recorder.Selector.Ticks.{
  Consistent, selector-Consistent, tick_accounted, run, run-selector-Consistent,
}

abbrev naturals : Doubles ℕ
naturals = record {
  zero_ = 0;
  add = λ a b. a + b;
  mul = λ a b. a * b;
  of_count = λ n. n;
  less = ltb;
  at_least = λ a b. leb b a;
}

abbrev cfg : SelectorConfig ℕ
cfg = record {
  mandatory = codes "BTCUSDT" ∷ [];
  add_score = 10;
  remove_score = 5;
  cooloff_seconds = 0;
  min_hold_seconds = 0;
  max_active = 2;
  min_active = 1;
  w_volume = 1;
  w_trades = 0;
  w_natr = 0;
}

abbrev events : ℕ → Aggregate ℕ
events n = record {
  vol_1m = 0;
  vol_5m = 0;
  vol_1h = 0;
  trades_1m = 0;
  trades_5m = 0;
  trades_1h = 0;
  natr = 0;
  events_total = n;
}

abbrev same_order : List (Bytes × ℕ) → List (Bytes × ℕ)
same_order scored = scored

abbrev busy : List (Bytes × Aggregate ℕ)
busy = (codes "ETHUSDT", events 20) ∷ (codes "BTCUSDT", events 12) ∷ []

abbrev quiet : List (Bytes × Aggregate ℕ)
quiet = (codes "ETHUSDT", events 1) ∷ []

-- One symbol is admitted, and then evicted.
admits :
    (tick naturals cfg same_order busy 7 (selector naturals cfg)).active
    ≡ codes "ETHUSDT" ∷ codes "BTCUSDT" ∷ []
unfolding tick scored_list score_symbol record_scores review evict admissions floor selector
    pre_admit
admits = refl

evicts :
    (run naturals cfg same_order ((busy, 7) ∷ (quiet, 9) ∷ []) (selector naturals cfg)).active
    ≡ codes "BTCUSDT" ∷ []
unfolding tick scored_list score_symbol record_scores review evict admissions floor selector
    pre_admit
evicts = refl

tick_accounted_example :
    replay
      (tick naturals cfg same_order busy 7 (selector naturals cfg)).diffs
      (selector naturals cfg).active
    ≡ (tick naturals cfg same_order busy 7 (selector naturals cfg)).active
tick_accounted_example =
    tick_accounted naturals cfg same_order busy 7 (selector naturals cfg)
      (selector-Consistent naturals cfg)

starts_with_one : length (selector naturals cfg).active ≤ 2
unfolding selector pre_admit
starts_with_one = omega arith

run-selector-Consistent_example :
    Consistent naturals cfg
      (run naturals cfg same_order ((busy, 7) ∷ (quiet, 9) ∷ []) (selector naturals cfg))
    × (length
          (run naturals cfg same_order ((busy, 7) ∷ (quiet, 9) ∷ []) (selector naturals cfg)).active
        ≤ 2)
run-selector-Consistent_example =
    run-selector-Consistent naturals cfg same_order ((busy, 7) ∷ (quiet, 9) ∷ []) 2 starts_with_one
      (omega arith) (omega arith)
