-- ===== src/Recorder/Selector.antt =====
-- examples/binapi2/fapi/async-recorder/selector.cpp: which symbols the recorder follows in detail. A `double` is a
-- type with the operations that the code uses, all parameters, and so is `std::sort`; times are in nanoseconds
-- of the steady clock, which never goes back. `state_`, whose missing entries `operator[]` makes with their
-- defaults, is a function of the symbol; `active_` is a list without repetitions. The time stamps of the
-- events are left out.
pub mod Active
pub mod Ticks
use binapi.Prelude.{
  ℕ, ◌+◌, ◌-◌, ◌*◌, ◌/◌, Bool, true, false, ◌&&◌, ◌||◌, not, List, [], ◌∷◌, ◌++◌, Option, none,
  some, ltb, leb, if◌then◌else◌, length,
}
use binapi.Prelude.Text.{Bytes, same_text}
use binapi.Recorder.Windows.{nanoseconds}

-- The operations of `double`; `at_least` is not the negation of `less` on all of them.
pub record Doubles (D : Type 0) : Type 0 where
  pub zero_ : D
  pub add : D → D → D
  pub mul : D → D → D
  pub of_count : ℕ → D
  pub less : D → D → Bool
  pub at_least : D → D → Bool

pub record SelectorConfig (D : Type 0) : Type 0 where
  pub mandatory : List Bytes
  pub add_score : D
  pub remove_score : D
  pub cooloff_seconds : ℕ
  pub min_hold_seconds : ℕ
  pub max_active : ℕ
  pub min_active : ℕ
  pub w_volume : D
  pub w_trades : D
  pub w_natr : D

-- What the score reads of an aggregate.
pub record Aggregate (D : Type 0) : Type 0 where
  pub vol_1m : D
  pub vol_5m : D
  pub vol_1h : D
  pub trades_1m : D
  pub trades_5m : D
  pub trades_1h : D
  pub natr : D
  pub events_total : ℕ

pub record SymbolState (D : Type 0) : Type 0 where
  pub active : Bool
  pub last_score : D
  pub admitted_at : ℕ
  pub below_since : Option ℕ

pub data SelectorAction : Type 0 where
  adds removes : SelectorAction

pub record SelectorEvent (D : Type 0) : Type 0 where
  pub symbol : Bytes
  pub action : SelectorAction
  pub score : D

pub record Selector (D : Type 0) : Type 0 where
  pub state : Bytes → SymbolState D
  pub active : List Bytes
  pub diffs : List (SelectorEvent D)

abbrev pub contains : Bytes → List Bytes → Bool
contains sym [] = false
contains sym (s ∷ active) = same_text sym s || contains sym active

abbrev pub erase : Bytes → List Bytes → List Bytes
erase sym [] = []
erase sym (s ∷ active) = if same_text sym s then erase sym active else s ∷ erase sym active

abbrev pub insert : Bytes → List Bytes → List Bytes
insert sym active = if contains sym active then active else sym ∷ active

-- A write to one entry of `state_`.
abbrev pub put :
    {D : Type 0} → Bytes → SymbolState D → (Bytes → SymbolState D) → Bytes → SymbolState D
put sym st state k = if same_text k sym then st else state k

module _ {D : Type 0} (dd : Doubles D) (cfg : SelectorConfig D) where
  abbrev pub fresh : SymbolState D
  fresh = record { active = false; last_score = dd.zero_; admitted_at = 0; below_since = none }

  unfoldable pub pre_admit : List Bytes → Selector D → Selector D
  pre_admit [] s = s
  pre_admit (m ∷ mandatory) s = pre_admit mandatory (record s {
    state = put m (record (s.state m) { active = true }) s.state;
    active = insert m s.active;
  })

  unfoldable pub selector : Selector D
  unfolding pre_admit
  selector = pre_admit cfg.mandatory (record { state = λ k. fresh; active = []; diffs = [] })

  unfoldable pub score_symbol : Aggregate D → D
  score_symbol agg =
      let vol_score = dd.mul cfg.w_volume (dd.add (dd.add agg.vol_1m agg.vol_5m) agg.vol_1h) in
      let trade_score =
        dd.mul cfg.w_trades (dd.add (dd.add agg.trades_1m agg.trades_5m) agg.trades_1h) in
      let natr_score = dd.mul cfg.w_natr agg.natr in
      let liveness = dd.mul cfg.w_volume (dd.of_count agg.events_total) in
      dd.add (dd.add (dd.add vol_score trade_score) natr_score) liveness

  unfoldable pub scored_list : List (Bytes × Aggregate D) → List (Bytes × D)
  unfolding score_symbol
  scored_list [] = []
  scored_list (a ∷ aggs) = (a.0, score_symbol a.1) ∷ scored_list aggs

  unfoldable pub record_scores : List (Bytes × D) → Selector D → Selector D
  record_scores [] s = s
  record_scores (a ∷ scored) s =
      record_scores scored
        (record s { state = put a.0 (record (s.state a.0) { last_score = a.1 }) s.state })

  abbrev pub since_or : ℕ → Option ℕ → ℕ
  since_or now none = now
  since_or now (some t) = t

  -- The rules for one active symbol: whether it goes, and its state.
  abbrev pub is_held : ℕ → SymbolState D → Bool
  is_held now st = ltb ((now - st.admitted_at) / nanoseconds) cfg.min_hold_seconds

  abbrev pub is_cooled : ℕ → SymbolState D → Bool
  is_cooled now st = leb cfg.cooloff_seconds ((now - since_or now st.below_since) / nanoseconds)

  abbrev pub is_evicted : ℕ → Bytes → SymbolState D → Bool
  is_evicted now sym st =
      if contains sym cfg.mandatory
      then false
      else if is_held now st
      then false
      else if dd.at_least st.last_score cfg.remove_score
      then false
      else is_cooled now st

  abbrev pub reviewed : ℕ → Bytes → SymbolState D → SymbolState D
  reviewed now sym st =
      if contains sym cfg.mandatory
      then st
      else if is_held now st
      then st
      else if dd.at_least st.last_score cfg.remove_score
      then record st { below_since = none }
      else record st { below_since = some (since_or now st.below_since) }

  -- The walk over the active set: the symbols to evict, and the state.
  unfoldable pub review :
      ℕ → List Bytes → (Bytes → SymbolState D) → List Bytes × (Bytes → SymbolState D)
  review now [] state = ([], state)
  review now (sym ∷ active) state =
      let rest = review now active (put sym (reviewed now sym (state sym)) state) in
      (if is_evicted now sym (state sym) then sym ∷ rest.0 else rest.0, rest.1)

  unfoldable pub evict : List Bytes → Selector D → Selector D
  evict [] s = s
  evict (sym ∷ to_evict) s =
      let st = s.state sym in
      evict to_evict (record {
        state = put sym (record st { active = false; below_since = none }) s.state;
        active = erase sym s.active;
        diffs = s.diffs ++ record { symbol = sym; action = removes; score = st.last_score } ∷ [];
      })

  abbrev pub admit : ℕ → Bytes × D → Selector D → Selector D
  admit now a s = record {
    state =
        put a.0 (record (s.state a.0) { active = true; admitted_at = now; below_since = none })
          s.state;
    active = a.0 ∷ s.active;
    diffs = s.diffs ++ record { symbol = a.0; action = adds; score = a.1 } ∷ [];
  }

  unfoldable pub admissions : ℕ → List (Bytes × D) → Selector D → Selector D
  admissions now [] s = s
  admissions now (a ∷ scored) s =
      let rest = admissions now scored (if contains a.0 s.active then s else admit now a s) in
      if leb cfg.max_active (length s.active)
      then s
      else if contains a.0 s.active
      then rest
      else if dd.less a.1 cfg.add_score
      then s
      else rest

  unfoldable pub floor : ℕ → List (Bytes × D) → Selector D → Selector D
  floor now [] s = s
  floor now (a ∷ scored) s =
      let rest = floor now scored (if contains a.0 s.active then s else admit now a s) in
      if leb cfg.min_active (length s.active) then s else rest

  abbrev pub apply_evictions : ℕ → Selector D → Selector D
  apply_evictions now s =
      let r = review now s.active s.state in evict r.0 (record s { state = r.1 })

  unfoldable pub tick :
      (List (Bytes × D) → List (Bytes × D))
      → List (Bytes × Aggregate D)
      → ℕ
      → Selector D
      → Selector D
  unfolding scored_list record_scores review evict admissions floor
  tick sort aggs now s =
      let scored = scored_list aggs in
      let sorted = sort scored in
      let t = apply_evictions now (record_scores scored (record s { diffs = [] })) in
      floor now sorted (admissions now sorted t)
