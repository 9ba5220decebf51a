-- ===== src/Tests/Books.antt =====
-- The theorems on the order books at concrete events and snapshots.
use binapi.Prelude.{
  ℕ, ◌≤◌, ◌≡◌, refl, arith, Bool, List, [], ◌∷◌, ◌++◌, Option, none, some, true, false,
  if◌then◌else◌,
}
use binapi.Prelude.Text.{Bytes, codes, same_text}
use binapi.Prelude.Int.{pos}
use binapi.Decimal.{Decimal}
use binapi.OrderBook.{PriceLevel, DepthEvent, OrderBookResponse}
use binapi.OrderBook.Side.{less, find}
use binapi.OrderBook.Levels.{apply_levels, load_snapshot}
use binapi.OrderBook.Levels.Laws.{BookIsValid, decided, find-apply_levels}
use binapi.OrderBook.Sync.{erase_stale, brackets, replay, initialize}
use binapi.OrderBook.Sync.Replay.{apply_all, events_after}
use binapi.OrderBook.Local.{LocalBook, Signal, received, start, run}
use binapi.OrderBook.Local.Backoff.{run-start_wait}
use binapi.OrderBook.Local.Follows.{books_after, run_live, run_sync}
use binapi.OrderBook.Local.Invariant.{AllBooks, run-start-BookIsValid}
use binapi.OrderBook.Pipeline
use binapi.OrderBook.Pipeline.{PipelineBook}
use binapi.OrderBook.Pipeline.Agrees.{of_local, run_agrees}
use binapi.OrderBook.Pipeline.Stages.{run_stages, dropped_stuck}
use binapi.OrderBook.Pipeline.Stuck.{gap_stuck, rest_error_stuck}

abbrev level : ℕ → ℕ → PriceLevel
level p q = record { price = record { value = pos p }; quantity = record { value = pos q } }

-- Events 8 to 12 and 13 to 15, and one after a gap.
abbrev first_event : DepthEvent
first_event = record {
  first_update_id = 8;
  final_update_id = 12;
  prev_final_update_id = 7;
  bids = level 99 4 ∷ [];
  asks = level 101 0 ∷ [];
}

abbrev second_event : DepthEvent
second_event = record {
  first_update_id = 13;
  final_update_id = 15;
  prev_final_update_id = 12;
  bids = level 98 1 ∷ [];
  asks = level 102 5 ∷ [];
}

abbrev late_event : DepthEvent
late_event = record {
  first_update_id = 30;
  final_update_id = 31;
  prev_final_update_id = 29;
  bids = [];
  asks = [];
}

abbrev snap : OrderBookResponse
snap = record {
  last_update_id = 10;
  bids = level 99 2 ∷ level 98 3 ∷ [];
  asks = level 101 1 ∷ level 102 2 ∷ [];
}

abbrev old_snap : OrderBookResponse
old_snap = record { last_update_id = 3; bids = []; asks = [] }

abbrev signals : List Signal
signals =
    received first_event (some old_snap)
    ∷ received second_event none
    ∷ received late_event (some snap)
    ∷ []

abbrev price : ℕ → Decimal
price p = record { value = pos p }

find-apply_levels_example :
    find less (price 101) (
      apply_levels less
        (level 101 0 ∷ level 102 5 ∷ [])
        ((price 101, price 1) ∷ (price 102, price 2) ∷ []))
    ≡ decided less
        (price 101)
        (level 101 0 ∷ level 102 5 ∷ [])
        (find less (price 101) ((price 101, price 1) ∷ (price 102, price 2) ∷ []))
find-apply_levels_example =
    find-apply_levels less (price 101) (level 101 0 ∷ level 102 5 ∷ [])
      ((price 101, price 1) ∷ (price 102, price 2) ∷ []) ((refl, tt), (tt, tt))

abbrev live_book : LocalBook
live_book = record {
  book = record { last_update_id = 12; bids = []; asks = [] };
  buffer = [];
  synced = true;
  last_u = 12;
  events_until_snap = 0;
}

run_live_example :
    ((run live_book (received second_event none ∷ [])).0.synced ≡ true)
    × ((run live_book (received second_event none ∷ [])).0.book
        ≡ apply_all (second_event ∷ []) live_book.book)
    × ((run live_book (received second_event none ∷ [])).1
        ≡ books_after live_book.book (second_event ∷ []))
run_live_example = run_live live_book (received second_event none ∷ []) refl (refl, tt)

brackets_first : brackets 10 (erase_stale 10 (first_event ∷ [])) ≡ true
unfolding brackets erase_stale
brackets_first = refl

id_after_first : 12 ≡ (initialize snap (erase_stale 10 (first_event ∷ []))).last_u
unfolding initialize erase_stale replay
id_after_first = refl

abbrev fresh_book : LocalBook
fresh_book = record {
  book = record { last_update_id = 0; bids = []; asks = [] };
  buffer = [];
  synced = false;
  last_u = 0;
  events_until_snap = 0;
}

run_sync_example :
    ((run fresh_book (received first_event (some snap) ∷ received second_event none ∷ [])).0.synced
      ≡ true)
    × ((run fresh_book (received first_event (some snap) ∷ received second_event none ∷ [])).0.book
        ≡ apply_all (events_after 10 (first_event ∷ []) ++ second_event ∷ []) (load_snapshot snap))
run_sync_example =
    run_sync fresh_book first_event snap (received second_event none ∷ []) refl refl brackets_first
      (id_after_first, tt)

run-start-BookIsValid_example :
    BookIsValid (run start signals).0.book × AllBooks BookIsValid (run start signals).1
run-start-BookIsValid_example = run-start-BookIsValid signals

run-start_wait_example : (run start signals).0.events_until_snap ≤ 2
run-start_wait_example = run-start_wait signals

abbrev waiting_book : LocalBook
waiting_book = record {
  book = record { last_update_id = 0; bids = []; asks = [] };
  buffer = first_event ∷ [];
  synced = false;
  last_u = 0;
  events_until_snap = 2;
}

abbrev live_pipeline : PipelineBook
live_pipeline = of_local live_book

gap_stuck_example :
    ((Pipeline.run live_pipeline
        (received late_event none ∷ received first_event (some snap) ∷ [])).0.synced
      ≡ false)
    × ((Pipeline.run live_pipeline
          (received late_event none ∷ received first_event (some snap) ∷ [])).0.book
        ≡ live_pipeline.book)
    × ((Pipeline.run live_pipeline
          (received late_event none ∷ received first_event (some snap) ∷ [])).1
        ≡ [])
gap_stuck_example =
    gap_stuck live_pipeline late_event none (received first_event (some snap) ∷ []) refl
      (omega arith)

rest_error_stuck_example :
    ((Pipeline.run Pipeline.start
        (received first_event none ∷ received second_event (some snap) ∷ [])).0.synced
      ≡ false)
    × ((Pipeline.run Pipeline.start
          (received first_event none ∷ received second_event (some snap) ∷ [])).1
        ≡ [])
rest_error_stuck_example = rest_error_stuck first_event (received second_event (some snap) ∷ [])

run_agrees_example :
    Pipeline.run Pipeline.start (received first_event (some snap) ∷ received second_event none ∷ [])
    ≡ (
      of_local (run start (received first_event (some snap) ∷ received second_event none ∷ [])).0,
      (run start (received first_event (some snap) ∷ received second_event none ∷ [])).1,
    )
run_agrees_example =
    run_agrees first_event snap (received second_event none ∷ []) brackets_first
      (id_after_first, tt)

-- A stream without a gap, whose first frame finds no room in the raw buffer.
abbrev third_event : DepthEvent
third_event = record {
  first_update_id = 16;
  final_update_id = 18;
  prev_final_update_id = 15;
  bids = [];
  asks = [];
}

abbrev parse : Bytes → Option DepthEvent
parse frame = if same_text frame (codes "second") then some second_event else some third_event

abbrev frames : List (Bytes × Bool)
frames = (codes "third", true) ∷ []

dropped_stuck_example :
    ((run_stages parse
        (λ e. some snap)
        live_pipeline
        ((codes "second", false) ∷ (codes "third", true) ∷ frames)).0.synced
      ≡ false)
    × ((run_stages parse
          (λ e. some snap)
          live_pipeline
          ((codes "second", false) ∷ (codes "third", true) ∷ frames)).0.book
        ≡ live_pipeline.book)
    × ((run_stages parse
          (λ e. some snap)
          live_pipeline
          ((codes "second", false) ∷ (codes "third", true) ∷ frames)).1
        ≡ [])
dropped_stuck_example =
    dropped_stuck parse (λ e. some snap) live_pipeline (codes "second") (codes "third") second_event
      third_event frames refl refl refl refl refl (omega arith)
