-- ===== src/OrderBook/Pipeline.antt =====
-- src/binapi2/fapi/order_book/pipeline_order_book.cpp: the logic stage of `async_run` as a function
-- of what it awaits. The network and parser stages, which fill the buffer that it reads, are in Stages.
pub mod Stuck
pub mod Agrees
pub mod Stages
use binapi.Prelude.{
  ℕ, Bool, true, false, not, List, [], ◌∷◌, ◌++◌, Option, none, some, ◌==◌, if◌then◌else◌, length,
}
use binapi.OrderBook.{DepthEvent, OrderBookResponse}
use binapi.OrderBook.Levels.{Book, apply_event}
use binapi.OrderBook.Sync.{erase_stale, brackets, initialize}
use binapi.OrderBook.Local.{Signal, received, failed, publish}

-- The locals of the logic stage and the member `book_`.
pub record PipelineBook : Type 0 where
  pub book : Book
  pub buffer : List DepthEvent
  pub synced : Bool
  pub last_u : ℕ

unfoldable pub start : PipelineBook
start = record {
  book = record { last_update_id = 0; bids = []; asks = [] };
  buffer = [];
  synced = false;
  last_u = 0;
}

abbrev pub Round : Type 0
Round = PipelineBook × Option Book

-- The answer of the REST endpoint; `s.buffer` is the one event.
unfoldable pub take_snapshot : PipelineBook → Option OrderBookResponse → Round
take_snapshot s none = (s, none)
take_snapshot s (some snap) =
    let kept = erase_stale snap.last_update_id s.buffer in
    let r = initialize snap kept in
    if brackets snap.last_update_id kept
    then (record s { book = r.book; last_u = r.last_u; buffer = []; synced = true }, some r.book)
    else (record s { buffer = [] }, none)

-- The branch `if (!synced)`.
unfoldable pub step_unsynced : PipelineBook → DepthEvent → Option OrderBookResponse → Round
unfolding take_snapshot
step_unsynced s event reply =
    let s' = record s { buffer = s.buffer ++ event ∷ [] } in
    if length s'.buffer == 1 then take_snapshot s' reply else (s', none)

-- The branch for a synced book.
unfoldable pub step_synced : PipelineBook → DepthEvent → Round
step_synced s event =
    let book = apply_event event s.book in
    if event.prev_final_update_id == s.last_u
    then (record s { book = book; last_u = event.final_update_id }, some book)
    else (record s { synced = false; buffer = event ∷ [] }, none)

unfoldable pub step : PipelineBook → DepthEvent → Option OrderBookResponse → Round
unfolding step_unsynced step_synced
step s event reply = if not s.synced then step_unsynced s event reply else step_synced s event

-- The whole loop: the last state and all that the callback was given. It ends at a failed read
-- (the buffer was closed) as it does after `stop()`.
unfoldable pub run : PipelineBook → List Signal → PipelineBook × List Book
run s [] = (s, [])
run s (failed err ∷ signals) = (s, [])
run s (received event reply ∷ signals) =
    let r = step s event reply in let rest = run r.0 signals in (rest.0, publish r.1 rest.1)
