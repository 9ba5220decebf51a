-- ===== src/OrderBook/Local.antt =====
-- src/binapi2/fapi/order_book/local_order_book.cpp: `async_run` as a function of what it awaits.
-- A round of the loop takes the next event and the answer of the REST endpoint, which it uses if
-- it asks for a snapshot. What it gives to the snapshot callback is the second result.
pub mod Backoff
pub mod Invariant
pub mod Follows
use Prim.Native.Nat.{min, max}
use binapi.Prelude.{
  ℕ, zero, suc, ◌+◌, ◌-◌, ◌*◌, Bool, true, false, not, List, [], ◌∷◌, ◌++◌, Option, none, some, ltb,
  ◌==◌, if◌then◌else◌,
}
use binapi.OrderBook.{DepthEvent, OrderBookResponse}
use binapi.OrderBook.Levels.{Book, apply_event}
use binapi.OrderBook.Sync.{Synced, erase_stale, brackets, initialize}

abbrev pub max_wait : ℕ
max_wait = 50

-- The locals of `async_run` and the member `book_`.
pub record LocalBook : Type 0 where
  pub book : Book
  pub buffer : List DepthEvent
  pub synced : Bool
  pub last_u : ℕ
  pub events_until_snap : ℕ

-- What the members and the locals hold when `async_run` starts.
unfoldable pub start : LocalBook
start = record {
  book = record { last_update_id = 0; bids = []; asks = [] };
  buffer = [];
  synced = false;
  last_u = 0;
  events_until_snap = 0;
}

abbrev pub Round : Type 0
Round = LocalBook × Option Book

abbrev pub back_off : ℕ → ℕ
back_off events_until_snap = min max_wait (max events_until_snap 1 * 2)

-- The answer of the REST endpoint; `s.buffer` has the event already.
unfoldable pub take_snapshot : LocalBook → Option OrderBookResponse → Round
take_snapshot s none = (record s { events_until_snap = back_off s.events_until_snap }, none)
take_snapshot s (some snap) =
    let kept = erase_stale snap.last_update_id s.buffer in
    let r = initialize snap kept in
    if brackets snap.last_update_id kept
    then (record s { book = r.book; last_u = r.last_u; buffer = []; synced = true }, some r.book)
    else (record s { buffer = kept; events_until_snap = back_off s.events_until_snap }, none)

-- The branch `if (!synced)`.
unfoldable pub step_unsynced : LocalBook → DepthEvent → Option OrderBookResponse → Round
unfolding take_snapshot
step_unsynced s event reply =
    let s' = record s { buffer = s.buffer ++ event ∷ [] } in
    if ltb 0 s.events_until_snap
    then (record s' { events_until_snap = s.events_until_snap - 1 }, none)
    else take_snapshot s' reply

-- The branch for a synced book.
unfoldable pub step_synced : LocalBook → DepthEvent → Round
step_synced s event =
    let book = apply_event event s.book in
    if event.prev_final_update_id == s.last_u
    then (record s { book = book; last_u = event.final_update_id }, some book)
    else (record s { synced = false; buffer = event ∷ [] }, none)

unfoldable pub step : LocalBook → DepthEvent → Option OrderBookResponse → Round
unfolding step_unsynced step_synced
step s event reply = if not s.synced then step_unsynced s event reply else step_synced s event

-- Whether the next round asks for a snapshot.
unfoldable pub asks_snapshot : LocalBook → Bool
asks_snapshot s = if not s.synced then not (ltb 0 s.events_until_snap) else false

-- What a read of the stream brings. The end of the list is `stop()`, or the end of the stream.
pub data Signal : Type 0 where
  received : DepthEvent → Option OrderBookResponse → Signal
  failed : ℕ → Signal

pub data RunResult : Type 0 where
  success : RunResult
  failure : ℕ → RunResult

abbrev pub publish : Option Book → List Book → List Book
publish none books = books
publish (some b) books = b ∷ books

-- The whole loop: the last state, all that the callback was given, and the result.
unfoldable pub run : LocalBook → List Signal → LocalBook × List Book × RunResult
run s [] = (s, [], success)
run s (failed err ∷ signals) = (s, [], failure err)
run s (received event reply ∷ signals) =
    let r = step s event reply in let rest = run r.0 signals in (rest.0, publish r.1 rest.1, rest.2)
