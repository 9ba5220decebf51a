-- ===== src/OrderBook/Sync.antt =====
-- The part of the synchronisation that local_order_book.cpp and pipeline_order_book.cpp share,
-- word for word: dropping stale events, the bracket check, and the book built from a snapshot and
-- the buffered events.
pub mod Replay
use binapi.Prelude.{ℕ, Bool, true, false, ◌&&◌, not, List, [], ◌∷◌, ltb, leb, if◌then◌else◌}
use binapi.OrderBook.{DepthEvent, OrderBookResponse}
use binapi.OrderBook.Levels.{Book, apply_event, load_snapshot}

-- `std::erase_if(buffer, …)`.
unfoldable pub erase_stale : ℕ → List DepthEvent → List DepthEvent
erase_stale snapshot_id [] = []
erase_stale snapshot_id (ev ∷ buffer) =
    if ltb ev.final_update_id snapshot_id
    then erase_stale snapshot_id buffer
    else ev ∷ erase_stale snapshot_id buffer

-- The negation of the check that gives up on the snapshot.
unfoldable pub brackets : ℕ → List DepthEvent → Bool
brackets snapshot_id [] = false
brackets snapshot_id (front ∷ buffer) =
    not (ltb snapshot_id front.first_update_id) && not (ltb front.final_update_id snapshot_id)

-- A book with the id of the last event seen.
pub record Synced : Type 0 where
  pub book : Book
  pub last_u : ℕ

-- The loop over the buffered events.
unfoldable pub replay : ℕ → List DepthEvent → Synced → Synced
replay snapshot_id [] s = s
replay snapshot_id (buffered ∷ buffer) s = replay snapshot_id buffer (
    if leb buffered.final_update_id snapshot_id
    then record s { last_u = buffered.final_update_id }
    else record { book = apply_event buffered s.book; last_u = buffered.final_update_id })

unfoldable pub initialize : OrderBookResponse → List DepthEvent → Synced
initialize snap buffer =
    replay snap.last_update_id buffer
      (record { book = load_snapshot snap; last_u = snap.last_update_id })
