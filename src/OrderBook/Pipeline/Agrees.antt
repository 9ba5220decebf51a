-- ===== src/OrderBook/Pipeline/Agrees.antt =====
-- The pipeline's book beside the local book.
use binapi.Prelude.{◌≡◌, refl, true, List, [], ◌∷◌, Option, some, arith}
use binapi.OrderBook.{DepthEvent, OrderBookResponse}
use binapi.OrderBook.Sync.{erase_stale, brackets, initialize}
use binapi.OrderBook.Local.{LocalBook, Signal, received, failed, publish}
use binapi.OrderBook.Local
use binapi.OrderBook.Local.Follows.{NoGap}
use binapi.OrderBook.Pipeline.{PipelineBook, start, step, run}

-- What the pipeline keeps of a local book.
abbrev pub of_local : LocalBook → PipelineBook
of_local l = record { book = l.book; buffer = l.buffer; synced = l.synced; last_u = l.last_u }

step_live_agrees :
    (l : LocalBook) (e : DepthEvent) (r : Option OrderBookResponse)
    → l.synced ≡ true
    → e.prev_final_update_id ≡ l.last_u
    → (step (of_local l) e r ≡ (of_local (Local.step l e r).0, (Local.step l e r).1))
      × ((Local.step l e r).0.synced ≡ true)
      × ((Local.step l e r).0.last_u ≡ e.final_update_id)
unfolding step Local.step
step_live_agrees l e r h p = ground arith

run_live_agrees :
    (l : LocalBook) (signals : List Signal)
    → l.synced ≡ true
    → NoGap l.last_u signals
    → run (of_local l) signals ≡ (of_local (Local.run l signals).0, (Local.run l signals).1)
unfolding run Local.run
run_live_agrees l [] h g = refl
run_live_agrees l (failed err ∷ signals) h g = absurd g
run_live_agrees l (received e r ∷ signals) h g =
    let one = step_live_agrees l e r h g.0 in
    let rest = run_live_agrees (Local.step l e r).0 signals one.1 (rw one.2 g.1) in
    rw (one.0, rest) refl

step_sync_agrees :
    (e : DepthEvent) (snap : OrderBookResponse)
    → brackets snap.last_update_id (erase_stale snap.last_update_id (e ∷ [])) ≡ true
    → let l = Local.step Local.start e (some snap) in
      let s = initialize snap (erase_stale snap.last_update_id (e ∷ [])) in
      (step start e (some snap) ≡ (of_local l.0, l.1))
      × (l.0.synced ≡ true)
      × (l.0.last_u ≡ s.last_u)
unfolding step start Local.step Local.start
step_sync_agrees e snap b = rw b (refl, refl, refl)

-- If the first snapshot brackets the first event, and then there is neither a gap nor a failed
-- read, the pipeline ends with the book, the buffer, the flag and the last id of the local book,
-- and has published the same books.
pub run_agrees :
    (e : DepthEvent) (snap : OrderBookResponse) (signals : List Signal)
    → brackets snap.last_update_id (erase_stale snap.last_update_id (e ∷ [])) ≡ true
    → NoGap (initialize snap (erase_stale snap.last_update_id (e ∷ []))).last_u signals
    → run start (received e (some snap) ∷ signals) ≡ (
      of_local (Local.run Local.start (received e (some snap) ∷ signals)).0,
      (Local.run Local.start (received e (some snap) ∷ signals)).1,
    )
unfolding run Local.run
run_agrees e snap signals b g =
    let one = step_sync_agrees e snap b in
    let l = Local.step Local.start e (some snap) in
    rw (one.0, run_live_agrees l.0 signals one.1 (rw one.2 g)) refl
