-- ===== src/OrderBook/Pipeline/Stuck.antt =====
-- What a pipeline book does once an event is buffered and it is not synced.
use binapi.Prelude.{
  ◌<◌, ◌≤◌, ◌≡◌, ◌≢◌, refl, true, false, List, [], ◌∷◌, ◌++◌, Option, none, arith, length,
  length-append,
}
use binapi.OrderBook.{DepthEvent, OrderBookResponse}
use binapi.OrderBook.Local.{Signal, received, failed}
use binapi.OrderBook.Pipeline.{PipelineBook, start, step, run}

step_stuck :
    (s : PipelineBook) (e : DepthEvent) (r : Option OrderBookResponse)
    → s.synced ≡ false
    → 0 < length s.buffer
    → step s e r ≡ (record s { buffer = s.buffer ++ e ∷ [] }, none)
unfolding step
step_stuck s e r h l = ground (arith, length-append s.buffer (e ∷ []))

-- Nothing happens but that the buffer grows.
record IsStuck (s : PipelineBook) (signals : List Signal) : Type 0 where
  pub book_kept : (run s signals).0.book ≡ s.book
  pub not_synced : (run s signals).0.synced ≡ false
  pub nothing_published : (run s signals).1 ≡ []
  pub grown : length s.buffer ≤ length (run s signals).0.buffer

run-IsStuck :
    (s : PipelineBook) (signals : List Signal)
    → s.synced ≡ false
    → 0 < length s.buffer
    → IsStuck s signals
unfolding run
run-IsStuck s [] h l = record {
  book_kept = refl;
  not_synced = h;
  nothing_published = refl;
  grown = omega arith;
}
run-IsStuck s (failed err ∷ signals) h l = record {
  book_kept = refl;
  not_synced = h;
  nothing_published = refl;
  grown = omega arith;
}
run-IsStuck s (received e r ∷ signals) h l =
    let s' = record s { buffer = s.buffer ++ e ∷ [] } in
    let rest = run-IsStuck s' signals h (omega (arith, length-append s.buffer (e ∷ []))) in
    let one = step_stuck s e r h l in
    record {
      book_kept = rw one rest.book_kept;
      not_synced = rw one rest.not_synced;
      nothing_published = rw one rest.nothing_published;
      grown = rw one (omega (arith, length-append s.buffer (e ∷ []), rest.grown));
    }

step_gap :
    (s : PipelineBook) (e : DepthEvent) (r : Option OrderBookResponse)
    → s.synced ≡ true
    → e.prev_final_update_id ≢ s.last_u
    → step s e r ≡ (record s { synced = false; buffer = e ∷ [] }, none)
unfolding step
step_gap s e r h n = ground arith

-- After a gap a synced pipeline book stays as it is for good: whatever events, answers and
-- failures follow, it is not synced at the end, its book is the one before the gap, and nothing
-- was published.
pub gap_stuck :
    (s : PipelineBook) (e : DepthEvent) (r : Option OrderBookResponse) (signals : List Signal)
    → s.synced ≡ true
    → e.prev_final_update_id ≢ s.last_u
    → ((run s (received e r ∷ signals)).0.synced ≡ false)
      × ((run s (received e r ∷ signals)).0.book ≡ s.book)
      × ((run s (received e r ∷ signals)).1 ≡ [])
unfolding run
gap_stuck s e r signals h n =
    let stuck =
      run-IsStuck (record s { synced = false; buffer = e ∷ [] }) signals refl (omega arith) in
    rw (step_gap s e r h n) (stuck.not_synced, stuck.book_kept, stuck.nothing_published)

step_rest_error : (e : DepthEvent) → step start e none ≡ (record start { buffer = e ∷ [] }, none)
unfolding step start
step_rest_error e = refl

-- If the request for the snapshot fails at the first event, the pipeline is never synced and
-- publishes nothing, whatever events and answers follow.
pub rest_error_stuck :
    (e : DepthEvent) (signals : List Signal)
    → ((run start (received e none ∷ signals)).0.synced ≡ false)
      × ((run start (received e none ∷ signals)).1 ≡ [])
unfolding run start
rest_error_stuck e signals =
    let stuck = run-IsStuck (record start { buffer = e ∷ [] }) signals refl (omega arith) in
    rw (step_rest_error e) (stuck.not_synced, stuck.nothing_published)
