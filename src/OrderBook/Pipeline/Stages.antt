-- ===== src/OrderBook/Pipeline/Stages.antt =====
-- The three stages of `pipeline_order_book::async_run` together: the frames of the connection go through
-- `buffer_consumer::on_frame` (include/binapi2/fapi/streams/detail/stream_consumer.hpp) and the parse loop of
-- `stream_parser` (include/binapi2/fapi/streams/detail/stream_parser.hpp) to the logic stage. The buffers keep the
-- order of what they take; whether the raw one has room comes with each frame, and the parser tries until the
-- other one takes its event. The JSON reader is glaze's, the argument `parse`; `reply` is what the REST
-- endpoint would answer at an event.
use binapi.Prelude.{
  ◌≡◌, ◌≢◌, ◌∙◌, sym, Bool, true, false, List, [], ◌∷◌, Option, none, some, if◌then◌else◌,
}
use binapi.Prelude.Text.{Bytes}
use binapi.OrderBook.{DepthEvent, OrderBookResponse}
use binapi.OrderBook.Levels.{Book}
use binapi.OrderBook.Local.{Signal, received}
use binapi.OrderBook.Pipeline.{PipelineBook, run}
use binapi.OrderBook.Pipeline.Stuck.{gap_stuck}

-- `on_frame` pushes the frame and does not look at what `push` returns.
unfoldable pub on_frame : Bytes → Bool → List Bytes → List Bytes
on_frame frame has_room raw = if has_room then frame ∷ raw else raw

-- The frames that the network stage hands on.
unfoldable pub network_stage : List (Bytes × Bool) → List Bytes
unfolding on_frame
network_stage [] = []
network_stage (f ∷ frames) = on_frame f.0 f.1 (network_stage frames)

module _ (parse : Bytes → Option DepthEvent) where
  abbrev pub push_parsed : Option DepthEvent → List DepthEvent → List DepthEvent
  push_parsed none events = events
  push_parsed (some event) events = event ∷ events

  unfoldable pub parse_loop : List Bytes → List DepthEvent
  parse_loop [] = []
  parse_loop (raw ∷ frames) = push_parsed (parse raw) (parse_loop frames)

  module _ (reply : DepthEvent → Option OrderBookResponse) where
    abbrev pub signals_of : List DepthEvent → List Signal
    signals_of [] = []
    signals_of (event ∷ events) = received event (reply event) ∷ signals_of events

    -- From a state of the logic stage, all frames that come.
    unfoldable pub run_stages : PipelineBook → List (Bytes × Bool) → PipelineBook × List Book
    unfolding network_stage parse_loop
    run_stages s frames = run s (signals_of (parse_loop (network_stage frames)))

    -- If the book is synced and two frames carry the events that follow it without a gap, the
    -- first of which ends at another update id than the one before it, but the raw buffer has no
    -- room for the first one and room for the second, then the three stages end, whatever frames
    -- and answers follow, with a book that is not synced and the one before, and publish nothing.
    pub dropped_stuck :
        (s : PipelineBook) (frame next : Bytes) (e f : DepthEvent) (frames : List (Bytes × Bool))
        → s.synced ≡ true
        → parse frame ≡ some e
        → parse next ≡ some f
        → e.prev_final_update_id ≡ s.last_u
        → f.prev_final_update_id ≡ e.final_update_id
        → e.final_update_id ≢ e.prev_final_update_id
        → ((run_stages s ((frame, false) ∷ (next, true) ∷ frames)).0.synced ≡ false)
          × ((run_stages s ((frame, false) ∷ (next, true) ∷ frames)).0.book ≡ s.book)
          × ((run_stages s ((frame, false) ∷ (next, true) ∷ frames)).1 ≡ [])
    unfolding run_stages network_stage on_frame parse_loop
    dropped_stuck s frame next e f frames h p q a b n = rw q (
        gap_stuck s f (reply f) (signals_of (parse_loop (network_stage frames))) h
          (λ c. n (sym b ∙ c ∙ sym a)))
