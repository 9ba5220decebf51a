-- ===== src/OrderBook/Local/Invariant.antt =====
-- What holds of the local book after every run.
use binapi.Prelude.{List, [], ◌∷◌, ◌++◌, Option, none, some, arith, subst, sym}
use binapi.OrderBook.{DepthEvent, OrderBookResponse}
use binapi.OrderBook.Levels.{Book, load_snapshot}
use binapi.OrderBook.Levels.Laws.{BookIsValid, apply_event-BookIsValid, load_snapshot-BookIsValid}
use binapi.OrderBook.Sync.{erase_stale, initialize}
use binapi.OrderBook.Sync.Replay.{apply_all-BookIsValid, events_after, initialize_book}
use binapi.OrderBook.Local.{LocalBook, start, step, Signal, received, failed, run, publish}

abbrev pub AllBooks : (Book → Type 0) → List Book → Type 0
AllBooks P [] = Unit {0}
AllBooks P (b ∷ bs) = P b × AllBooks P bs

initialize-BookIsValid :
    (snap : OrderBookResponse) (es : List DepthEvent)
    → BookIsValid (initialize snap (erase_stale snap.last_update_id es)).book
initialize-BookIsValid snap es = subst BookIsValid (sym (initialize_book snap es)) (
    apply_all-BookIsValid (events_after snap.last_update_id es) (load_snapshot snap)
      (load_snapshot-BookIsValid snap))

abbrev Published : Option Book → Type 0
Published none = Unit {0}
Published (some b) = BookIsValid b

step-BookIsValid :
    (s : LocalBook) (e : DepthEvent) (r : Option OrderBookResponse)
    → BookIsValid s.book
    → BookIsValid (step s e r).0.book × Published (step s e r).1
unfolding step
step-BookIsValid s e none v = ground (arith, v, apply_event-BookIsValid e s.book v)
step-BookIsValid s e (some snap) v =
    ground (
      arith,
      v,
      apply_event-BookIsValid e s.book v,
      initialize-BookIsValid snap (s.buffer ++ e ∷ []),
    )

publish-AllBooks :
    (b : Option Book) (bs : List Book)
    → Published b
    → AllBooks BookIsValid bs
    → AllBooks BookIsValid (publish b bs)
publish-AllBooks none bs p h = h
publish-AllBooks (some b) bs p h = (p, h)

run-BookIsValid :
    (s : LocalBook) (signals : List Signal)
    → BookIsValid s.book
    → BookIsValid (run s signals).0.book × AllBooks BookIsValid (run s signals).1
unfolding run
run-BookIsValid s [] v = (v, tt)
run-BookIsValid s (failed err ∷ signals) v = (v, tt)
run-BookIsValid s (received e r ∷ signals) v =
    let one = step-BookIsValid s e r v in
    let rest = run-BookIsValid (step s e r).0 signals one.0 in
    (rest.0, publish-AllBooks (step s e r).1 (run (step s e r).0 signals).1 one.1 rest.1)

-- Whatever the stream and the REST endpoint bring, the local book has, at the end of every run
-- from its start, both sides in the order of their comparison with each price once, and no level
-- with quantity zero; so has every book that the callback was given.
pub run-start-BookIsValid :
    (signals : List Signal)
    → BookIsValid (run start signals).0.book × AllBooks BookIsValid (run start signals).1
unfolding start
run-start-BookIsValid signals =
    run-BookIsValid start signals
      (record { bids_sorted = tt; asks_sorted = tt; bids_quoted = tt; asks_quoted = tt })
