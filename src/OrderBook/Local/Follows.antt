-- ===== src/OrderBook/Local/Follows.antt =====
-- What a local book holds when it has synced.
use binapi.Prelude.{
  ℕ, ◌≡◌, ◌∙◌, refl, sym, ap, true, false, List, [], ◌∷◌, ◌++◌, Option, some, arith,
}
use binapi.OrderBook.{DepthEvent, OrderBookResponse}
use binapi.OrderBook.Levels.{Book, apply_event, load_snapshot}
use binapi.OrderBook.Sync.{erase_stale, brackets, initialize}
use binapi.OrderBook.Sync.Replay.{apply_all, apply_all-append, events_after, initialize_book}
use binapi.OrderBook.Local.{LocalBook, Signal, received, failed, step, run}

-- The stream has no gap: each event names the id before it, and no read fails.
abbrev pub NoGap : ℕ → List Signal → Type 0
NoGap u [] = Unit {0}
NoGap u (received e r ∷ signals) = (e.prev_final_update_id ≡ u) × NoGap e.final_update_id signals
NoGap u (failed err ∷ signals) = ⊥

abbrev pub events_of : List Signal → List DepthEvent
events_of [] = []
events_of (received e r ∷ signals) = e ∷ events_of signals
events_of (failed err ∷ signals) = events_of signals

-- The book after each event.
abbrev pub books_after : Book → List DepthEvent → List Book
books_after b [] = []
books_after b (e ∷ es) = apply_event e b ∷ books_after (apply_event e b) es

step_live :
    (s : LocalBook) (e : DepthEvent) (r : Option OrderBookResponse)
    → s.synced ≡ true
    → e.prev_final_update_id ≡ s.last_u
    → step s e r ≡ (
      record s { book = apply_event e s.book; last_u = e.final_update_id },
      some (apply_event e s.book),
    )
unfolding step
step_live s e r h p = ground arith

-- A synced local book that sees neither a gap nor a failed read stays synced, ends with all events
-- applied in order to its book, and publishes the book after each event.
pub run_live :
    (s : LocalBook) (signals : List Signal)
    → s.synced ≡ true
    → NoGap s.last_u signals
    → ((run s signals).0.synced ≡ true)
      × ((run s signals).0.book ≡ apply_all (events_of signals) s.book)
      × ((run s signals).1 ≡ books_after s.book (events_of signals))
unfolding run
run_live s [] h g = (h, refl, refl)
run_live s (failed err ∷ signals) h g = absurd g
run_live s (received e r ∷ signals) h g =
    let b = apply_event e s.book in
    let rest = run_live (record s { book = b; last_u = e.final_update_id }) signals h g.1 in
    rw (step_live s e r h g.0) (rest.0, rest.1, ap (b ∷◌) rest.2)

step_sync :
    (s : LocalBook) (e : DepthEvent) (snap : OrderBookResponse)
    → s.synced ≡ false
    → s.events_until_snap ≡ 0
    → brackets snap.last_update_id (erase_stale snap.last_update_id (s.buffer ++ e ∷ [])) ≡ true
    → step s e (some snap) ≡ (
        let r = initialize snap (erase_stale snap.last_update_id (s.buffer ++ e ∷ [])) in
        (record s { book = r.book; last_u = r.last_u; buffer = []; synced = true }, some r.book))
unfolding step
step_sync s e snap h w b = ground arith

-- A local book that is not synced and does not wait, gets an event and a snapshot that the
-- buffered events bracket, and then events without a gap and without a failed read, is synced in
-- the end; its book is the snapshot with all buffered events that end behind its id, and then the
-- later events, applied in order.
pub run_sync :
    (s : LocalBook) (e : DepthEvent) (snap : OrderBookResponse) (signals : List Signal)
    → s.synced ≡ false
    → s.events_until_snap ≡ 0
    → brackets snap.last_update_id (erase_stale snap.last_update_id (s.buffer ++ e ∷ [])) ≡ true
    → NoGap (initialize snap (erase_stale snap.last_update_id (s.buffer ++ e ∷ []))).last_u signals
    → ((run s (received e (some snap) ∷ signals)).0.synced ≡ true)
      × ((run s (received e (some snap) ∷ signals)).0.book
          ≡ apply_all
              (events_after snap.last_update_id (s.buffer ++ e ∷ []) ++ events_of signals)
              (load_snapshot snap))
unfolding run
run_sync s e snap signals h w b g =
    let es = s.buffer ++ e ∷ [] in
    let r = initialize snap (erase_stale snap.last_update_id es) in
    let rest =
      run_live (record s { book = r.book; last_u = r.last_u; buffer = []; synced = true }) signals
        refl g in
    rw (step_sync s e snap h w b) (
      rest.0,
      rest.1
          ∙ ap (apply_all (events_of signals)) (initialize_book snap es)
          ∙ sym (
              apply_all-append (events_after snap.last_update_id es) (events_of signals)
                (load_snapshot snap)),
    )
