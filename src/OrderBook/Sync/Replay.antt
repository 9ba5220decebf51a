-- ===== src/OrderBook/Sync/Replay.antt =====
-- The book that is built from a snapshot and buffered events.
use binapi.Prelude.{
  ℕ, ◌≡◌, ◌≤◌, ◌<◌, refl, List, [], ◌∷◌, ◌++◌, ltb, if◌then◌else◌, arith, Bool-cases, inl, inr,
}
use binapi.OrderBook.{DepthEvent, OrderBookResponse}
use binapi.OrderBook.Levels.{Book, apply_event, load_snapshot}
use binapi.OrderBook.Levels.Laws.{BookIsValid, apply_event-BookIsValid}
use binapi.OrderBook.Sync.{erase_stale, Synced, replay, initialize}

abbrev pub apply_all : List DepthEvent → Book → Book
apply_all [] b = b
apply_all (e ∷ es) b = apply_all es (apply_event e b)

pub apply_all-append :
    (es fs : List DepthEvent) (b : Book) → apply_all (es ++ fs) b ≡ apply_all fs (apply_all es b)
apply_all-append [] fs b = refl
apply_all-append (e ∷ es) fs b = apply_all-append es fs (apply_event e b)

pub apply_all-BookIsValid :
    (es : List DepthEvent) (b : Book) → BookIsValid b → BookIsValid (apply_all es b)
apply_all-BookIsValid [] b v = v
apply_all-BookIsValid (e ∷ es) b v =
    apply_all-BookIsValid es (apply_event e b) (apply_event-BookIsValid e b v)

-- The events that end behind an update id.
abbrev pub events_after : ℕ → List DepthEvent → List DepthEvent
events_after u [] = []
events_after u (e ∷ es) =
    if ltb u e.final_update_id then e ∷ events_after u es else events_after u es

replay-erase_stale :
    (u : ℕ) (es : List DepthEvent) (s : Synced)
    → (replay u (erase_stale u es) s).book ≡ apply_all (events_after u es) s.book
unfolding replay erase_stale
replay-erase_stale u [] s = refl
replay-erase_stale u (e ∷ es) s = ground (
  arith,
  replay-erase_stale u es s,
  replay-erase_stale u es (record s { last_u = e.final_update_id }),
  replay-erase_stale u es (record { book = apply_event e s.book; last_u = e.final_update_id }),
)

-- Dropping stale events and replaying the rest over a snapshot gives the snapshot with all events
-- that end behind its id applied, in the order of arrival.
pub initialize_book :
    (snap : OrderBookResponse) (es : List DepthEvent)
    → (initialize snap (erase_stale snap.last_update_id es)).book
      ≡ apply_all (events_after snap.last_update_id es) (load_snapshot snap)
unfolding initialize
initialize_book snap es = replay-erase_stale snap.last_update_id es _

apply_event_id : (e : DepthEvent) (b : Book) → (apply_event e b).last_update_id ≡ e.final_update_id
unfolding apply_event
apply_event_id e b = refl

-- Final update ids do not fall, from `n` on.
abbrev pub Rising : ℕ → List DepthEvent → Type 0
Rising n [] = Unit {0}
Rising n (e ∷ es) = (n ≤ e.final_update_id) × Rising e.final_update_id es

-- The book's id is `last_u`, not before the snapshot; once behind it, the events go on from there.
record InStep (u n : ℕ) (s : Synced) : Type 0 where
  same_id : s.last_u ≡ s.book.last_update_id
  not_before : u ≤ s.last_u
  reached : n ≤ s.last_u
  goes_on : u < s.last_u → n ≡ s.last_u

replay_id :
    (u n : ℕ) (es : List DepthEvent) (s : Synced)
    → InStep u n s
    → Rising n es
    → (replay u (erase_stale u es) s).last_u ≡ (replay u (erase_stale u es) s).book.last_update_id
unfolding replay erase_stale
replay_id u n [] s h r = h.same_id
replay_id u n (e ∷ es) s h r = elim (Bool-cases (ltb e.final_update_id u)) [
  | inl stale ↦ rw stale (replay_id u e.final_update_id es s (ground arith) r.1)
  | inr kept ↦
      rw kept (replay_id u e.final_update_id es _ (ground (arith, apply_event_id e s.book)) r.1)
]

starts :
    (snap : OrderBookResponse)
    → InStep snap.last_update_id 0
        (record { book = load_snapshot snap; last_u = snap.last_update_id })
unfolding load_snapshot
starts snap = record {
  same_id = refl;
  not_before = omega arith;
  reached = omega arith;
  goes_on = λ h. absurd (omega arith);
}

-- If the final ids of the buffered events do not fall, the last id that the replay gives is the id
-- of the book that it gives.
pub initialize_id :
    (snap : OrderBookResponse) (es : List DepthEvent)
    → Rising 0 es
    → (initialize snap (erase_stale snap.last_update_id es)).last_u
      ≡ (initialize snap (erase_stale snap.last_update_id es)).book.last_update_id
unfolding initialize
initialize_id snap es r = replay_id snap.last_update_id 0 es _ (starts snap) r
