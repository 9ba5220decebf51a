-- ===== src/OrderBook/Local/Backoff.antt =====
-- How long the local book waits between two snapshots.
use binapi.Prelude.{
  ℕ, zero, suc, ◌≤◌, ◌≡◌, ◌⊎◌, inr, refl, true, false, List, [], ◌∷◌, Option, none, some, arith,
  length,
}
use binapi.OrderBook.{DepthEvent, OrderBookResponse}
use binapi.OrderBook.Local.{LocalBook, start, step, asks_snapshot, Signal, received, failed, run}

-- The wait never passes two events, and a synced book has none.
record WaitsLittle (s : LocalBook) : Type 0 where
  pub at_most_two : s.events_until_snap ≤ 2
  pub synced_none : (s.synced ≡ false) ⊎ (s.events_until_snap ≡ 0)

step-WaitsLittle :
    (s : LocalBook) (e : DepthEvent) (r : Option OrderBookResponse)
    → WaitsLittle s
    → WaitsLittle (step s e r).0
unfolding step
step-WaitsLittle s e none w = record { at_most_two = ground arith; synced_none = ground arith }
step-WaitsLittle s e (some snap) w = record {
  at_most_two = ground arith;
  synced_none = ground arith;
}

run-WaitsLittle :
    (s : LocalBook) (signals : List Signal) → WaitsLittle s → WaitsLittle (run s signals).0
unfolding run
run-WaitsLittle s [] w = w
run-WaitsLittle s (failed err ∷ signals) w = w
run-WaitsLittle s (received e r ∷ signals) w =
    run-WaitsLittle (step s e r).0 signals (step-WaitsLittle s e r w)

-- At the end of every run from the start, the number of events to wait for before the next
-- snapshot is at most two.
pub run-start_wait : (signals : List Signal) → (run start signals).0.events_until_snap ≤ 2
unfolding start
run-start_wait signals =
    (run-WaitsLittle start signals
      (record { at_most_two = omega arith; synced_none = inr refl })).at_most_two

-- All the signals are events.
abbrev pub AllReceived : List Signal → Type 0
AllReceived [] = Unit {0}
AllReceived (received e r ∷ signals) = AllReceived signals
AllReceived (failed err ∷ signals) = ⊥

-- While it waits, the book does nothing but count.
step_waiting :
    (k : ℕ) (s : LocalBook) (e : DepthEvent) (r : Option OrderBookResponse)
    → s.synced ≡ false
    → s.events_until_snap ≡ suc k
    → ((step s e r).0.synced ≡ false) × ((step s e r).0.events_until_snap ≡ k)
unfolding step
step_waiting k s e none h w = ground arith
step_waiting k s e (some snap) h w = ground arith

-- A local book that is not synced and waits for k events asks for a snapshot in the round after k
-- events, whatever these are.
asks_after_wait :
    (k : ℕ) (s : LocalBook) (signals : List Signal)
    → s.synced ≡ false
    → s.events_until_snap ≡ k
    → length signals ≡ k
    → AllReceived signals
    → asks_snapshot (run s signals).0 ≡ true
unfolding run asks_snapshot
asks_after_wait zero s [] h e l a = ground arith
asks_after_wait zero s (g ∷ signals) h e l a = absurd (omega arith)
asks_after_wait (suc k) s [] h e l a = absurd (omega arith)
asks_after_wait (suc k) s (failed err ∷ signals) h e l a = absurd a
asks_after_wait (suc k) s (received ev r ∷ signals) h e l a =
    let w = step_waiting k s ev r h e in
    asks_after_wait k (step s ev r).0 signals w.0 w.1 (omega arith) a
