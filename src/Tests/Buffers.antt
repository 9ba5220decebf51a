-- ===== src/Tests/Buffers.antt =====
-- The theorems on the thread-safe stream buffer along concrete moves.
use binapi.Prelude.{ℕ, ◌≡◌, refl, Bool, List, [], ◌∷◌, ltb, length}
use binapi.Fapi.StreamBuffer.{
  Buffer, forward, run_posted, close, wake, constructed, push, Reachable,
}
use binapi.Fapi.StreamBuffer.Delivery.{pushed_first, IsStuck, early_wake_lost}

abbrev room : List ℕ → Bool
room q = ltb (length q) 2

abbrev called : Buffer ℕ
called = forward constructed

-- One value pushed, and its wake not posted yet.
abbrev one_pushed : Buffer ℕ
one_pushed = (push room 7 called).0

one_asleep : (one_pushed.posted ≡ 0) × (one_pushed.spsc ≡ 7 ∷ [])
unfolding forward constructed push
one_asleep = (refl, refl)

-- Closed, woken, and through both drains.
abbrev closed_ : Buffer ℕ
closed_ = wake (close called)

abbrev woken : Buffer ℕ
woken = run_posted closed_

abbrev ended : Buffer ℕ
ended = forward (forward (forward woken))

abbrev lost : Buffer ℕ
lost = forward (run_posted (pushed_first room 7))

early_wake_lost_example : Reachable room constructed lost × IsStuck 7 lost
early_wake_lost_example = early_wake_lost room 7 lost refl refl
