-- ===== src/Fapi/StreamBuffer.antt =====
-- include/binapi2/fapi/detail/threadsafe_stream_buffer.hpp: the bridge from the producer's thread to
-- the executor of the channel, as moves of a state that interleave.
-- Of the libraries that the code calls only this is assumed: the queue keeps the order of its values
-- and is full when the parameter `has_room` says so; the channel takes each value in the end;
-- `cancel` ends a wait that is pending and does nothing where none is; a posted handler runs where
-- the executor runs no other code, that is while the forwarder is suspended. `push` and `close` are
-- calls of one thread, the producer's; each is two moves, what comes before `wake`, and `wake`.
pub mod Invariant
pub mod Delivery
use binapi.Prelude.{
  ℕ, zero, suc, ◌+◌, ◌≡◌, Bool, true, false, ◌&&◌, not, List, [], ◌∷◌, ◌++◌, if◌then◌else◌,
}

-- Where `async_forward` stands: before its call, at `async_wait`, at the first `pop`, at the write of
-- a value that it popped, at the test of `closed_`, at the final drain and its write, at its end.
pub data Phase (A : Type 0) : Type 0 where
  not_called waiting draining checking final_drain done : Phase A
  writing : A → Phase A
  final_writing : A → Phase A

-- `is_waking` is set while the producer stands at its call of `wake`, and `posted` counts the handlers
-- that were posted and have not run. `channel` is what was
-- written to the channel, and `pushed` all values for which `push` returned true.
pub record Buffer (A : Type 0) : Type 0 where
  pub spsc : List A
  pub closed : Bool
  pub is_waking : Bool
  pub posted : ℕ
  pub phase : Phase A
  pub channel : List A
  pub is_open : Bool
  pub pushed : List A

abbrev pub is_suspended : {A : Type 0} → Phase A → Bool
is_suspended not_called = true
is_suspended waiting = true
is_suspended draining = false
is_suspended checking = false
is_suspended final_drain = false
is_suspended done = true
is_suspended (writing v) = true
is_suspended (final_writing v) = true

-- `pop` in the first drain and in the final one.
abbrev pub pop : {A : Type 0} → Buffer A → List A → Buffer A
pop s [] = record s { phase = checking }
pop s (item ∷ rest) = record s { spsc = rest; phase = writing item }

abbrev pub final_pop : {A : Type 0} → Buffer A → List A → Buffer A
final_pop s [] = record s { phase = done; is_open = false }
final_pop s (item ∷ rest) = record s { spsc = rest; phase = final_writing item }

-- One move of `async_forward`, if it is not suspended at the wait.
abbrev pub forward_from : {A : Type 0} → Buffer A → Phase A → Buffer A
forward_from s not_called = record s { phase = waiting }
forward_from s waiting = s
forward_from s draining = pop s s.spsc
forward_from s checking =
    if s.closed then record s { phase = final_drain } else record s { phase = waiting }
forward_from s final_drain = final_pop s s.spsc
forward_from s done = s
forward_from s (writing v) = record s { channel = s.channel ++ v ∷ []; phase = draining }
forward_from s (final_writing v) = record s { channel = s.channel ++ v ∷ []; phase = final_drain }

unfoldable pub forward : {A : Type 0} → Buffer A → Buffer A
forward s = forward_from s s.phase

-- A posted handler: `notify_.cancel()`.
abbrev pub cancel : {A : Type 0} → Phase A → Phase A
cancel not_called = not_called
cancel waiting = draining
cancel draining = draining
cancel checking = checking
cancel final_drain = final_drain
cancel done = done
cancel (writing v) = writing v
cancel (final_writing v) = final_writing v

abbrev pub run_one : {A : Type 0} → Buffer A → ℕ → Buffer A
run_one s zero = s
run_one s (suc n) = record s { posted = n; phase = cancel s.phase }

unfoldable pub run_posted : {A : Type 0} → Buffer A → Buffer A
run_posted s = run_one s s.posted

-- `close`, up to its call of `wake`.
unfoldable pub close : {A : Type 0} → Buffer A → Buffer A
close s = record s { closed = true; is_waking = true }

unfoldable pub wake : {A : Type 0} → Buffer A → Buffer A
wake s = record s { is_waking = false; posted = s.posted + 1 }

-- A buffer as constructed, and when `async_forward` has come to its first wait.
unfoldable pub constructed : {A : Type 0} → Buffer A
constructed = record {
  spsc = [];
  closed = false;
  is_waking = false;
  posted = 0;
  phase = not_called;
  channel = [];
  is_open = true;
  pushed = [];
}

module _ {A : Type 0} (has_room : List A → Bool) where
  -- `push`, up to its call of `wake` where there is one. The second result is what it returns.
  unfoldable pub push : A → Buffer A → Buffer A × Bool
  push value s =
      if not s.closed && has_room s.spsc
      then (
        record s { spsc = s.spsc ++ value ∷ []; is_waking = true; pushed = s.pushed ++ value ∷ [] },
        true,
      )
      else (s, false)

  -- One move of the producer, the executor or the forwarder.
  pub data Step : Buffer A → Buffer A → Type 0 where
    pushes : (value : A) (s : Buffer A) → s.is_waking ≡ false → Step s (push value s).0
    closes : (s : Buffer A) → s.is_waking ≡ false → Step s (close s)
    wakes : (s : Buffer A) → s.is_waking ≡ true → Step s (wake s)
    posts : (s : Buffer A) → is_suspended s.phase ≡ true → Step s (run_posted s)
    forwards : (s : Buffer A) → Step s (forward s)

  -- The states that any interleaving of moves reaches.
  pub data Reachable (start : Buffer A) : Buffer A → Type 0 where
    at_start : Reachable start start
    after : (s t : Buffer A) → Reachable start s → Step s t → Reachable start t
