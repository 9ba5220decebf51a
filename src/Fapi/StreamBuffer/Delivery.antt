-- ===== src/Fapi/StreamBuffer/Delivery.antt =====
-- What a thread-safe stream buffer delivers, and that its forwarder is woken.
use binapi.Prelude.{
  ℕ, zero, suc, ◌≡◌, ◌∙◌, inl, inr, refl, sym, ap, Bool, true, false, ◌&&◌, not, List, [], ◌∷◌,
  ◌++◌, append_assoc, append-nil, arith, Bool-cases, subst,
}
use binapi.Fapi.StreamBuffer.{
  not_called, waiting, draining, Buffer, forward, run_posted, close, wake, constructed, push, Step,
  pushes, closes, wakes, posts, forwards, Reachable, at_start, after,
}
use binapi.Fapi.StreamBuffer.Invariant.{
  held, Invariant, pushed-Invariant, close-IsSound, wake-IsSound, run_one-Invariant,
  forward_from-Invariant,
}

module _ {A : Type 0} (has_room : List A → Bool) where
  Step-Invariant : {s t : Buffer A} → Step has_room s t → Invariant s → Invariant t
  unfolding push close wake run_posted forward
  Step-Invariant (pushes v s w) h = elim (Bool-cases (not s.closed && has_room s.spsc)) [
    | inl taken ↦ rw taken (pushed-Invariant s v (ground (arith, taken)) h)
    | inr refused ↦ rw refused h
  ]
  Step-Invariant (closes s w) h = record {
    sound = close-IsSound s s.phase h.sound;
    in_order = h.in_order;
  }
  Step-Invariant (wakes s w) h = record {
    sound = wake-IsSound s s.phase h.sound;
    in_order = h.in_order;
  }
  Step-Invariant (posts s e) h = run_one-Invariant s s.posted e h
  Step-Invariant (forwards s) h = forward_from-Invariant s s.phase refl h.sound h.in_order

  called-Invariant : Invariant {A = A} (forward constructed)
  unfolding forward constructed
  called-Invariant = record { sound = inr (refl, refl); in_order = refl }

  Reachable-Invariant : {s : Buffer A} → Reachable has_room (forward constructed) s → Invariant s
  Reachable-Invariant at_start = called-Invariant
  Reachable-Invariant (after s t r step) = Step-Invariant step (Reachable-Invariant r)

  -- In every state that any interleaving reaches from the first wait of the forwarder, what the
  -- channel was given, then the value that the forwarder holds, then the queue, are all values
  -- whose push returned true, in that order.
  pub delivered :
      {s : Buffer A}
      → Reachable has_room (forward constructed) s
      → s.channel ++ (held s.phase ++ s.spsc) ≡ s.pushed
  delivered r = (Reachable-Invariant r).in_order

-- `n` moves of the forwarder.
abbrev pub moves : {A : Type 0} → ℕ → Buffer A → Buffer A
moves zero s = s
moves (suc n) s = moves n (forward s)

-- Two moves for each value: `pop` and `write`.
abbrev pub moves_for : {A : Type 0} → List A → ℕ
moves_for [] = 0
moves_for (v ∷ q) = suc (suc (moves_for q))

drains :
    {A : Type 0} (q : List A) (s : Buffer A)
    → moves (moves_for q) (record s { spsc = q; phase = draining })
      ≡ record s { spsc = []; channel = s.channel ++ q; phase = draining }
unfolding forward
drains [] s =
    ap (λ xs. record s { spsc = []; channel = xs; phase = draining }) (sym (append-nil s.channel))
drains (v ∷ q) s =
    drains q (record s { channel = s.channel ++ v ∷ [] })
    ∙ ap (λ xs. record s { spsc = []; channel = xs; phase = draining })
        (append_assoc s.channel (v ∷ []) q)

wakes_up :
    {A : Type 0} (s : Buffer A) (n : ℕ)
    → s.phase ≡ waiting
    → s.posted ≡ suc n
    → run_posted s ≡ record s { posted = n; phase = draining }
unfolding run_posted
wakes_up s n w p = rw (p, w) refl

-- If the forwarder waits and a handler is posted, then after the handler and two moves of the
-- forwarder for each value of the queue, the channel was given the whole queue in its order, and
-- the queue is empty.
pub woken_delivers :
    {A : Type 0} (s : Buffer A) (n : ℕ)
    → s.phase ≡ waiting
    → s.posted ≡ suc n
    → ((moves (moves_for s.spsc) (run_posted s)).channel ≡ s.channel ++ s.spsc)
      × ((moves (moves_for s.spsc) (run_posted s)).spsc ≡ [])
woken_delivers s n w p =
    let e =
      ap (moves (moves_for s.spsc)) (wakes_up s n w p) ∙ drains s.spsc (record s { posted = n }) in
    (ap (λ (t : Buffer _). t.channel) e, ap (λ (t : Buffer _). t.spsc) e)

-- Waiting with `v` in the queue, nothing posted.
abbrev asleep : {A : Type 0} → A → Buffer A
asleep v = record {
  spsc = v ∷ [];
  closed = false;
  is_waking = false;
  posted = 0;
  phase = waiting;
  channel = [];
  is_open = true;
  pushed = v ∷ [];
}

-- Pushed, and the wake posted, before the forwarder is called.
abbrev pub pushed_first : {A : Type 0} → (List A → Bool) → A → Buffer A
pushed_first has_room v = wake (push has_room v constructed).0

first_push :
    {A : Type 0} (has_room : List A → Bool) (v : A)
    → has_room [] ≡ true
    → (push has_room v constructed).0 ≡ record (asleep v) { is_waking = true; phase = not_called }
unfolding push constructed
first_push has_room v room = rw room refl

posted_first :
    {A : Type 0} (has_room : List A → Bool) (v : A)
    → has_room [] ≡ true
    → pushed_first has_room v ≡ record (asleep v) { posted = 1; phase = not_called }
unfolding wake
posted_first has_room v room = ap wake (first_push has_room v room)

falls_asleep :
    {A : Type 0} (v : A)
    → forward (run_posted (record (asleep v) { posted = 1; phase = not_called })) ≡ asleep v
unfolding forward run_posted
falls_asleep v = refl

-- Nothing moves but the producer, if it pushes again or closes.
abbrev pub IsStuck : {A : Type 0} → A → Buffer A → Type 0
IsStuck v s =
    (s.phase ≡ waiting)
    × (s.spsc ≡ v ∷ [])
    × (s.is_waking ≡ false)
    × (forward s ≡ s)
    × (run_posted s ≡ s)

stays_asleep : {A : Type 0} (v : A) → IsStuck v (asleep v)
unfolding forward run_posted
stays_asleep v = (refl, refl, refl, refl, refl)

starts_idle : (A : Type 0) → (constructed {A = A}).is_waking ≡ false
unfolding constructed
starts_idle A = refl

-- If the queue has room, and a value is pushed and its handler runs before the forwarder is
-- called, then the state at the first wait, which is reached from the constructed buffer, has the
-- value in the queue, the producer is not about to post a handler, and neither the forwarder nor
-- the executor has a move that changes the state.
pub early_wake_lost :
    {A : Type 0} (has_room : List A → Bool) (v : A) (s : Buffer A)
    → has_room [] ≡ true
    → forward (run_posted (pushed_first has_room v)) ≡ s
    → Reachable has_room constructed s × IsStuck v s
early_wake_lost has_room v s room e =
    let p = (push has_room v constructed).0 in
    let q = wake p in
    let woken = run_posted q in
    let asleep_v : asleep v ≡ s =
      sym (ap (λ b. forward (run_posted b)) (posted_first has_room v room) ∙ falls_asleep v) ∙ e in
    let pushed_v : Reachable has_room constructed p =
      after constructed p at_start (pushes v constructed (starts_idle _)) in
    let posted_v : Reachable has_room constructed q =
      after p q pushed_v (wakes p (rw (first_push has_room v room) refl)) in
    let reached : Reachable has_room constructed (forward woken) =
      after woken (forward woken)
        (after q woken posted_v (posts q (rw (posted_first has_room v room) refl)))
        (forwards woken) in
    (subst (Reachable has_room constructed) e reached, subst (IsStuck v) asleep_v (stays_asleep v))
