-- ===== src/Fapi/StreamBuffer/Invariant.antt =====
-- The moves of a thread-safe stream buffer keep what holds at each point of its forwarder.
use binapi.Prelude.{
  ℕ, zero, suc, ◌+◌, ◌<◌, ◌≡◌, ◌∙◌, ◌⊎◌, inl, inr, refl, sym, ap, true, false, List, [], ◌∷◌, ◌++◌,
  append_assoc, arith, Bool-cases, subst,
}
use binapi.Fapi.StreamBuffer.{
  Phase, not_called, waiting, draining, checking, final_drain, done, writing, final_writing, Buffer,
  is_suspended, forward_from, pop, final_pop, cancel, run_one,
}

-- The value that the forwarder has popped and not written yet.
abbrev pub held : {A : Type 0} → Phase A → List A
held not_called = []
held waiting = []
held draining = []
held checking = []
held final_drain = []
held done = []
held (writing v) = v ∷ []
held (final_writing v) = v ∷ []

-- A handler that wakes the forwarder is posted, or the producer is about to post one.
abbrev pub IsWoken : {A : Type 0} → Buffer A → Type 0
IsWoken s = (0 < s.posted) ⊎ (s.is_waking ≡ true)

-- What holds at each point of the forwarder, once it has been called.
abbrev pub IsSound : {A : Type 0} → Buffer A → Phase A → Type 0
IsSound s not_called = ⊥
IsSound s waiting = IsWoken s ⊎ ((s.spsc ≡ []) × (s.closed ≡ false))
IsSound s draining = Unit {0}
IsSound s checking = IsWoken s ⊎ (s.spsc ≡ [])
IsSound s final_drain = s.closed ≡ true
IsSound s done = (s.closed ≡ true) × (s.spsc ≡ [])
IsSound s (writing v) = Unit {0}
IsSound s (final_writing v) = s.closed ≡ true

pub record Invariant {A : Type 0} (s : Buffer A) : Type 0 where
  pub sound : IsSound s s.phase
  pub in_order : s.channel ++ (held s.phase ++ s.spsc) ≡ s.pushed

append_last :
    {A : Type 0} (xs ys zs : List A) (v : A)
    → xs ++ (ys ++ (zs ++ v ∷ [])) ≡ xs ++ (ys ++ zs) ++ v ∷ []
append_last xs ys zs v =
    ap (xs ++◌) (sym (append_assoc ys zs (v ∷ []))) ∙ sym (append_assoc xs (ys ++ zs) (v ∷ []))

push-IsSound :
    {A : Type 0} (s : Buffer A) (p : Phase A) (q r : List A)
    → s.closed ≡ false
    → IsSound s p
    → IsSound (record s { spsc = q; is_waking = true; pushed = r }) p
push-IsSound s not_called q r c h = h
push-IsSound s waiting q r c h = inl (inr refl)
push-IsSound s draining q r c h = tt
push-IsSound s checking q r c h = inl (inr refl)
push-IsSound s final_drain q r c h = h
push-IsSound s done q r c h = absurd (ground (arith, h.0))
push-IsSound s (writing v) q r c h = tt
push-IsSound s (final_writing v) q r c h = h

pub close-IsSound :
    {A : Type 0} (s : Buffer A) (p : Phase A)
    → IsSound s p
    → IsSound (record s { closed = true; is_waking = true }) p
close-IsSound s not_called h = h
close-IsSound s waiting h = inl (inr refl)
close-IsSound s draining h = tt
close-IsSound s checking h = inl (inr refl)
close-IsSound s final_drain h = refl
close-IsSound s done h = (refl, h.1)
close-IsSound s (writing v) h = tt
close-IsSound s (final_writing v) h = refl

pub wake-IsSound :
    {A : Type 0} (s : Buffer A) (p : Phase A)
    → IsSound s p
    → IsSound (record s { is_waking = false; posted = s.posted + 1 }) p
wake-IsSound s not_called h = h
wake-IsSound s waiting h = inl (inl (omega arith))
wake-IsSound s draining h = tt
wake-IsSound s checking h = inl (inl (omega arith))
wake-IsSound s final_drain h = h
wake-IsSound s done h = h
wake-IsSound s (writing v) h = tt
wake-IsSound s (final_writing v) h = h

pub pushed-Invariant :
    {A : Type 0} (s : Buffer A) (v : A)
    → s.closed ≡ false
    → Invariant s
    → Invariant
        (record s { spsc = s.spsc ++ v ∷ []; is_waking = true; pushed = s.pushed ++ v ∷ [] })
pushed-Invariant s v c h = record {
  sound = push-IsSound s s.phase (s.spsc ++ v ∷ []) (s.pushed ++ v ∷ []) c h.sound;
  in_order = append_last s.channel (held s.phase) s.spsc v ∙ ap (λ xs. xs ++ v ∷ []) h.in_order;
}

cancel-Invariant :
    {A : Type 0} (s : Buffer A) (n : ℕ) (p : Phase A)
    → is_suspended p ≡ true
    → IsSound s p
    → IsSound (record s { posted = n; phase = cancel p }) (cancel p) × (held (cancel p) ≡ held p)
cancel-Invariant s n not_called e h = (h, refl)
cancel-Invariant s n waiting e h = (tt, refl)
cancel-Invariant s n draining e h = absurd (ground arith)
cancel-Invariant s n checking e h = absurd (ground arith)
cancel-Invariant s n final_drain e h = absurd (ground arith)
cancel-Invariant s n done e h = (h, refl)
cancel-Invariant s n (writing v) e h = (tt, refl)
cancel-Invariant s n (final_writing v) e h = (h, refl)

pub run_one-Invariant :
    {A : Type 0} (s : Buffer A) (n : ℕ)
    → is_suspended s.phase ≡ true
    → Invariant s
    → Invariant (run_one s n)
run_one-Invariant s zero e h = h
run_one-Invariant s (suc n) e h =
    let c = cancel-Invariant s n s.phase e h.sound in
    record { sound = c.0; in_order = ap (λ xs. s.channel ++ (xs ++ s.spsc)) c.1 ∙ h.in_order }

pop-Invariant :
    {A : Type 0} (s : Buffer A) (q : List A)
    → s.spsc ≡ q
    → s.channel ++ q ≡ s.pushed
    → Invariant (pop s q)
pop-Invariant s [] e o = record { sound = inr e; in_order = ap (s.channel ++◌) e ∙ o }
pop-Invariant s (v ∷ q) e o = record { sound = tt; in_order = o }

final_pop-Invariant :
    {A : Type 0} (s : Buffer A) (q : List A)
    → s.spsc ≡ q
    → s.closed ≡ true
    → s.channel ++ q ≡ s.pushed
    → Invariant (final_pop s q)
final_pop-Invariant s [] e c o = record { sound = (c, e); in_order = ap (s.channel ++◌) e ∙ o }
final_pop-Invariant s (v ∷ q) e c o = record { sound = c; in_order = o }

-- The forwarder's move at each point.
pub forward_from-Invariant :
    {A : Type 0} (s : Buffer A) (p : Phase A)
    → s.phase ≡ p
    → IsSound s p
    → s.channel ++ (held p ++ s.spsc) ≡ s.pushed
    → Invariant (forward_from s p)
forward_from-Invariant s not_called e h o = absurd h
forward_from-Invariant s waiting e h o = record {
  sound = subst (IsSound s) (sym e) h;
  in_order = ap (λ p. s.channel ++ (held p ++ s.spsc)) e ∙ o;
}
forward_from-Invariant s draining e h o = pop-Invariant s s.spsc refl o
forward_from-Invariant s checking e h o = elim (Bool-cases s.closed) [
  | inl closed ↦ rw closed (record { sound = refl; in_order = o })
  | inr open_ ↦ rw open_ (record { sound = ground (arith, h); in_order = o })
]
forward_from-Invariant s final_drain e h o = final_pop-Invariant s s.spsc refl h o
forward_from-Invariant s done e h o = record {
  sound = subst (IsSound s) (sym e) h;
  in_order = ap (λ p. s.channel ++ (held p ++ s.spsc)) e ∙ o;
}
forward_from-Invariant s (writing v) e h o = record {
  sound = tt;
  in_order = append_assoc s.channel (v ∷ []) s.spsc ∙ o;
}
forward_from-Invariant s (final_writing v) e h o = record {
  sound = h;
  in_order = append_assoc s.channel (v ∷ []) s.spsc ∙ o;
}
