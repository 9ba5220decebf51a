-- ===== src/Recorder/Windows/TrueRange.antt =====
-- The window of true ranges holds the last values that were pushed.
use mathlib.Core.List.{reverse, reverse-append}
use native.Mathlib.Nat.{mod-lt}
use binapi.Prelude.{
  ℕ, zero, suc, ◌+◌, ◌%◌, ◌≤◌, ◌<◌, ◌≡◌, ◌∙◌, refl, sym, ap, inl, inr, List, [], ◌∷◌, ◌++◌, ltb,
  leb, if◌then◌else◌, arith, Bool-cases, length, length-set, length-replicate, append_assoc, set,
  take, take_all, take_front, replicate,
}
use binapi.Recorder.Windows.{TrWindow, tr_window, push, primed}
use binapi.Recorder.Windows.Ring.{
  newest_first, newest_first-set, length-newest_first, length-reverse,
}
use binapi.Recorder.Windows.Ends.{take-take, take-append}

module _ {A : Type 0} where
  take_within : (n : ℕ) (xs ys : List A) → n ≤ length xs → take n (xs ++ ys) ≡ take n xs
  take_within zero xs ys h = refl
  take_within (suc n) [] ys h = absurd (omega arith)
  take_within (suc n) (x ∷ xs) ys h = ap (λ zs. x ∷ zs) (take_within n xs ys (omega arith))

  -- The first of at most `n`, as many as there are.
  take_last :
      (n : ℕ) (xs ys : List A)
      → take (if ltb (length xs) n then length xs else n) (take n (xs ++ ys)) ≡ take n xs
  take_last n xs ys = elim (Bool-cases (ltb (length xs) n)) [
    | inl l ↦ rw l (
        take-take (length xs) n (xs ++ ys) (ground (arith, l))
        ∙ take_front xs ys
        ∙ sym (take_all xs n (ground (arith, l))))
    | inr l ↦
        rw l (take-take n n (xs ++ ys) (omega arith) ∙ take_within n xs ys (ground (arith, l)))
  ]

module _ {D : Type 0} (zero_ : D) (add : D → D → D) where
  abbrev pub push_all : List D → TrWindow D → TrWindow D
  push_all [] w = w
  push_all (tr ∷ values) w = push_all values (push zero_ add tr w)

  push_all_lem :
      (values : List D) (w : TrWindow D)
      → w.head < length w.slots
      → w.count ≤ length w.slots
      → (length (push_all values w).slots ≡ length w.slots)
        × ((push_all values w).count ≡ (
            if ltb (w.count + length values) (length w.slots)
            then w.count + length values
            else length w.slots))
        × (newest_first (push_all values w).head (push_all values w).slots
            ≡ take (length w.slots) (reverse values ++ newest_first w.head w.slots))
  unfolding push
  push_all_lem [] w h c = (
    refl,
    ground arith,
    sym (
        take_all (newest_first w.head w.slots) (length w.slots)
          (omega (arith, length-newest_first w.head w.slots))),
  )
  push_all_lem (tr ∷ values) w h c =
      let n = length w.slots in
      let w' = push zero_ add tr w in
      let same = length-set w.slots w.head tr in
      let ih =
        push_all_lem values w' (omega (arith, same, mod-lt (w.head + 1) {m = n} (omega arith)))
          (ground (arith, same)) in
      (
        ih.0 ∙ same,
        ih.1 ∙ ground (arith, same, c),
        ih.2
            ∙ ap
                (λ m.
                  take m
                    (reverse values ++ newest_first ((w.head + 1) % n) (set w.slots w.head tr)))
                same
            ∙ ap (λ xs. take n (reverse values ++ xs)) (newest_first-set w.head w.slots tr h)
            ∙ take-append n n (reverse values) (tr ∷ newest_first w.head w.slots) (omega arith)
            ∙ ap (take n) (
                sym (
                  ap (λ xs. xs ++ newest_first w.head w.slots) (reverse-append (tr ∷ []) values)
                  ∙ append_assoc (reverse values) (tr ∷ []) (newest_first w.head w.slots))),
      )

  -- A window of n > 0 true ranges is primed exactly if at least n values were pushed, and the
  -- slots it counts, read from the newest backwards, are the last n values pushed, or all of them
  -- if there are fewer.
  pub tr_window_refines :
      (n : ℕ) (values : List D)
      → 0 < n
      → (primed zero_ add (push_all values (tr_window zero_ add n)) ≡ leb n (length values))
        × (take (push_all values (tr_window zero_ add n)).count (
              newest_first
                (push_all values (tr_window zero_ add n)).head
                (push_all values (tr_window zero_ add n)).slots)
            ≡ take n (reverse values))
  unfolding tr_window primed
  tr_window_refines n values h =
      let w = tr_window zero_ add n in
      let size = length-replicate n zero_ in
      let l = push_all_lem values w (omega (arith, size)) (omega arith) in
      let counted : (push_all values w).count
          ≡ (if ltb (length (reverse values)) n then length (reverse values) else n) =
        ground (arith, l.1, size, length-reverse values) in
      (
        ground (arith, l.0, l.1, size),
        ap (λ c. take c (newest_first (push_all values w).head (push_all values w).slots)) counted
            ∙ ap (take (if ltb (length (reverse values)) n then length (reverse values) else n))
                (l.2 ∙ ap (λ m. take m (reverse values ++ newest_first 0 (replicate n zero_))) size)
            ∙ take_last n (reverse values) (newest_first 0 (replicate n zero_)),
      )
