-- ===== src/Recorder/Selector/Active.antt =====
-- The active set of the selector across its ticks.
use binapi.Prelude.{
  ℕ, ◌≤◌, ◌≡◌, ◌∙◌, refl, sym, ap, subst, inl, inr, true, false, ◌||◌, List, [], ◌∷◌, ◌++◌, ltb,
  leb, if◌then◌else◌, length, arith, Bool-cases,
}
use binapi.Prelude.Text.{Bytes, same_text, same_text_eq}
use binapi.Recorder.Selector.{
  Doubles, SelectorConfig, SymbolState, adds, removes, SelectorEvent, Selector, contains, erase,
  insert, put, record_scores, is_evicted, reviewed, review, evict, admit, admissions, floor,
}

contains-erase_self : (s : Bytes) (active : List Bytes) → contains s (erase s active) ≡ false
contains-erase_self s [] = refl
contains-erase_self s (t ∷ active) = ground (arith, contains-erase_self s active)

contains-erase_ne :
    (k s : Bytes) (active : List Bytes)
    → same_text k s ≡ false
    → contains k (erase s active) ≡ contains k active
contains-erase_ne k s [] h = refl
contains-erase_ne k s (t ∷ active) h = elim (Bool-cases (same_text s t)) [
  | inl e ↦
      rw (e, contains-erase_ne k s active h)
        (ground (arith, subst (λ x. same_text k x ≡ false) (same_text_eq s t e) h))
  | inr e ↦ rw (e, contains-erase_ne k s active h) refl
]

length-erase : (s : Bytes) (active : List Bytes) → length (erase s active) ≤ length active
length-erase s [] = omega arith
length-erase s (t ∷ active) = ground (arith, length-erase s active)

pub contains-insert :
    (k s : Bytes) (active : List Bytes)
    → contains k (insert s active) ≡ (same_text k s || contains k active)
contains-insert k s active = elim (Bool-cases (contains s active)) [
  | inl c ↦ rw c (elim (Bool-cases (same_text k s)) [
    | inl e ↦ rw e (subst (λ x. contains x active ≡ true) (sym (same_text_eq k s e)) c)
    | inr e ↦ rw e refl
  ])
  | inr c ↦ rw c refl
]

module _ {D : Type 0} where
  -- What the events of a tick say of the set.
  abbrev pub replay : List (SelectorEvent D) → List Bytes → List Bytes
  replay [] active = active
  replay (e ∷ diffs) active =
      replay diffs (elim e.action [ adds ↦ e.symbol ∷ active | removes ↦ erase e.symbol active ])

  replay-append :
      (xs ys : List (SelectorEvent D)) (active : List Bytes)
      → replay (xs ++ ys) active ≡ replay ys (replay xs active)
  replay-append [] ys active = refl
  replay-append (e ∷ xs) ys active =
      replay-append xs ys
        (elim e.action [ adds ↦ e.symbol ∷ active | removes ↦ erase e.symbol active ])

  put-active :
      (k key : Bytes) (st : SymbolState D) (state : Bytes → SymbolState D)
      → st.active ≡ (state key).active
      → (put key st state k).active ≡ (state k).active
  put-active k key st state h = elim (Bool-cases (same_text k key)) [
    | inl e ↦ rw e (h ∙ ap (λ x. (state x).active) (sym (same_text_eq k key e)))
    | inr e ↦ rw e refl
  ]

module _ {D : Type 0} (dd : Doubles D) (cfg : SelectorConfig D) where
  -- The state knows which symbols are active, the mandatory ones are, and the events so far lead here
  -- from the set at the start of the tick.
  pub record Sound (start : List Bytes) (s : Selector D) : Type 0 where
    pub tracked : (sym : Bytes) → (s.state sym).active ≡ contains sym s.active
    pub keeps_mandatory :
        (sym : Bytes) → contains sym cfg.mandatory ≡ true → contains sym s.active ≡ true
    pub accounted : replay s.diffs start ≡ s.active

  pub record_scores-Sound :
      (start : List Bytes) (scored : List (Bytes × D)) (s : Selector D)
      → Sound start s
      → Sound start (record_scores dd cfg scored s)
  unfolding record_scores
  record_scores-Sound start [] s h = h
  record_scores-Sound start (a ∷ scored) s h = record_scores-Sound start scored _ (record {
    tracked = λ k.
        put-active k a.0 (record (s.state a.0) { last_score = a.1 }) s.state refl ∙ h.tracked k;
    keeps_mandatory = h.keeps_mandatory;
    accounted = h.accounted;
  })

  reviewed-active :
      (now : ℕ) (key : Bytes) (st : SymbolState D) → (reviewed dd cfg now key st).active ≡ st.active
  reviewed-active now key st = ground arith

  pub review-active :
      (now : ℕ) (active : List Bytes) (state : Bytes → SymbolState D) (k : Bytes)
      → ((review dd cfg now active state).1 k).active ≡ (state k).active
  unfolding review
  review-active now [] state k = refl
  review-active now (key ∷ active) state k =
      review-active now active (put key (reviewed dd cfg now key (state key)) state) k
      ∙ put-active k key (reviewed dd cfg now key (state key)) state
          (reviewed-active now key (state key))

  not_evicted :
      (now : ℕ) (key : Bytes) (st : SymbolState D)
      → contains key cfg.mandatory ≡ true
      → is_evicted dd cfg now key st ≡ false
  not_evicted now key st h = rw h refl

  -- No mandatory symbol is chosen.
  pub review_spares :
      (now : ℕ) (active : List Bytes) (state : Bytes → SymbolState D) (k : Bytes)
      → contains k cfg.mandatory ≡ true
      → contains k (review dd cfg now active state).0 ≡ false
  unfolding review
  review_spares now [] state k h = refl
  review_spares now (key ∷ active) state k h =
      let ih = review_spares now active (put key (reviewed dd cfg now key (state key)) state) k h in
      elim (Bool-cases (is_evicted dd cfg now key (state key))) [
        | inl e ↦ elim (Bool-cases (same_text k key)) [
          | inl t ↦ absurd (
              ground (
                arith,
                e,
                not_evicted now key (state key)
                    (subst (λ x. contains x cfg.mandatory ≡ true) (same_text_eq k key t) h),
              ))
          | inr t ↦ rw e (ground (arith, t, ih))
        ]
        | inr e ↦ rw e ih
      ]

  pub evict-Sound :
      (start to_evict : List Bytes) (s : Selector D)
      → ((k : Bytes) → contains k cfg.mandatory ≡ true → contains k to_evict ≡ false)
      → Sound start s
      → Sound start (evict dd cfg to_evict s)
        × (length (evict dd cfg to_evict s).active ≤ length s.active)
  unfolding evict
  evict-Sound start [] s n h = (h, omega arith)
  evict-Sound start (key ∷ to_evict) s n h =
      let st = s.state key in
      let ih =
        evict-Sound start to_evict _ (λ k m. ground (arith, n k m))
          (record {
            tracked = λ k. elim (Bool-cases (same_text k key)) [
              | inl e ↦ rw e (
                  sym (
                    subst (λ x. contains x (erase key s.active) ≡ false)
                      (sym (same_text_eq k key e)) (contains-erase_self key s.active)))
              | inr e ↦ rw e (h.tracked k ∙ sym (contains-erase_ne k key s.active e))
            ];
            keeps_mandatory = λ k m.
                contains-erase_ne k key s.active (ground (arith, n k m)) ∙ h.keeps_mandatory k m;
            accounted =
                replay-append s.diffs
                  (record { symbol = key; action = removes; score = st.last_score } ∷ []) start
                ∙ ap (erase key) h.accounted;
          }) in
      (ih.0, omega (arith, ih.1, length-erase key s.active))

  admit-Sound :
      (start : List Bytes) (now : ℕ) (a : Bytes × D) (s : Selector D)
      → Sound start s
      → Sound start (admit dd cfg now a s)
  admit-Sound start now a s h = record {
    tracked =
        λ k. elim (Bool-cases (same_text k a.0)) [ inl e ↦ rw e refl | inr e ↦ rw e (h.tracked k) ];
    keeps_mandatory = λ k m. ground (arith, h.keeps_mandatory k m);
    accounted =
        replay-append s.diffs (record { symbol = a.0; action = adds; score = a.1 } ∷ []) start
        ∙ ap (λ set. a.0 ∷ set) h.accounted;
  }

  abbrev pub larger : ℕ → ℕ → ℕ
  larger a b = if ltb a b then b else a

  pub admissions-Sound :
      (start : List Bytes) (now : ℕ) (scored : List (Bytes × D)) (s : Selector D)
      → Sound start s
      → Sound start (admissions dd cfg now scored s)
        × (length (admissions dd cfg now scored s).active ≤ larger (length s.active) cfg.max_active)
  unfolding admissions
  admissions-Sound start now [] s h = (h, ground arith)
  admissions-Sound start now (a ∷ scored) s h =
      let stays : length s.active ≤ larger (length s.active) cfg.max_active = ground arith in
      elim (Bool-cases (leb cfg.max_active (length s.active))) [
        | inl full ↦ rw full (h, stays)
        | inr room ↦ elim (Bool-cases (contains a.0 s.active)) [
          | inl c ↦ rw (room, c) (admissions-Sound start now scored s h)
          | inr c ↦ elim (Bool-cases (dd.less a.1 cfg.add_score)) [
            | inl l ↦ rw (room, c, l) (h, stays)
            | inr l ↦
                let ih =
                  admissions-Sound start now scored (admit dd cfg now a s)
                    (admit-Sound start now a s h) in
                rw (room, c, l) (ih.0, ground (arith, room, ih.1))
          ]
        ]
      ]

  pub floor-Sound :
      (start : List Bytes) (now : ℕ) (scored : List (Bytes × D)) (s : Selector D)
      → Sound start s
      → Sound start (floor dd cfg now scored s)
        × (length (floor dd cfg now scored s).active ≤ larger (length s.active) cfg.min_active)
  unfolding floor
  floor-Sound start now [] s h = (h, ground arith)
  floor-Sound start now (a ∷ scored) s h =
      elim (Bool-cases (leb cfg.min_active (length s.active))) [
        | inl full ↦ rw full (h, ground arith)
        | inr room ↦ elim (Bool-cases (contains a.0 s.active)) [
          | inl c ↦ rw (room, c) (floor-Sound start now scored s h)
          | inr c ↦
              let ih =
                floor-Sound start now scored (admit dd cfg now a s) (admit-Sound start now a s h) in
              rw (room, c) (ih.0, ground (arith, room, ih.1))
        ]
      ]
