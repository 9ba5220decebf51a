-- ===== src/Fapi/RotatingSink/Segments.antt =====
-- The segments of a sink: what holds between the calls, and what one call adds.
use binapi.Prelude.{
  ℕ, ◌+◌, ◌%◌, ◌^◌, ◌≤◌, ◌<◌, ◌≡◌, ◌∙◌, ◌⊎◌, inl, inr, refl, sym, ap, subst, Bool, true, false,
  List, [], ◌∷◌, ◌++◌, append-nil, if◌then◌else◌, arith, Bool-cases, length, length-append,
}
use binapi.Prelude.Text.{Bytes, same_text, same_text_eq}
use binapi.Fapi.RotatingSink.{
  SinkConfig, Moment, Sink, segment_path, remove_file, open_if, open_new_segment, should_rotate,
  finish, close_if, finish_if, open_next, rotate, line_of,
}
use binapi.Fapi.RotatingSink.Names.{path_unique}

-- The text of the segments, the oldest one first.
unfoldable pub contents : List (Bytes × Bytes) → Bytes
contents [] = []
contents (f ∷ files) = contents files ++ f.1

-- A fact that counts only if every write is whole.
abbrev pub When : Bool → Type 0 → Type 0
When true P = P
When false P = Unit {0}

when : {P Q : Type 0} (b : Bool) → (P → Q) → When b P → When b Q
when true f p = f p
when false f p = tt

pub when2 : {P Q R : Type 0} (b : Bool) → (P → Q → R) → When b P → When b Q → When b R
when2 true f p q = f p q
when2 false f p q = tt

always : {P : Type 0} (b : Bool) → P → When b P
always true p = p
always false p = tt

-- `whole` is whether every write is whole.
module _ (cfg : SinkConfig) (whole : Bool) where
  -- Within the limit, or one line that alone is longer.
  abbrev pub IsWithin : Bytes → Type 0
  IsWithin text = (length text ≤ cfg.max_size_bytes) ⊎ ((frame : Bytes) × (text ≡ line_of frame))

  -- Segments with falling numbers below `k`.
  pub data Numbered : ℕ → List (Bytes × Bytes) → Type 0 where
    no_segment : {k : ℕ} → Numbered k []
    segment :
        {k : ℕ} (timestamp : Bytes) (n : ℕ) (text : Bytes) (files : List (Bytes × Bytes))
        → n < k
        → When whole (IsWithin text)
        → Numbered n files
        → Numbered k ((segment_path cfg timestamp n, text) ∷ files)

  remove-absent :
      {k : ℕ} {files : List (Bytes × Bytes)} (j : ℕ) (timestamp : Bytes)
      → k ≤ j
      → j < 10 ^ 15
      → Numbered k files
      → remove_file (segment_path cfg timestamp j) files ≡ files
  unfolding remove_file
  remove-absent j timestamp h b no_segment = refl
  remove-absent j timestamp h b (segment t n text files l w r) =
      elim (Bool-cases (same_text (segment_path cfg timestamp j) (segment_path cfg t n))) [
        | inl e ↦ absurd (
            omega (
              arith,
              path_unique cfg timestamp t j n b (omega arith)
                  (same_text_eq (segment_path cfg timestamp j) (segment_path cfg t n) e),
            ))
        | inr e ↦ rw e (
            ap (λ fs. (segment_path cfg t n, text) ∷ fs)
              (remove-absent j timestamp (omega arith) b r))
      ]

  -- The bytes of a text are counted, and it is within the limit.
  pub record Counted (bytes : ℕ) (text : Bytes) : Type 0 where
    pub counted : bytes ≡ length text
    pub small : length text < 2 ^ 63
    pub within : IsWithin text

  -- With a segment open, it is the one of the highest number; with none open, all numbers are below that
  -- of the next segment.
  pub record IsOpen (s : Sink) : Type 0 where
    pub timestamp : Bytes
    pub text : Bytes
    pub older : List (Bytes × Bytes)
    pub is_open : s.has_file ≡ true
    pub at_head : s.files ≡ (segment_path cfg timestamp s.rotations, text) ∷ older
    pub bytes : When whole (Counted s.current_bytes text)
    pub numbered : Numbered s.rotations older

  pub record IsClosed (s : Sink) : Type 0 where
    pub is_closed : s.has_file ≡ false
    pub numbered : Numbered s.rotations s.files

  abbrev pub IsSound : Sink → Type 0
  IsSound s = IsOpen s ⊎ IsClosed s

  -- What the limits have to be for the counts not to wrap.
  abbrev pub IsShort : Bytes → Type 0
  IsShort line = (length line < 2 ^ 62) × (cfg.max_size_bytes < 2 ^ 62)

  -- A line fits behind a text.
  abbrev pub Fits : Bytes → Bytes → Type 0
  Fits text line = IsWithin (text ++ line) × (length (text ++ line) < 2 ^ 63)

  -- A sink that takes the line, or whose rotation threw; its log is as before.
  pub data Prepared (n : ℕ) (log line : Bytes) : Sink × Bool → Type 0 where
    ready :
        (s : Sink) (o : IsOpen s)
        → When whole (Fits o.text line)
        → s.rotations ≤ n
        → contents s.files ≡ log
        → Prepared n log line (s, true)
    failed :
        (s : Sink)
        → IsSound s
        → s.rotations ≤ n
        → contents s.files ≡ log
        → Prepared n log line (s, false)

  open_if-Prepared :
      (b : Bool) (m : Moment) (s : Sink) (frame : Bytes) (n : ℕ)
      → When whole (IsShort (line_of frame))
      → s.rotations ≤ n
      → n < 10 ^ 15
      → IsClosed s
      → Prepared n
          (contents s.files)
          (line_of frame)
          (open_if b cfg m (segment_path cfg m.timestamp s.rotations) s)
  unfolding contents
  open_if-Prepared false m s frame n l h k c =
      failed (record s { current_path = segment_path cfg m.timestamp s.rotations })
        (inr (record { is_closed = c.is_closed; numbered = c.numbered })) h refl
  open_if-Prepared true m s frame n l h k c =
      let path = segment_path cfg m.timestamp s.rotations in
      let same = remove-absent s.rotations m.timestamp (omega arith) (omega arith) c.numbered in
      ready _
        (record {
          timestamp = m.timestamp;
          text = [];
          older = s.files;
          is_open = refl;
          at_head = ap (λ fs. (path, []) ∷ fs) same;
          bytes =
              always whole
                (record { counted = refl; small = omega arith; within = inl (omega arith) });
          numbered = c.numbered;
        })
        (when whole (λ x. (inr (frame, refl), omega (arith, x.0))) l) h
        (append-nil (contents (remove_file path s.files)) ∙ ap contents same)

  -- A new sink, whose segment was opened.
  pub opened-IsSound :
      (m : Moment) (s : Sink)
      → m.can_open ≡ true
      → s.rotations ≡ 0
      → s.files ≡ []
      → IsSound (open_new_segment cfg m s).0
        × ((open_new_segment cfg m s).0.rotations ≡ 0)
        × (contents (open_new_segment cfg m s).0.files ≡ [])
  unfolding open_new_segment contents remove_file
  opened-IsSound m s o r e =
      rw (o, r, e)
        (
          inl (record {
            timestamp = m.timestamp;
            text = [];
            older = [];
            is_open = refl;
            at_head = refl;
            bytes =
                always whole
                  (record { counted = refl; small = omega arith; within = inl (omega arith) });
            numbered = no_segment;
          }),
          refl,
          refl,
        )

  finish-IsClosed :
      (s : Sink)
      → IsOpen s
      → s.rotations + 1 < 10 ^ 15
      → IsClosed (finish cfg s) × ((finish cfg s).rotations ≡ s.rotations + 1)
  finish-IsClosed s o h =
      let next : (s.rotations + 1) % 2 ^ 64 ≡ s.rotations + 1 = omega arith in
      let within = when whole (λ (c : Counted s.current_bytes o.text). c.within) o.bytes in
      (
        record {
          is_closed = refl;
          numbered =
              rw (next, o.at_head)
                (segment o.timestamp s.rotations o.text o.older (omega arith) within o.numbered);
        },
        next,
      )

  abbrev rotated : Bool → Moment → Sink → Sink × Bool
  rotated b m s = open_next cfg m (finish_if b cfg m s)

  close_if-Prepared :
      (b : Bool) (m : Moment) (s : Sink) (frame : Bytes) (n : ℕ)
      → When whole (IsShort (line_of frame))
      → s.rotations + 1 ≤ n
      → n < 10 ^ 15
      → IsOpen s
      → Prepared n (contents s.files) (line_of frame) (open_next cfg m (close_if b cfg s))
  unfolding open_new_segment
  close_if-Prepared false m s frame n l h k o = failed s (inl o) (omega arith) refl
  close_if-Prepared true m s frame n l h k o =
      let c = finish-IsClosed s o (omega arith) in
      open_if-Prepared m.can_open m (finish cfg s) frame n l (omega (arith, c.1)) k c.0

  rotate-Prepared :
      (m : Moment) (s : Sink) (frame : Bytes) (n : ℕ)
      → When whole (IsShort (line_of frame))
      → s.rotations + 1 ≤ n
      → n < 10 ^ 15
      → IsSound s
      → Prepared n (contents s.files) (line_of frame) (rotate cfg m s)
  unfolding rotate open_new_segment
  rotate-Prepared m s frame n l h k (inl o) =
      subst (λ b. Prepared n (contents s.files) (line_of frame) (rotated b m s)) (sym o.is_open)
        (close_if-Prepared m.can_close m s frame n l h k o)
  rotate-Prepared m s frame n l h k (inr c) =
      subst (λ b. Prepared n (contents s.files) (line_of frame) (rotated b m s)) (sym c.is_closed)
        (open_if-Prepared m.can_open m s frame n l (omega arith) k c)

  kept-Prepared :
      (m : Moment) (s : Sink) (frame : Bytes) (n : ℕ)
      → When whole (IsShort (line_of frame))
      → s.rotations ≤ n
      → should_rotate cfg m (length (line_of frame)) s ≡ false
      → IsSound s
      → Prepared n (contents s.files) (line_of frame) (s, true)
  unfolding should_rotate
  kept-Prepared m s frame n l h r (inr c) = absurd (ground (arith, r, c.is_closed))
  kept-Prepared m s frame n l h r (inl o) =
      let line = line_of frame in
      let short : (s.current_bytes + length line) % 2 ^ 64 ≤ cfg.max_size_bytes =
        ground (arith, r) in
      let fits : (c : Counted s.current_bytes o.text) → IsShort line → Fits o.text line = λ c x. (
        inl (omega (arith, short, c.counted, c.small, x.0, length-append o.text line)),
        omega (arith, c.small, x.0, length-append o.text line),
      ) in
      ready s o (when2 whole fits o.bytes l) h refl

  pub frame-Prepared :
      (m : Moment) (s : Sink) (frame : Bytes) (n : ℕ)
      → When whole (IsShort (line_of frame))
      → s.rotations + 1 ≤ n
      → n < 10 ^ 15
      → IsSound s
      → Prepared n
          (contents s.files)
          (line_of frame)
          (if should_rotate cfg m (length (line_of frame)) s then rotate cfg m s else (s, true))
  frame-Prepared m s frame n l h k sound =
      elim (Bool-cases (should_rotate cfg m (length (line_of frame)) s)) [
        | inl r ↦ rw r (rotate-Prepared m s frame n l h k sound)
        | inr r ↦ rw r (kept-Prepared m s frame n l (omega arith) r sound)
      ]
