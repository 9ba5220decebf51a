-- ===== src/Fapi/RotatingSink/Log.antt =====
-- The segments of a sink as one log of lines.
use binapi.Prelude.{
  ℕ, ◌+◌, ◌^◌, ◌<◌, ◌≡◌, ◌∙◌, refl, sym, ap, subst, Bool, true, false, ◌&&◌, List, [], ◌∷◌, ◌++◌,
  Option, none, some, append-nil, append_assoc, ltb, if◌then◌else◌, arith, length,
}
use binapi.Prelude.Text.{Bytes}
use binapi.Fapi.RotatingSink.{
  SinkConfig, Moment, Sink, should_rotate, rotate, line_of, write_line, write_frame, constructed,
  write_all,
}
use binapi.Fapi.RotatingSink.Segments.{
  contents, When, IsShort, IsSound, opened-IsSound, frame-Prepared,
}
use binapi.Fapi.RotatingSink.Writes.{Part, write_line-Written}

-- A text that has, for one frame after the other, the part of its line that its call leaves.
pub data IsLog : List (Moment × Bytes) → List Bool → Bytes → Type 0 where
  no_frame : IsLog [] [] []
  frame_of :
      (m : Moment) (frame : Bytes) (returned : Bool) (part : Bytes) (frames : List (Moment × Bytes))
      (results : List Bool) (log : Bytes)
      → Part m.write_fails_after (line_of frame) returned part
      → IsLog frames results log
      → IsLog ((m, frame) ∷ frames) (returned ∷ results) (part ++ log)

-- The specification where no write throws: a log that only grows.
unfoldable pub log_of : List Bytes → Bytes
log_of [] = []
log_of (frame ∷ frames) = line_of frame ++ log_of frames

-- The frames whose call returned.
abbrev pub kept : List (Moment × Bytes) → List Bool → List Bytes
kept [] results = []
kept (f ∷ frames) [] = []
kept (f ∷ frames) (returned ∷ results) =
    let rest = kept frames results in if returned then f.1 ∷ rest else rest

abbrev pub is_none : Option ℕ → Bool
is_none none = true
is_none (some n) = false

abbrev pub are_written : List (Moment × Bytes) → Bool
are_written [] = true
are_written (f ∷ frames) = is_none f.0.write_fails_after && are_written frames

abbrev pub are_short : List (Moment × Bytes) → Bool
are_short [] = true
are_short (f ∷ frames) = ltb (length (line_of f.1)) (2 ^ 62) && are_short frames

module _ (cfg : SinkConfig) where
  -- What every frame has to meet for its segment to be counted.
  abbrev AllWhole : Bool → List (Moment × Bytes) → Type 0
  AllWhole whole [] = Unit {0}
  AllWhole whole (f ∷ frames) =
      When whole (IsShort cfg whole (line_of f.1))
      × When whole (f.0.write_fails_after ≡ none)
      × AllWhole whole frames

  -- The log that the frames add.
  record Logged (whole : Bool) (frames : List (Moment × Bytes)) (before : Bytes)
      (t : Sink × List Bool) : Type 0 where
    added : Bytes
    is_log : IsLog frames t.1 added
    logged : contents t.0.files ≡ before ++ added
    sound : IsSound cfg whole t.0

  write_all_lem :
      (whole : Bool) (frames : List (Moment × Bytes)) (s : Sink)
      → AllWhole whole frames
      → s.rotations + length frames < 10 ^ 15
      → IsSound cfg whole s
      → Logged whole frames (contents s.files) (write_all cfg frames s)
  unfolding write_all write_frame
  write_all_lem whole [] s a h sound = record {
    added = [];
    is_log = no_frame;
    logged = sym (append-nil (contents s.files));
    sound = sound;
  }
  write_all_lem whole (f ∷ frames) s a h sound =
      let line = line_of f.1 in
      let start = if should_rotate cfg f.0 (length line) s then rotate cfg f.0 s else (s, true) in
      let t = write_line f.0 line start in
      let w = write_line-Written cfg whole f.0 (s.rotations + 1) (contents s.files) line start a.1 (
        frame-Prepared cfg whole f.0 s f.1 (s.rotations + 1) a.0 (omega arith) (omega arith)
          sound) in
      let ih = write_all_lem whole frames t.0 a.2 (omega (arith, w.bounded)) w.sound in
      record {
        added = w.part ++ ih.added;
        is_log = frame_of f.0 f.1 t.1 w.part frames _ ih.added w.is_part ih.is_log;
        logged =
            ih.logged
            ∙ ap (λ l. l ++ ih.added) w.logged
            ∙ append_assoc (contents s.files) w.part ih.added;
        sound = ih.sound;
      }

  from_start :
      (whole : Bool) (m : Moment) (frames : List (Moment × Bytes))
      → m.can_open ≡ true
      → AllWhole whole frames
      → length frames < 10 ^ 15
      → Logged whole frames [] (write_all cfg frames (constructed cfg m).0)
  unfolding constructed
  from_start whole m frames o a h =
      let p = opened-IsSound cfg whole m _ o refl refl in
      let w = write_all_lem whole frames (constructed cfg m).0 a (omega (arith, p.1)) p.0 in
      record {
        added = w.added;
        is_log = w.is_log;
        logged = w.logged ∙ ap (λ l. l ++ w.added) p.2;
        sound = w.sound;
      }

  any_at_all : (frames : List (Moment × Bytes)) → AllWhole false frames
  any_at_all [] = tt
  any_at_all (f ∷ frames) = (tt, tt, any_at_all frames)

  -- For a sink that was constructed and fewer than 10^15 frames, whatever the clocks say and
  -- whichever openings, writes and closings throw: the segments one after the other have, for each
  -- frame in its order, its whole line if its call returned, and if it threw what was written of
  -- the line before the write threw, or nothing. The segments have paths of falling numbers.
  pub write_all-IsLog :
      (m : Moment) (frames : List (Moment × Bytes))
      → m.can_open ≡ true
      → length frames < 10 ^ 15
      → IsLog frames
          (write_all cfg frames (constructed cfg m).0).1
          (contents (write_all cfg frames (constructed cfg m).0).0.files)
        × IsSound cfg false (write_all cfg frames (constructed cfg m).0).0
  write_all-IsLog m frames o h =
      let l = from_start false m frames o (any_at_all frames) h in
      (
        subst (IsLog frames (write_all cfg frames (constructed cfg m).0).1) (sym l.logged) l.is_log,
        l.sound,
      )
