-- ===== src/Fapi/RotatingSink/Writes.antt =====
-- What a call adds to the segments of a sink.
use binapi.Prelude.{
  ℕ, ◌≤◌, ◌≡◌, ◌∙◌, ◌⊎◌, inl, inr, refl, sym, ap, Bool, true, false, [], ◌++◌, Option, none, some,
  append-nil, append_assoc, arith, length-append, take,
}
use binapi.Prelude.Text.{Bytes}
use binapi.Fapi.RotatingSink.{SinkConfig, Moment, Sink, append_to_head, async_write, write_line}
use binapi.Fapi.RotatingSink.Segments.{
  contents, When, when2, Counted, Fits, IsOpen, IsSound, Prepared, ready, failed,
}

-- What a call leaves of a line: all of it if it returns, and what was written before the write threw, or
-- nothing, if it throws.
abbrev pub Part : Option ℕ → Bytes → Bool → Bytes → Type 0
Part fails_after line true part = part ≡ line
Part fails_after line false part =
    (part ≡ []) ⊎ ((n : ℕ) × (fails_after ≡ some n) × (part ≡ take n line))

module _ (cfg : SinkConfig) (whole : Bool) where
  -- The sink afterwards, with the part at the end of its log.
  pub record Written (n : ℕ) (log line : Bytes) (fails_after : Option ℕ) (t : Sink × Bool)
      : Type 0 where
    pub part : Bytes
    pub is_part : Part fails_after line t.1 part
    pub sound : IsSound cfg whole t.0
    pub bounded : t.0.rotations ≤ n
    pub logged : contents t.0.files ≡ log ++ part

  -- The segment that is open takes more text.
  appended :
      (s : Sink) (o : IsOpen cfg whole s) (more : Bytes)
      → contents (append_to_head more s.files) ≡ contents s.files ++ more
  unfolding contents
  appended s o more =
      ap (λ fs. contents (append_to_head more fs)) o.at_head
      ∙ sym (append_assoc (contents o.older) o.text more)
      ∙ ap (λ x. x ++ more) (ap contents (sym o.at_head))

  async_write-Written :
      (fails_after : Option ℕ) (n : ℕ) (line : Bytes) (s : Sink) (o : IsOpen cfg whole s)
      → When whole (fails_after ≡ none)
      → When whole (Fits cfg whole o.text line)
      → s.rotations ≤ n
      → Written n (contents s.files) line fails_after (async_write fails_after line s)
  async_write-Written none n line s o a f h = record {
    part = line;
    is_part = refl;
    sound = inl (record {
      timestamp = o.timestamp;
      text = o.text ++ line;
      older = o.older;
      is_open = o.is_open;
      at_head = ap (append_to_head line) o.at_head;
      bytes =
          when2 whole
            (λ (c : Counted cfg whole s.current_bytes o.text) (x : Fits cfg whole o.text line).
              record {
                counted = omega (arith, c.counted, x.1, length-append o.text line);
                small = x.1;
                within = x.0;
              })
            o.bytes f;
      numbered = o.numbered;
    });
    bounded = h;
    logged = appended s o line;
  }
  async_write-Written (some k) n line s o a f h = record {
    part = take k line;
    is_part = inr (k, refl, refl);
    sound = inl (record {
      timestamp = o.timestamp;
      text = o.text ++ take k line;
      older = o.older;
      is_open = o.is_open;
      at_head = ap (append_to_head (take k line)) o.at_head;
      bytes = when2 whole (λ (e : some k ≡ none) x. absurd (ground arith)) a f;
      numbered = o.numbered;
    });
    bounded = h;
    logged = appended s o (take k line);
  }

  pub write_line-Written :
      (m : Moment) (n : ℕ) (log line : Bytes) (t : Sink × Bool)
      → When whole (m.write_fails_after ≡ none)
      → Prepared cfg whole n log line t
      → Written n log line m.write_fails_after (write_line m line t)
  write_line-Written m n log line t a (failed s sound h e) = record {
    part = [];
    is_part = inl refl;
    sound = sound;
    bounded = h;
    logged = e ∙ sym (append-nil log);
  }
  write_line-Written m n log line t a (ready s o f h e) =
      let w = async_write-Written m.write_fails_after n line s o a f h in
      record {
        part = w.part;
        is_part = w.is_part;
        sound = w.sound;
        bounded = w.bounded;
        logged = w.logged ∙ ap (λ l. l ++ w.part) e;
      }
