-- ===== src/Tests/Sinks.antt =====
-- The theorems on the rotating sink at three frames, of which the second does not fit behind the first.
use binapi.Prelude.{◌≡◌, refl, true, false, List, [], ◌∷◌, none, some, arith}
use binapi.Prelude.Text.{Bytes, codes}
use binapi.Decimal.Print.{integer_text, push_digits}
use binapi.Fapi.RotatingSink.{
  SinkConfig, Moment, Sink, segment_path, zero_pad, remove_file, open_new_segment, should_rotate,
  rotate, constructed, write_frame, write_all,
}
use binapi.Fapi.RotatingSink.Segments.{contents, IsSound}
use binapi.Fapi.RotatingSink.Log.{IsLog, write_all-IsLog}

abbrev cfg : SinkConfig
cfg = record {
  dir = codes "data";
  basename = codes "btcusdt";
  extension = codes ".jsonl";
  max_size_bytes = 8;
  max_seconds = 900;
  compress = true;
}

abbrev moment : Moment
moment = record {
  now = 2000000000;
  opened_at = 2000000000;
  timestamp = codes "20260101T000000.000Z";
  can_open = true;
  can_close = true;
  write_fails_after = none;
}

abbrev frames : List (Moment × Bytes)
frames = (moment, codes "first") ∷ (moment, codes "second") ∷ (moment, codes "x") ∷ []

abbrev sink : Sink
sink = (constructed cfg moment).0

-- The write of the second frame throws behind three bytes, and the third frame finds no file to open.
abbrev torn : Moment
torn = record moment { write_fails_after = some 3 }

abbrev refused : Moment
refused = record moment { can_open = false }

abbrev bad_frames : List (Moment × Bytes)
bad_frames = (moment, codes "first") ∷ (torn, codes "second") ∷ (refused, codes "third one") ∷ []

what_returned : (write_all cfg bad_frames sink).1 ≡ true ∷ false ∷ false ∷ []
unfolding write_all write_frame should_rotate rotate open_new_segment constructed
what_returned = refl

what_is_left : contents (write_all cfg bad_frames sink).0.files ≡ codes "first\nsec"
unfolding write_all write_frame should_rotate rotate open_new_segment constructed contents
    remove_file zero_pad integer_text push_digits
what_is_left = refl

write_all-IsLog_example :
    IsLog bad_frames
      (write_all cfg bad_frames sink).1
      (contents (write_all cfg bad_frames sink).0.files)
    × IsSound cfg false (write_all cfg bad_frames sink).0
write_all-IsLog_example = write_all-IsLog cfg moment bad_frames refl (omega arith)

root_name : segment_path (record cfg { dir = [] }) (codes "t") 7 ≡ codes "btcusdt.t.0007.jsonl"
unfolding zero_pad integer_text push_digits
root_name = refl
