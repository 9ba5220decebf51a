-- ===== src/Fapi/RotatingSink.antt =====
-- include/binapi2/fapi/streams/detail/sinks/rotating_file_sink.hpp: frames written as lines to segments.
-- The files are a list, the one opened last at its head; opening one truncates a file of that path.
-- The clocks and the opening, writing and closing of files are the system's: each frame comes with what
-- they say. The steady clock never goes back, so that an age is a difference of naturals, in
-- nanoseconds. `compressing` has the segments handed to zstd,
-- whose processes are not modelled.
pub mod Names
pub mod Segments
pub mod Writes
pub mod Log
use binapi.Prelude.{
  ℕ, suc, ◌+◌, ◌-◌, ◌*◌, ◌/◌, ◌%◌, ◌^◌, Bool, true, false, ◌&&◌, ◌||◌, not, List, [], ◌∷◌, ◌++◌,
  Option, none, some, ◌==◌, ltb, leb, if◌then◌else◌, length, take, replicate,
}
use binapi.Prelude.Text.{Bytes, same_text}
use binapi.Decimal.Print.{integer_text}

pub record SinkConfig : Type 0 where
  pub dir : Bytes
  pub basename : Bytes
  pub extension : Bytes
  pub max_size_bytes : ℕ
  pub max_seconds : ℕ
  pub compress : Bool

-- What the clocks say around a frame, whether a file can be opened and closed, or the call throws, and
-- after how many bytes `async_write` throws, if it does.
pub record Moment : Type 0 where
  pub now : ℕ
  pub opened_at : ℕ
  pub timestamp : Bytes
  pub can_open : Bool
  pub can_close : Bool
  pub write_fails_after : Option ℕ

-- `has_file` is whether `file_` is set.
pub record Sink : Type 0 where
  pub has_file : Bool
  pub current_path : Bytes
  pub current_bytes : ℕ
  pub segment_open_at : ℕ
  pub rotations : ℕ
  pub files : List (Bytes × Bytes)
  pub compressing : List Bytes

-- `%0*zu` into a buffer of 16 characters, of which the last one ends the text.
unfoldable pub zero_pad : ℕ → ℕ → Bytes
zero_pad n width = let s = integer_text n in take 15 (replicate (width - length s) b'0' ++ s)

-- `dir / name` of a `std::filesystem::path` on POSIX, by what stands in front of the name: nothing if the
-- name is absolute, else the directory, with a separator unless it is empty or ends in one.
abbrev pub is_absolute : Bytes → Bool
is_absolute [] = false
is_absolute (c ∷ name) = c == b'/'

abbrev pub needs_separator : Bytes → Bool
needs_separator [] = false
needs_separator (c ∷ []) = not (c == b'/')
needs_separator (c ∷ d ∷ dir) = needs_separator (d ∷ dir)

abbrev pub lead : Bytes → Bytes → Bytes
lead dir name =
    if is_absolute name then [] else if needs_separator dir then dir ++ b'/' ∷ [] else dir

abbrev pub segment_name : SinkConfig → Bytes → ℕ → Bytes
segment_name cfg timestamp rotations =
    cfg.basename ++ b'.' ∷ (timestamp ++ b'.' ∷ (zero_pad rotations 4 ++ cfg.extension))

abbrev pub segment_path : SinkConfig → Bytes → ℕ → Bytes
segment_path cfg timestamp rotations =
    lead cfg.dir (segment_name cfg timestamp rotations) ++ segment_name cfg timestamp rotations

unfoldable pub remove_file : Bytes → List (Bytes × Bytes) → List (Bytes × Bytes)
remove_file path [] = []
remove_file path (f ∷ files) =
    let rest = remove_file path files in if same_text path f.0 then rest else f ∷ rest

-- The second result is false where the opening throws.
abbrev pub open_if : Bool → SinkConfig → Moment → Bytes → Sink → Sink × Bool
open_if true cfg m path s = (
  record s {
    has_file = true;
    current_path = path;
    current_bytes = 0;
    segment_open_at = m.opened_at;
    files = (path, []) ∷ remove_file path s.files;
  },
  true,
)
open_if false cfg m path s = (record s { current_path = path }, false)

unfoldable pub open_new_segment : SinkConfig → Moment → Sink → Sink × Bool
open_new_segment cfg m s = open_if m.can_open cfg m (segment_path cfg m.timestamp s.rotations) s

-- `current_bytes_ + pending` in a `std::size_t`.
unfoldable pub should_rotate : SinkConfig → Moment → ℕ → Sink → Bool
should_rotate cfg m pending s =
    not s.has_file
    || ltb cfg.max_size_bytes ((s.current_bytes + pending) % 2 ^ 64)
    || (ltb 0 cfg.max_seconds && leb cfg.max_seconds ((m.now - s.segment_open_at) / 1000000000))

abbrev pub finish : SinkConfig → Sink → Sink
finish cfg s = record s {
  has_file = false;
  rotations = (s.rotations + 1) % 2 ^ 64;
  compressing = if cfg.compress then s.current_path ∷ s.compressing else s.compressing;
}

-- Where `close` throws, `file_` stays set and nothing is counted.
abbrev pub close_if : Bool → SinkConfig → Sink → Sink × Bool
close_if true cfg s = (finish cfg s, true)
close_if false cfg s = (s, false)

abbrev pub finish_if : Bool → SinkConfig → Moment → Sink → Sink × Bool
finish_if true cfg m s = close_if m.can_close cfg s
finish_if false cfg m s = (s, true)

abbrev pub open_next : SinkConfig → Moment → Sink × Bool → Sink × Bool
open_next cfg m (s, true) = open_new_segment cfg m s
open_next cfg m (s, false) = (s, false)

unfoldable pub rotate : SinkConfig → Moment → Sink → Sink × Bool
unfolding open_new_segment
rotate cfg m s = open_next cfg m (finish_if s.has_file cfg m s)

abbrev pub line_of : Bytes → Bytes
line_of frame = frame ++ b'\n' ∷ []

abbrev pub append_to_head : Bytes → List (Bytes × Bytes) → List (Bytes × Bytes)
append_to_head line [] = []
append_to_head line (f ∷ files) = (f.0, f.1 ++ line) ∷ files

-- `async_write` and the count of its bytes, which is left out where it throws.
abbrev pub async_write : Option ℕ → Bytes → Sink → Sink × Bool
async_write none line s = (
  record s {
    files = append_to_head line s.files;
    current_bytes = (s.current_bytes + length line) % 2 ^ 64;
  },
  true,
)
async_write (some n) line s = (record s { files = append_to_head (take n line) s.files }, false)

-- Nothing is written where a rotation threw.
abbrev pub write_line : Moment → Bytes → Sink × Bool → Sink × Bool
write_line m line (s, true) = async_write m.write_fails_after line s
write_line m line (s, false) = (s, false)

-- `operator()`.
unfoldable pub write_frame : SinkConfig → Moment → Bytes → Sink → Sink × Bool
unfolding should_rotate rotate
write_frame cfg m frame s =
    let line = line_of frame in
    write_line m line (if should_rotate cfg m (length line) s then rotate cfg m s else (s, true))

unfoldable pub constructed : SinkConfig → Moment → Sink × Bool
unfolding open_new_segment
constructed cfg m = open_new_segment cfg m (record {
  has_file = false;
  current_path = [];
  current_bytes = 0;
  segment_open_at = 0;
  rotations = 0;
  files = [];
  compressing = [];
})

-- Frames written one after the other; a call that throws leaves the sink as it then is. The second
-- result says of each frame whether its call returned.
unfoldable pub write_all : SinkConfig → List (Moment × Bytes) → Sink → Sink × List Bool
unfolding write_frame
write_all cfg [] s = (s, [])
write_all cfg (f ∷ frames) s =
    let t = write_frame cfg f.0 f.1 s in
    let rest = write_all cfg frames t.0 in (rest.0, t.1 ∷ rest.1)
