-- ===== src/Tests/Windows.antt =====
-- The theorems on the recorder's windows, over naturals in place of doubles.
use mathlib.Core.List.{reverse}
use binapi.Prelude.{ℕ, ◌+◌, ◌<◌, ◌≡◌, List, [], ◌∷◌, some, leb, length, take, arith}
use binapi.Recorder.Windows.{TfWindow, tf_window, tr_window, primed}
use binapi.Recorder.Windows.Ring.{newest_first}
use binapi.Recorder.Windows.Slides.{view}
use binapi.Recorder.Windows.Rolling.{view_of, update_all, roll_all, update_all_refines}
use binapi.Recorder.Windows.TrueRange.{push_all, tr_window_refines}

abbrev plus : ℕ → ℕ → ℕ
plus a b = a + b

-- Three buckets of one second; the second sample comes two seconds after the first.
abbrev window : TfWindow ℕ
window = tf_window 0 plus 3 1

abbrev samples : List (ℕ × ℕ × ℕ)
samples = (1000000000, 5, 1) ∷ (3000000000, 7, 2) ∷ []

window_head : window.head < length window.buckets
unfolding tf_window
window_head = omega arith

window_pace : 0 < window.bucket_seconds
unfolding tf_window
window_pace = omega arith

update_all_refines_example :
    view_of 0 plus (update_all 0 plus samples window)
    ≡ some
        (roll_all 0 plus (length window.buckets) window.bucket_seconds samples (view 0 plus window))
update_all_refines_example = update_all_refines 0 plus samples window window_head window_pace

abbrev ranges : List ℕ
ranges = 3 ∷ 1 ∷ 4 ∷ []

tr_window_refines_example :
    (primed 0 plus (push_all 0 plus ranges (tr_window 0 plus 2)) ≡ leb 2 (length ranges))
    × (take (push_all 0 plus ranges (tr_window 0 plus 2)).count (
          newest_first
            (push_all 0 plus ranges (tr_window 0 plus 2)).head
            (push_all 0 plus ranges (tr_window 0 plus 2)).slots)
        ≡ take 2 (reverse ranges))
tr_window_refines_example = tr_window_refines 0 plus 2 ranges (omega arith)
