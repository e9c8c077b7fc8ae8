-- ===== src/Scenarios/History.antt =====
-- Concrete inputs for internal/screen/flush.go: a terminal of one row, a line feed on it in the first
-- frame, and ED 3 in the second.
use claude_master_go.Base.{◌≡◌, refl, some, [], ◌∷◌, arith}
use claude_master_go.Screen.Vt.{Vt, Row, copy_row, line_feed, erase_display, new_model, blank_line}
use claude_master_go.Screen.Flush.Once.{seen, Fits}
use claude_master_go.Screen.Flush.Terminal.{
  Frame, start, scroll, drop_history, Frames, none_left, frame, captures, texts, captures-once,
}

abbrev screen : Vt
screen = new_model 2 1

abbrev line : Row
line = copy_row 2 (blank_line 2)

abbrev scrolled : Vt
scrolled = record screen { hist = line ∷ []; hist_total = 1 }

abbrev dropped : Vt
dropped = record scrolled { hist = [] }

scrolls : Frame screen scrolled (line ∷ [])
unfolding line_feed new_model
scrolls = scroll (blank_line 2) start refl refl refl

drops : Frame scrolled dropped []
unfolding erase_display new_model
drops = drop_history start refl

abbrev two_frames : Frames screen dropped ((line ∷ []) ∷ [] ∷ [])
two_frames = frame scrolls (frame drops none_left)

captures-once_example :
    captures two_frames (seen 0 []) ≡ some (seen 1 (texts ((line ∷ []) ∷ [] ∷ [])))
unfolding Fits texts new_model
captures-once_example =
    captures-once screen dropped ((line ∷ []) ∷ [] ∷ []) two_frames [] (omega arith) (omega arith)
      (omega arith, (omega arith, tt)) (omega arith)
