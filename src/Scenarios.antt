-- ===== src/Scenarios.antt =====
-- Concrete inputs: a small screen that is written to, a stream with markers, a pump without and with
-- SyncWrap, a scrolled viewport, captured lines, a line of tmux's control mode, a session's usage and
-- a client's frames.
mod Cloud
mod Commands
mod History
mod Keys
mod Monitor
mod Proxy
mod Update
mod Windows
use claude_master_go.Base.{
  lookup, map, ℤ, pos, negsuc, leb, inl, ◌-◌, none, ap, sym, Option, ℕ, ◌≤◌, ◌≡◌, refl, Bool, true,
  false, some, List, [], ◌∷◌, ◌++◌, ◌>>=◌, arith, Bytes, length, drop, Ensures, flatten, min,
}
use claude_master_go.Screen.Vt.{Vt, new_model, line_feed, draw, set_cell}
use claude_master_go.Screen.Vt.Safe.{IsWf, HasMargins, new_model-IsWf}
use claude_master_go.Screen.Csi.{csi}
use claude_master_go.Screen.Csi.Bounds.{Sound, csi-Sound}
use claude_master_go.Screen.Feed
use claude_master_go.Screen.Feed.Safe.{MarginsKept, feed-IsWf}
use claude_master_go.Screen.Feed.Chunks.{feed-append}
use claude_master_go.Screen.Scroll.{ScrollRenderer, view_lines}
use claude_master_go.Screen.Scroll.View.{view_lines-anchored, length-view_lines}
use claude_master_go.TtySync.Marker.{bsu_seq, strip_sync_markers}
use claude_master_go.TtySync.Marker.Fast.{stripped, strip_sync_markers-stripped}
use claude_master_go.TtySync.Marker.Chunks.{strip_sync_markers-append}
use claude_master_go.TtySync.Marker.Erasure.{Erases, strip_sync_markers-Erases}
use claude_master_go.TtySync.Tracker.{new_tail_tracker, feed_all, split_at, rebase}
use claude_master_go.TtySync.Tracker.Held.{rebase-split_at}
use claude_master_go.TtySync.Pump.{
  PumpConfig, start, Event, received, idle_fired, end_of_file, step, written, run,
}
use claude_master_go.TtySync.Pump.Order.{Sends, step-Sends}
use claude_master_go.TtySync.Pump.Runs.{ends, consumed, Delivery, run-Delivery, run_plain}
use claude_master_go.TtySync.Pump.Held.{IsHeld, run-start-IsHeld}
use claude_master_go.Screen.Utf8.{rune_size}
use claude_master_go.Tmux.Text.{is_eol, all_eol}
use claude_master_go.Screen.Text.{visible_lines}
use claude_master_go.Screen.Text.Rows.{AreLines, visible_lines-AreLines}
use claude_master_go.TtySync.Ansi.{AnsiState}
use claude_master_go.TtySync.Pump.{scan}
use claude_master_go.TtySync.Pump.Hold.{AreParams, scan-erase}
use claude_master_go.Screen.Scroll.{scroll, scrollback, settle, new_scroll_renderer}
use claude_master_go.Screen.Scroll.Return.{scroll-scroll, scrollback-settle}
use claude_master_go.Screen.Style.{empty_cell}
use claude_master_go.Screen.Vt.{copy_row}
use claude_master_go.Screen.Render.{append_row}
use claude_master_go.Screen.Render.Padding.{append_row-copy_row}
use claude_master_go.Wire.{turns, parse_client_input}
use claude_master_go.Wire.Fuel.{Ends, parse_client_input-Ends}
use claude_master_go.Wire.RoundTrip.{
  Message, resize, scroll_by, image, IsSendable, Sendable, meaning, sent_all,
  parse_client_input-sent_all,
}
use claude_master_go.Monitor.Limit.{
  LimitConfig, interrupt, Status, number, usage_key, status_int, level_of, check,
}
use claude_master_go.Monitor.Limit.Once.{Rising, Stays, IsHigh, checks, checks-Rising, check-others}
use claude_master_go.Tmux.Octal.{done, decode_octal_escapes, octal_escapes}
use claude_master_go.Tmux.Octal.RoundTrip.{
  AllByte, nil, cons, tmux_escapes, decode-octal_escapes, decode-tmux_escapes,
}
use claude_master_go.Tmux.Protocol.{output_msg, parse_line}
use claude_master_go.Tmux.Protocol.Output.{output_line, parse_line-output_line}

-- Every character is one column wide.
abbrev narrow : ℕ → ℕ
narrow r = 1

abbrev screen : Vt
screen = new_model 4 2

screen-IsWf : IsWf screen × HasMargins screen
screen-IsWf = new_model-IsWf 4 2 (omega arith) (omega arith)

-- A line feed, then the letter A.
abbrev output : Bytes
output = 10 ∷ 65 ∷ []

feed-append_example :
    Feed.feed narrow (output ++ output) screen
    ≡ (Feed.feed narrow output screen >>= Feed.feed narrow output)
feed-append_example = feed-append narrow output output screen

feed-IsWf_example : Ensures IsWf (Feed.feed narrow output screen)
unfolding MarginsKept Feed.byte_step Feed.put_byte new_model line_feed draw set_cell rune_size
feed-IsWf_example = feed-IsWf narrow output screen screen-IsWf.0 (
  record { top_inside = omega arith; bot_inside = omega arith },
  (
    record { top_inside = omega arith; bot_inside = omega arith },
    record { top_inside = omega arith; bot_inside = omega arith },
  ),
)

csi-Sound_example : Ensures (Sound screen) (csi 74 screen)
csi-Sound_example = csi-Sound 74 screen screen-IsWf.0 screen-IsWf.1

strip_sync_markers-stripped_example : strip_sync_markers (65 ∷ bsu_seq) ≡ stripped 0 (65 ∷ bsu_seq)
strip_sync_markers-stripped_example = strip_sync_markers-stripped (65 ∷ bsu_seq)

-- A marker cut in two.
abbrev first : Bytes
first = 65 ∷ 0x1b ∷ 91 ∷ 63 ∷ []

abbrev second : Bytes
second = 50 ∷ 48 ∷ 50 ∷ 54 ∷ 104 ∷ 66 ∷ []

strip_sync_markers-append_example :
    let (payload, carry) = strip_sync_markers first in
    let (payload', carry') = strip_sync_markers (carry ++ second) in
    strip_sync_markers (first ++ second) ≡ (payload ++ payload', carry')
strip_sync_markers-append_example = strip_sync_markers-append first second

strip_sync_markers-Erases_example :
    Erases first (strip_sync_markers first).0 (strip_sync_markers first).1
strip_sync_markers-Erases_example = strip_sync_markers-Erases first

rebase-split_at_example :
    let t = feed_all new_tail_tracker 0 first in
    let s = split_at t (length first) in
    (s ≤ length first) × (rebase t s ≡ feed_all new_tail_tracker 0 (drop s first))
rebase-split_at_example = rebase-split_at first

abbrev config : Bool → PumpConfig
config wrap = record {
  idle = 3;
  hold_after_destructive = 0;
  sync_wrap = wrap;
  max_hold = 8;
  max_buffer = 16;
}

abbrev events : List (Bool × Event)
events =
    (true, received first) ∷ (true, idle_fired) ∷ (true, received second) ∷ (true, end_of_file) ∷ []

run_plain_example :
    let (q, out, o) = run (config false) start events in
    out ++ q.buf ≡ start.buf ++ consumed (config false) start events
run_plain_example = run_plain (config false) events start refl

run-Delivery_example :
    let (q, out, o) = run (config true) start events in
    Delivery true
      (ends (config true) start events)
      (start.buf ++ consumed (config true) start events)
      q.buf
      out
run-Delivery_example = run-Delivery (config true) events start

run-start-IsHeld_example : IsHeld (config true) (run (config true) start events).0
run-start-IsHeld_example = run-start-IsHeld (config true) events

abbrev absent : ℕ
absent = 0

abbrev back : ScrollRenderer
back = record { follow = false; anchor = 0; last_max_oy = 2; last_oy = 0 }

view_lines-anchored_example :
    (view_lines absent
      (1 ∷ 2 ∷ 3 ∷ [])
      (4 ∷ 5 ∷ [])
      2
      ((view_lines absent (1 ∷ 2 ∷ []) (3 ∷ 4 ∷ []) 2 back).0)).1
    ≡ (view_lines absent (1 ∷ 2 ∷ []) (3 ∷ 4 ∷ []) 2 back).1
view_lines-anchored_example =
    view_lines-anchored absent (1 ∷ 2 ∷ []) (3 ∷ 4 ∷ []) (1 ∷ 2 ∷ 3 ∷ []) (4 ∷ 5 ∷ []) (5 ∷ []) 2
      back refl (omega arith) refl

-- A byte that prints, a backslash, and an escape byte.
abbrev written_bytes : Bytes
written_bytes = 65 ∷ 92 ∷ 27 ∷ []

written_bytes-AllByte : AllByte written_bytes
written_bytes-AllByte = cons (omega arith) (cons (omega arith) (cons (omega arith) nil))

-- `%0`, and the end of the line.
parse_line-output_line_example :
    parse_line (output_line (37 ∷ 48 ∷ []) written_bytes ++ 13 ∷ 10 ∷ [])
    ≡ done (some (output_msg (37 ∷ 48 ∷ []) written_bytes))
unfolding is_eol all_eol
parse_line-output_line_example =
    parse_line-output_line (37 ∷ 48 ∷ []) written_bytes (13 ∷ 10 ∷ [])
      (cons (omega arith) (cons (omega arith) nil)) (cons refl (cons refl nil))
      written_bytes-AllByte refl

abbrev limits : LimitConfig
limits = record { limit_interrupt_pct = pos 90; limit_warn_pct = pos 80 }

abbrev usage : ℕ → Status
usage n = (usage_key, number (pos n)) ∷ []

abbrev session : Bytes
session = 115 ∷ []

unfoldable or_zero : Option ℤ → ℤ
or_zero none = pos 0
or_zero (some n) = n

usage_85-IsHigh : IsHigh limits (usage 85)
unfolding status_int lookup level_of or_zero
usage_85-IsHigh pct given = rw (sym (ap or_zero given)) (λ e. cc)

usage_92-IsHigh : IsHigh limits (usage 92)
unfolding status_int lookup level_of or_zero
usage_92-IsHigh pct given = rw (sym (ap or_zero given)) (λ e. cc)

checks-Rising_example : Rising none (checks limits session (usage 85 ∷ usage 92 ∷ []) [])
unfolding lookup
checks-Rising_example =
    checks-Rising limits session (usage 85 ∷ usage 92 ∷ []) []
      (Stays.cons usage_85-IsHigh (Stays.cons usage_92-IsHigh Stays.nil))

-- A size, a scroll far up, and an image of one byte.
abbrev messages : List Message
messages = resize 24 80 ∷ scroll_by (pos 1000000) ∷ image (7 ∷ []) 1 ∷ []

parse_client_input-sent_all_example :
    parse_client_input (sent_all messages) ≡ (map meaning messages, [])
unfolding IsSendable
parse_client_input-sent_all_example = parse_client_input-sent_all messages (
    Sendable.cons (omega arith, omega arith)
      (Sendable.cons tt (Sendable.cons (omega arith, omega arith) Sendable.nil)))

parse_client_input-Ends_example : Ends (65 ∷ 255 ∷ []) (parse_client_input (65 ∷ 255 ∷ []))
parse_client_input-Ends_example = parse_client_input-Ends (65 ∷ 255 ∷ [])
